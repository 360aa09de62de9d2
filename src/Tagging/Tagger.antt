-- ===== src/Tagging/Tagger.antt =====
-- course_discovery/research_agent/tagging/tagger.py, and the `KeywordTagger` of
-- course_discovery/jobs/tagging.py, whose regular expressions are a parameter.
use course_discovery_agent.Prelude.{
  ℕ, String, Bool, ◌&&◌, not, Option, List, [], ◌∷◌, ◌++◌, ◌<>◌, take, filter, is_in, lower,
  if◌then◌else◌, ◌==◌,
}
use course_discovery_agent.Tagging.Vocabulary.{topic_vocabulary}

abbrev pub max_tags_per_module : ℕ
max_tags_per_module = 3

abbrev pub max_topics : ℕ
max_topics = 5

pub record ModuleTags : Type 0 where
  pub module_name : String
  pub tags : List String

pub record CourseForTagging : Type 0 where
  pub title : String
  pub description : Option String
  pub modules : List String

-- `{entry.module: entry for entry in raw.modules}.get(module)`: a later entry replaces an earlier one.
unfoldable pub entry_tags : String → List ModuleTags → List String → List String
entry_tags name [] found = found
entry_tags name (e ∷ es) found =
    entry_tags name es (if e.module_name == name then e.tags else found)

-- The loop over the tags of one entry.
unfoldable pub clean_tags : List String → List String → List String
clean_tags [] kept = kept
clean_tags (t ∷ ts) kept =
    clean_tags ts (if is_in t topic_vocabulary && not (is_in t kept) then kept ++ t ∷ [] else kept)

unfoldable pub clean_modules : List ModuleTags → List String → List ModuleTags
clean_modules raw [] = []
clean_modules raw (m ∷ ms) =
    record {
      module_name = m;
      tags = take max_tags_per_module (clean_tags (entry_tags m raw []) []);
    }
    ∷ clean_modules raw ms

unfoldable pub clean_tagging : CourseForTagging → List ModuleTags → List ModuleTags
clean_tagging course raw = clean_modules raw course.modules

-- `KeywordTagger.tag`; `hyphens` is `replace("-", " ")`, and `search` says whether the pattern of a topic
-- is found in a text.
unfoldable pub tag : (String → String) → (String → String → Bool) → String → String → List String
tag hyphens search title description =
    let text = hyphens (lower (title <> (" " <> description))) in
    take max_topics (filter (λ topic. search topic text) topic_vocabulary)
