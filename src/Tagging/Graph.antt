-- ===== src/Tagging/Graph.antt =====
-- course_discovery/jobs/tagging_graph.py: one course is loaded, screened, tagged and written. The tagger
-- is a parameter, `none` where it raises. `others` is what other transactions make of the table between
-- the read and the write.
use course_discovery_agent.Prelude.{
  ℕ, String, Bool, true, false, ◌&&◌, Option, none, some, List, [], ◌∷◌, ◌<>◌, filter, is_in,
  unique, or_default, if◌then◌else◌, ◌==◌, eqb,
}
use course_discovery_agent.Guardrails.Injection.{
  InjectionAction, pass, Thresholds, screen_untrusted,
}
use course_discovery_agent.Tagging.Vocabulary.{topic_vocabulary}

-- The columns of `courses` that tagging reads or writes.
pub record CourseRow : Type 0 where
  pub id : ℕ
  pub canonical_url : String
  pub title : String
  pub description : Option String
  pub content_hash : String
  pub topics : List String
  pub tagged_content_hash : Option String
  pub tagging_outcome : Option String

pub data Outcome : Type 0 where
  stale tagged withheld : Outcome

-- `WHERE id = %s`, on the primary key
unfoldable pub find_course : ℕ → List CourseRow → Option CourseRow
find_course id [] = none
find_course id (r ∷ rows) = if eqb r.id id then some r else find_course id rows

unfoldable pub is_current : ℕ → String → CourseRow → Bool
is_current id hash r = eqb r.id id && (r.content_hash == hash)

-- What `_record` sets in a row.
unfoldable pub recorded : String → String → Option (List String) → CourseRow → CourseRow
recorded hash outcome topics r = record r {
  topics = or_default topics r.topics;
  tagged_content_hash = some hash;
  tagging_outcome = some outcome;
}

unfoldable pub record_outcome :
    ℕ → String → String → Option (List String) → List CourseRow → List CourseRow
record_outcome id hash outcome topics [] = []
record_outcome id hash outcome topics (r ∷ rows) =
    (if is_current id hash r then recorded hash outcome topics r else r)
    ∷ record_outcome id hash outcome topics rows

abbrev pub is_pass : InjectionAction → Bool
is_pass pass = true
is_pass _ = false

-- `load_course`: the row, unless it is gone or its content has changed.
unfoldable pub load_course : ℕ → String → List CourseRow → Option CourseRow
load_course id hash rows = elim (find_course id rows) [
  | none ↦ none
  | some r ↦ if r.content_hash == hash then some r else none
]

abbrev pub description_of : CourseRow → String
description_of r = or_default r.description ""

module _ (enabled : Bool) (thresholds : Thresholds) (score : String → Option ℕ)
    (tagger : String → String → Option (List String)) where
  unfoldable pub screen_text : CourseRow → InjectionAction
  screen_text r = screen_untrusted enabled thresholds score (r.title <> ("\n" <> description_of r))

  unfoldable pub tag_text : CourseRow → Option (List String)
  tag_text r = elim (tagger r.title (description_of r)) [
    | none ↦ none
    | some found ↦ some (unique (filter (λ t. is_in t topic_vocabulary) found))
  ]

  -- The edge behind the screen, and the nodes up to the end.
  unfoldable pub after_screen :
      Bool → ℕ → String → CourseRow → List CourseRow → Option (Outcome × List CourseRow)
  after_screen true id hash r rows = elim (tag_text r) [
    | none ↦ none
    | some topics ↦ some (tagged, record_outcome id hash "tagged" (some topics) rows)
  ]
  after_screen false id hash r rows = some (withheld, record_outcome id hash "withheld" none rows)

  unfoldable pub run_tagging :
      (List CourseRow → List CourseRow)
      → ℕ
      → String
      → List CourseRow
      → Option (Outcome × List CourseRow)
  run_tagging others id hash rows = elim (load_course id hash rows) [
    | none ↦ some (stale, others rows)
    | some r ↦ after_screen (is_pass (screen_text r)) id hash r (others rows)
  ]
