-- ===== src/Research/Extraction.antt =====
-- course_discovery/research_agent/extraction/nodes.py. `hours_in` is the first number of hours that
-- the regular expression `_HOURS` finds in a text. `none` is `urlparse`'s ValueError.
use course_discovery_agent.Prelude.{
  ℕ, ◌<>◌, String, Bool, true, false, not, ◌&&◌, ◌||◌, Option, none, some, List, [], ◌∷◌, ◌++◌, ltb,
  is_in, any, lower, contains, non_empty, only, until_char, without_www, ◌==◌, if◌then◌else◌,
}
use course_discovery_agent.Domain.Models.{CourseCandidate, TavilySearchResult, tavily}
use course_discovery_agent.Domain.State.{ResearchState}
use course_discovery_agent.Research.Urls.{UrlLib}

abbrev aggregators : List String
aggregators = "medium.com" ∷ "reddit.com" ∷ "quora.com" ∷ "classcentral.com" ∷ []

abbrev levels : List String
levels = "beginner" ∷ "intermediate" ∷ "advanced" ∷ []

abbrev or_nothing : Option String → String
or_nothing none = ""
or_nothing (some s) = s

provider_of_host : String → String
provider_of_host host = until_char 46 (without_www host)

is_aggregator_host : String → Bool
is_aggregator_host host = any (λ marker. contains marker (lower host)) aggregators

-- `if structured > 0`
positive : Option ℕ → Option ℕ
positive none = none
positive (some n) = if ltb 0 n then some n else none

or_else : Option ℕ → Option ℕ → Option ℕ
or_else none o = o
or_else (some n) o = some n

unfoldable pub duration_hours : (String → Option ℕ) → TavilySearchResult → Option ℕ
unfolding positive or_else
duration_hours hours_in r =
    or_else (positive r.metadata_duration_hours) (positive (hours_in r.snippet))

-- The text that the claims are read from.
unfoldable pub payload : TavilySearchResult → String
payload r = lower (r.title <> (" " <> r.snippet))

levels_in : String → List String → List String
levels_in text [] = []
levels_in text (l ∷ ls) = only (contains l text) l ++ levels_in text ls

unfoldable pub supports : String → List String
unfolding levels_in
supports text =
    "course"
    ∷ (only (contains "free" text || contains "$0" text) "free"
        ++ only (contains "certificate" text || contains "certification" text) "certificate"
        ++ levels_in text levels)

-- `True if item in supports else None`
abbrev claimed : String → List String → Option Bool
claimed item xs = if is_in item xs then some true else none

first_in : List String → List String → Option String
first_in [] xs = none
first_in (l ∷ ls) xs = let rest = first_in ls xs in if is_in l xs then some l else rest

is_high : Option ℕ → Bool
is_high none = false
is_high (some score) = ltb 700000 score

text_of : String → String → String
text_of s d = if s == "" then d else s

unfoldable pub candidate_of : (String → Option ℕ) → String → TavilySearchResult → CourseCandidate
unfolding provider_of_host first_in is_high text_of
candidate_of hours_in host r =
    let backed = supports (payload r) in
    record {
      title = r.title;
      provider = some (provider_of_host host);
      url = r.url;
      description = non_empty r.snippet;
      price = if is_in "free" backed then some "free" else none;
      is_free = claimed "free" backed;
      has_certificate = claimed "certificate" backed;
      level = first_in levels backed;
      language = some "en";
      rating = none;
      published_or_updated = none;
      source = tavily;
      evidence =
          record {
            source_url = r.url;
            quote_or_summary = text_of r.snippet r.title;
            supports = backed;
          }
          ∷ [];
      confidence = if is_high r.score then 750000 else 550000;
      duration_hours = duration_hours hours_in r;
      profile_similarity = none;
    }

module _ {P : Type 0} (urls : UrlLib P) (hours_in : String → Option ℕ) where
  unfoldable pub extract_at : Option P → TavilySearchResult → Option (Option CourseCandidate)
  unfolding is_aggregator_host
  extract_at none r = none
  extract_at (some p) r =
      let host = or_nothing (urls.hostname p) in
      if is_aggregator_host host && not (contains "course" (payload r))
      then some none
      else some (some (candidate_of hours_in host r))

  unfoldable pub extract_result : TavilySearchResult → Option (Option CourseCandidate)
  unfolding extract_at
  extract_result r = extract_at (urls.parse r.url) r

  collect :
      Option (Option CourseCandidate)
      → Option (List CourseCandidate)
      → Option (List CourseCandidate)
  collect none rest = none
  collect (some c) none = none
  collect (some none) (some rest) = some rest
  collect (some (some c)) (some rest) = some (c ∷ rest)

  unfoldable pub extract_all : List TavilySearchResult → Option (List CourseCandidate)
  unfolding collect
  extract_all [] = some []
  extract_all (r ∷ rs) = collect (extract_result r) (extract_all rs)

  unfoldable pub extracted : ResearchState → Option (List CourseCandidate) → Option ResearchState
  extracted s none = none
  extracted s (some cs) = some (record s { extracted_candidates = cs })

  unfoldable pub candidate_extractor_node : ResearchState → Option ResearchState
  unfolding extracted
  candidate_extractor_node s = extracted s (extract_all s.tavily_results)
