-- ===== src/Tagging/Schedule.antt =====
-- course_discovery/jobs/tagging.py: the courses that need tagging are submitted to the outbox.
-- `url_hash` is a parameter; a limit of 0 counts as none.
use course_discovery_agent.Prelude.{
  ℕ, zero, suc, String, Bool, true, ◌&&◌, ◌||◌, not, Option, none, some, List, [], ◌∷◌, ◌<>◌,
  filter, take, length, sort_on, is_empty, starts_with, ◌==◌,
}
use course_discovery_agent.Prelude.Dict.{Dict}
use course_discovery_agent.Effects.Models.{Effect, Value, text, number}
use course_discovery_agent.Effects.Gateway.{submit}
use course_discovery_agent.Effects.Worker.{World}
use course_discovery_agent.Tagging.Graph.{CourseRow}

abbrev pub tag_course : String
tag_course = "tag_course"

-- `(cardinality(topics) = 0 AND tagged_content_hash IS NULL) OR tagged_content_hash <> content_hash`
unfoldable pub needs_tagging : CourseRow → Bool
needs_tagging r = elim r.tagged_content_hash [
  | none ↦ is_empty r.topics
  | some hash ↦ not (hash == r.content_hash)
]

-- `canonical_url LIKE %s` with an escaped prefix; an absent or empty prefix adds no clause.
unfoldable pub has_prefix : Option String → CourseRow → Bool
has_prefix none r = true
has_prefix (some prefix) r = prefix == "" || starts_with r.canonical_url prefix

unfoldable pub limited : Option ℕ → List CourseRow → List CourseRow
limited none rows = rows
limited (some zero) rows = rows
limited (some (suc n)) rows = take (suc n) rows

unfoldable pub scheduled : Option String → Option ℕ → List CourseRow → List CourseRow
scheduled prefix limit rows =
    limited limit (sort_on (λ r. r.id) (filter (λ r. needs_tagging r && has_prefix prefix r) rows))

module _ (url_hash : String → String) where
  unfoldable pub tagging_key : String → String → String
  tagging_key url content_hash = "tag:" <> (url_hash url <> (":" <> content_hash))

  unfoldable pub tagging_effect : CourseRow → Effect
  tagging_effect r = record {
    key = tagging_key r.canonical_url r.content_hash;
    kind = tag_course;
    payload = ("course_id", number r.id) ∷ ("content_hash", text r.content_hash) ∷ [];
  }

  module _ (inject : Dict Value → Dict Value) (clock : ℕ → ℕ) where
    unfoldable pub submit_all : List CourseRow → World → World
    submit_all [] w = w
    submit_all (r ∷ rows) w = submit_all rows (submit inject clock (tagging_effect r) w).1

    unfoldable pub schedule_tagging : Option String → Option ℕ → List CourseRow → World → ℕ × World
    schedule_tagging prefix limit rows w =
        let chosen = scheduled prefix limit rows in (length chosen, submit_all chosen w)
