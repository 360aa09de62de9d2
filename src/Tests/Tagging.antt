-- ===== src/Tests/Tagging.antt =====
-- Runs of the tagging graph and of the cleaning of tags: course_discovery/jobs and
-- course_discovery/research_agent/tagging.
use course_discovery_agent.Prelude.{
  ℕ, ◌+◌, String, true, Option, none, some, List, [], ◌∷◌, ◌≡◌, ◌⊎◌, map, All,
}
use course_discovery_agent.Effects.Worker.{World}
use course_discovery_agent.Guardrails.Injection.{default_thresholds}
use course_discovery_agent.Tagging.Tagger.{ModuleTags, CourseForTagging, clean_tagging}
use course_discovery_agent.Tagging.Cleaned.{AreTags, names, clean_tagging-AreTags}
use course_discovery_agent.Tagging.Graph.{CourseRow, run_tagging}
use course_discovery_agent.Tagging.Schedule.{scheduled, schedule_tagging}
use course_discovery_agent.Tagging.Repeated.{IsHeld, schedule_tagging-twice}
use course_discovery_agent.Tagging.Guarded.{Fails, EndsGuarded, run_tagging-IsGuarded}

abbrev course : CourseRow
course = record {
  id = 7;
  canonical_url = "https://x.org/python";
  title = "Python";
  description = some "A first course";
  content_hash = "h1";
  topics = [];
  tagged_content_hash = none;
  tagging_outcome = none;
}

abbrev score : String → Option ℕ
score text = some 10

abbrev tagger : String → String → Option (List String)
tagger title description = some ("python" ∷ "magic" ∷ "python" ∷ [])

-- The title of every course changes before the write.
abbrev others : List CourseRow → List CourseRow
others rows = map {A = CourseRow} (λ r. record r { title = "Python 2" }) rows

run_tagging-IsGuarded_example :
    ((run_tagging true default_thresholds score tagger others 7 "h1" (course ∷ []) ≡ none)
      × Fails true default_thresholds score tagger 7 "h1" (course ∷ []))
    ⊎ EndsGuarded true default_thresholds score tagger others 7 "h1"
        (course ∷ [])
        (run_tagging true default_thresholds score tagger others 7 "h1" (course ∷ []))
run_tagging-IsGuarded_example =
    run_tagging-IsGuarded true default_thresholds score tagger others 7 "h1" (course ∷ [])

abbrev modules : CourseForTagging
modules = record { title = "Python"; description = none; modules = "Intro" ∷ "Loops" ∷ [] }

abbrev raw : List ModuleTags
raw =
    record { module_name = "Intro"; tags = "magic" ∷ [] }
    ∷ record { module_name = "Intro"; tags = "python" ∷ "git" ∷ "python" ∷ [] }
    ∷ []

clean_tagging-AreTags_example :
    (names (clean_tagging modules raw) ≡ "Intro" ∷ "Loops" ∷ [])
    × All (AreTags raw) (clean_tagging modules raw)
clean_tagging-AreTags_example = clean_tagging-AreTags modules raw

abbrev empty_world : World
empty_world = record { table = []; calls = []; readings = 0 }

abbrev first_round : ℕ × World
first_round =
    schedule_tagging (λ u. u) (λ p. p) (λ n. n + 1) (some "https://x.org/") (some 1) (course ∷ [])
      empty_world

abbrev second_round : ℕ × World
second_round =
    schedule_tagging (λ u. u) (λ p. p) (λ n. n + 1) (some "https://x.org/") (some 1) (course ∷ [])
      first_round.1

schedule_tagging-twice_example :
    All
      (IsHeld
        (λ p. p)
        (λ n. n + 1)
        (λ u. u)
        (scheduled (some "https://x.org/") (some 1) (course ∷ []))
        []
        first_round.1.table)
      (scheduled (some "https://x.org/") (some 1) (course ∷ []))
    × (second_round.1.table ≡ first_round.1.table)
schedule_tagging-twice_example =
    schedule_tagging-twice (λ p. p) (λ n. n + 1) (λ u. u) (some "https://x.org/") (some 1)
      (course ∷ []) empty_world
