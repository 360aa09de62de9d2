-- ===== src/Tests/Cache.antt =====
-- Runs of the staging table: course_discovery/research_agent/cache/repository.py.
use course_discovery_agent.Prelude.{
  Option, String, true, false, none, some, List, [], ◌∷◌, ◌≡◌, refl, All, is_in, ◌&&◌, map,
  count_if, length, filter, ◌==◌,
}
use course_discovery_agent.Domain.Models.{CourseCandidate, CandidateValidation}
use course_discovery_agent.Cache.Staging.{
  PendingRow, stage_courses, promote_staged_courses, approved_rows, in_order, candidates_of,
  validations_of, cleared, discard_staged_courses,
}
use course_discovery_agent.Cache.Promotion.{
  IsPendingRow, stage_courses-IsPendingRow, promote_staged_courses-are_approved,
}
use course_discovery_agent.Tests.Samples.{course}

abbrev pending_row : String → PendingRow
pending_row url = record {
  run_id = "r1";
  canonical_url = url;
  candidate = course url;
  validation = none;
  created_at = 4;
}

abbrev two_rows : List PendingRow
two_rows = pending_row "https://a.org/1" ∷ pending_row "https://a.org/2" ∷ []

abbrev first_approved : List String
first_approved = "https://a.org/1" ∷ []

stage_courses-IsPendingRow_example :
    All IsPendingRow
      (stage_courses 5 "r1" (course "https://a.org/2" ∷ course "https://a.org/3" ∷ []) [] two_rows)
stage_courses-IsPendingRow_example =
    stage_courses-IsPendingRow 5 "r1" (course "https://a.org/2" ∷ course "https://a.org/3" ∷ []) []
      two_rows (refl, (refl, tt))

abbrev upsert_all :
    List CourseCandidate → List CandidateValidation → List String → Option (List String)
upsert_all cs vs w = some (map {A = CourseCandidate} (λ c. c.url) cs)

promote_staged_courses-are_approved_example :
    (courses : List CourseCandidate) × (validations : List CandidateValidation) × (upsert_all
        courses validations []
      ≡ some ("https://a.org/1" ∷ []))
    × All (λ (c : CourseCandidate). is_in c.url first_approved ≡ true) courses
    × (1 ≡ length courses)
    × (1
        ≡ count_if
            (λ (r : PendingRow). r.run_id == "r1" && is_in r.canonical_url first_approved)
            two_rows)
    × All (λ (r : PendingRow). (r.run_id == "r1") ≡ false) []
unfolding promote_staged_courses approved_rows in_order candidates_of validations_of cleared
    discard_staged_courses filter is_in
promote_staged_courses-are_approved_example =
    promote_staged_courses-are_approved (λ a b. false) upsert_all "r1" first_approved two_rows [] []
      ("https://a.org/1" ∷ []) 1 (refl, (refl, tt)) refl
