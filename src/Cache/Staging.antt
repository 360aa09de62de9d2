-- ===== src/Cache/Staging.antt =====
-- The table `pending_courses` of course_discovery/research_agent/cache/repository.py, each function one
-- step on it. `before` is the database's order of texts, and `upsert` is `upsert_courses`, over the rest
-- of the database `W`; `none` is an exception.
use course_discovery_agent.Prelude.{
  ℕ, String, Bool, not, ◌&&◌, Option, none, some, List, [], ◌∷◌, map, filter, length, ltb, is_in,
  ◌==◌, if◌then◌else◌, All, Bool-cases, inl, inr,
}
use course_discovery_agent.Prelude.Dict.{Dict, get}
use course_discovery_agent.Domain.Models.{CourseCandidate, CandidateValidation}
use course_discovery_agent.Research.Validation.{by_url}

pub record PendingRow : Type 0 where
  pub run_id : String
  pub canonical_url : String
  pub candidate : CourseCandidate
  pub validation : Option CandidateValidation
  pub created_at : ℕ

unfoldable pub is_of : String → String → PendingRow → Bool
is_of run url r = r.run_id == run && r.canonical_url == url

-- `INSERT ... ON CONFLICT DO UPDATE`: a row that is there keeps its instant.
unfoldable pub stage_one :
    ℕ → String → Option CandidateValidation → CourseCandidate → List PendingRow → List PendingRow
stage_one now run v c [] =
    record { run_id = run; canonical_url = c.url; candidate = c; validation = v; created_at = now }
    ∷ []
stage_one now run v c (r ∷ rows) =
    let rest = stage_one now run v c rows in
    if is_of run c.url r then record r { candidate = c; validation = v } ∷ rows else r ∷ rest

unfoldable pub stage_from :
    ℕ → String → Dict CandidateValidation → List CourseCandidate → List PendingRow → List PendingRow
stage_from now run validations [] rows = rows
stage_from now run validations (c ∷ cs) rows =
    stage_from now run validations cs (stage_one now run (get c.url validations) c rows)

unfoldable pub stage_courses :
    ℕ → String → List CourseCandidate → List CandidateValidation → List PendingRow → List PendingRow
stage_courses now run courses validations rows =
    stage_from now run (by_url validations []) courses rows

unfoldable pub discard_staged_courses : String → List PendingRow → List PendingRow
discard_staged_courses run rows = filter (λ (r : PendingRow). not (r.run_id == run)) rows

-- `is_active`: the run's thread was active since the cutoff.
unfoldable pub prune_staged_courses : (String → Bool) → ℕ → List PendingRow → List PendingRow
prune_staged_courses is_active cutoff rows =
    filter (λ (r : PendingRow). not (ltb r.created_at cutoff && not (is_active r.run_id))) rows

module _ (before : String → String → Bool) where
  unfoldable pub insert_row : PendingRow → List PendingRow → List PendingRow
  insert_row r [] = r ∷ []
  insert_row r (x ∷ rows) =
      let rest = insert_row r rows in
      if before x.canonical_url r.canonical_url then x ∷ rest else r ∷ x ∷ rows

  unfoldable pub in_order : List PendingRow → List PendingRow
  unfolding insert_row
  in_order [] = []
  in_order (r ∷ rows) = insert_row r (in_order rows)

  -- The rows of the run with approved addresses.
  unfoldable pub approved_rows : String → List String → List PendingRow → List PendingRow
  approved_rows run approved rows =
      in_order (filter (λ (r : PendingRow). r.run_id == run && is_in r.canonical_url approved) rows)

  unfoldable pub candidates_of : List PendingRow → List CourseCandidate
  candidates_of rows = map (λ (r : PendingRow). r.candidate) rows

  unfoldable pub validations_of : List PendingRow → List CandidateValidation
  validations_of [] = []
  validations_of (r ∷ rows) = elim r.validation [
    | none ↦ validations_of rows
    | some v ↦ v ∷ validations_of rows
  ]

  module _ {W : Type 0}
      (upsert : List CourseCandidate → List CandidateValidation → W → Option W) where
    unfoldable pub cleared :
        String → ℕ → List PendingRow → Option W → Option (ℕ × List PendingRow × W)
    cleared run n rows none = none
    cleared run n rows (some w) = some (n, discard_staged_courses run rows, w)

    unfoldable pub promote_staged_courses :
        String → List String → List PendingRow → W → Option (ℕ × List PendingRow × W)
    unfolding candidates_of validations_of cleared
    promote_staged_courses run approved rows w =
        let chosen = approved_rows run approved rows in
        cleared run (length (candidates_of chosen)) rows
          (upsert (candidates_of chosen) (validations_of chosen) w)

  All-insert_row :
      (P : PendingRow → Type 0) (r : PendingRow) (rows : List PendingRow)
      → P r
      → All P rows
      → All P (insert_row r rows)
  unfolding insert_row
  All-insert_row P r [] h hs = (h, tt)
  All-insert_row P r (x ∷ rows) h hs = elim (Bool-cases (before x.canonical_url r.canonical_url)) [
    | inl e ↦ rw e (hs.0, All-insert_row P r rows h hs.1)
    | inr e ↦ rw e (h, hs)
  ]

  pub All-in_order :
      (P : PendingRow → Type 0) (rows : List PendingRow) → All P rows → All P (in_order rows)
  unfolding in_order
  All-in_order P [] h = tt
  All-in_order P (r ∷ rows) h = All-insert_row P r (in_order rows) h.0 (All-in_order P rows h.1)
