-- ===== src/Cache/Promotion.antt =====
-- What reaches the catalogue from `pending_courses`: course_discovery/research_agent/cache/repository.py.
use course_discovery_agent.Prelude.{
  ℕ, String, Bool, true, false, ◌&&◌, Option, none, some, List, [], ◌∷◌, filter, length, is_in,
  count_if, ◌∙◌, ◌==◌, All, All-map, All-filter, Bool-cases, inl, inr, ◌≡◌, refl, subst, sym, arith,
  eq_iff,
}
use course_discovery_agent.Prelude.Dict.{Dict, get}
use course_discovery_agent.Domain.Models.{CourseCandidate, CandidateValidation}
use course_discovery_agent.Cache.Staging.{
  PendingRow, is_of, stage_one, stage_from, stage_courses, discard_staged_courses, approved_rows,
  candidates_of, in_order, insert_row, validations_of, promote_staged_courses, cleared,
  All-in_order,
}

-- A row stands under its candidate's address.
abbrev pub IsPendingRow : PendingRow → Type 0
IsPendingRow r = r.canonical_url ≡ r.candidate.url

stage_one-IsPendingRow :
    (now : ℕ) (run : String) (v : Option CandidateValidation) (c : CourseCandidate)
    (rows : List PendingRow)
    → All IsPendingRow rows
    → All IsPendingRow (stage_one now run v c rows)
unfolding stage_one is_of
stage_one-IsPendingRow now run v c [] h = (refl, tt)
stage_one-IsPendingRow now run v c (r ∷ rows) h =
    elim (Bool-cases (r.run_id == run && r.canonical_url == c.url)) [
      | inl e ↦ rw e ((eq_iff r.canonical_url c.url).0 (ground (arith, e)), h.1)
      | inr e ↦ rw e (h.0, stage_one-IsPendingRow now run v c rows h.1)
    ]

stage_from-IsPendingRow :
    (now : ℕ) (run : String) (d : Dict CandidateValidation) (cs : List CourseCandidate)
    (rows : List PendingRow)
    → All IsPendingRow rows
    → All IsPendingRow (stage_from now run d cs rows)
unfolding stage_from
stage_from-IsPendingRow now run d [] rows h = h
stage_from-IsPendingRow now run d (c ∷ cs) rows h =
    stage_from-IsPendingRow now run d cs (stage_one now run (get c.url d) c rows)
      (stage_one-IsPendingRow now run (get c.url d) c rows h)

-- Staging courses into a table whose rows stand under their candidates' addresses leaves it so.
pub stage_courses-IsPendingRow :
    (now : ℕ) (run : String) (courses : List CourseCandidate)
    (validations : List CandidateValidation) (rows : List PendingRow)
    → All IsPendingRow rows
    → All IsPendingRow (stage_courses now run courses validations rows)
unfolding stage_courses
stage_courses-IsPendingRow now run courses validations rows h =
    stage_from-IsPendingRow now run _ courses rows h

module _ (before : String → String → Bool) where
  chosen-approved :
      (run : String) (approved : List String) (rows : List PendingRow)
      → All IsPendingRow rows
      → All
          (λ (r : PendingRow). is_in r.candidate.url approved ≡ true)
          (approved_rows before run approved rows)
  unfolding approved_rows
  chosen-approved run approved rows h =
      All-in_order before (λ (r : PendingRow). is_in r.candidate.url approved ≡ true)
        (filter (λ (r : PendingRow). r.run_id == run && is_in r.canonical_url approved) rows)
        (All-map
          (λ r (own, passed). subst (λ u. is_in u approved ≡ true) own (ground (arith, passed)))
          (filter (λ (r : PendingRow). r.run_id == run && is_in r.canonical_url approved) rows)
          (All-filter IsPendingRow
            (λ (r : PendingRow). r.run_id == run && is_in r.canonical_url approved) rows h))

  candidates-approved :
      (approved : List String) (rows : List PendingRow)
      → All (λ (r : PendingRow). is_in r.candidate.url approved ≡ true) rows
      → All (λ (c : CourseCandidate). is_in c.url approved ≡ true) (candidates_of before rows)
  unfolding candidates_of
  candidates-approved approved [] h = tt
  candidates-approved approved (r ∷ rows) h = (h.0, candidates-approved approved rows h.1)

  length-candidates : (rows : List PendingRow) → length (candidates_of before rows) ≡ length rows
  unfolding candidates_of
  length-candidates [] = refl
  length-candidates (r ∷ rows) = omega (arith, length-candidates rows)

  length-insert_row :
      (r : PendingRow) (rows : List PendingRow)
      → length (insert_row before r rows) ≡ length (r ∷ rows)
  unfolding insert_row
  length-insert_row r [] = refl
  length-insert_row r (x ∷ rows) = ground (arith, length-insert_row r rows)

  length-in_order : (rows : List PendingRow) → length (in_order before rows) ≡ length rows
  unfolding in_order
  length-in_order [] = refl
  length-in_order (r ∷ rows) =
      omega (arith, length-insert_row r (in_order before rows), length-in_order rows)

  length-filter_rows :
      (p : PendingRow → Bool) (rows : List PendingRow) → length (filter p rows) ≡ count_if p rows
  unfolding filter count_if
  length-filter_rows p [] = refl
  length-filter_rows p (r ∷ rows) = ground (arith, length-filter_rows p rows)

  length-approved_rows :
      (run : String) (approved : List String) (rows : List PendingRow)
      → length (approved_rows before run approved rows)
        ≡ count_if (λ (r : PendingRow). r.run_id == run && is_in r.canonical_url approved) rows
  unfolding approved_rows
  length-approved_rows run approved rows =
      let p = λ (r : PendingRow). r.run_id == run && is_in r.canonical_url approved in
      length-in_order (filter p rows) ∙ length-filter_rows p rows

  none_left :
      (run : String) (rows : List PendingRow)
      → All (λ (r : PendingRow). (r.run_id == run) ≡ false) (discard_staged_courses run rows)
  unfolding discard_staged_courses filter
  none_left run [] = tt
  none_left run (r ∷ rows) = elim (Bool-cases (r.run_id == run)) [
    | inl e ↦ rw e (none_left run rows)
    | inr e ↦ rw e (e, none_left run rows)
  ]

  module _ {W : Type 0}
      (upsert : List CourseCandidate → List CandidateValidation → W → Option W) where
    cleared_parts :
        (run : String) (n m : ℕ) (rows rows' : List PendingRow) (w' : W) (o : Option W)
        → cleared before upsert run n rows o ≡ some (m, rows', w')
        → (n ≡ m) × (discard_staged_courses run rows ≡ rows') × (o ≡ some w')
    unfolding cleared
    cleared_parts run n m rows rows' w' none e = absurd cc
    cleared_parts run n m rows rows' w' (some w) e = (cc, cc, cc)

    -- Where every row stands under its candidate's address and a promotion succeeds, the catalogue is what
    -- one upsert of some courses leaves. Each of these has an approved address, they are as many as the rows
    -- of the run with approved addresses, which is what the promotion answers, and no row of the run is left.
    pub promote_staged_courses-are_approved :
        (run : String) (approved : List String) (rows rows' : List PendingRow) (w w' : W) (n : ℕ)
        → All IsPendingRow rows
        → promote_staged_courses before upsert run approved rows w ≡ some (n, rows', w')
        → (courses : List CourseCandidate) × (validations : List CandidateValidation) × (upsert
              courses validations w
            ≡ some w')
          × All (λ (c : CourseCandidate). is_in c.url approved ≡ true) courses
          × (n ≡ length courses)
          × (n
              ≡ count_if
                  (λ (r : PendingRow). r.run_id == run && is_in r.canonical_url approved)
                  rows)
          × All (λ (r : PendingRow). (r.run_id == run) ≡ false) rows'
    unfolding promote_staged_courses
    promote_staged_courses-are_approved run approved rows rows' w w' n h e =
        let chosen = approved_rows before run approved rows in
        let (counted, left, stored) =
          cleared_parts run (length (candidates_of before chosen)) n rows rows' w' _ e in
        (
          candidates_of before chosen,
          validations_of before chosen,
          stored,
          candidates-approved approved chosen (chosen-approved run approved rows h),
          sym counted,
          sym counted ∙ length-candidates chosen ∙ length-approved_rows run approved rows,
          subst (All (λ (r : PendingRow). (r.run_id == run) ≡ false)) left (none_left run rows),
        )
