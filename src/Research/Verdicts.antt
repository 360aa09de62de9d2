-- ===== src/Research/Verdicts.antt =====
-- What `evidence_validator_node` of course_discovery/research_agent/validation/nodes.py lets through.
use course_discovery_agent.Prelude.{
  ℕ, suc, ◌+◌, String, Bool, false, some, List, [], ◌∷◌, map, ◌≡◌, refl, ◌∙◌, arith, inl, inr,
  length, filter, is_empty, true, is_in, IsDistinct, All, Bool-cases, eq_refl, if◌then◌else◌,
}
use course_discovery_agent.Prelude.Dict.{Dict, get, put, get-put}
use course_discovery_agent.Domain.Models.{
  CourseCandidate, CandidateValidation, ValidationStatus, valid, rejected, uncertain,
}
use course_discovery_agent.Domain.State.{ResearchState}
use course_discovery_agent.Research.Distinct.{url_of}
use course_discovery_agent.Research.Validation.{
  validate_candidate, reasons_against, missing_evidence_of, status_of, by_url, is_status,
  has_status, pick, picked, validated, evidence_validator_node,
}
use course_discovery_agent.Research.Suitable.{IsSuitable, validate_candidate-IsSuitable}

module _ (float_text : ℕ → String) where
  -- The validation of a candidate, under its own address among all.
  abbrev Finds : ResearchState → Dict CandidateValidation → CourseCandidate → Type 0
  Finds s d c = get c.url d ≡ some (validate_candidate float_text s c)

  by_url-absent :
      (s : ResearchState) (cs : List CourseCandidate) (k : String) (d : Dict CandidateValidation)
      → is_in k (map url_of cs) ≡ false
      → get k (by_url (map (validate_candidate float_text s) cs) d) ≡ get k d
  unfolding by_url is_in validate_candidate
  by_url-absent s [] k d new = refl
  by_url-absent s (c ∷ cs) k d new =
      let v = validate_candidate float_text s c in
      by_url-absent s cs k (put v.url v d) (ground arith) ∙ (get-put c.url k v d ∙ ground arith)

  by_url-Finds :
      (s : ResearchState) (cs : List CourseCandidate) (d : Dict CandidateValidation)
      → IsDistinct (map url_of cs)
      → All (Finds s (by_url (map (validate_candidate float_text s) cs) d)) cs
  unfolding by_url validate_candidate
  by_url-Finds s [] d h = tt
  by_url-Finds s (c ∷ cs) d h =
      let v = validate_candidate float_text s c in
      (
        by_url-absent s cs c.url (put v.url v d) h.0 ∙ (get-put c.url c.url v d ∙ rw eq_refl refl),
        by_url-Finds s cs (put v.url v d) h.1,
      )

  abbrev pub has_own : ResearchState → ValidationStatus → CourseCandidate → Bool
  has_own s status c = has_status status (validate_candidate float_text s c)

  pick-own :
      (s : ResearchState) (d : Dict CandidateValidation) (status : ValidationStatus)
      (cs : List CourseCandidate)
      → All (Finds s d) cs
      → pick d status cs ≡ some (filter (has_own s status) cs)
  unfolding pick filter
  pick-own s d status [] h = refl
  pick-own s d status (c ∷ cs) h = rw (h.0, pick-own s d status cs h.1, picked) refl

  three_ways_more :
      (c : CourseCandidate) (ok bs ds : List CourseCandidate) (n : ℕ) (status : ValidationStatus)
      → length ok + length bs + length ds ≡ n
      → length (if is_status valid status then c ∷ ok else ok)
          + length (if is_status rejected status then c ∷ bs else bs)
          + length (if is_status uncertain status then c ∷ ds else ds)
        ≡ suc n
  three_ways_more c ok bs ds n valid e = omega (arith, e)
  three_ways_more c ok bs ds n rejected e = omega (arith, e)
  three_ways_more c ok bs ds n uncertain e = omega (arith, e)

  filter-IsSuitable :
      (s : ResearchState) (cs : List CourseCandidate)
      → All (IsSuitable s) (filter (has_own s valid) cs)
  unfolding filter
  filter-IsSuitable s [] = tt
  filter-IsSuitable s (c ∷ cs) = elim (Bool-cases (has_own s valid c)) [
    | inl e ↦ rw e (validate_candidate-IsSuitable float_text s c e, filter-IsSuitable s cs)
    | inr e ↦ rw e (filter-IsSuitable s cs)
  ]

  three_ways :
      (s : ResearchState) (cs : List CourseCandidate)
      → length (filter (has_own s valid) cs)
          + length (filter (has_own s rejected) cs)
          + length (filter (has_own s uncertain) cs)
        ≡ length cs
  unfolding filter
  three_ways s [] = refl
  three_ways s (c ∷ cs) =
      three_ways_more c (filter (has_own s valid) cs) (filter (has_own s rejected) cs)
        (filter (has_own s uncertain) cs) (length cs) (validate_candidate float_text s c).status
        (three_ways s cs)

  -- Something speaks against the course.
  abbrev pub IsRejected : ResearchState → CourseCandidate → Type 0
  IsRejected s c = is_empty (reasons_against float_text s c) ≡ false

  -- Nothing speaks against the course, but evidence is missing.
  abbrev pub IsUncertain : ResearchState → CourseCandidate → Type 0
  IsUncertain s c =
      (is_empty (reasons_against float_text s c) ≡ true)
      × (is_empty (missing_evidence_of float_text s c) ≡ false)

  status_of-rejected :
      (rs ms : List String) → is_status rejected (status_of rs ms) ≡ true → is_empty rs ≡ false
  unfolding status_of
  status_of-rejected [] [] h = absurd cc
  status_of-rejected [] (m ∷ ms) h = absurd cc
  status_of-rejected (r ∷ rs) ms h = refl

  status_of-uncertain :
      (rs ms : List String)
      → is_status uncertain (status_of rs ms) ≡ true
      → (is_empty rs ≡ true) × (is_empty ms ≡ false)
  unfolding status_of
  status_of-uncertain [] [] h = absurd cc
  status_of-uncertain [] (m ∷ ms) h = (refl, refl)
  status_of-uncertain (r ∷ rs) ms h = absurd cc

  filter-IsRejected :
      (s : ResearchState) (cs : List CourseCandidate)
      → All (IsRejected s) (filter (has_own s rejected) cs)
  unfolding filter validate_candidate
  filter-IsRejected s [] = tt
  filter-IsRejected s (c ∷ cs) = elim (Bool-cases (has_own s rejected c)) [
    | inl e ↦ rw e (status_of-rejected (reasons_against float_text s c) _ e, filter-IsRejected s cs)
    | inr e ↦ rw e (filter-IsRejected s cs)
  ]

  filter-IsUncertain :
      (s : ResearchState) (cs : List CourseCandidate)
      → All (IsUncertain s) (filter (has_own s uncertain) cs)
  unfolding filter validate_candidate
  filter-IsUncertain s [] = tt
  filter-IsUncertain s (c ∷ cs) = elim (Bool-cases (has_own s uncertain c)) [
    | inl e ↦ rw e (
      status_of-uncertain (reasons_against float_text s c) (missing_evidence_of float_text s c) e,
      filter-IsUncertain s cs,
    )
    | inr e ↦ rw e (filter-IsUncertain s cs)
  ]

  -- The courses of the state that the validation gives a status, in their order.
  abbrev pub with_status : ResearchState → ValidationStatus → List CourseCandidate
  with_status s status = filter (has_own s status) s.deduplicated_courses

  -- Where the courses have distinct addresses, the validation raises nothing. The valid, the rejected and
  -- the uncertain courses are those whose own validation has that status, in the order of the courses,
  -- and together they are as many as the courses. Valid courses are suitable: welcome to the user, within
  -- the filters, and with evidence for every claim that the filters ask for. Something speaks against
  -- each rejected course; nothing speaks against an uncertain one, but evidence is missing.
  pub evidence_validator_node-IsSuitable :
      (s : ResearchState)
      → IsDistinct (map url_of s.deduplicated_courses)
      → (s' : ResearchState) × (evidence_validator_node float_text s ≡ some s')
        × (s'.valid_courses ≡ with_status s valid)
        × (s'.rejected_courses ≡ with_status s rejected)
        × (s'.uncertain_courses ≡ with_status s uncertain)
        × All (IsSuitable s) s'.valid_courses
        × All (IsRejected s) s'.rejected_courses
        × All (IsUncertain s) s'.uncertain_courses
        × (length s'.valid_courses + length s'.rejected_courses + length s'.uncertain_courses
            ≡ length s.deduplicated_courses)
  unfolding evidence_validator_node validated
  evidence_validator_node-IsSuitable s h =
      let cs = s.deduplicated_courses in
      let found = by_url-Finds s cs [] h in
      let d = by_url (map (validate_candidate float_text s) cs) [] in
      rw
        (
          pick-own s d valid cs found,
          pick-own s d rejected cs found,
          pick-own s d uncertain cs found,
        )
        (
          _,
          refl,
          refl,
          refl,
          refl,
          filter-IsSuitable s cs,
          filter-IsRejected s cs,
          filter-IsUncertain s cs,
          three_ways s cs,
        )
