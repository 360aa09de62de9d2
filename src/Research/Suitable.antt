-- ===== src/Research/Suitable.antt =====
-- Which candidates `_validate_candidate` of course_discovery/research_agent/validation/nodes.py calls
-- valid.
use course_discovery_agent.Prelude.{
  ℕ, String, Bool, true, false, not, ◌&&◌, Option, none, some, List, [], ◌∷◌, ◌++◌, ◌≡◌, refl, ◌⊎◌,
  inl, inr, filter, is_in, only, eqb, Bool-cases,
}
use course_discovery_agent.Domain.Models.{
  SearchFilters, CourseCandidate, ValidationStatus, valid, rejected, uncertain, UserMemory,
}
use course_discovery_agent.Domain.State.{ResearchState}
use course_discovery_agent.Research.Validation.{
  is_true, is_listed, is_off_level, is_off_language, is_below, supported, status_of, memory_reasons,
  filter_reasons, filter_missing, reasons_against, missing_evidence_of, validate_candidate,
  is_status, has_status,
}

-- The user has neither taken nor rejected the course, and does not avoid its provider.
abbrev pub IsWelcome : Option UserMemory → CourseCandidate → Type 0
IsWelcome none c = Unit
IsWelcome (some m) c =
    (is_in c.url m.completed_course_urls ≡ false)
    × (is_in c.url m.rejected_course_urls ≡ false)
    × (is_listed c.provider m.avoided_providers ≡ false)

-- A claim that was asked for is made by the course, or its evidence supports it.
abbrev pub IsBacked : Bool → String → Option Bool → CourseCandidate → Type 0
IsBacked asked item flag c =
    (asked ≡ false) ⊎ (is_true flag ≡ true) ⊎ (is_in item (supported c.evidence) ≡ true)

abbrev pub MeetsFilters : Option SearchFilters → CourseCandidate → Type 0
MeetsFilters none c = Unit
MeetsFilters (some f) c =
    (is_off_level f.level c.level ≡ false)
    × (is_off_language f.content_languages c.language ≡ false)
    × (is_below f.min_rating c.rating ≡ false)
    × IsBacked (eqb f.max_price 0) "free" c.is_free c
    × IsBacked f.include_certificate "certificate" c.has_certificate c

abbrev pub IsSuitable : ResearchState → CourseCandidate → Type 0
IsSuitable s c = IsWelcome s.user_memory c × MeetsFilters s.search_filters c

append_none : (xs ys : List String) → xs ++ ys ≡ [] → (xs ≡ []) × (ys ≡ [])
append_none [] ys e = (refl, e)
append_none (x ∷ xs) ys e = absurd cc

three_none :
    (a b c : Bool) (x y z : String)
    → only a x ++ only b y ++ only c z ≡ []
    → (a ≡ false) × (b ≡ false) × (c ≡ false)
three_none true b c x y z e = absurd cc
three_none false true c x y z e = absurd cc
three_none false false true x y z e = absurd cc
three_none false false false x y z e = (refl, refl, refl)

memory_reasons-IsWelcome :
    (m : Option UserMemory) (c : CourseCandidate) → memory_reasons m c ≡ [] → IsWelcome m c
unfolding memory_reasons
memory_reasons-IsWelcome none c e = tt
memory_reasons-IsWelcome (some m) c e =
    three_none (is_in c.url m.completed_course_urls) (is_in c.url m.rejected_course_urls)
      (is_listed c.provider m.avoided_providers) "already completed by user"
      "previously rejected by user" "provider is avoided by user" e

abbrev lacks : List String → String → Bool
lacks backed item = not (is_in item backed)

-- What is asked and not claimed is missing, unless the evidence has it.
not_missing :
    (asked claimed : Bool) (item : String) (backed rest : List String)
    → filter (lacks backed) (only (asked && not claimed) item ++ rest) ≡ []
    → ((asked ≡ false) ⊎ (claimed ≡ true) ⊎ (is_in item backed ≡ true))
      × (filter (lacks backed) rest ≡ [])
unfolding filter
not_missing false claimed item backed rest = λ e. (inl refl, e)
not_missing true true item backed rest = λ e. (inr (inl refl), e)
not_missing true false item backed rest = elim (Bool-cases (is_in item backed)) [
  | inl b ↦ rw b (λ e. (inr (inr refl), e))
  | inr b ↦ rw b (λ e. absurd cc)
]

not_missing_last :
    (asked claimed : Bool) (item : String) (backed : List String)
    → filter (lacks backed) (only (asked && not claimed) item) ≡ []
    → (asked ≡ false) ⊎ (claimed ≡ true) ⊎ (is_in item backed ≡ true)
not_missing_last false claimed item backed e = inl refl
not_missing_last true true item backed e = inr (inl refl)
not_missing_last true false item backed e = (not_missing true false item backed [] e).0

filter_missing-IsBacked :
    (f : SearchFilters) (c : CourseCandidate)
    → filter (lacks (supported c.evidence)) (filter_missing (some f) c) ≡ []
    → IsBacked (eqb f.max_price 0) "free" c.is_free c
      × IsBacked f.include_certificate "certificate" c.has_certificate c
unfolding filter_missing
filter_missing-IsBacked f c e =
    let a =
      not_missing (eqb f.max_price 0) (is_true c.is_free) "free" (supported c.evidence)
        (only (f.include_certificate && not (is_true c.has_certificate)) "certificate") e in
    (
      a.0,
      not_missing_last f.include_certificate (is_true c.has_certificate) "certificate"
          (supported c.evidence) a.1,
    )

module _ (float_text : ℕ → String) where
  reasons-MeetsFilters :
      (f : Option SearchFilters) (c : CourseCandidate)
      → filter_reasons float_text f c ≡ []
      → filter (lacks (supported c.evidence)) (filter_missing f c) ≡ []
      → MeetsFilters f c
  unfolding filter_reasons
  reasons-MeetsFilters none c e m = tt
  reasons-MeetsFilters (some f) c e m =
      let a =
        three_none (is_off_level f.level c.level) (is_off_language f.content_languages c.language)
          (is_below f.min_rating c.rating) _ _ _ e in
      let b = filter_missing-IsBacked f c m in (a.0, a.1, a.2, b.0, b.1)

  status-valid : (rs ms : List String) → status_of rs ms ≡ valid → (rs ≡ []) × (ms ≡ [])
  unfolding status_of
  status-valid [] [] e = (refl, refl)
  status-valid [] (m ∷ ms) e = absurd cc
  status-valid (r ∷ rs) ms e = absurd cc

  status-is : (status : ValidationStatus) → is_status valid status ≡ true → status ≡ valid
  status-is valid e = refl
  status-is rejected e = absurd cc
  status-is uncertain e = absurd cc

  -- A candidate is found valid only if nothing speaks against it and every claim asked for is backed.
  pub validate_candidate-IsSuitable :
      (s : ResearchState) (c : CourseCandidate)
      → has_status valid (validate_candidate float_text s c) ≡ true
      → IsSuitable s c
  unfolding validate_candidate reasons_against missing_evidence_of
  validate_candidate-IsSuitable s c e =
      let none_left =
        status-valid (reasons_against float_text s c) (missing_evidence_of float_text s c)
          (status-is _ e) in
      let a =
        append_none (memory_reasons s.user_memory c) (filter_reasons float_text s.search_filters c)
          none_left.0 in
      (
        memory_reasons-IsWelcome s.user_memory c a.0,
        reasons-MeetsFilters s.search_filters c a.1 none_left.1,
      )
