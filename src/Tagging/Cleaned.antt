-- ===== src/Tagging/Cleaned.antt =====
-- course_discovery/research_agent/tagging/tagger.py: the tags that `clean_tagging` leaves.
use course_discovery_agent.Prelude.{
  ℕ, String, true, false, List, [], ◌∷◌, ◌++◌, zero, suc, inl, inr, eq_iff, All-map, ◌≡◌, refl, ◌≤◌,
  arith, take, length, map, is_in, All, IsDistinct, Bool-cases, append-IsDistinct, All-append,
  All-take, length-take,
}
use course_discovery_agent.Tagging.Vocabulary.{topic_vocabulary, AreTopics}
use course_discovery_agent.Tagging.Tagger.{
  ModuleTags, CourseForTagging, entry_tags, clean_tags, clean_modules, clean_tagging,
  max_tags_per_module,
}

-- Topics of the vocabulary that the source names, none twice.
abbrev IsClean : List String → List String → Type 0
IsClean source kept = AreTopics kept × All (λ t. is_in t source ≡ true) kept

clean_tags-IsClean :
    (source ts kept : List String)
    → All (λ t. is_in t source ≡ true) ts
    → IsClean source kept
    → IsClean source (clean_tags ts kept)
unfolding clean_tags
clean_tags-IsClean source [] kept h ok = ok
clean_tags-IsClean source (t ∷ ts) kept h ok = elim (Bool-cases (is_in t topic_vocabulary)) [
  | inr e ↦ rw (e, clean_tags) (clean_tags-IsClean source ts kept h.1 ok)
  | inl e ↦ elim (Bool-cases (is_in t kept)) [
    | inl f ↦ rw (e, clean_tags, f) (clean_tags-IsClean source ts kept h.1 ok)
    | inr f ↦
        rw (e, clean_tags, f)
          (clean_tags-IsClean source ts (kept ++ t ∷ []) h.1 (
            (
              All-append (λ x. is_in x topic_vocabulary ≡ true) kept (t ∷ []) ok.0.0 (e, tt),
              append-IsDistinct t kept ok.0.1 f,
            ),
            All-append (λ x. is_in x source ≡ true) kept (t ∷ []) ok.1 (h.0, tt),
          ))
  ]
]

all_in : (xs : List String) → All (λ t. is_in t xs ≡ true) xs
unfolding is_in
all_in [] = tt
all_in (x ∷ xs) = (
  ground (arith, eq_iff x x),
  All-map {Q = λ t. is_in t (x ∷ xs) ≡ true} (λ t h. ground (arith, h)) xs (all_in xs),
)

is_in-take :
    (k : String) (n : ℕ) (xs : List String) → is_in k xs ≡ false → is_in k (take n xs) ≡ false
unfolding is_in
is_in-take k zero xs h = refl
is_in-take k (suc n) [] h = refl
is_in-take k (suc n) (x ∷ xs) h =
    let rest : is_in k xs ≡ false = ground (arith, h) in ground (arith, h, is_in-take k n xs rest)

take-IsDistinct : (n : ℕ) (xs : List String) → IsDistinct xs → IsDistinct (take n xs)
take-IsDistinct zero xs h = tt
take-IsDistinct (suc n) [] h = tt
take-IsDistinct (suc n) (x ∷ xs) h = (is_in-take x n xs h.0, take-IsDistinct n xs h.1)

-- At most three tags, distinct topics of the vocabulary, each among those that the last raw entry for
-- the module names.
abbrev pub AreTags : List ModuleTags → ModuleTags → Type 0
AreTags raw e =
    (length e.tags ≤ max_tags_per_module)
    × AreTopics e.tags
    × All (λ t. is_in t (entry_tags e.module_name raw []) ≡ true) e.tags

abbrev pub names : List ModuleTags → List String
names = map (λ e. e.module_name)

clean_modules-lem :
    (raw : List ModuleTags) (ms : List String)
    → (names (clean_modules raw ms) ≡ ms) × All (AreTags raw) (clean_modules raw ms)
unfolding clean_modules
clean_modules-lem raw [] = (refl, tt)
clean_modules-lem raw (m ∷ ms) =
    let source = entry_tags m raw [] in
    let kept = clean_tags source [] in
    let clean = clean_tags-IsClean source source [] (all_in source) ((tt, tt), tt) in
    let (same, rest) = clean_modules-lem raw ms in
    (
      rw same refl,
      (
        (
          length-take max_tags_per_module kept,
          (
            All-take (λ t. is_in t topic_vocabulary ≡ true) max_tags_per_module kept clean.0.0,
            take-IsDistinct max_tags_per_module kept clean.0.1,
          ),
          All-take (λ t. is_in t source ≡ true) max_tags_per_module kept clean.1,
        ),
        rest,
      ),
    )

-- Whatever the model answered, the cleaned tagging of a course has one entry for each module of the
-- course, in order. Each has at most three tags, distinct topics of the vocabulary, and only tags that
-- the last raw entry for that module names.
pub clean_tagging-AreTags :
    (course : CourseForTagging) (raw : List ModuleTags)
    → (names (clean_tagging course raw) ≡ course.modules)
      × All (AreTags raw) (clean_tagging course raw)
unfolding clean_tagging
clean_tagging-AreTags course raw = clean_modules-lem raw course.modules
