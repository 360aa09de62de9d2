-- ===== src/Memory/Merging.antt =====
-- What merging a patch keeps: course_discovery/research_agent/memory/repository.py.
use course_discovery_agent.Prelude.{
  ℕ, zero, suc, ◌-◌, ◌≤◌, String, not, ◌&&◌, ◌||◌, List, [], ◌∷◌, ◌++◌, ◌≡◌, refl, ap, ◌∙◌, inl,
  inr, is_some, arith, length, drop, filter, is_in, is_in-append, IsDistinct, append-IsDistinct,
  Bool-cases, eq_iff, ◌==◌, if◌then◌else◌, or_default,
}
use course_discovery_agent.Prelude.Dict.{get}
use course_discovery_agent.Domain.Models.{MemoryNote, UserMemory}
use course_discovery_agent.Memory.Patches.{
  MemoryPatch, max_notes, extend_unique, merge_unique, merged_field, merged_notes, is_known,
  apply_patch,
}

is_in-filter :
    (k : String) (remove xs : List String)
    → is_in k (filter (λ x. not (is_in x remove)) xs) ≡ (is_in k xs && not (is_in k remove))
unfolding filter is_in
is_in-filter k remove [] = refl
is_in-filter k remove (x ∷ xs) = elim (Bool-cases (x == k)) [
  | inl same ↦
      ground (arith, same, ap (λ j. is_in j remove) ((eq_iff x k).0 same), is_in-filter k remove xs)
  | inr other ↦ ground (arith, other, is_in-filter k remove xs)
]

is_in-extend :
    (k : String) (merged add remove : List String)
    → is_in k (extend_unique merged add remove)
      ≡ (is_in k merged || (is_in k add && not (is_in k remove)))
unfolding extend_unique is_in
is_in-extend k merged [] remove = ground arith
is_in-extend k merged (x ∷ add) remove =
    is_in-extend k (if is_in x merged || is_in x remove then merged else merged ++ x ∷ []) add
      remove
    ∙ (elim (Bool-cases (x == k)) [
      | inl same ↦ ground (
        arith,
        same,
        ap (λ j. is_in j remove) ((eq_iff x k).0 same),
        ap (λ j. is_in j merged) ((eq_iff x k).0 same),
        is_in-append k merged (x ∷ []),
      )
      | inr other ↦ ground (arith, other, is_in-append k merged (x ∷ []))
    ])

-- A merged list holds exactly what was there or is added, less what is removed.
pub is_in-merge_unique :
    (k : String) (current add remove : List String)
    → is_in k (merge_unique current add remove)
      ≡ ((is_in k current || is_in k add) && not (is_in k remove))
unfolding merge_unique
is_in-merge_unique k current add remove =
    is_in-extend k (filter (λ x. not (is_in x remove)) current) add remove
    ∙ ground (arith, is_in-filter k remove current)

filter-IsDistinct :
    (remove xs : List String) → IsDistinct xs → IsDistinct (filter (λ x. not (is_in x remove)) xs)
unfolding filter
filter-IsDistinct remove [] h = tt
filter-IsDistinct remove (x ∷ xs) h = elim (Bool-cases (is_in x remove)) [
  | inl e ↦ rw e (filter-IsDistinct remove xs h.1)
  | inr e ↦ rw e (ground (arith, h.0, is_in-filter x remove xs), filter-IsDistinct remove xs h.1)
]

extend-IsDistinct :
    (merged add remove : List String)
    → IsDistinct merged
    → IsDistinct (extend_unique merged add remove)
unfolding extend_unique
extend-IsDistinct merged [] remove h = h
extend-IsDistinct merged (x ∷ add) remove h =
    extend-IsDistinct (if is_in x merged || is_in x remove then merged else merged ++ x ∷ []) add
      remove
      (elim (Bool-cases (is_in x merged)) [
        | inl e ↦ rw e h
        | inr e ↦ elim (Bool-cases (is_in x remove)) [
          | inl f ↦ rw (e, f) h
          | inr f ↦ rw (e, f) (append-IsDistinct x merged h e)
        ]
      ])

merge_unique-IsDistinct :
    (current add remove : List String)
    → IsDistinct current
    → IsDistinct (merge_unique current add remove)
unfolding merge_unique
merge_unique-IsDistinct current add remove h =
    extend-IsDistinct (filter (λ x. not (is_in x remove)) current) add remove
      (filter-IsDistinct remove current h)

merged_field-IsDistinct :
    (p : MemoryPatch) (name : String) (current : List String)
    → IsDistinct current
    → IsDistinct (merged_field p name current)
unfolding merged_field
merged_field-IsDistinct p name current h =
    elim (Bool-cases (is_some (get name p.add) || is_some (get name p.remove))) [
      | inl e ↦ rw e (
          merge_unique-IsDistinct current (or_default (get name p.add) [])
            (or_default (get name p.remove) []) h)
      | inr e ↦ rw e h
    ]

length-drop : (n : ℕ) (xs : List MemoryNote) → length (drop n xs) ≤ length xs - n
length-drop zero xs = omega arith
length-drop (suc n) [] = omega arith
length-drop (suc n) (x ∷ xs) = omega (arith, length-drop n xs)

merged_notes-length :
    (notes added : List MemoryNote)
    → length notes ≤ max_notes
    → length (merged_notes notes added) ≤ max_notes
unfolding merged_notes
merged_notes-length notes [] h = h
merged_notes-length notes (n ∷ added) h =
    let all : List MemoryNote = notes ++ filter (λ m. not (is_known notes m)) (n ∷ added) in
    omega (arith, length-drop (length all - max_notes) all)

-- A profile's lists name nothing twice, and it keeps 30 notes at most.
pub record IsProfile (m : UserMemory) : Type 0 where
  pub preferred_providers : IsDistinct m.preferred_providers
  pub avoided_providers : IsDistinct m.avoided_providers
  pub preferred_languages : IsDistinct m.preferred_languages
  pub career_goals : IsDistinct m.career_goals
  pub completed_course_urls : IsDistinct m.completed_course_urls
  pub rejected_course_urls : IsDistinct m.rejected_course_urls
  pub notes : length m.notes ≤ max_notes

-- Whatever a patch adds, removes or sets, a profile stays one: no list field names an entry twice,
-- and there are 30 notes at most.
pub apply_patch-IsProfile :
    (m : UserMemory) (p : MemoryPatch) → IsProfile m → IsProfile (apply_patch m p)
unfolding apply_patch
apply_patch-IsProfile m p h = record {
  preferred_providers =
      merged_field-IsDistinct p "preferred_providers" m.preferred_providers h.preferred_providers;
  avoided_providers =
      merged_field-IsDistinct p "avoided_providers" m.avoided_providers h.avoided_providers;
  preferred_languages =
      merged_field-IsDistinct p "preferred_languages" m.preferred_languages h.preferred_languages;
  career_goals = merged_field-IsDistinct p "career_goals" m.career_goals h.career_goals;
  completed_course_urls =
      merged_field-IsDistinct p "completed_course_urls" m.completed_course_urls
        h.completed_course_urls;
  rejected_course_urls =
      merged_field-IsDistinct p "rejected_course_urls" m.rejected_course_urls
        h.rejected_course_urls;
  notes = merged_notes-length m.notes p.add_notes h.notes;
}
