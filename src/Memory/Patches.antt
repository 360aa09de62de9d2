-- ===== src/Memory/Patches.antt =====
-- `MemoryPatch` of course_discovery/domain/models.py, and how course_discovery/research_agent/memory/
-- repository.py applies it. A patch has known fields only: the model's validator sees to that.
use course_discovery_agent.Prelude.{
  ℕ, ◌-◌, String, Bool, not, ◌&&◌, ◌||◌, Option, none, some, is_some, or_default, List, [], ◌∷◌,
  ◌++◌, length, drop, filter, is_in, is_empty, any, ◌==◌, if◌then◌else◌,
}
use course_discovery_agent.Prelude.Dict.{Dict, get}
use course_discovery_agent.Domain.Models.{MemoryNote, UserMemory}
use course_discovery_agent.Guardrails.Pii.{redact_pii}

abbrev pub max_notes : ℕ
max_notes = 30

pub record MemoryPatch : Type 0 where
  pub set : Dict (Option String)
  pub add : Dict (List String)
  pub remove : Dict (List String)
  pub add_notes : List MemoryNote

-- `MemoryPatch.is_empty`
unfoldable pub is_empty_patch : MemoryPatch → Bool
is_empty_patch p = is_empty p.set && is_empty p.add && is_empty p.remove && is_empty p.add_notes

-- The loop of `merged.extend`: the test sees what was appended before.
unfoldable pub extend_unique : List String → List String → List String → List String
extend_unique merged [] remove = merged
extend_unique merged (x ∷ add) remove =
    extend_unique (if is_in x merged || is_in x remove then merged else merged ++ x ∷ []) add remove

-- `_merge_unique`
unfoldable pub merge_unique : List String → List String → List String → List String
merge_unique current add remove =
    extend_unique (filter (λ x. not (is_in x remove)) current) add remove

unfoldable pub scalar : MemoryPatch → String → Option String → Option String
scalar p name current = or_default (get name p.set) current

unfoldable pub merged_field : MemoryPatch → String → List String → List String
merged_field p name current =
    if is_some (get name p.add) || is_some (get name p.remove)
    then merge_unique current (or_default (get name p.add) []) (or_default (get name p.remove) [])
    else current

-- `(note.text, note.scope) in known`
abbrev pub is_known : List MemoryNote → MemoryNote → Bool
is_known notes n = any (λ (k : MemoryNote). k.text == n.text && k.scope == n.scope) notes

-- `notes[-MAX_NOTES:]`
abbrev pub newest : List MemoryNote → List MemoryNote
newest notes = drop (length notes - max_notes) notes

unfoldable pub merged_notes : List MemoryNote → List MemoryNote → List MemoryNote
merged_notes notes added =
    if is_empty added then notes else newest (notes ++ filter (λ n. not (is_known notes n)) added)

unfoldable pub apply_patch : UserMemory → MemoryPatch → UserMemory
apply_patch m p = record {
  preferred_providers = merged_field p "preferred_providers" m.preferred_providers;
  avoided_providers = merged_field p "avoided_providers" m.avoided_providers;
  preferred_languages = merged_field p "preferred_languages" m.preferred_languages;
  budget_preference = scalar p "budget_preference" m.budget_preference;
  certificate_importance = scalar p "certificate_importance" m.certificate_importance;
  preferred_level = scalar p "preferred_level" m.preferred_level;
  preferred_course_length = scalar p "preferred_course_length" m.preferred_course_length;
  learning_style_notes = scalar p "learning_style_notes" m.learning_style_notes;
  career_goals = merged_field p "career_goals" m.career_goals;
  completed_course_urls = merged_field p "completed_course_urls" m.completed_course_urls;
  rejected_course_urls = merged_field p "rejected_course_urls" m.rejected_course_urls;
  notes = merged_notes m.notes p.add_notes;
}

-- A redactor's answers in turn; `none` where one is an exception.
unfoldable pub each : {A B : Type 0} → (A → Option B) → List A → Option (List B)
each f [] = some []
each f (x ∷ xs) = consed (f x) (each f xs)
  where
    consed : {B : Type 0} → Option B → Option (List B) → Option (List B)
    consed none rest = none
    consed (some y) none = none
    consed (some y) (some ys) = some (y ∷ ys)

module _ (redactor : String → Option String) where
  redact_optional : Option String → Option (Option String)
  redact_optional none = some none
  redact_optional (some t) = elim (redact_pii redactor t) [ none ↦ none | some r ↦ some (some r) ]

  redact_scalar : String × Option String → Option (String × Option String)
  unfolding redact_optional
  redact_scalar (name, value) =
      if name == "learning_style_notes"
      then elim (redact_optional value) [ none ↦ none | some r ↦ some (name, r) ]
      else some (name, value)

  redact_items : String × List String → Option (String × List String)
  redact_items (name, items) =
      let redacted = each (redact_pii redactor) items in
      if name == "career_goals"
      then elim redacted [ none ↦ none | some r ↦ some (name, r) ]
      else some (name, items)

  redact_note : MemoryNote → Option MemoryNote
  redact_note n = elim (redact_pii redactor n.text) [
    | none ↦ none
    | some r ↦ some (record n { text = r })
  ]

  assemble :
      Option (Dict (Option String))
      → Option (Dict (List String))
      → Dict (List String)
      → Option (List MemoryNote)
      → Option MemoryPatch
  assemble (some s) (some a) remove (some n) =
      some (record { set = s; add = a; remove = remove; add_notes = n })
  assemble _ _ _ _ = none

  unfoldable pub redact_patch : MemoryPatch → Option MemoryPatch
  unfolding assemble redact_scalar redact_items redact_note
  redact_patch p =
      assemble (each redact_scalar p.set) (each redact_items p.add) p.remove
        (each redact_note p.add_notes)
