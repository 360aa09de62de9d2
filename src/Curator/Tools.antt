-- ===== src/Curator/Tools.antt =====
-- course_discovery/memory_curator/tools.py. `validate` is pydantic's reading of a proposal's arguments,
-- `is_printable` is `str.isprintable`.
use course_discovery_agent.Prelude.{
  ℕ, suc, ◌<>◌, String, Bool, not, ◌&&◌, Option, none, some, List, [], ◌∷◌, ◌++◌, map, ltb, filter,
  is_in, is_empty, join, show, sorted_set, or_default, ◌==◌, if◌then◌else◌,
}
use course_discovery_agent.Prelude.Dict.{Dict, get, put}
use course_discovery_agent.Domain.Models.{MemoryNote}
use course_discovery_agent.Memory.Patches.{MemoryPatch, is_empty_patch}

abbrev pub max_note_chars : ℕ
max_note_chars = 120

abbrev pub not_stored_scopes : List String
not_stored_scopes = "this_run" ∷ "not_a_preference" ∷ []

abbrev pub writable_fields : List String
writable_fields =
    "preferred_providers" ∷ "avoided_providers" ∷ "preferred_languages" ∷ "budget_preference"
    ∷ "certificate_importance" ∷ "preferred_level" ∷ "preferred_course_length"
    ∷ "rejected_course_urls" ∷ "completed_course_urls" ∷ []

-- `ProposePatch`, without the reason, which nothing reads.
pub record Proposal : Type 0 where
  pub scope : String
  pub patch : MemoryPatch

-- What the validation of the arguments gives.
pub data Validated : Type 0 where
  invalid : String → Validated
  proposal : Proposal → Validated

unfoldable pub keys {ℓ} : {V : Type ℓ} → Dict V → List String
keys [] = []
keys ((k, v) ∷ d) = k ∷ keys d

-- `_unwritable`
unfoldable pub unwritable : MemoryPatch → List String
unwritable p =
    filter (λ k. not (is_in k writable_fields)) (keys p.set ++ keys p.add ++ keys p.remove)

unfoldable pub char_count : String → ℕ
char_count String.[] = 0
char_count (String.◌∷◌ c s) = suc (char_count s)

-- Python's text of a list of plain names.
list_text : List String → String
list_text names = "[" <> (join ", " (map (λ n. "'" <> (n <> "'")) names) <> "]")

abbrev pub scoped : String → MemoryPatch → MemoryPatch
scoped scope p = record p {
  add_notes = map (λ (n : MemoryNote). record n { scope = scope }) p.add_notes;
}

abbrev pub notes_only : MemoryPatch → Bool
notes_only p = is_empty p.set && is_empty p.add && is_empty p.remove

module _ (is_printable : String → Bool) where
  -- `_note_problem`
  unfoldable pub note_problem : List MemoryNote → Option String
  note_problem [] = none
  note_problem (n ∷ notes) =
      let rest = note_problem notes in
      if ltb max_note_chars (char_count n.text)
      then some (
          "note longer than "
          <> (show max_note_chars <> " characters; keep it to one short preference"))
      else if not (is_printable n.text)
      then some "note contains line breaks or control characters"
      else rest

  unfoldable pub propose_notes : String → MemoryPatch → Option String → Option MemoryPatch × String
  propose_notes scope p (some problem) = (none, "error: " <> problem)
  propose_notes scope p none =
      if not (scope == "durable") && not (notes_only p)
      then (none, "error: a topic scope allows notes only")
      else (some (scoped scope p), "ok: proposal recorded")

  unfoldable pub propose_fields : String → MemoryPatch → List String → Option MemoryPatch × String
  unfolding propose_notes list_text
  propose_fields scope p (k ∷ blocked) =
      (none, "error: fields not writable: " <> list_text (sorted_set (k ∷ blocked)))
  propose_fields scope p [] = propose_notes scope p (note_problem p.add_notes)

  unfoldable pub propose_valid : Bool → Proposal → Option MemoryPatch × String
  unfolding propose_fields
  propose_valid profile_read q =
      if not profile_read
      then (none, "error: call read_profile first")
      else if is_in q.scope not_stored_scopes
      then (none, "ok: scope " <> (q.scope <> " is not stored"))
      else if is_empty_patch q.patch
      then (none, "error: empty patch; call finish instead")
      else propose_fields q.scope q.patch (unwritable q.patch)

  unfoldable pub propose : Bool → Validated → Option MemoryPatch × String
  unfolding propose_valid
  propose profile_read (invalid problem) = (none, "error: " <> problem)
  propose profile_read (proposal q) = propose_valid profile_read q

-- `dict.update`
unfoldable pub updated {ℓ} : {V : Type ℓ} → Dict V → Dict V → Dict V
updated d [] = d
updated d ((k, v) ∷ rest) = updated (put k v d) rest

-- `setdefault(name, []).extend(items)`
unfoldable pub extended : Dict (List String) → Dict (List String) → Dict (List String)
extended d [] = d
extended d ((k, items) ∷ rest) = extended (put k (or_default (get k d) [] ++ items) d) rest

abbrev stamped : ℕ → String → MemoryNote → MemoryNote
stamped learned_at run n = record n { learned_at = learned_at; source_run_id = some run }

unfoldable pub merge_from : ℕ → String → List MemoryPatch → MemoryPatch → MemoryPatch
merge_from learned_at run [] merged = merged
merge_from learned_at run (p ∷ proposals) merged = merge_from learned_at run proposals (record {
  set = updated merged.set p.set;
  add = extended merged.add p.add;
  remove = extended merged.remove p.remove;
  add_notes = merged.add_notes ++ map (stamped learned_at run) p.add_notes;
})

-- `merge_proposals`, at the instant `learned_at`.
unfoldable pub merge_proposals : ℕ → List MemoryPatch → String → MemoryPatch
merge_proposals learned_at proposals run =
    merge_from learned_at run proposals (record { set = []; add = []; remove = []; add_notes = [] })
