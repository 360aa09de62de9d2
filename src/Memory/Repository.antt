-- ===== src/Memory/Repository.antt =====
-- `save_user_memory` of course_discovery/research_agent/memory/repository.py, inside its transaction,
-- on the tables `memory_updates` and `user_preferences`. The profile's embedding, a column computed
-- from the merged profile, is left out. The outer `none` is an exception, which leaves the tables.
use course_discovery_agent.Prelude.{
  String, ◌||◌, Option, none, some, or_default, List, ◌∷◌, is_in, ◌==◌, if◌then◌else◌, ◌≡◌, refl,
  Bool-cases, eq_refl, inl, inr,
}
use course_discovery_agent.Prelude.Dict.{Dict, get, put}
use course_discovery_agent.Domain.Models.{UserMemory, no_memory}
use course_discovery_agent.Memory.Patches.{MemoryPatch, is_empty_patch, apply_patch, redact_patch}

pub record MemoryStore : Type 0 where
  pub memory_updates : List String
  pub user_preferences : Dict UserMemory

unfoldable pub load_user_memory : Option String → MemoryStore → UserMemory
load_user_memory none store = no_memory
load_user_memory (some user) store =
    if user == "" then no_memory else or_default (get user store.user_preferences) no_memory

unfoldable pub merge_into : String → MemoryPatch → MemoryStore → UserMemory × MemoryStore
merge_into user patch store =
    let merged = apply_patch (or_default (get user store.user_preferences) no_memory) patch in
    (merged, record store { user_preferences = put user merged store.user_preferences })

abbrev some_first : UserMemory × MemoryStore → Option UserMemory × MemoryStore
some_first (m, store) = (some m, store)

-- A run's patch is written once: its `memory_updates` row is the claim.
unfoldable pub save_claimed :
    String → MemoryPatch → Option String → MemoryStore → Option UserMemory × MemoryStore
save_claimed user patch none store = some_first (merge_into user patch store)
save_claimed user patch (some run) store =
    if is_in run store.memory_updates
    then (none, store)
    else some_first
        (merge_into user patch (record store { memory_updates = run ∷ store.memory_updates }))

module _ (redactor : String → Option String) where
  save_redacted :
      String
      → Option MemoryPatch
      → Option String
      → MemoryStore
      → Option (Option UserMemory × MemoryStore)
  save_redacted user none run store = none
  save_redacted user (some patch) run store = some (save_claimed user patch run store)

  unfoldable pub save_user_memory :
      Option String
      → MemoryPatch
      → Option String
      → MemoryStore
      → Option (Option UserMemory × MemoryStore)
  unfolding save_redacted
  save_user_memory none patch run store = some (none, store)
  save_user_memory (some user) patch run store =
      if user == "" || is_empty_patch patch
      then some (none, store)
      else save_redacted user (redact_patch redactor patch) run store

-- Saving for a run that has saved before returns nothing and changes nothing, for whichever user
-- and patch.
pub save_claimed-twice :
    (user other : String) (patch patch' : MemoryPatch) (run : String) (store : MemoryStore)
    → save_claimed other patch' (some run) (save_claimed user patch (some run) store).1
      ≡ (none, (save_claimed user patch (some run) store).1)
unfolding save_claimed merge_into is_in
save_claimed-twice user other patch patch' run store =
    elim (Bool-cases (is_in run store.memory_updates)) [
      | inl e ↦ rw (e, e) refl
      | inr e ↦ rw (e, eq_refl) refl
    ]
