-- ===== src/Tests/Memory.antt =====
-- Runs of the profile's merging and of the curator's session: course_discovery/research_agent/memory
-- and course_discovery/memory_curator.
use course_discovery_agent.Prelude.{
  String, true, false, none, some, List, [], ◌∷◌, ◌≡◌, refl, arith, is_in, ◌&&◌, ◌||◌, not, filter,
}
use course_discovery_agent.Domain.Models.{no_memory}
use course_discovery_agent.Memory.Patches.{MemoryPatch, is_empty_patch, merge_unique, apply_patch}
use course_discovery_agent.Memory.Merging.{IsProfile, is_in-merge_unique, apply_patch-IsProfile}
use course_discovery_agent.Memory.Repository.{MemoryStore}
use course_discovery_agent.Curator.Tools.{
  Proposal, proposal, scoped, propose, propose_valid, propose_fields, propose_notes, unwritable,
  keys, note_problem, char_count, invalid,
}
use course_discovery_agent.Curator.Graph.{Reply, calls, CuratorState, session}
use course_discovery_agent.Curator.Proposals.{IsStorable, propose-IsStorable}
use course_discovery_agent.Curator.Session.{Ends, history, session-AreStored}

abbrev patch : MemoryPatch
patch = record {
  set = ("preferred_level", some "beginner") ∷ [];
  add = ("preferred_providers", "edx" ∷ "edx" ∷ "udemy" ∷ []) ∷ [];
  remove = ("preferred_providers", "udemy" ∷ []) ∷ [];
  add_notes =
      record { text = "short videos"; scope = "durable"; learned_at = 1; source_run_id = none }
      ∷ [];
}

is_in-merge_unique_example :
    is_in "edx" (merge_unique ("udemy" ∷ []) ("edx" ∷ "edx" ∷ []) ("udemy" ∷ [])) ≡ (
      (is_in "edx" ("udemy" ∷ []) || is_in "edx" ("edx" ∷ "edx" ∷ []))
      && not (is_in "edx" ("udemy" ∷ [])))
is_in-merge_unique_example =
    is_in-merge_unique "edx" ("udemy" ∷ []) ("edx" ∷ "edx" ∷ []) ("udemy" ∷ [])

apply_patch-IsProfile_example : IsProfile (apply_patch no_memory patch)
apply_patch-IsProfile_example = apply_patch-IsProfile no_memory patch (record {
  preferred_providers = tt;
  avoided_providers = tt;
  preferred_languages = tt;
  career_goals = tt;
  completed_course_urls = tt;
  rejected_course_urls = tt;
  notes = omega arith;
})

abbrev empty_store : MemoryStore
empty_store = record { memory_updates = []; user_preferences = [] }

abbrev offered : Proposal
offered = record { scope = "durable"; patch = patch }

propose-IsStorable_example :
    (true ≡ true)
    × (q : Proposal) × (proposal offered ≡ proposal q)
    × IsStorable (λ t. true) q (scoped "durable" patch)
unfolding propose propose_valid propose_fields propose_notes unwritable keys note_problem char_count
    is_in is_empty_patch filter
propose-IsStorable_example =
    propose-IsStorable (λ t. true) true (proposal offered) (scoped "durable" patch) refl

abbrev chatty : List String → Reply
chatty messages = calls "" (
    record { name = "read_profile"; args = invalid "" }
    ∷ record { name = "propose_patch"; args = proposal offered }
    ∷ [])

abbrev fresh_session : CuratorState
fresh_session = record {
  messages = [];
  last_calls = [];
  steps = 0;
  profile_read = false;
  finished = false;
  failure = none;
  proposals = [];
}

session-AreStored_example :
    Ends
      (λ t. true)
      chatty
      (λ m. some "{}")
      "{}"
      fresh_session
      (history (λ t. true) chatty (λ m. some "{}") "{}" 4 4 fresh_session)
      (session (λ t. true) chatty (λ m. some "{}") "{}" 4 4 fresh_session)
session-AreStored_example =
    session-AreStored (λ t. true) chatty (λ m. some "{}") "{}" 4 4 fresh_session (omega arith)
      (omega arith)
