-- ===== src/Curator/Graph.antt =====
-- course_discovery/memory_curator/graph.py. The conversation with the model is a list of texts; the
-- model, the text of the profile that `load_user_memory` finds and the run's events are parameters; the
-- first two answer by the conversation so far. `none` is an exception.
use course_discovery_agent.Prelude.{
  ℕ, zero, suc, ◌+◌, ◌<>◌, String, Bool, true, false, not, ◌||◌, Option, none, some, List, [], ◌∷◌,
  ◌++◌, leb, if◌then◌else◌, ◌==◌,
}
use course_discovery_agent.Memory.Patches.{MemoryPatch, is_empty_patch}
use course_discovery_agent.Curator.Tools.{Validated, propose, merge_proposals}

-- A call of a tool: its name, and what its arguments are read as where it is a proposal.
pub record ToolCall : Type 0 where
  pub name : String
  pub args : Validated

-- What the model answers: a message with calls, or an exception.
pub data Reply : Type 0 where
  calls : String → List ToolCall → Reply
  llm_error : Reply

pub record CuratorState : Type 0 where
  pub messages : List String
  pub last_calls : List ToolCall
  pub steps : ℕ
  pub profile_read : Bool
  pub finished : Bool
  pub failure : Option String
  pub proposals : List MemoryPatch

module _ (is_printable : String → Bool) (model : List String → Reply)
    (profile : List String → Option String) (events : String) where
  unfoldable pub answered : CuratorState → Reply → CuratorState
  answered s llm_error = record s { steps = s.steps + 1; failure = some "llm_error" }
  answered s (calls message cs) = record s {
    messages = s.messages ++ message ∷ [];
    steps = s.steps + 1;
    last_calls = cs;
  }

  unfoldable pub curator_model : CuratorState → CuratorState
  unfolding answered
  curator_model s = answered s (model s.messages)

  unfoldable pub proposed : CuratorState → Option MemoryPatch × String → CuratorState
  proposed s (none, message) = record s { messages = s.messages ++ message ∷ [] }
  proposed s (some p, message) = record s {
    messages = s.messages ++ message ∷ [];
    proposals = s.proposals ++ p ∷ [];
  }

  abbrev pub replied : String → CuratorState → CuratorState
  replied text s = record s { messages = s.messages ++ text ∷ [] }

  unfoldable pub profile_shown : CuratorState → Option String → Option CuratorState
  profile_shown s none = none
  profile_shown s (some text) = some (record (replied text s) { profile_read = true })

  -- `_call_tool`, with its reply and its part of the update.
  unfoldable pub call_tool : ToolCall → CuratorState → Option CuratorState
  unfolding proposed profile_shown
  call_tool c s =
      if c.name == "read_profile"
      then profile_shown s (profile s.messages)
      else if c.name == "read_run_events"
      then some (replied events s)
      else if c.name == "finish"
      then some (record (replied "ok" s) { finished = true })
      else if c.name == "propose_patch"
      then some (proposed s (propose is_printable s.profile_read c.args))
      else some (replied ("error: unknown tool " <> c.name) s)

  unfoldable pub call_all : List ToolCall → CuratorState → Option CuratorState
  call_all [] s = some s
  call_all (c ∷ cs) s = elim (call_tool c s) [ none ↦ none | some s' ↦ call_all cs s' ]

  unfoldable pub run_calls : List ToolCall → CuratorState → Option CuratorState
  run_calls [] s = some (record s { failure = some "no_tool_call" })
  run_calls (c ∷ cs) s = call_all (c ∷ cs) s

  unfoldable pub run_tools : CuratorState → Option CuratorState
  run_tools s = run_calls s.last_calls s

  abbrev pub has_failed : Option String → Bool
  has_failed none = false
  has_failed (some f) = not (f == "")

  -- Where `_after_tools` goes to `commit`.
  unfoldable pub is_over : ℕ → CuratorState → Bool
  is_over max_steps s = has_failed s.failure || s.finished || leb max_steps s.steps

  -- The loop of `curator_model` and `run_tools`. The outer `none` says that the fuel is too little, the
  -- inner one is an exception.
  unfoldable pub session : ℕ → ℕ → CuratorState → Option (Option CuratorState)
  session zero max_steps s = none
  session (suc fuel) max_steps s =
      let asked = curator_model s in
      if has_failed asked.failure then some (some asked) else elim (run_tools asked) [
        | none ↦ some none
        | some ran ↦
            let rest = session fuel max_steps ran in
            if is_over max_steps ran then some (some ran) else rest
      ]

  module _ {W : Type 0} (save : MemoryPatch → W → Option (Bool × W)) (learned_at : ℕ)
      (run : String) where
    saved : Option (Bool × W) → Option (String × W)
    saved none = none
    saved (some (true, w)) = some ("committed", w)
    saved (some (false, w)) = some ("skipped:not_applied", w)

    commit_merged : MemoryPatch → W → Option (String × W)
    unfolding saved
    commit_merged p w =
        if is_empty_patch p then some ("skipped:no_changes", w) else saved (save p w)

    -- `state.get("failure") or (None if state.get("finished") else "step_cap")`
    abbrev failure_of : CuratorState → Option String
    failure_of s =
        if has_failed s.failure then s.failure else if s.finished then none else some "step_cap"

    commit_at : Option String → CuratorState → W → Option (String × W)
    unfolding commit_merged
    commit_at (some f) s w = some ("failed:" <> f, w)
    commit_at none s w = commit_merged (merge_proposals learned_at s.proposals run) w

    unfoldable pub commit : CuratorState → W → Option (String × W)
    unfolding commit_at
    commit s w = commit_at (failure_of s) s w
