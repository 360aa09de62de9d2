-- ===== src/Workflow/Close.antt =====
-- course_discovery/review/close.py: a parked chat thread is closed by accepting its courses. The
-- checkpoint gives the thread's state and what runs next; the graph goes on as `Steps` says.
use course_discovery_agent.Prelude.{
  ℕ, String, Bool, true, false, Option, none, some, List, [], ◌∷◌, ◌≡◌, ◌≢◌, refl, if◌then◌else◌,
  suc, ap,
}
use course_discovery_agent.Domain.Models.{publish}
use course_discovery_agent.Domain.State.{AgentState}
use course_discovery_agent.Domain.RunConfig.{Configurable}
use course_discovery_agent.Memory.Nodes.{feedback_record}
use course_discovery_agent.Privacy.Registry.{
  Registry, Access, granted, access_error, incompatible, authorize_thread,
}
use course_discovery_agent.Privacy.Access.{MayOpen, authorize_thread-MayOpen}
use course_discovery_agent.Workflow.Services.{Services}
use course_discovery_agent.Workflow.Outer.{
  Node, await_human_review, interpret_review_feedback, record_review_outcome, next_node, run_node,
  route_from_router, beside, written,
}
use course_discovery_agent.Workflow.Steps.{Stop, ended, continue_at, after_node, segment}

abbrev pub recursion_limit : ℕ
recursion_limit = 60

abbrev pub implicit : String
implicit = "implicit"

pub record Snapshot : Type 0 where
  pub next : List Node
  pub state : AgentState

-- `snapshot.next == ("await_human_review",)`
unfoldable pub is_parked : List Node → Bool
is_parked (await_human_review ∷ []) = true
is_parked _ = false

-- How `close_thread` ends: it raises, it returns False, or it returns True after the run.
pub data Closing (W : Type 0) : Type 0 where
  denied : Access → Closing W
  left_open : Closing W
  closed : Stop W → Closing W

unfoldable pub close_config : String → String → Configurable
close_config thread_id reason = record {
  thread_id = thread_id;
  review_rounds = none;
  research_iterations = none;
  chat_mode = true;
  close_reason = some reason;
}

unfoldable pub accepted : AgentState → AgentState
accepted s = record s { routing_decision = some publish }

module _ {W : Type 0} (services : Services W) where
  unfoldable pub finish_thread : Configurable → Snapshot → W → Closing W
  finish_thread config snapshot w =
      if is_parked snapshot.next
      then closed (
          continue_at (segment services config recursion_limit)
            (next_node services config interpret_review_feedback (accepted snapshot.state))
            (accepted snapshot.state) w)
      else left_open

  unfoldable pub after_access : Access → Configurable → Snapshot → W → Closing W
  after_access granted config snapshot w = finish_thread config snapshot w
  after_access access_error config snapshot w = denied access_error
  after_access (incompatible v) config snapshot w = denied (incompatible v)

  unfoldable pub close_thread :
      String → String → String → Option Registry → Snapshot → W → Closing W
  close_thread user_id thread_id reason db snapshot w =
      after_access (authorize_thread (some user_id) thread_id db) (close_config thread_id reason)
        snapshot w

  denied_of :
      (a : Access) (config : Configurable) (snapshot : Snapshot) (w : W)
      → a ≢ granted
      → after_access a config snapshot w ≡ denied a
  unfolding after_access
  denied_of granted config snapshot w h = absurd (h refl)
  denied_of access_error config snapshot w h = refl
  denied_of (incompatible v) config snapshot w h = refl

  outcome_ends :
      (f : ℕ) (config : Configurable) (s : AgentState) (w w' w'' : W) (memory : Option String)
      → services.record_feedback (feedback_record config s) w ≡ some w'
      → services.curate s w' ≡ some (memory, w'')
      → segment services config (suc (suc f)) record_review_outcome s w
        ≡ ended (record s { memory_update = memory }) w''
  unfolding segment run_node next_node continue_at after_node
  outcome_ends f config s w w' w'' memory recorded curated =
      rw (recorded, after_node, beside) (rw (curated, after_node, written) refl)

  -- Where the user may open a thread that waits for a reply, where its feedback can be recorded and
  -- the curator answers, closing it records the feedback as an acceptance, curates and ends.
  pub close_thread-accepts :
      (user_id thread_id reason : String) (db : Registry) (s : AgentState) (w w' w'' : W)
      (memory : Option String)
      → MayOpen (some user_id) thread_id db
      → services.record_feedback (feedback_record (close_config thread_id reason) (accepted s)) w
        ≡ some w'
      → services.curate (accepted s) w' ≡ some (memory, w'')
      → (close_thread user_id thread_id reason
            (some db)
            (record { next = await_human_review ∷ []; state = s })
            w
          ≡ closed (ended (record (accepted s) { memory_update = memory }) w''))
        × ((feedback_record (close_config thread_id reason) (accepted s)).accepted ≡ true)
  unfolding close_thread finish_thread is_parked next_node route_from_router after_access
      continue_at accepted close_config
  close_thread-accepts user_id thread_id reason db s w w' w'' memory may recorded curated = (
    rw ((authorize_thread-MayOpen (some user_id) thread_id db).1 may) (
        ap closed (
          outcome_ends 58 (close_config thread_id reason) (accepted s) w w' w'' memory recorded
            curated)),
    unfold feedback_record accepted close_config in refl,
  )

  -- A thread that the user may not open is not run.
  pub close_thread-denied :
      (user_id thread_id reason : String) (db : Registry) (snapshot : Snapshot) (w : W)
      → ¬ MayOpen (some user_id) thread_id db
      → (a : Access) × (close_thread user_id thread_id reason (some db) snapshot w ≡ denied a)
  unfolding close_thread
  close_thread-denied user_id thread_id reason db snapshot w closed_to =
      let a = authorize_thread (some user_id) thread_id (some db) in
      (
        a,
        denied_of a _ snapshot w
            (λ h. closed_to ((authorize_thread-MayOpen (some user_id) thread_id db).0 h)),
      )
