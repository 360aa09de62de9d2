-- ===== src/Workflow/Steps.antt =====
-- One resume of the outer graph, from a node to the next stop: the graph pauses before
-- `await_human_review` (`interrupt_before`) and ends behind `curate_user_memory`.
use course_discovery_agent.Prelude.{
  ℕ, zero, suc, ◌+◌, ◌≤◌, ◌<◌, Option, none, some, ◌≡◌, ◌≢◌, refl, ◌⊎◌, inl, inr, arith,
  Option-cases, leb, if◌then◌else◌,
}
use course_discovery_agent.Domain.State.{AgentState}
use course_discovery_agent.Domain.RunConfig.{Configurable}
use course_discovery_agent.Workflow.Services.{Services}
use course_discovery_agent.Workflow.Outer.{
  Node, parse_user_request, start_research_pass, retry_research_pass, course_research,
  send_review_digest, await_human_review, interpret_review_feedback, send_approved_courses,
  promote_approved_courses, discard_run, drop_pending_courses, record_review_outcome,
  curate_user_memory, finish, run_node, next_node, start_pass, retry_pass, after_research,
  after_gateway, route_from_router, write_research,
}

-- How a resume ends.
pub data Stop (W : Type 0) : Type 0 where
  paused ended : AgentState → W → Stop W
  raised out_of_fuel : Stop W

-- On to the next node, unless the graph stops there.
unfoldable pub continue_at :
    {W : Type 0} → (Node → AgentState → W → Stop W) → Option Node → AgentState → W → Stop W
continue_at k none s w = raised
continue_at k (some await_human_review) s w = paused s w
continue_at k (some finish) s w = ended s w
continue_at k (some n) s w = k n s w

unfoldable pub after_node :
    {W : Type 0}
    → (Node → AgentState → W → Stop W)
    → (AgentState → Option Node)
    → Option (AgentState × W)
    → Stop W
unfolding continue_at
after_node k next none = raised
after_node k next (some (s, w)) = continue_at k (next s) s w

-- How many nodes can still run before a stop. A pass that came back stale is retried once.
abbrev pub retries_left : AgentState → ℕ
retries_left s = if leb 1 s.research_retries then 0 else 2

unfoldable pub rank : Node → AgentState → ℕ
rank finish s = 1
rank curate_user_memory s = 1
rank record_review_outcome s = 2
rank drop_pending_courses s = 3
rank discard_run s = 4
rank promote_approved_courses s = 3
rank send_approved_courses s = 4
rank send_review_digest s = 1
rank course_research s = 5 + retries_left s
rank retry_research_pass s = if leb 1 s.research_retries then 1 else 6
rank start_research_pass s = 8
rank parse_user_request s = 9
rank interpret_review_feedback s = 10
rank await_human_review s = 11

rank-pos : (n : Node) (s : AgentState) → 1 ≤ rank n s
unfolding rank
rank-pos finish s = omega arith
rank-pos course_research s = omega arith
rank-pos retry_research_pass s = ground arith
rank-pos _ s = omega arith

rank-le : (n : Node) (s : AgentState) → rank n s ≤ 11
unfolding rank
rank-le finish s = omega arith
rank-le course_research s = ground arith
rank-le retry_research_pass s = ground arith
rank-le _ s = omega arith

module _ {W : Type 0} (services : Services W) (config : Configurable) where
  unfoldable pub segment : ℕ → Node → AgentState → W → Stop W
  unfolding after_node
  segment zero n s w = out_of_fuel
  segment (suc f) n s w =
      after_node (segment f) (next_node services config n) (run_node services config n s w)

  -- Every node that runs leaves fewer nodes to run.
  rank-next :
      (n m : Node) (s s' : AgentState) (w w' : W)
      → run_node services config n s w ≡ some (s', w')
      → next_node services config n s' ≡ some m
      → (m ≡ await_human_review) ⊎ (m ≡ finish) ⊎ (rank m s' < rank n s)
  unfolding run_node next_node rank
  rank-next parse_user_request m s s' w w' ran next = unfold after_gateway in ground arith
  rank-next start_research_pass m s s' w w' ran next = unfold start_pass in ground arith
  rank-next retry_research_pass m s s' w w' ran next = unfold retry_pass in ground arith
  rank-next course_research m s s' w w' ran next =
      unfold write_research after_research in ground arith
  rank-next interpret_review_feedback m s s' w w' ran next =
      unfold route_from_router in ground arith
  rank-next _ m s s' w w' ran next = ground arith

  abbrev Stops : Stop W → Type 0
  Stops o = o ≢ out_of_fuel

  abbrev Goes : ℕ → Option Node → AgentState → Type 0
  Goes f o s = (m : Node) → o ≡ some m → (m ≡ await_human_review) ⊎ (m ≡ finish) ⊎ (rank m s ≤ f)

  continue-Stops :
      (f : ℕ) (o : Option Node) (s : AgentState) (w : W)
      → ((n : Node) → rank n s ≤ f → Stops (segment f n s w))
      → Goes f o s
      → Stops (continue_at (segment f) o s w)
  unfolding continue_at
  continue-Stops f none s w ih go e = cc
  continue-Stops f (some await_human_review) s w ih go e = cc
  continue-Stops f (some finish) s w ih go e = cc
  continue-Stops f (some m) s w ih go e = elim (go m refl) [
    | inl here ↦ cc
    | inr (inl here) ↦ cc
    | inr (inr below) ↦ ih m below e
  ]

  segment_stops_below :
      (fuel : ℕ) (n : Node) (s : AgentState) (w : W)
      → rank n s ≤ fuel
      → segment fuel n s w ≢ out_of_fuel
  unfolding segment
  segment_stops_below zero n s w h = absurd (omega (arith, rank-pos n s))
  segment_stops_below (suc f) n s w h = elim (Option-cases (run_node services config n s w)) [
    | inl e ↦ rw (e, after_node) (λ x. cc)
    | inr ((s', w'), e) ↦
        rw (e, after_node)
          (continue-Stops f (next_node services config n s') s' w'
            (λ m. segment_stops_below f m s' w')
            (λ m next. elim (rank-next n m s s' w w' e next) [
              | inl a ↦ inl a
              | inr (inl b) ↦ inr (inl b)
              | inr (inr c) ↦ inr (inr (omega arith))
            ]))
  ]

  -- A resume stops: from any node, at most 11 nodes run before the graph pauses at the review gate,
  -- ends, or raises, whatever the services answer. It never runs on without end.
  pub segment_stops : (n : Node) (s : AgentState) (w : W) → segment 11 n s w ≢ out_of_fuel
  segment_stops n s w = segment_stops_below 11 n s w (rank-le n s)
