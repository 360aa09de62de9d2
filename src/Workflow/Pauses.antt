-- ===== src/Workflow/Pauses.antt =====
-- What holds wherever the outer graph can get to: at the review gate, and where it publishes.
use course_discovery_agent.Prelude.{
  String, Bool, true, false, Option, none, some, ◌≡◌, refl, inl, inr, arith, length, subst,
  Bool-cases,
}
use course_discovery_agent.Domain.Models.{RoutingAction, publish, rewrite, augment, reset, discard}
use course_discovery_agent.Domain.State.{AgentState}
use course_discovery_agent.Domain.RunConfig.{Configurable}
use course_discovery_agent.Review.Router.{publish_node}
use course_discovery_agent.Review.Nodes.{send_review_digest_node}
use course_discovery_agent.Workflow.Services.{Services}
use course_discovery_agent.Workflow.Outer.{
  Node, parse_user_request, course_research, send_review_digest, await_human_review,
  interpret_review_feedback, send_approved_courses, promote_approved_courses, record_review_outcome,
  run_node, next_node, after_research, after_gateway, route_from_router, is_given, is_pass,
}

module _ {W : Type 0} (services : Services W) (config : Configurable) where
  -- The positions that a thread can get to: the node that runs next, and the states. At the gate
  -- the reviewer replies, or, in a chat, `close_thread` accepts the digest as the router would.
  pub data Reach (start : AgentState) : Node → AgentState → W → Type 0 where
    started : (w : W) → Reach start parse_user_request start w
    moved :
        {n m : Node} {s s' : AgentState} {w w' : W}
        → Reach start n s w
        → run_node services config n s w ≡ some (s', w')
        → next_node services config n s' ≡ some m
        → Reach start m s' w'
    replied :
        {s : AgentState} {w : W} (reply : Option String)
        → Reach start await_human_review s w
        → Reach start await_human_review (record s { manager_feedback = reply }) w
    closed :
        {s : AgentState} {w : W}
        → config.chat_mode ≡ true
        → Reach start await_human_review s w
        → Reach start record_review_outcome (record s { routing_decision = some publish }) w

  abbrev pub IsStamped : AgentState → Type 0
  IsStamped s =
      (s.research_pass ≡ some (length s.feedback_history)) × (is_given s.discard_reason ≡ false)

  abbrev pub IsApproved : AgentState → Type 0
  IsApproved s = (config.chat_mode ≡ false) × (s.routing_decision ≡ some publish)

  -- What holds of the state where a node runs next.
  abbrev pub IsSafe : Node → AgentState → Type 0
  IsSafe send_review_digest s = IsStamped s
  IsSafe await_human_review s = IsStamped s
  IsSafe send_approved_courses s = IsApproved s
  IsSafe promote_approved_courses s = IsApproved s
  IsSafe _ s = Unit

  abbrev IsSafeAt : Option Node → AgentState → Type 0
  IsSafeAt none s = Unit
  IsSafeAt (some m) s = IsSafe m s

  after_research-IsSafe : (s : AgentState) → IsSafe (after_research s) s
  unfolding after_research
  after_research-IsSafe s = elim (Bool-cases (is_given s.discard_reason)) [
    | inl given ↦ rw given tt
    | inr clear ↦ elim (Bool-cases (is_pass s.research_pass (length s.feedback_history))) [
      | inl fresh ↦ rw (clear, fresh) (ground arith, clear)
      | inr stale ↦ rw (clear, stale) tt
    ]
  ]

  after_gateway-IsSafe : (s : AgentState) → IsSafe (after_gateway s) s
  unfolding after_gateway
  after_gateway-IsSafe s = elim (Bool-cases (is_given s.discard_reason)) [
    | inl given ↦ rw given tt
    | inr clear ↦ rw clear tt
  ]

  routed-IsSafe :
      (chat_mode : Bool) (decision : Option RoutingAction) (s : AgentState)
      → config.chat_mode ≡ chat_mode
      → s.routing_decision ≡ decision
      → IsSafeAt (route_from_router chat_mode decision) s
  unfolding route_from_router
  routed-IsSafe chat_mode none s c d = tt
  routed-IsSafe true (some publish) s c d = tt
  routed-IsSafe false (some publish) s c d = (c, d)
  routed-IsSafe chat_mode (some rewrite) s c d = tt
  routed-IsSafe chat_mode (some augment) s c d = tt
  routed-IsSafe chat_mode (some reset) s c d = tt
  routed-IsSafe chat_mode (some discard) s c d = tt

  next-IsSafe :
      (n : Node) (s s' : AgentState) (w w' : W)
      → run_node services config n s w ≡ some (s', w')
      → IsSafe n s
      → IsSafeAt (next_node services config n s') s'
  unfolding run_node next_node
  next-IsSafe parse_user_request s s' w w' ran h = after_gateway-IsSafe s'
  next-IsSafe course_research s s' w w' ran h = after_research-IsSafe s'
  next-IsSafe interpret_review_feedback s s' w w' ran h =
      routed-IsSafe config.chat_mode s'.routing_decision s' refl refl
  next-IsSafe send_review_digest s s' w w' ran h = unfold send_review_digest_node in ground arith
  next-IsSafe send_approved_courses s s' w w' ran h = unfold publish_node in ground arith
  next-IsSafe _ s s' w w' ran h = tt

  -- Wherever the graph gets to: at the review gate the digest is that of the current round (the
  -- pass number is the number of replies) and the run is not discarded; and the courses are
  -- published or promoted only under the decision PUBLISH, and never in a chat.
  pub Reach-IsSafe :
      {start : AgentState} (n : Node) (s : AgentState) (w : W) → Reach start n s w → IsSafe n s
  Reach-IsSafe n s w (started w1) = tt
  Reach-IsSafe n s w (moved {n = before} {s = s0} {w = w0} r ran next) =
      subst (λ o. IsSafeAt o s) next
        (next-IsSafe before s0 s w0 w ran (Reach-IsSafe before s0 w0 r))
  Reach-IsSafe n s w (replied {s = s0} reply r) = Reach-IsSafe await_human_review s0 w r
  Reach-IsSafe n s w (closed chat r) = tt
