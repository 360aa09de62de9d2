-- ===== src/Workflow/Rounds.antt =====
-- How many replies a thread takes: the review loop of course_discovery/workflows/outer_graph.py.
use course_discovery_agent.Prelude.{
  ℕ, ◌+◌, ◌≤◌, String, Bool, true, false, Option, none, some, List, [], ◌∷◌, ◌≡◌, refl, ◌⊎◌, inl,
  inr, arith, length, length-append, subst, Option-cases, ap,
}
use course_discovery_agent.Domain.Models.{discard}
use course_discovery_agent.Domain.State.{AgentState}
use course_discovery_agent.Domain.RunConfig.{Configurable, max_review_rounds}
use course_discovery_agent.Guardrails.Pii.{redact_pii}
use course_discovery_agent.Review.Router.{
  RouterModel, router_node, publish_node, discard_node, route, classify, route_by_keywords,
  route_by_model, add_feedback, feedback_of,
}
use course_discovery_agent.Review.Nodes.{send_review_digest_node, review_gate_node}
use course_discovery_agent.Workflow.Services.{Services}
use course_discovery_agent.Workflow.Outer.{
  Node, parse_user_request, start_research_pass, retry_research_pass, course_research,
  send_review_digest, await_human_review, interpret_review_feedback, send_approved_courses,
  promote_approved_courses, discard_run, drop_pending_courses, record_review_outcome,
  curate_user_memory, finish, run_node, next_node, start_pass, retry_pass, route_from_router,
  write_research, write_parsed,
}
use course_discovery_agent.Workflow.Pauses.{Reach, started, moved, replied, closed}

abbrev pub rounds : AgentState → ℕ
rounds s = length s.feedback_history

add_feedback-rounds :
    (feedback : String) (history : List String)
    → length (add_feedback feedback history) ≤ length history + 1
add_feedback-rounds feedback history = ground (arith, length-append history (feedback ∷ []))

classify-history :
    (model : RouterModel) (feedback : String) (s : AgentState)
    → (classify model feedback s).feedback_history ≡ s.feedback_history
unfolding classify
classify-history none feedback s = unfold route_by_keywords in refl
classify-history (some model) feedback s = unfold route_by_model in ground arith

-- The router leaves the history alone, and out of rounds it discards.
route-rounds :
    (config : Configurable) (model : RouterModel) (s : AgentState)
    → ((route config model s).feedback_history ≡ s.feedback_history)
      × (((route config model s).routing_decision ≡ some discard)
          ⊎ (rounds s + 1 ≤ max_review_rounds config))
unfolding route
route-rounds config model s = ground (arith, classify-history model (feedback_of s) s)

module _ {W : Type 0} (services : Services W) (config : Configurable) where
  abbrev pub IsWithin : Node → AgentState → Type 0
  IsWithin discard_run s = rounds s ≤ max_review_rounds config + 1
  IsWithin drop_pending_courses s = rounds s ≤ max_review_rounds config + 1
  IsWithin record_review_outcome s = rounds s ≤ max_review_rounds config + 1
  IsWithin curate_user_memory s = rounds s ≤ max_review_rounds config + 1
  IsWithin finish s = rounds s ≤ max_review_rounds config + 1
  IsWithin _ s = rounds s ≤ max_review_rounds config

  abbrev IsWithinAt : Option Node → AgentState → Type 0
  IsWithinAt none s = Unit
  IsWithinAt (some m) s = IsWithin m s

  router_node-rounds :
      (redactor : String → Option String) (model : RouterModel) (s s' : AgentState)
      → router_node redactor config model s ≡ some s'
      → rounds s ≤ max_review_rounds config
      → (rounds s' ≤ max_review_rounds config + 1)
        × ((s'.routing_decision ≡ some discard) ⊎ (rounds s' ≤ max_review_rounds config))
  unfolding router_node
  router_node-rounds redactor model s s' ran h =
      elim (Option-cases (redact_pii redactor (feedback_of s))) [
        | inl e ↦ cc
        | inr (feedback, e) ↦ ground (
          arith,
          route-rounds config model s,
          add_feedback-rounds feedback (route config model s).feedback_history,
        )
      ]

  IsWithin-all : (m : Node) (s : AgentState) → rounds s ≤ max_review_rounds config → IsWithin m s
  IsWithin-all discard_run s h = omega arith
  IsWithin-all drop_pending_courses s h = omega arith
  IsWithin-all record_review_outcome s h = omega arith
  IsWithin-all curate_user_memory s h = omega arith
  IsWithin-all finish s h = omega arith
  IsWithin-all _ s h = h

  IsWithinAt-all :
      (o : Option Node) (s : AgentState) → rounds s ≤ max_review_rounds config → IsWithinAt o s
  IsWithinAt-all none s h = tt
  IsWithinAt-all (some m) s h = IsWithin-all m s h

  routed-IsWithin :
      (s : AgentState)
      → rounds s ≤ max_review_rounds config + 1
      → (s.routing_decision ≡ some discard) ⊎ (rounds s ≤ max_review_rounds config)
      → IsWithinAt (route_from_router config.chat_mode s.routing_decision) s
  unfolding route_from_router
  routed-IsWithin s h (inl d) = rw d h
  routed-IsWithin s h (inr le) =
      IsWithinAt-all (route_from_router config.chat_mode s.routing_decision) s le

  abbrev is_router : Node → Bool
  is_router interpret_review_feedback = true
  is_router _ = false

  -- No node but the router touches the history.
  run_node-rounds :
      (n : Node) (s s' : AgentState) (w w' : W)
      → run_node services config n s w ≡ some (s', w')
      → is_router n ≡ false
      → rounds s' ≡ rounds s
  unfolding run_node
  run_node-rounds parse_user_request s s' w w' ran h = elim (Option-cases (services.parse s w)) [
    | inl e ↦ cc
    | inr (p, e) ↦ unfold write_parsed in ground arith
  ]
  run_node-rounds start_research_pass s s' w w' ran h = unfold start_pass in ground arith
  run_node-rounds retry_research_pass s s' w w' ran h = unfold retry_pass in ground arith
  run_node-rounds course_research s s' w w' ran h = unfold write_research in ground arith
  run_node-rounds send_review_digest s s' w w' ran h =
      unfold send_review_digest_node in ground arith
  run_node-rounds await_human_review s s' w w' ran h = unfold review_gate_node in ground arith
  run_node-rounds interpret_review_feedback s s' w w' ran h = absurd cc
  run_node-rounds send_approved_courses s s' w w' ran h = unfold publish_node in ground arith
  run_node-rounds discard_run s s' w w' ran h = unfold discard_node in ground arith
  run_node-rounds _ s s' w w' ran h = ground arith

  run_router-rounds :
      (s s' : AgentState) (w w' : W)
      → run_node services config interpret_review_feedback s w ≡ some (s', w')
      → rounds s ≤ max_review_rounds config
      → (rounds s' ≤ max_review_rounds config + 1)
        × ((s'.routing_decision ≡ some discard) ⊎ (rounds s' ≤ max_review_rounds config))
  unfolding run_node
  run_router-rounds s s' w w' ran h =
      elim (Option-cases (router_node services.redactor config services.router_model s)) [
        | inl e ↦ cc
        | inr (s1, e) ↦
            ground (arith, router_node-rounds services.redactor services.router_model s s1 e h)
      ]

  next-IsWithin :
      (n : Node) (s s' : AgentState) (w w' : W)
      → run_node services config n s w ≡ some (s', w')
      → IsWithin n s
      → IsWithinAt (next_node services config n s') s'
  unfolding next_node
  next-IsWithin interpret_review_feedback s s' w w' ran h =
      let found = run_router-rounds s s' w w' ran h in routed-IsWithin s' found.0 found.1
  next-IsWithin discard_run s s' w w' ran h =
      omega (arith, run_node-rounds discard_run s s' w w' ran refl)
  next-IsWithin drop_pending_courses s s' w w' ran h =
      omega (arith, run_node-rounds drop_pending_courses s s' w w' ran refl)
  next-IsWithin record_review_outcome s s' w w' ran h =
      omega (arith, run_node-rounds record_review_outcome s s' w w' ran refl)
  next-IsWithin curate_user_memory s s' w w' ran h =
      omega (arith, run_node-rounds curate_user_memory s s' w w' ran refl)
  next-IsWithin finish s s' w w' ran h = omega (arith, run_node-rounds finish s s' w w' ran refl)
  next-IsWithin parse_user_request s s' w w' ran h =
      IsWithinAt-all (next_node services config parse_user_request s') s'
        (omega (arith, run_node-rounds parse_user_request s s' w w' ran refl))
  next-IsWithin start_research_pass s s' w w' ran h =
      IsWithinAt-all (next_node services config start_research_pass s') s'
        (omega (arith, run_node-rounds start_research_pass s s' w w' ran refl))
  next-IsWithin retry_research_pass s s' w w' ran h =
      IsWithinAt-all (next_node services config retry_research_pass s') s'
        (omega (arith, run_node-rounds retry_research_pass s s' w w' ran refl))
  next-IsWithin course_research s s' w w' ran h =
      IsWithinAt-all (next_node services config course_research s') s'
        (omega (arith, run_node-rounds course_research s s' w w' ran refl))
  next-IsWithin send_review_digest s s' w w' ran h =
      IsWithinAt-all (next_node services config send_review_digest s') s'
        (omega (arith, run_node-rounds send_review_digest s s' w w' ran refl))
  next-IsWithin await_human_review s s' w w' ran h =
      IsWithinAt-all (next_node services config await_human_review s') s'
        (omega (arith, run_node-rounds await_human_review s s' w w' ran refl))
  next-IsWithin send_approved_courses s s' w w' ran h =
      IsWithinAt-all (next_node services config send_approved_courses s') s'
        (omega (arith, run_node-rounds send_approved_courses s s' w w' ran refl))
  next-IsWithin promote_approved_courses s s' w w' ran h =
      IsWithinAt-all (next_node services config promote_approved_courses s') s'
        (omega (arith, run_node-rounds promote_approved_courses s s' w w' ran refl))

  -- However the thread runs and whatever the reviewer replies, a thread that started without replies
  -- waits at the review gate with at most `max_review_rounds` replies behind it, and it never keeps
  -- more than one reply beyond them.
  pub Reach-rounds :
      {start : AgentState} (n : Node) (s : AgentState) (w : W)
      → start.feedback_history ≡ []
      → Reach services config start n s w
      → IsWithin n s
  Reach-rounds n s w empty (started w1) =
      IsWithin-all parse_user_request s (omega (arith, ap length empty))
  Reach-rounds n s w empty (moved {n = before} {s = s0} {w = w0} r ran next) =
      subst (λ o. IsWithinAt o s) next
        (next-IsWithin before s0 s w0 w ran (Reach-rounds before s0 w0 empty r))
  Reach-rounds n s w empty (replied {s = s0} reply r) = Reach-rounds await_human_review s0 w empty r
  Reach-rounds n s w empty (closed {s = s0} chat r) =
      omega (arith, Reach-rounds await_human_review s0 w empty r)
