-- ===== src/Research/Passes.antt =====
-- What one pass of the research subgraph costs: course_discovery/workflows/research_graph.py.
use course_discovery_agent.Prelude.{
  ℕ, ◌+◌, ◌*◌, ◌≤◌, false, none, some, ◌≡◌, refl, arith, ◌⊎◌, inl, inr, Bool-cases, Option-cases,
}
use course_discovery_agent.Domain.Models.{RoutingAction}
use course_discovery_agent.Domain.State.{ResearchState}
use course_discovery_agent.Domain.RunConfig.{Configurable, max_research_iterations}
use course_discovery_agent.Research.Services.{ResearchServices}
use course_discovery_agent.Research.Planning.{research_planner_node, replanner_node}
use course_discovery_agent.Research.Graph.{
  begin_pass, is_gap_first, from_plan, check_loop, entered, run_pass, user_memory_lookup_node,
  course_cache_lookup_node, and_then,
}
use course_discovery_agent.Research.Costs.{
  searches, replanner_node-IsReplanned, research_planner_node-pending, looked_up-IsIdle,
}
use course_discovery_agent.Research.Loops.{Ends, from_plan-Ends, check_loop-Ends}

module _ {P W : Type 0} (services : ResearchServices P W) (config : Configurable) where
  open services use {
    urls, sha256, ratio_90, hours_in, float_text, search, load_user_memory, search_course_cache,
    stage_courses, synthesize,
  }

  gap_first-Ends :
      (base limit fuel : ℕ) (s : ResearchState) (w : W)
      → max_research_iterations config ≤ limit
      → max_research_iterations config + 1 ≤ fuel
      → searches s + 4 ≤ base + 4 * s.research_iteration
      → s.research_iteration ≤ limit
      → s.research_iteration + 1 ≤ limit
      → Ends base limit (
          from_plan services config
            (check_loop services config fuel)
            (replanner_node float_text s)
            w)
  gap_first-Ends base limit fuel s w top enough cost below next =
      let s1 = replanner_node float_text s in
      let r = replanner_node-IsReplanned services config s in
      elim r.1 [
        | inl (d, i) ↦
            from_plan-Ends services config base limit (check_loop services config fuel) s1 w
              (rw d (omega (arith, r.0, i, cost))) (omega (arith, i, below)) (inl d)
        | inr (i, four) ↦
            from_plan-Ends services config base limit (check_loop services config fuel) s1 w
              (omega (arith, r.0, i, cost, four)) (omega (arith, i, next))
              (inr (λ s2 w2 j f.
                check_loop-Ends services config base limit fuel s2 w2 top
                  (omega (arith, enough), omega (arith, enough)) f))
      ]

  -- A pass from its first node, for a limit that leaves room for the gap search it may start with.
  begun-Ends :
      (base limit fuel : ℕ) (s : ResearchState) (w : W)
      → max_research_iterations config ≤ limit
      → max_research_iterations config + 1 ≤ fuel
      → searches (begin_pass s) + 4 ≤ base + 4 * (begin_pass s).research_iteration
      → (begin_pass s).research_iteration ≤ limit
      → (is_gap_first (begin_pass s) ≡ false) ⊎ ((begin_pass s).research_iteration + 1 ≤ limit)
      → Ends base limit (run_pass services config fuel s w)
  unfolding run_pass
  begun-Ends base limit fuel s w top enough cost below first =
      elim (Bool-cases (is_gap_first (begin_pass s))) [
        | inl gap ↦ rw gap (
            gap_first-Ends base limit fuel (begin_pass s) w top enough cost below
              (elim first [ inl e ↦ absurd cc | inr e ↦ e ]))
        | inr normal ↦
            elim (Option-cases (
              and_then services config (user_memory_lookup_node services config (begin_pass s) w)
                (course_cache_lookup_node services config))) [
                  | inl e ↦ rw (normal, e, entered) tt
                  | inr ((s1, w1), e) ↦
                      let a = looked_up-IsIdle services config (begin_pass s) s1 w w1 e in
                      let b = research_planner_node-pending services config s1 in
                      rw (normal, e, entered)
                        (from_plan-Ends services config base limit (check_loop services config fuel)
                          (research_planner_node float_text s1) w1
                          (omega (arith, a.0, a.1, b.0.0, b.0.1, b.1, cost))
                          (omega (arith, a.0, b.0.0, below))
                          (inr (λ s2 w2 i f.
                            check_loop-Ends services config base limit fuel s2 w2 top
                              (omega (arith, enough), omega (arith, enough)) f)))
                ]
      ]

  fresh_begin :
      (s : ResearchState)
      → s.routing_decision ≡ none
      → (searches (begin_pass s) ≡ 0)
        × ((begin_pass s).research_iteration ≡ 0)
        × (is_gap_first (begin_pass s) ≡ false)
  unfolding begin_pass is_gap_first
  fresh_begin s fresh = rw fresh (refl, refl, refl)

  resumed_begin :
      (s : ResearchState) (action : RoutingAction)
      → s.routing_decision ≡ some action
      → begin_pass s ≡ s
  unfolding begin_pass
  resumed_begin s action again = rw again refl

  -- A pass without a routing decision ends by itself, whatever the services answer: after at most
  -- `max_research_iterations` gap searches, and with at most four searches and four for each gap
  -- search.
  pub fresh_pass-Ends :
      (s : ResearchState) (w : W)
      → s.routing_decision ≡ none
      → Ends 4
          (max_research_iterations config)
          (run_pass services config (max_research_iterations config + 1) s w)
  fresh_pass-Ends s w fresh =
      let b = fresh_begin s fresh in
      begun-Ends 4 (max_research_iterations config) (max_research_iterations config + 1) s w
        (omega arith) (omega arith) (omega (arith, b.0)) (omega (arith, b.1)) (inl b.2)

  -- A pass under a routing decision ends by itself, whatever the services answer: its iterations
  -- pass those behind it by at most `max_research_iterations` and one, and its searches pass those
  -- behind it by at most four and four for each of its iterations.
  pub resumed_pass-Ends :
      (s : ResearchState) (w : W) (action : RoutingAction)
      → s.routing_decision ≡ some action
      → Ends
          (searches s + 4)
          (s.research_iteration + 1 + max_research_iterations config)
          (run_pass services config (max_research_iterations config + 1) s w)
  resumed_pass-Ends s w action again =
      let b = resumed_begin s action again in
      begun-Ends (searches s + 4) (s.research_iteration + 1 + max_research_iterations config)
        (max_research_iterations config + 1) s w (omega arith) (omega arith) (rw b (omega arith))
        (rw b (omega arith)) (inr (rw b (omega arith)))
