-- ===== src/Research/Loops.antt =====
-- The loop of checks and gap searches of course_discovery/workflows/research_graph.py, and what it costs.
use course_discovery_agent.Prelude.{
  ℕ, zero, suc, ◌+◌, ◌*◌, ◌≤◌, ◌<◌, false, none, some, ◌≡◌, refl, ◌∙◌, arith, ◌⊎◌, inl, inr,
  Bool-cases, Option-cases,
}
use course_discovery_agent.Domain.State.{ResearchState}
use course_discovery_agent.Domain.RunConfig.{Configurable, max_research_iterations}
use course_discovery_agent.Research.Services.{ResearchServices}
use course_discovery_agent.Research.Planning.{replanner_node}
use course_discovery_agent.Research.Search.{search_all}
use course_discovery_agent.Research.Extraction.{candidate_extractor_node}
use course_discovery_agent.Research.Validation.{is_enough}
use course_discovery_agent.Research.Graph.{
  Dispatch, stop, merge, fan_out, dispatch_search_queries, Pass, completed, raised, out_of_fuel,
  search_step, check_step, finish_pass, finished, after_plan, from_plan, after_check, check_loop,
  course_cache_upsert_node, synthesizer_step, and_then, staged, digested,
}
use course_discovery_agent.Research.Costs.{
  searches, IsIdle, pending, check_step-IsIdle, search_all-searches,
  candidate_extractor_node-IsIdle, replanner_node-IsReplanned,
}

-- The searches stay within four for every iteration beyond a base, and the iterations within a limit.
abbrev pub IsFrugal : ℕ → ℕ → ResearchState → Type 0
IsFrugal base limit s =
    (searches s ≤ base + 4 * s.research_iteration) × (s.research_iteration ≤ limit)

abbrev pub Ends : {W : Type 0} → ℕ → ℕ → Pass W → Type 0
Ends base limit (completed s w) = IsFrugal base limit s
Ends base limit raised = Unit
Ends base limit out_of_fuel = ⊥

module _ {P W : Type 0} (services : ResearchServices P W) (config : Configurable) where
  open services use {
    urls, sha256, ratio_90, hours_in, float_text, search, load_user_memory, search_course_cache,
    stage_courses, synthesize,
  }

  staged-IsIdle :
      (s s' : ResearchState) (w w' : W)
      → course_cache_upsert_node services config s w ≡ some (s', w')
      → IsIdle s s'
  unfolding course_cache_upsert_node staged
  staged-IsIdle s s' w w' e = ground arith

  synthesizer_step-IsIdle :
      (s s' : ResearchState) (w w' : W)
      → synthesizer_step services config s w ≡ some (s', w')
      → IsIdle s s'
  unfolding synthesizer_step digested
  synthesizer_step-IsIdle s s' w w' e = ground arith

  finish_pass-Ends :
      (base limit : ℕ) (s : ResearchState) (w : W)
      → IsFrugal base limit s
      → Ends base limit (finish_pass services config s w)
  unfolding finish_pass
  finish_pass-Ends base limit s w h =
      elim (Option-cases (course_cache_upsert_node services config s w)) [
        | inl e ↦ rw (e, and_then, finished) tt
        | inr ((s1, w1), e) ↦ elim (Option-cases (synthesizer_step services config s1 w1)) [
          | inl e1 ↦ rw (e, and_then, e1, finished) tt
          | inr ((s2, w2), e1) ↦
              let a = staged-IsIdle s s1 w w1 e in
              let b = synthesizer_step-IsIdle s1 s2 w1 w2 e1 in
              rw (e, and_then, e1, finished)
                (
                  omega (arith, a.0, a.1, b.0, b.1, h.0, h.1),
                  omega (arith, a.0, a.1, b.0, b.1, h.0, h.1),
                )
        ]
      ]

  search_step-searches :
      (d : Dispatch) (s s' : ResearchState) (w w' : W)
      → search_step services config d s w ≡ some (s', w')
      → (s'.research_iteration ≡ s.research_iteration) × (searches s' ≤ searches s + pending d)
  unfolding search_step
  search_step-searches stop s s' w w' = λ e. ground arith
  search_step-searches merge s s' w w' = λ e. ground arith
  search_step-searches (fan_out qs) s s' w w' = elim (Option-cases (search_all search qs s w)) [
    | inl e ↦ rw (e, and_then) (λ h. cc)
    | inr ((s1, w1), e) ↦ elim (Option-cases (candidate_extractor_node urls hours_in s1)) [
      | inl e1 ↦ rw (e, and_then, e1) (λ h. cc)
      | inr (s2, e1) ↦
          rw (e, and_then, e1)
            (λ h.
              let a = search_all-searches services config qs s s1 w w1 e in
              let b = candidate_extractor_node-IsIdle services config s1 s2 e1 in
              ground (arith, a.0, a.1, b.0, b.1))
    ]
  ]

  -- On from a plan, where the rest ends if it starts from no more than the plan's searches.
  after_plan-Ends :
      (base limit : ℕ) (k : ResearchState → W → Pass W) (d : Dispatch) (s s' : ResearchState)
      (w' : W)
      → IsFrugal base limit s'
      → ((d ≡ stop)
          ⊎ ((s1 : ResearchState) (w1 : W)
              → s1.research_iteration ≡ s'.research_iteration
              → IsFrugal base limit s1
              → Ends base limit (k s1 w1)))
      → Ends base limit (after_plan services config k d (some (s', w')))
  unfolding after_plan
  after_plan-Ends base limit k stop s s' w' h rest = h
  after_plan-Ends base limit k merge s s' w' h (inl e) = absurd cc
  after_plan-Ends base limit k merge s s' w' h (inr rest) = rest s' w' refl h
  after_plan-Ends base limit k (fan_out qs) s s' w' h (inl e) = absurd cc
  after_plan-Ends base limit k (fan_out qs) s s' w' h (inr rest) = rest s' w' refl h

  raised-Ends :
      (base limit : ℕ) (k : ResearchState → W → Pass W) (d : Dispatch)
      → Ends base limit (after_plan services config k d none)
  unfolding after_plan
  raised-Ends base limit k stop = tt
  raised-Ends base limit k merge = tt
  raised-Ends base limit k (fan_out qs) = tt

  pub from_plan-Ends :
      (base limit : ℕ) (k : ResearchState → W → Pass W) (s : ResearchState) (w : W)
      → searches s + pending (dispatch_search_queries s) ≤ base + 4 * s.research_iteration
      → s.research_iteration ≤ limit
      → ((dispatch_search_queries s ≡ stop)
          ⊎ ((s1 : ResearchState) (w1 : W)
              → s1.research_iteration ≡ s.research_iteration
              → IsFrugal base limit s1
              → Ends base limit (k s1 w1)))
      → Ends base limit (from_plan services config k s w)
  unfolding from_plan
  from_plan-Ends base limit k s w cost below rest =
      elim (Option-cases (search_step services config (dispatch_search_queries s) s w)) [
        | inl e ↦ rw (e, after_plan) (raised-Ends base limit k (dispatch_search_queries s))
        | inr ((s1, w1), e) ↦
            let a = search_step-searches (dispatch_search_queries s) s s1 w w1 e in
            rw e (
              after_plan-Ends base limit k (dispatch_search_queries s) s s1 w1
                (omega (arith, a.0, a.1, cost), omega (arith, a.0, below))
                (elim rest [ inl d ↦ inl d | inr go ↦ inr (λ s2 w2 i. go s2 w2 (i ∙ a.0)) ]))
      ]

  more_left :
      (s : ResearchState)
      → is_enough config s ≡ false
      → s.research_iteration < max_research_iterations config
  unfolding is_enough
  more_left s e = ground arith

  replan-Ends :
      (base limit n : ℕ) (s : ResearchState) (w : W)
      → max_research_iterations config ≤ limit
      → s.research_iteration < max_research_iterations config
      → max_research_iterations config + 1 ≤ suc n + s.research_iteration
      → IsFrugal base limit s
      → ((s1 : ResearchState) (w1 : W)
          → (1 ≤ n) × (max_research_iterations config + 1 ≤ n + s1.research_iteration)
          → IsFrugal base limit s1
          → Ends base limit (check_loop services config n s1 w1))
      → Ends base limit
          (from_plan services config (check_loop services config n) (replanner_node float_text s) w)
  replan-Ends base limit n s w top left fuel h ih =
      let s1 = replanner_node float_text s in
      let r = replanner_node-IsReplanned services config s in
      elim r.1 [
        | inl (d, i) ↦
            from_plan-Ends base limit (check_loop services config n) s1 w
              (rw d (omega (arith, r.0, i, h.0))) (omega (arith, i, h.1)) (inl d)
        | inr (i, four) ↦
            from_plan-Ends base limit (check_loop services config n) s1 w
              (omega (arith, r.0, i, h.0, four)) (omega (arith, i, left, top))
              (inr (λ s2 w2 j f.
                ih s2 w2 (omega (arith, i, j, left, fuel), omega (arith, i, j, fuel)) f))
      ]

  -- The loop of checks ends, with fuel for the iterations that are left and one check more.
  pub check_loop-Ends :
      (base limit n : ℕ) (s : ResearchState) (w : W)
      → max_research_iterations config ≤ limit
      → (1 ≤ n) × (max_research_iterations config + 1 ≤ n + s.research_iteration)
      → IsFrugal base limit s
      → Ends base limit (check_loop services config n s w)
  unfolding check_loop
  check_loop-Ends base limit zero s w top fuel h = absurd (omega (arith, fuel.0))
  check_loop-Ends base limit (suc n) s w top fuel h =
      elim (Option-cases (check_step services config s)) [
        | inl e ↦ rw (e, after_check) tt
        | inr (s1, e) ↦ elim (Bool-cases (is_enough config s1)) [
          | inl enough ↦
              let a = check_step-IsIdle services config s s1 e in
              rw (e, after_check, enough)
                (finish_pass-Ends base limit s1 w
                  (omega (arith, a.0, a.1, h.0), omega (arith, a.0, h.1)))
          | inr more ↦
              let a = check_step-IsIdle services config s s1 e in
              rw (e, after_check, more)
                (replan-Ends base limit n s1 w top (more_left s1 more) (omega (arith, a.0, fuel.1))
                  (omega (arith, a.0, a.1, h.0), omega (arith, a.0, h.1))
                  (λ s2 w2 g f. check_loop-Ends base limit n s2 w2 top g f))
        ]
      ]
