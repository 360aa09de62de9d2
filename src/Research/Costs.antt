-- ===== src/Research/Costs.antt =====
-- What the single steps of a research pass cost in searches and iterations:
-- course_discovery/workflows/research_graph.py and the nodes that it runs.
use course_discovery_agent.Prelude.{
  ℕ, ◌+◌, ◌≤◌, String, not, Option, none, some, List, [], ◌∷◌, ◌≡◌, refl, ◌∙◌, arith, ◌⊎◌, inl, inr,
  length, length-append, length-take, length-filter, Bool-cases, Option-cases, is_in, ltb,
}
use course_discovery_agent.Domain.Models.{SearchFilters, ResearchPlan}
use course_discovery_agent.Domain.State.{ResearchState}
use course_discovery_agent.Domain.RunConfig.{Configurable}
use course_discovery_agent.Workflow.Outer.{is_given}
use course_discovery_agent.Research.Services.{ResearchServices}
use course_discovery_agent.Research.Planning.{
  research_planner_node, replanner_node, planned, replanned, gap_plan, first_plan, queries,
}
use course_discovery_agent.Research.Search.{
  results, search_failed, search_all, search_rest, searched, tavily_search_worker_node,
  write_search,
}
use course_discovery_agent.Research.Extraction.{candidate_extractor_node, extracted}
use course_discovery_agent.Research.Dedup.{dedup_node, deduplicated}
use course_discovery_agent.Research.Validation.{aggregate_node, evidence_validator_node, validated}
use course_discovery_agent.Research.Graph.{
  Dispatch, stop, merge, fan_out, dispatch_queries, dispatch_search_queries, check_step,
  checked_after, user_memory_lookup_node, course_cache_lookup_node, and_then, remembered, looked_up,
  look_up,
}

-- How many searches a thread has run.
abbrev pub searches : ResearchState → ℕ
searches s = length s.completed_queries

-- A step that neither searches nor plans.
abbrev pub IsIdle : ResearchState → ResearchState → Type 0
IsIdle s s' = (s'.research_iteration ≡ s.research_iteration) × (searches s' ≡ searches s)

abbrev pub pending : Dispatch → ℕ
pending stop = 0
pending merge = 0
pending (fan_out qs) = length qs

dispatch_queries-pending : (qs : List String) → pending (dispatch_queries qs) ≤ length qs
dispatch_queries-pending [] = omega arith
dispatch_queries-pending (q ∷ qs) = omega arith

pub dispatch-pending :
    (s : ResearchState) (plan : ResearchPlan)
    → s.research_plan ≡ some plan
    → pending (dispatch_search_queries s) ≤ length plan.search_queries
unfolding dispatch_search_queries
dispatch-pending s plan e = elim (Bool-cases (is_given s.discard_reason)) [
  | inl given ↦ rw given (omega arith)
  | inr clear ↦ rw (clear, e) (dispatch_queries-pending plan.search_queries)
]

module _ {P W : Type 0} (services : ResearchServices P W) (config : Configurable) where
  open services use {
    urls, sha256, ratio_90, hours_in, float_text, search, load_user_memory, search_course_cache,
    stage_courses, synthesize,
  }

  dedup_node-IsIdle :
      (s s' : ResearchState) → dedup_node urls sha256 ratio_90 s ≡ some s' → IsIdle s s'
  unfolding dedup_node deduplicated
  dedup_node-IsIdle s s' e = ground arith

  evidence_validator_node-IsIdle :
      (s s' : ResearchState) → evidence_validator_node float_text s ≡ some s' → IsIdle s s'
  unfolding evidence_validator_node validated
  evidence_validator_node-IsIdle s s' e = ground arith

  pub check_step-IsIdle :
      (s s' : ResearchState) → check_step services config s ≡ some s' → IsIdle s s'
  unfolding check_step aggregate_node
  check_step-IsIdle s s' =
      elim (Option-cases (dedup_node urls sha256 ratio_90 (aggregate_node s))) [
        | inl e ↦ rw (e, checked_after) (λ h. cc)
        | inr (s1, e) ↦
            rw (e, checked_after)
              (λ h.
                let a = dedup_node-IsIdle (aggregate_node s) s1 e in
                let b = evidence_validator_node-IsIdle s1 s' h in (b.0 ∙ a.0, b.1 ∙ a.1))
      ]

  tavily_search_worker_node-searches :
      (q : String) (s s' : ResearchState) (w w' : W)
      → tavily_search_worker_node search q s w ≡ some (s', w')
      → (s'.research_iteration ≡ s.research_iteration) × (searches s' ≤ searches s + 1)
  unfolding tavily_search_worker_node write_search
  tavily_search_worker_node-searches q s s' w w' = elim (Option-cases (search q w)) [
    | inl e ↦ rw (e, searched) (λ h. ground arith)
    | inr ((results found, w1), e) ↦
        rw (e, searched) (λ h. ground (arith, length-append s.completed_queries (q ∷ [])))
    | inr ((search_failed kind, w1), e) ↦
        rw (e, searched) (λ h. ground (arith, length-append s.completed_queries (q ∷ [])))
  ]

  pub search_all-searches :
      (qs : List String) (s s' : ResearchState) (w w' : W)
      → search_all search qs s w ≡ some (s', w')
      → (s'.research_iteration ≡ s.research_iteration) × (searches s' ≤ searches s + length qs)
  unfolding search_all
  search_all-searches [] s s' w w' = λ h. ground arith
  search_all-searches (q ∷ qs) s s' w w' =
      elim (Option-cases (tavily_search_worker_node search q s w)) [
        | inl e ↦ rw (e, search_rest) (λ h. cc)
        | inr ((s1, w1), e) ↦
            rw (e, search_rest)
              (λ h.
                let a = tavily_search_worker_node-searches q s s1 w w1 e in
                let b = search_all-searches qs s1 s' w1 w' h in
                (b.0 ∙ a.0, omega (arith, a.1, b.1)))
      ]

  pub candidate_extractor_node-IsIdle :
      (s s' : ResearchState) → candidate_extractor_node urls hours_in s ≡ some s' → IsIdle s s'
  unfolding candidate_extractor_node extracted
  candidate_extractor_node-IsIdle s s' e = ground arith

  gap_plan-queries :
      (f : SearchFilters) (s : ResearchState) → length (gap_plan float_text f s).search_queries ≤ 4
  unfolding gap_plan
  gap_plan-queries f s = length-take 4 _

  queries-length : (f : SearchFilters) (n i : ℕ) → length (queries f n i) ≤ 4
  unfolding queries
  queries-length f n i = length-take 4 _

  pub first_plan-queries :
      (f : SearchFilters) (s : ResearchState)
      → length (first_plan float_text f s).search_queries ≤ 4
  unfolding first_plan
  first_plan-queries f s = elim (Bool-cases (ltb (length s.cache_candidates) 3)) [
    | inl e ↦ rw e (
        omega (
          arith,
          length-filter (λ q. not (is_in q s.completed_queries))
              (queries f (length s.cache_candidates) s.research_iteration),
          queries-length f (length s.cache_candidates) s.research_iteration,
        ))
    | inr e ↦ rw e (omega arith)
  ]

  -- A gap plan either stops the pass, or is one more iteration with at most four searches.
  abbrev pub IsReplanned : ResearchState → ResearchState → Type 0
  IsReplanned s s' =
      (searches s' ≡ searches s)
      × (((dispatch_search_queries s' ≡ stop) × (s'.research_iteration ≡ s.research_iteration))
          ⊎ ((s'.research_iteration ≡ s.research_iteration + 1)
              × (pending (dispatch_search_queries s') ≤ 4)))

  replanned-IsReplanned :
      (f : Option SearchFilters) (s : ResearchState) → IsReplanned s (replanned float_text f s)
  unfolding replanned dispatch_search_queries
  replanned-IsReplanned none s = (refl, inl (refl, refl))
  replanned-IsReplanned (some f) s = (
    refl,
    inr (
      refl,
      omega (
        arith,
        gap_plan-queries f s,
        dispatch-pending (replanned float_text (some f) s) (gap_plan float_text f s) refl,
      ),
    ),
  )

  pub replanner_node-IsReplanned : (s : ResearchState) → IsReplanned s (replanner_node float_text s)
  unfolding replanner_node
  replanner_node-IsReplanned s = replanned-IsReplanned s.search_filters s

  -- A first plan either stops the pass or has at most four searches.
  planned-pending :
      (f : Option SearchFilters) (s : ResearchState)
      → IsIdle s (planned float_text f s)
        × (pending (dispatch_search_queries (planned float_text f s)) ≤ 4)
  unfolding planned dispatch_search_queries
  planned-pending none s = ((refl, refl), omega arith)
  planned-pending (some f) s = (
    (refl, refl),
    omega (
      arith,
      first_plan-queries f s,
      dispatch-pending (planned float_text (some f) s) (first_plan float_text f s) refl,
    ),
  )

  pub research_planner_node-pending :
      (s : ResearchState)
      → IsIdle s (research_planner_node float_text s)
        × (pending (dispatch_search_queries (research_planner_node float_text s)) ≤ 4)
  unfolding research_planner_node
  research_planner_node-pending s = planned-pending s.search_filters s

  user_memory_lookup_node-IsIdle :
      (s s' : ResearchState) (w w' : W)
      → user_memory_lookup_node services config s w ≡ some (s', w')
      → IsIdle s s'
  unfolding user_memory_lookup_node remembered
  user_memory_lookup_node-IsIdle s s' w w' e = ground arith

  look_up-IsIdle :
      (f : Option SearchFilters) (s s' : ResearchState) (w w' : W)
      → look_up services config f s w ≡ some (s', w')
      → IsIdle s s'
  unfolding look_up looked_up
  look_up-IsIdle none s s' w w' e = ground arith
  look_up-IsIdle (some f) s s' w w' e = ground arith

  -- Loading the profile and the known courses costs no search.
  pub looked_up-IsIdle :
      (s s' : ResearchState) (w w' : W)
      → and_then services config
          (user_memory_lookup_node services config s w)
          (course_cache_lookup_node services config)
        ≡ some (s', w')
      → IsIdle s s'
  unfolding course_cache_lookup_node and_then
  looked_up-IsIdle s s' w w' = elim (Option-cases (user_memory_lookup_node services config s w)) [
    | inl e ↦ rw e (λ h. cc)
    | inr ((s1, w1), e) ↦ rw e (λ h.
        let a = user_memory_lookup_node-IsIdle s s1 w w1 e in
        let b = look_up-IsIdle s1.search_filters s1 s' w1 w' h in (b.0 ∙ a.0, b.1 ∙ a.1))
  ]
