-- ===== src/Research/Graph.antt =====
-- course_discovery/workflows/research_graph.py: one pass of the research subgraph, with the cache's
-- nodes and the profile's lookup node.
use course_discovery_agent.Prelude.{
  ℕ, zero, suc, String, Bool, true, false, Option, none, some, List, [], ◌∷◌, ◌++◌, filter, length,
  or_default, if◌then◌else◌,
}
use course_discovery_agent.Domain.Models.{
  augment, CourseCandidate, SearchFilters, UserMemory, no_memory, ResearchPlan, no_metrics,
  is_found,
}
use course_discovery_agent.Domain.State.{ResearchState}
use course_discovery_agent.Domain.RunConfig.{Configurable}
use course_discovery_agent.Workflow.Outer.{is_given}
use course_discovery_agent.Research.Services.{ResearchServices}
use course_discovery_agent.Research.Planning.{research_planner_node, replanner_node}
use course_discovery_agent.Research.Search.{search_all}
use course_discovery_agent.Research.Extraction.{candidate_extractor_node}
use course_discovery_agent.Research.Dedup.{dedup_node}
use course_discovery_agent.Research.Validation.{aggregate_node, evidence_validator_node, is_enough}

unfoldable pub begin_pass : ResearchState → ResearchState
begin_pass s = elim s.routing_decision [
  | some _ ↦ s
  | none ↦ record s {
    tavily_results = [];
    completed_queries = [];
    research_notes = [];
    research_iteration = 0;
  }
]

-- `_route_from_entry`: AUGMENT goes straight to the gap search.
unfoldable pub is_gap_first : ResearchState → Bool
is_gap_first s = elim s.routing_decision [ some augment ↦ true | _ ↦ false ]

-- Where `_dispatch_search_queries` goes.
pub data Dispatch : Type 0 where
  stop merge : Dispatch
  fan_out : List String → Dispatch

abbrev pub dispatch_queries : List String → Dispatch
dispatch_queries [] = merge
dispatch_queries (q ∷ qs) = fan_out (q ∷ qs)

abbrev pub dispatch_plan : Option ResearchPlan → Dispatch
dispatch_plan none = merge
dispatch_plan (some plan) = dispatch_queries plan.search_queries

unfoldable pub dispatch_search_queries : ResearchState → Dispatch
dispatch_search_queries s =
    if is_given s.discard_reason then stop else dispatch_plan s.research_plan

-- How a pass ends: with the subgraph's state, with an exception, or without end within the fuel.
pub data Pass (W : Type 0) : Type 0 where
  completed : ResearchState → W → Pass W
  raised out_of_fuel : Pass W

module _ {P W : Type 0} (services : ResearchServices P W) (config : Configurable) where
  open services use {
    urls, sha256, ratio_90, hours_in, float_text, search, load_user_memory, search_course_cache,
    stage_courses, synthesize,
  }

  abbrev pub Step : Type 0
  Step = Option (ResearchState × W)

  unfoldable pub and_then : Step → (ResearchState → W → Step) → Step
  and_then none k = none
  and_then (some (s, w)) k = k s w

  abbrev pub pure_step : W → Option ResearchState → Step
  pure_step w none = none
  pure_step w (some s) = some (s, w)

  unfoldable pub remembered : ResearchState → Option (UserMemory × W) → Step
  remembered s none = none
  remembered s (some (m, w)) = some (record s { user_memory = some m }, w)

  unfoldable pub user_memory_lookup_node : ResearchState → W → Step
  unfolding remembered
  user_memory_lookup_node s w = remembered s (load_user_memory s.user_id w)

  unfoldable pub looked_up : ResearchState → Option (List CourseCandidate × W) → Step
  looked_up s none = none
  looked_up s (some (found, w)) =
      let metrics = or_default s.metrics no_metrics in
      some (
        record s {
          cache_candidates = found;
          metrics = some (record metrics { cache_hits = length found });
        },
        w,
      )

  unfoldable pub look_up : Option SearchFilters → ResearchState → W → Step
  unfolding looked_up
  look_up none s w = some (
    record s {
      cache_candidates = [];
      research_notes =
          s.research_notes ++ "Cache lookup skipped because filters were unavailable." ∷ [];
    },
    w,
  )
  look_up (some f) s w =
      looked_up s (search_course_cache f (or_default s.user_memory no_memory) s.user_id w)

  unfoldable pub course_cache_lookup_node : ResearchState → W → Step
  unfolding look_up
  course_cache_lookup_node s w = look_up s.search_filters s w

  unfoldable pub staged : ResearchState → Option W → Step
  staged s none = none
  staged s (some w) = some (s, w)

  unfoldable pub course_cache_upsert_node : ResearchState → W → Step
  unfolding staged
  course_cache_upsert_node s w = staged s (
      stage_courses config.thread_id
        (filter (λ (c : CourseCandidate). is_found c.source) s.valid_courses) s.validation_results
        w)

  unfoldable pub digested : ResearchState → Option (String × W) → Step
  digested s none = none
  digested s (some (text, w)) = some (record s { digest = some text }, w)

  unfoldable pub synthesizer_step : ResearchState → W → Step
  unfolding digested
  synthesizer_step s w = digested s (synthesize s w)

  -- `search_web_for_courses` for every query, and then `extract_courses_from_results`.
  unfoldable pub search_step : Dispatch → ResearchState → W → Step
  unfolding and_then
  search_step (fan_out qs) s w =
      and_then (search_all search qs s w)
        (λ s1 w1. pure_step w1 (candidate_extractor_node urls hours_in s1))
  search_step stop s w = some (s, w)
  search_step merge s w = some (s, w)

  unfoldable pub checked_after : Option ResearchState → Option ResearchState
  checked_after none = none
  checked_after (some s) = evidence_validator_node float_text s

  -- From `merge_known_and_found_courses` to `verify_course_claims`.
  unfoldable pub check_step : ResearchState → Option ResearchState
  unfolding checked_after
  check_step s = checked_after (dedup_node urls sha256 ratio_90 (aggregate_node s))

  unfoldable pub finished : Step → Pass W
  finished none = raised
  finished (some (s, w)) = completed s w

  -- From `save_verified_courses` to the end.
  unfoldable pub finish_pass : ResearchState → W → Pass W
  unfolding finished and_then
  finish_pass s w = finished (and_then (course_cache_upsert_node s w) synthesizer_step)

  -- On from a plan: to the end, or to the searches and the next check.
  unfoldable pub after_plan : (ResearchState → W → Pass W) → Dispatch → Step → Pass W
  after_plan k stop (some (s, w)) = completed s w
  after_plan k _ (some (s, w)) = k s w
  after_plan k d none = raised

  unfoldable pub from_plan : (ResearchState → W → Pass W) → ResearchState → W → Pass W
  unfolding after_plan
  from_plan k s w =
      after_plan k (dispatch_search_queries s) (search_step (dispatch_search_queries s) s w)

  unfoldable pub after_check : (ResearchState → W → Pass W) → W → Option ResearchState → Pass W
  after_check k w none = raised
  after_check k w (some s) =
      if is_enough config s then finish_pass s w else k (replanner_node float_text s) w

  -- The loop of checks and gap searches; the fuel bounds the number of checks.
  unfoldable pub check_loop : ℕ → ResearchState → W → Pass W
  unfolding after_check
  check_loop zero s w = out_of_fuel
  check_loop (suc n) s w = after_check (from_plan (check_loop n)) w (check_step s)

  unfoldable pub entered : (ResearchState → W → Pass W) → Step → Pass W
  entered k none = raised
  entered k (some (s, w)) = from_plan k (research_planner_node float_text s) w

  -- A pass, from `begin_pass` on.
  unfoldable pub run_pass : ℕ → ResearchState → W → Pass W
  unfolding entered and_then
  run_pass fuel s w =
      let begun = begin_pass s in
      if is_gap_first begun
      then from_plan (check_loop fuel) (replanner_node float_text begun) w
      else entered (check_loop fuel)
          (and_then (user_memory_lookup_node begun w) course_cache_lookup_node)
