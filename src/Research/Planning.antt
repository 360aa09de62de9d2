-- ===== src/Research/Planning.antt =====
-- course_discovery/research_agent/planning/nodes.py. `float_text` is Python's text of a float, which
-- an f-string writes. Logging and metrics counters have no part in it.
use course_discovery_agent.Prelude.{
  ℕ, ◌+◌, ◌<>◌, String, true, false, not, ◌||◌, Option, none, some, List, [], ◌∷◌, ◌++◌, ltb, leb,
  eqb, length, take, filter, is_in, strip, join, only, is_empty, unique, sorted_set, ◌==◌,
  if◌then◌else◌, or_default,
}
use course_discovery_agent.Domain.Models.{
  SearchFilters, ResearchPlan, CandidateValidation, no_metrics,
}
use course_discovery_agent.Domain.State.{ResearchState}

abbrev pub min_valid : ℕ
min_valid = 3

module _ (float_text : ℕ → String) where
  -- `_constraints`
  unfoldable pub constraints : SearchFilters → List String
  constraints f =
      ("topic:" <> f.topic)
      ∷ ("level:" <> f.level)
      ∷ (only (eqb f.max_price 0) "free"
          ++ only f.include_certificate "certificate"
          ++ only (not (eqb f.min_rating 0)) ("rating>=" <> float_text f.min_rating)
          ++ only (not (is_empty f.content_languages))
              ("languages:" <> join "," f.content_languages))

-- `text or default`
abbrev text_or : String → String → String
text_or s d = if s == "" then d else s

base_query : SearchFilters → String
base_query f = join " " (
    text_or (strip f.topic) "online course"
    ∷ "course"
    ∷ (only (not (f.level == "any")) f.level
        ++ only (eqb f.max_price 0) "free"
        ++ only f.include_certificate "certificate"))

-- `_queries`
unfoldable pub queries : SearchFilters → ℕ → ℕ → List String
unfolding base_query
queries f cache_count iteration = take 4 (
    unique (
      base_query f
      ∷ (only (eqb cache_count 0 || f.include_certificate) (base_query f <> " official course page")
          ++ only (not (eqb iteration 0)) (base_query f <> " updated recent"))))

abbrev pub not_completed : ResearchState → List String → List String
not_completed s qs = filter (λ q. not (is_in q s.completed_queries)) qs

module _ (float_text : ℕ → String) where
  unfoldable pub first_plan : SearchFilters → ResearchState → ResearchPlan
  first_plan f s =
      let needs_web = ltb (length s.cache_candidates) min_valid in
      record {
        topic = f.topic;
        constraints = constraints float_text f;
        search_queries =
            if needs_web
            then not_completed s (queries f (length s.cache_candidates) s.research_iteration)
            else [];
        target_sources = f.providers;
        exclude_patterns = f.domain_blacklist;
        min_valid_candidates = min_valid;
        use_cache_first = true;
        freshness_required = leb f.recency_days 180;
        rationale =
            if needs_web
            then "Cache is insufficient or missing evidence; search only planned gaps."
            else "Cache has enough candidates; validate before synthesis.";
      }

  unfoldable pub planned : Option SearchFilters → ResearchState → ResearchState
  planned none s = record s {
    research_plan = none;
    discard_reason = some "Research planning failed: search filters missing";
  }
  planned (some f) s = record s { research_plan = some (first_plan f s) }

  unfoldable pub research_planner_node : ResearchState → ResearchState
  unfolding planned
  research_planner_node s = planned s.search_filters s

-- The evidence that is missing anywhere, sorted, each item once.
all_missing : List CandidateValidation → List String
all_missing [] = []
all_missing (v ∷ vs) = v.missing_evidence ++ all_missing vs

unfoldable pub missing_items : ResearchState → List String
unfolding all_missing
missing_items s = sorted_set (all_missing s.validation_results)

-- `current_plan.min_valid_candidates if current_plan else 3`
abbrev pub plan_min_valid : Option ResearchPlan → ℕ
plan_min_valid none = min_valid
plan_min_valid (some plan) = plan.min_valid_candidates

module _ (float_text : ℕ → String) where
  unfoldable pub gap_plan : SearchFilters → ResearchState → ResearchPlan
  gap_plan f s =
      let iteration = s.research_iteration + 1 in
      let base_queries =
        queries f (length s.valid_courses) iteration
        ++ only (not (is_empty (missing_items s)))
            (f.topic <> (" " <> (join " " (missing_items s) <> " course evidence"))) in
      record {
        topic = f.topic;
        constraints = constraints float_text f;
        search_queries = take 4 (not_completed s (unique base_queries));
        target_sources = f.providers;
        exclude_patterns = f.domain_blacklist;
        min_valid_candidates = plan_min_valid s.research_plan;
        use_cache_first = false;
        freshness_required = true;
        rationale = "Replanned from validation failures and missing evidence.";
      }

  unfoldable pub replanned : Option SearchFilters → ResearchState → ResearchState
  replanned none s = record s { discard_reason = some "Replanning failed: search filters missing" }
  replanned (some f) s =
      let metrics = or_default s.metrics no_metrics in
      record s {
        research_plan = some (gap_plan f s);
        research_iteration = s.research_iteration + 1;
        metrics = some (record metrics { replan_count = s.research_iteration + 1 });
        tavily_results = s.tavily_results ++ [];
        extracted_candidates = [];
      }

  -- The empty list that is written to `tavily_results` is added to it: its reducer is `operator.add`.
  unfoldable pub replanner_node : ResearchState → ResearchState
  unfolding replanned
  replanner_node s = replanned s.search_filters s
