-- ===== src/Privacy/Specs/Research.antt =====
-- course_discovery/privacy/flow_specs.py: the nodes of the research graph.
use course_discovery_agent.Prelude.{[], ◌∷◌}
use course_discovery_agent.Privacy.Flow.{Flows, store}
use course_discovery_agent.Privacy.Specs.Sinks.{llm, search, embed, injection_screen}

unfoldable pub research : Flows
unfolding llm search embed injection_screen store
research =
    (
      "begin_pass",
      record {
        reads = "routing_decision" ∷ [];
        writes =
            "tavily_results" ∷ "completed_queries" ∷ "research_notes" ∷ "research_iteration" ∷ [];
        sinks = [];
        redacts = [];
        declassifies =
            ("tavily_results", "reset")
            ∷ ("completed_queries", "reset")
            ∷ ("research_notes", "reset")
            ∷ ("research_iteration", "reset")
            ∷ [];
      },
    )
    ∷ (
      "load_user_profile",
      record {
        reads = "user_id" ∷ [];
        writes = "user_memory" ∷ [];
        sinks = [];
        redacts = [];
        declassifies = [];
      },
    )
    ∷ (
      "find_known_courses",
      record {
        reads = "search_filters" ∷ "user_memory" ∷ "metrics" ∷ "user_id" ∷ [];
        writes = "cache_candidates" ∷ "metrics" ∷ "research_notes" ∷ [];
        sinks = embed ∷ [];
        redacts = "user_memory" ∷ [];
        declassifies =
            ("cache_candidates", "catalog rows; memory only filters them")
            ∷ ("metrics", "counters")
            ∷ ("research_notes", "fixed message")
            ∷ [];
      },
    )
    ∷ (
      "plan_web_search",
      record {
        reads =
            "search_filters" ∷ "cache_candidates" ∷ "research_iteration" ∷ "completed_queries" ∷ [];
        writes = "research_plan" ∷ "discard_reason" ∷ [];
        sinks = [];
        redacts = [];
        declassifies = [];
      },
    )
    ∷ (
      "search_web_for_courses",
      record {
        reads = "active_search_query" ∷ [];
        writes = "tavily_results" ∷ "completed_queries" ∷ "research_notes" ∷ [];
        sinks = search ∷ [];
        redacts = [];
        declassifies = [];
      },
    )
    ∷ (
      "extract_courses_from_results",
      record {
        reads = "tavily_results" ∷ [];
        writes = "extracted_candidates" ∷ [];
        sinks = [];
        redacts = [];
        declassifies =
            ("extracted_candidates", "keeps catalog fields only, drops the echoed query") ∷ [];
      },
    )
    ∷ (
      "merge_known_and_found_courses",
      record {
        reads = "cache_candidates" ∷ "extracted_candidates" ∷ [];
        writes = "scraped_courses" ∷ [];
        sinks = [];
        redacts = [];
        declassifies = [];
      },
    )
    ∷ (
      "remove_duplicate_courses",
      record {
        reads = "scraped_courses" ∷ [];
        writes = "deduplicated_courses" ∷ [];
        sinks = [];
        redacts = [];
        declassifies = [];
      },
    )
    ∷ (
      "verify_course_claims",
      record {
        reads =
            "search_filters" ∷ "user_memory" ∷ "deduplicated_courses" ∷ "metrics"
            ∷ "completed_queries" ∷ [];
        writes =
            "validation_results" ∷ "valid_courses" ∷ "rejected_courses" ∷ "uncertain_courses"
            ∷ "metrics" ∷ [];
        sinks = [];
        redacts = [];
        declassifies =
            ("validation_results", "verdicts about catalog rows; memory only filters them")
            ∷ ("valid_courses", "catalog rows; memory only filters them")
            ∷ ("rejected_courses", "catalog rows; memory only filters them")
            ∷ ("uncertain_courses", "catalog rows; memory only filters them")
            ∷ ("metrics", "counters")
            ∷ [];
      },
    )
    ∷ (
      "plan_gap_search",
      record {
        reads =
            "search_filters" ∷ "validation_results" ∷ "research_plan" ∷ "completed_queries"
            ∷ "valid_courses" ∷ "research_iteration" ∷ "metrics" ∷ [];
        writes =
            "research_plan" ∷ "research_iteration" ∷ "metrics" ∷ "tavily_results"
            ∷ "extracted_candidates" ∷ "discard_reason" ∷ [];
        sinks = [];
        redacts = [];
        declassifies =
            ("metrics", "counters")
            ∷ ("tavily_results", "reset")
            ∷ ("extracted_candidates", "reset")
            ∷ [];
      },
    )
    ∷ (
      "save_verified_courses",
      record {
        reads = "valid_courses" ∷ "validation_results" ∷ [];
        writes = [];
        sinks = (store "pending_courses" []) ∷ [];
        redacts = [];
        declassifies = [];
      },
    )
    ∷ (
      "rank_and_summarize_courses",
      record {
        reads =
            "valid_courses" ∷ "rewrite_instructions" ∷ "validation_results" ∷ "research_notes"
            ∷ "metrics" ∷ "research_plan" ∷ "routing_decision" ∷ "user_memory" ∷ "search_filters"
            ∷ [];
        writes = "digest" ∷ [];
        sinks = llm ∷ [];
        redacts = "user_memory" ∷ [];
        declassifies = [];
      },
    )
    ∷ (
      "edge:dispatch_search_queries",
      record {
        reads = "research_plan" ∷ [];
        writes = "active_search_query" ∷ [];
        sinks = [];
        redacts = [];
        declassifies = [];
      },
    )
    ∷ (
      "step:screen_course_text",
      record {
        reads = "valid_courses" ∷ [];
        writes = [];
        sinks = injection_screen ∷ [];
        redacts = [];
        declassifies = [];
      },
    )
    ∷ []
