-- ===== src/Privacy/Specs/Curator.antt =====
-- course_discovery/privacy/flow_specs.py: the nodes of the memory curator.
use course_discovery_agent.Prelude.{[], ◌∷◌}
use course_discovery_agent.Privacy.Flow.{Flows, store, subject}
use course_discovery_agent.Privacy.Specs.Sinks.{llm, embed}

unfoldable pub curator : Flows
unfolding llm embed store
curator =
    (
      "load_context",
      record {
        reads = "user_id" ∷ "feedback_history" ∷ [];
        writes = "memory_update" ∷ [];
        sinks = [];
        redacts = "feedback_history" ∷ [];
        declassifies = ("memory_update", "status string only") ∷ [];
      },
    )
    ∷ (
      "curator_model",
      record {
        reads = "feedback_history" ∷ [];
        writes = [];
        sinks = llm ∷ [];
        redacts = [];
        declassifies = [];
      },
    )
    ∷ (
      "run_tools",
      record {
        reads = "user_id" ∷ "valid_courses" ∷ "publish_status" ∷ "routing_decision" ∷ [];
        writes = [];
        sinks = [];
        redacts = [];
        declassifies = [];
      },
    )
    ∷ (
      "commit",
      record {
        reads = "user_id" ∷ "feedback_history" ∷ [];
        writes = "memory_update" ∷ [];
        sinks =
            (store "user_preferences" (subject ∷ []))
            ∷ (store "memory_updates" (subject ∷ []))
            ∷ embed
            ∷ [];
        redacts = [];
        declassifies = ("memory_update", "status string only") ∷ [];
      },
    )
    ∷ []
