-- ===== src/Privacy/Specs/Outer.antt =====
-- course_discovery/privacy/flow_specs.py: the nodes of the workflow.
use course_discovery_agent.Prelude.{[], ◌∷◌}
use course_discovery_agent.Privacy.Flow.{Flows, store, subject}
use course_discovery_agent.Privacy.Specs.Sinks.{llm, embed}

unfoldable pub outer : Flows
unfolding llm embed store
outer =
    (
      "parse_user_request",
      record {
        reads =
            "user_query" ∷ "feedback_history" ∷ "search_filters" ∷ "routing_decision" ∷ "user_id"
            ∷ [];
        writes = "search_filters" ∷ "routing_decision" ∷ "discard_reason" ∷ [];
        sinks = llm ∷ [];
        redacts = "user_query" ∷ "feedback_history" ∷ [];
        declassifies = [];
      },
    )
    ∷ (
      "start_research_pass",
      record {
        reads = "feedback_history" ∷ [];
        writes = "research_pass" ∷ "research_retries" ∷ [];
        sinks = [];
        redacts = [];
        declassifies =
            ("research_pass", "round counter") ∷ ("research_retries", "retry counter") ∷ [];
      },
    )
    ∷ (
      "retry_research_pass",
      record {
        reads = "feedback_history" ∷ "research_retries" ∷ [];
        writes = "research_pass" ∷ "research_retries" ∷ [];
        sinks = [];
        redacts = [];
        declassifies =
            ("research_pass", "round counter") ∷ ("research_retries", "retry counter") ∷ [];
      },
    )
    ∷ (
      "course_research",
      record { reads = []; writes = []; sinks = []; redacts = []; declassifies = [] },
    )
    ∷ (
      "curate_user_memory",
      record { reads = []; writes = []; sinks = []; redacts = []; declassifies = [] },
    )
    ∷ (
      "send_review_digest",
      record {
        reads = "user_id" ∷ "digest" ∷ "valid_courses" ∷ "research_pass" ∷ [];
        writes = [];
        sinks = (store "outbox" (subject ∷ [])) ∷ [];
        redacts = [];
        declassifies = [];
      },
    )
    ∷ (
      "await_human_review",
      record { reads = []; writes = []; sinks = []; redacts = []; declassifies = [] },
    )
    ∷ (
      "interpret_review_feedback",
      record {
        reads = "manager_feedback" ∷ "feedback_history" ∷ [];
        writes =
            "routing_decision" ∷ "rewrite_instructions" ∷ "discard_reason" ∷ "feedback_history"
            ∷ "manager_feedback" ∷ [];
        sinks = llm ∷ [];
        redacts = "manager_feedback" ∷ [];
        declassifies = [];
      },
    )
    ∷ (
      "send_approved_courses",
      record {
        reads = "user_id" ∷ "user_query" ∷ "digest" ∷ "valid_courses" ∷ [];
        writes = "publish_status" ∷ [];
        sinks = (store "outbox" (subject ∷ [])) ∷ [];
        redacts = [];
        declassifies = ("publish_status", "delivery state only") ∷ [];
      },
    )
    ∷ (
      "discard_run",
      record {
        reads = "discard_reason" ∷ [];
        writes = [];
        sinks = [];
        redacts = [];
        declassifies = [];
      },
    )
    ∷ (
      "promote_approved_courses",
      record {
        reads = "valid_courses" ∷ [];
        writes = [];
        sinks = (store "courses" []) ∷ (store "course_evidence" []) ∷ embed ∷ [];
        redacts = [];
        declassifies = [];
      },
    )
    ∷ (
      "drop_pending_courses",
      record { reads = []; writes = []; sinks = []; redacts = []; declassifies = [] },
    )
    ∷ (
      "record_review_outcome",
      record {
        reads =
            "user_id" ∷ "valid_courses" ∷ "user_query" ∷ "feedback_history" ∷ "publish_status"
            ∷ "routing_decision" ∷ [];
        writes = [];
        sinks =
            (store "users" (subject ∷ [])) ∷ (store "recommendation_events" (subject ∷ [])) ∷ [];
        redacts = [];
        declassifies = [];
      },
    )
    ∷ []
