-- ===== src/Tests/Privacy.antt =====
-- Runs of course_discovery/privacy, with the declared flows of course_discovery/privacy/flow_specs.py, and
-- of course_discovery/review/close.py.
use course_discovery_agent.Prelude.{
  String, false, none, some, List, [], ◌∷◌, ◌++◌, ◌≡◌, refl, ◌↔◌, filter, is_in, ◌<>◌, sorted_set,
}
use course_discovery_agent.Prelude.Dict.{get, put, IsDict}
use course_discovery_agent.Prelude.Sets.{union, minus}
use course_discovery_agent.Privacy.Flow.{
  NodeFlow, Flows, Labels, Run, subject, raw, propagate, settle, sweep, visit, write_all, write,
  note, source, source_among, inputs, inputs_from, seen, targets, keys, labels_of, missing,
  all_targets, all_labels, seeded, seeded_from,
}
use course_discovery_agent.Privacy.Specs.{flows}
use course_discovery_agent.Privacy.Checks.{
  Violation, check_flows, hops_from, check_nodes, check_sinks, refused, unerased, uncovered,
  unknown, unknown_channels, flow_keys,
}
use course_discovery_agent.Privacy.Spread.{Has, Reaches}
use course_discovery_agent.Privacy.Fixpoint.{propagate-Reaches}
use course_discovery_agent.Privacy.Traces.{hops_from-seed}
use course_discovery_agent.Privacy.Compliance.{IsPrivate, check_flows-IsPrivate}
use course_discovery_agent.Privacy.Sources.{user_data_sources, not_user_data}
use course_discovery_agent.Privacy.Deletion.{tables}

-- What `pii_seeds` finds in the annotations of the states.
abbrev seeds : Labels
seeds =
    ("user_query", subject ∷ [])
    ∷ ("manager_feedback", subject ∷ [])
    ∷ ("feedback_history", subject ∷ [])
    ∷ ("user_memory", subject ∷ raw ∷ [])
    ∷ []

seeds-IsDict : IsDict seeds
unfolding get
seeds-IsDict = (refl, (refl, (refl, (refl, tt))))

abbrev channels : List String
channels =
    "user_query" ∷ "user_id" ∷ "search_filters" ∷ "valid_courses" ∷ "digest" ∷ "metrics"
    ∷ "manager_feedback" ∷ "feedback_history" ∷ "rewrite_instructions" ∷ "routing_decision"
    ∷ "publish_status" ∷ "discard_reason" ∷ "memory_update" ∷ "research_pass" ∷ "research_retries"
    ∷ "user_memory" ∷ "cache_candidates" ∷ "research_plan" ∷ "tavily_results"
    ∷ "extracted_candidates" ∷ "scraped_courses" ∷ "deduplicated_courses" ∷ "rejected_courses"
    ∷ "uncertain_courses" ∷ "validation_results" ∷ "research_iteration" ∷ "completed_queries"
    ∷ "research_notes" ∷ "active_search_query" ∷ []

abbrev graph_nodes : List String
graph_nodes =
    "parse_user_request" ∷ "start_research_pass" ∷ "retry_research_pass" ∷ "course_research"
    ∷ "send_review_digest" ∷ "await_human_review" ∷ "interpret_review_feedback"
    ∷ "send_approved_courses" ∷ "discard_run" ∷ "promote_approved_courses" ∷ "drop_pending_courses"
    ∷ "record_review_outcome" ∷ "curate_user_memory" ∷ "begin_pass" ∷ "load_user_profile"
    ∷ "find_known_courses" ∷ "plan_web_search" ∷ "search_web_for_courses"
    ∷ "extract_courses_from_results" ∷ "merge_known_and_found_courses" ∷ "remove_duplicate_courses"
    ∷ "verify_course_claims" ∷ "plan_gap_search" ∷ "save_verified_courses"
    ∷ "rank_and_summarize_courses" ∷ "load_context" ∷ "curator_model" ∷ "run_tools" ∷ "commit" ∷ []

abbrev quoted : String → String
quoted s = "'" <> (s <> "'")

check_flows-IsPrivate_example :
    (vs : List Violation) × (check_flows quoted flows seeds graph_nodes channels
        (tables user_data_sources)
        not_user_data
      ≡ some vs)
    × ((vs ≡ [])
        ↔ IsPrivate flows seeds graph_nodes channels (tables user_data_sources) not_user_data)
check_flows-IsPrivate_example =
    check_flows-IsPrivate quoted flows seeds graph_nodes channels (tables user_data_sources)
      not_user_data seeds-IsDict

propagate-Reaches_example :
    (r : Run) × (propagate flows seeds ≡ some r)
    × ((k l : String) → Has r.labels k l ↔ Reaches flows seeds k l)
propagate-Reaches_example = propagate-Reaches flows seeds

abbrev relay : String → String → NodeFlow
relay from to = record {
  reads = from ∷ [];
  writes = to ∷ [];
  sinks = [];
  redacts = [];
  declassifies = [];
}

abbrev chain : Flows
chain = ("second", relay "b" "c") ∷ ("first", relay "a" "b") ∷ []

abbrev start : Labels
start = ("a", subject ∷ []) ∷ []

abbrev spread : Run
spread = record {
  labels = ("a", subject ∷ []) ∷ ("b", subject ∷ []) ∷ ("c", subject ∷ []) ∷ [];
  origins =
      record { channel = "c"; label = subject; via = some ("second", "b") }
      ∷ record { channel = "b"; label = subject; via = some ("first", "a") }
      ∷ record { channel = "a"; label = subject; via = none }
      ∷ [];
  changed = false;
}

chain_spreads : propagate chain start ≡ some spread
unfolding propagate settle sweep visit write_all write note source source_among inputs inputs_from
    seen targets keys labels_of missing all_targets all_labels seeded seeded_from get put sorted_set
    is_in union minus filter
chain_spreads = refl

c_has : Has spread.labels "c" subject
unfolding labels_of get is_in
c_has = refl

hops_from-seed_example :
    (hops : List String) × (s : String) × (hops_from 4 "c" subject spread.origins
      ≡ some (hops ++ s ∷ []))
    × Has start s subject
unfolding get
hops_from-seed_example =
    hops_from-seed chain start spread "c" subject (refl, tt) chain_spreads c_has

-- The declared flows are clean.
declared_flows :
    check_flows quoted flows seeds graph_nodes channels (tables user_data_sources) not_user_data
    ≡ some []
unfolding check_flows propagate settle sweep visit write_all write note source source_among inputs
    inputs_from seen targets keys labels_of missing all_targets all_labels seeded seeded_from get
    put sorted_set is_in union minus filter flows check_nodes check_sinks refused unerased uncovered
    unknown unknown_channels flow_keys tables user_data_sources not_user_data
declared_flows = refl
