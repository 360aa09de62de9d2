-- ===== src/Workflow/Outer.antt =====
-- course_discovery/workflows/outer_graph.py, with the small nodes that it takes from
-- course_discovery/app/gateway.py and course_discovery/research_agent/cache/nodes.py.
use course_discovery_agent.Prelude.{
  ℕ, ◌+◌, ◌<>◌, String, Bool, false, not, Option, none, some, List, map, filter, length, leb, eqb,
  ◌==◌, if◌then◌else◌,
}
use course_discovery_agent.Domain.Models.{
  RoutingAction, publish, rewrite, augment, reset, discard, CourseCandidate, is_found,
}
use course_discovery_agent.Domain.State.{AgentState, ResearchInput}
use course_discovery_agent.Domain.RunConfig.{Configurable}
use course_discovery_agent.Memory.Nodes.{feedback_record}
use course_discovery_agent.Review.Nodes.{send_review_digest_node, review_gate_node}
use course_discovery_agent.Review.Router.{router_node, publish_node, discard_node}
use course_discovery_agent.Workflow.Services.{
  Services, Parsed, filters, gateway_failed, ResearchOutput,
}

abbrev pub max_stale_retries : ℕ
max_stale_retries = 1

pub data Node : Type 0 where
  parse_user_request start_research_pass retry_research_pass course_research : Node
  send_review_digest await_human_review interpret_review_feedback : Node
  send_approved_courses promote_approved_courses : Node
  discard_run drop_pending_courses record_review_outcome curate_user_memory finish : Node

unfoldable pub start_pass : AgentState → AgentState
start_pass s = record s { research_pass = some (length s.feedback_history); research_retries = 0 }

-- `none` is the `StaleResearchResultError`.
unfoldable pub retry_pass : AgentState → Option AgentState
retry_pass s =
    if leb max_stale_retries s.research_retries
    then none
    else some (record s {
      research_pass = some (length s.feedback_history);
      research_retries = s.research_retries + 1;
    })

-- `if state.get("discard_reason")`: an empty text counts as absent.
abbrev pub is_given : Option String → Bool
is_given none = false
is_given (some s) = not (s == "")

abbrev pub is_pass : Option ℕ → ℕ → Bool
is_pass none n = false
is_pass (some p) n = eqb p n

unfoldable pub after_research : AgentState → Node
after_research s =
    if is_given s.discard_reason
    then discard_run
    else if is_pass s.research_pass (length s.feedback_history)
    then send_review_digest
    else retry_research_pass

unfoldable pub after_gateway : AgentState → Node
after_gateway s = if is_given s.discard_reason then discard_run else start_research_pass

-- A decision of None has no edge: `none` is the exception.
unfoldable pub route_from_router : Bool → Option RoutingAction → Option Node
route_from_router chat_mode none = none
route_from_router chat_mode (some publish) =
    some (if chat_mode then record_review_outcome else send_approved_courses)
route_from_router chat_mode (some rewrite) = some start_research_pass
route_from_router chat_mode (some augment) = some start_research_pass
route_from_router chat_mode (some reset) = some parse_user_request
route_from_router chat_mode (some discard) = some discard_run

-- What `gateway_node` writes.
unfoldable pub write_parsed : Parsed → AgentState → AgentState
write_parsed (filters f) s = record s { search_filters = some f; routing_decision = none }
write_parsed (gateway_failed kind) s = record s {
  discard_reason = some ("Gateway failed (" <> (kind <> "). Check logs."));
}

abbrev pub research_input : AgentState → ResearchInput
research_input s = record {
  user_id = s.user_id;
  search_filters = s.search_filters;
  routing_decision = s.routing_decision;
  rewrite_instructions = s.rewrite_instructions;
  research_pass = s.research_pass;
}

unfoldable pub write_research : ResearchOutput → AgentState → AgentState
write_research o s = record s {
  research_pass = o.research_pass;
  discard_reason = o.discard_reason;
  valid_courses = o.valid_courses;
  digest = o.digest;
  metrics = o.metrics;
}

-- `[course.url for course in valid_courses if course.source != "cache"]`
unfoldable pub approved_urls : AgentState → List String
approved_urls s =
    map (λ c. c.url) (filter (λ (c : CourseCandidate). is_found c.source) s.valid_courses)

module _ {W : Type 0} where
  -- A result written into the state beside the outside state.
  abbrev pub written : {A : Type 0} → (A → AgentState) → Option (A × W) → Option (AgentState × W)
  written f none = none
  written f (some (a, w)) = some (f a, w)

  abbrev pub beside : AgentState → Option W → Option (AgentState × W)
  beside s none = none
  beside s (some w) = some (s, w)

  abbrev pub with_world : W → Option AgentState → Option (AgentState × W)
  with_world w none = none
  with_world w (some s) = some (s, w)

module _ {W : Type 0} (services : Services W) (config : Configurable) where
  open services use {
    redactor, router_model, parse, research, submit, promote_staged_courses, discard_staged_courses,
    record_feedback, curate,
  }

  -- One node's run.
  unfoldable pub run_node : Node → AgentState → W → Option (AgentState × W)
  run_node parse_user_request s w = written (λ p. write_parsed p s) (parse s w)
  run_node start_research_pass s w = some (start_pass s, w)
  run_node retry_research_pass s w = with_world w (retry_pass s)
  run_node course_research s w = written (λ o. write_research o s) (research (research_input s) w)
  run_node send_review_digest s w = send_review_digest_node submit config s w
  run_node await_human_review s w = some (review_gate_node s, w)
  run_node interpret_review_feedback s w = with_world w (router_node redactor config router_model s)
  run_node send_approved_courses s w = publish_node submit config s w
  run_node promote_approved_courses s w =
      beside s (promote_staged_courses config.thread_id (approved_urls s) w)
  run_node discard_run s w = some (discard_node s, w)
  run_node drop_pending_courses s w = beside s (discard_staged_courses config.thread_id w)
  run_node record_review_outcome s w = beside s (record_feedback (feedback_record config s) w)
  run_node curate_user_memory s w = written (λ m. record s { memory_update = m }) (curate s w)
  run_node finish s w = some (s, w)

  -- The edge that is taken after a node.
  unfoldable pub next_node : Node → AgentState → Option Node
  next_node parse_user_request s = some (after_gateway s)
  next_node start_research_pass s = some course_research
  next_node retry_research_pass s = some course_research
  next_node course_research s = some (after_research s)
  next_node send_review_digest s = some await_human_review
  next_node await_human_review s = some interpret_review_feedback
  next_node interpret_review_feedback s = route_from_router config.chat_mode s.routing_decision
  next_node send_approved_courses s = some promote_approved_courses
  next_node promote_approved_courses s = some record_review_outcome
  next_node discard_run s = some drop_pending_courses
  next_node drop_pending_courses s = some record_review_outcome
  next_node record_review_outcome s = some curate_user_memory
  next_node curate_user_memory s = some finish
  next_node finish s = some finish
