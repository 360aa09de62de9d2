-- ===== src/Tests/Workflow.antt =====
-- Runs of the outer graph: course_discovery/workflows/outer_graph.py.
use course_discovery_agent.Prelude.{◌≤◌, false, some, ◌≡◌, ◌≢◌, refl, length}
use course_discovery_agent.Domain.Models.{default_filters}
use course_discovery_agent.Domain.State.{AgentState}
use course_discovery_agent.Domain.RunConfig.{max_review_rounds}
use course_discovery_agent.Workflow.Outer.{
  parse_user_request, start_research_pass, course_research, send_review_digest, await_human_review,
  run_node, next_node, write_parsed, start_pass, write_research, after_gateway, after_research,
  is_given,
}
use course_discovery_agent.Workflow.Pauses.{Reach, started, moved, Reach-IsSafe}
use course_discovery_agent.Workflow.Rounds.{Reach-rounds}
use course_discovery_agent.Workflow.Steps.{segment, out_of_fuel, segment_stops}
use course_discovery_agent.Review.Nodes.{send_review_digest_node}
use course_discovery_agent.Tests.Samples.{config, request, services}

abbrev parsed : AgentState
parsed = record request { search_filters = some default_filters }

abbrev begun : AgentState
begun = record parsed { research_pass = some 0 }

abbrev at_gate : AgentState
at_gate = record begun { digest = some "No courses" }

gate_reached : Reach services config request await_human_review at_gate 0
unfolding run_node next_node write_parsed start_pass write_research after_gateway after_research
    send_review_digest_node
gate_reached =
    moved {n = send_review_digest} {s = at_gate} {w = 0}
      (moved {n = course_research} {s = begun} {w = 0}
        (moved {n = start_research_pass} {s = parsed} {w = 0}
          (moved {n = parse_user_request} {s = request} {w = 0} (started 0) refl refl) refl refl)
        refl refl)
      refl refl

Reach-IsSafe_example :
    (at_gate.research_pass ≡ some (length at_gate.feedback_history))
    × (is_given at_gate.discard_reason ≡ false)
Reach-IsSafe_example = Reach-IsSafe services config await_human_review at_gate 0 gate_reached

Reach-rounds_example : length at_gate.feedback_history ≤ max_review_rounds config
Reach-rounds_example = Reach-rounds services config await_human_review at_gate 0 refl gate_reached

segment_stops_example : segment services config 11 parse_user_request request 0 ≢ out_of_fuel
segment_stops_example = segment_stops services config parse_user_request request 0
