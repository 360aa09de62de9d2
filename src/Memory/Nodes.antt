-- ===== src/Memory/Nodes.antt =====
-- `user_memory_update_node` of course_discovery/research_agent/memory/nodes.py: what it hands to
-- `record_feedback`.
use course_discovery_agent.Prelude.{
  String, Bool, true, false, ◌&&◌, Option, none, some, List, join, non_empty, if◌then◌else◌,
}
use course_discovery_agent.Domain.Models.{
  CourseCandidate, DeliveryStatus, queued, delivered, dead, RoutingAction, publish,
}
use course_discovery_agent.Domain.State.{AgentState}
use course_discovery_agent.Domain.RunConfig.{Configurable}
use course_discovery_agent.Effects.Worker.{text_or}

-- The arguments of `record_feedback`.
pub record Feedback : Type 0 where
  pub user_id : Option String
  pub courses : List CourseCandidate
  pub query : String
  pub accepted : Bool
  pub feedback_text : Option String
  pub run_id : Option String
  pub reason : Option String
  pub uncatalogued : Bool

-- `status in {QUEUED, DELIVERED}`
abbrev pub is_sent : Option DeliveryStatus → Bool
is_sent (some queued) = true
is_sent (some delivered) = true
is_sent (some dead) = false
is_sent none = false

-- `decision == PUBLISH`
abbrev pub is_publish : Option RoutingAction → Bool
is_publish (some publish) = true
is_publish _ = false

unfoldable pub feedback_record : Configurable → AgentState → Feedback
feedback_record config s =
    let accepted =
      if config.chat_mode then is_publish s.routing_decision else is_sent s.publish_status in
    record {
      user_id = s.user_id;
      courses = s.valid_courses;
      query = s.user_query;
      accepted = accepted;
      feedback_text = non_empty (join "\n" s.feedback_history);
      run_id = some config.thread_id;
      reason =
          if config.chat_mode && accepted
          then some (text_or config.close_reason "accepted in chat")
          else none;
      uncatalogued = config.chat_mode && accepted;
    }
