-- ===== src/Workflow/Services.antt =====
-- What the outer graph's nodes call: the interface between the graph and the rest of the program.
-- `W` is the outside state; `none` is an exception that leaves the call.
use course_discovery_agent.Prelude.{ℕ, String, Option, List}
use course_discovery_agent.Domain.Models.{
  CourseCandidate, DeliveryStatus, ResearchRunMetrics, SearchFilters,
}
use course_discovery_agent.Domain.State.{AgentState, ResearchInput}
use course_discovery_agent.Effects.Models.{Effect}
use course_discovery_agent.Memory.Nodes.{Feedback}
use course_discovery_agent.Review.Router.{RouterModel}

-- How `gateway_node` ends: with filters, or with the type of an exception that is not transient.
pub data Parsed : Type 0 where
  filters : SearchFilters → Parsed
  gateway_failed : String → Parsed

-- `ResearchOutput`: what the subgraph writes back.
pub record ResearchOutput : Type 0 where
  pub research_pass : Option ℕ
  pub discard_reason : Option String
  pub valid_courses : List CourseCandidate
  pub digest : Option String
  pub metrics : ResearchRunMetrics

pub record Services (W : Type 0) : Type 0 where
  pub redactor : String → Option String
  pub router_model : RouterModel
  pub parse : AgentState → W → Option (Parsed × W)
  pub research : ResearchInput → W → Option (ResearchOutput × W)
  pub submit : Effect → W → Option (DeliveryStatus × W)
  pub promote_staged_courses : String → List String → W → Option W
  pub discard_staged_courses : String → W → Option W
  pub record_feedback : Feedback → W → Option W
  pub curate : AgentState → W → Option (Option String × W)
