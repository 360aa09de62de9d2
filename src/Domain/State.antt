-- ===== src/Domain/State.antt =====
-- course_discovery/domain/state.py: the channels of the outer graph and of the research graph.
-- `research_pass` is absent until the first pass starts; the retry counter counts as 0 until then.
use course_discovery_agent.Prelude.{ℕ, String, Option, List}
use course_discovery_agent.Domain.Models.{
  CandidateValidation, CourseCandidate, DeliveryStatus, ResearchPlan, ResearchRunMetrics,
  RoutingAction, SearchFilters, TavilySearchResult, UserMemory,
}

pub record AgentState : Type 0 where
  pub user_query : String
  pub user_id : Option String
  pub search_filters : Option SearchFilters
  pub valid_courses : List CourseCandidate
  pub digest : Option String
  pub metrics : ResearchRunMetrics
  pub manager_feedback : Option String
  pub feedback_history : List String
  pub rewrite_instructions : Option String
  pub routing_decision : Option RoutingAction
  pub publish_status : Option DeliveryStatus
  pub discard_reason : Option String
  pub memory_update : Option String
  pub research_pass : Option ℕ
  pub research_retries : ℕ

-- What the subgraph takes over from the outer state at the start of a pass.
pub record ResearchInput : Type 0 where
  pub user_id : Option String
  pub search_filters : Option SearchFilters
  pub routing_decision : Option RoutingAction
  pub rewrite_instructions : Option String
  pub research_pass : Option ℕ

pub record ResearchState : Type 0 where
  pub user_id : Option String
  pub search_filters : Option SearchFilters
  pub routing_decision : Option RoutingAction
  pub rewrite_instructions : Option String
  pub research_pass : Option ℕ
  pub discard_reason : Option String
  pub valid_courses : List CourseCandidate
  pub digest : Option String
  pub metrics : Option ResearchRunMetrics
  pub user_memory : Option UserMemory
  pub cache_candidates : List CourseCandidate
  pub research_plan : Option ResearchPlan
  pub tavily_results : List TavilySearchResult
  pub extracted_candidates : List CourseCandidate
  pub scraped_courses : List CourseCandidate
  pub deduplicated_courses : List CourseCandidate
  pub rejected_courses : List CourseCandidate
  pub uncertain_courses : List CourseCandidate
  pub validation_results : List CandidateValidation
  pub research_iteration : ℕ
  pub completed_queries : List String
  pub research_notes : List String
