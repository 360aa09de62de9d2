-- ===== src/Research/Services.antt =====
-- What the research subgraph calls: the searcher, the course cache, the profiles and the writer of
-- the digest. `W` is the outside state; `none` is an exception that leaves the call.
use course_discovery_agent.Prelude.{ℕ, String, Bool, Option, List}
use course_discovery_agent.Domain.Models.{
  CourseCandidate, CandidateValidation, SearchFilters, UserMemory,
}
use course_discovery_agent.Domain.State.{ResearchState}
use course_discovery_agent.Research.Search.{Searched}
use course_discovery_agent.Research.Urls.{UrlLib}

pub record ResearchServices (P : Type 0) (W : Type 0) : Type 0 where
  pub urls : UrlLib P
  pub sha256 : String → String
  pub ratio_90 : String → String → Bool
  pub hours_in : String → Option ℕ
  pub float_text : ℕ → String
  pub search : String → W → Option (Searched × W)
  pub load_user_memory : Option String → W → Option (UserMemory × W)
  pub search_course_cache :
      SearchFilters → UserMemory → Option String → W → Option (List CourseCandidate × W)
  pub stage_courses : String → List CourseCandidate → List CandidateValidation → W → Option W
  pub synthesize : ResearchState → W → Option (String × W)
