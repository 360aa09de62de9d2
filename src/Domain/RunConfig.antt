-- ===== src/Domain/RunConfig.antt =====
-- course_discovery/domain/run_config.py: what a run's configuration sets, and the defaults.
use course_discovery_agent.Prelude.{ℕ, String, Bool, Option, or_default}

-- `config["configurable"]`; `chat_mode` is false where it is not set.
pub record Configurable : Type 0 where
  pub thread_id : String
  pub review_rounds : Option ℕ
  pub research_iterations : Option ℕ
  pub chat_mode : Bool
  pub close_reason : Option String

abbrev pub default_max_review_rounds : ℕ
default_max_review_rounds = 3

abbrev pub default_max_research_iterations : ℕ
default_max_research_iterations = 2

unfoldable pub max_review_rounds : Configurable → ℕ
max_review_rounds config = or_default config.review_rounds default_max_review_rounds

unfoldable pub max_research_iterations : Configurable → ℕ
max_research_iterations config =
    or_default config.research_iterations default_max_research_iterations
