-- ===== src/Domain/Models.antt =====
-- course_discovery/domain/models.py. Prices, ratings, scores and hours, floats in the source, are
-- natural numbers of millionths; a similarity may be negative.
use course_discovery_agent.Prelude.{
  ℕ, ◌*◌, String, Bool, true, false, Option, none, some, List, [], ◌∷◌, leb, if◌then◌else◌,
}

pub data RoutingAction : Type 0 where
  publish rewrite augment reset discard : RoutingAction

pub data DeliveryStatus : Type 0 where
  queued delivered dead : DeliveryStatus

abbrev pub millionths : ℕ → ℕ
millionths n = n * 1000000

abbrev pub short_course_max_hours : ℕ
short_course_max_hours = millionths 10

abbrev pub medium_course_max_hours : ℕ
medium_course_max_hours = millionths 40

unfoldable pub length_bucket : Option ℕ → Option String
length_bucket none = none
length_bucket (some hours) =
    if leb hours short_course_max_hours
    then some "short"
    else some (if leb hours medium_course_max_hours then "medium" else "long")

pub record SearchFilters : Type 0 where
  pub topic : String
  pub max_price : ℕ
  pub min_rating : ℕ
  pub include_certificate : Bool
  pub certificate_types : List String
  pub content_languages : List String
  pub providers : List String
  pub level : String
  pub recency_days : ℕ
  pub domain_blacklist : List String

-- `SearchFilters()`
abbrev pub default_filters : SearchFilters
default_filters = record {
  topic = "general programming";
  max_price = 0;
  min_rating = 0;
  include_certificate = true;
  certificate_types = "free" ∷ "paid_optional" ∷ [];
  content_languages = "en" ∷ [];
  providers = "youtube" ∷ "coursera" ∷ "edx" ∷ "udemy" ∷ [];
  level = "any";
  recency_days = 365;
  domain_blacklist = [];
}

pub record EvidenceItem : Type 0 where
  pub source_url : String
  pub quote_or_summary : String
  pub supports : List String

pub record MemoryNote : Type 0 where
  pub text : String
  pub scope : String
  pub learned_at : ℕ
  pub source_run_id : Option String

pub record UserMemory : Type 0 where
  pub preferred_providers : List String
  pub avoided_providers : List String
  pub preferred_languages : List String
  pub budget_preference : Option String
  pub certificate_importance : Option String
  pub preferred_level : Option String
  pub preferred_course_length : Option String
  pub learning_style_notes : Option String
  pub career_goals : List String
  pub completed_course_urls : List String
  pub rejected_course_urls : List String
  pub notes : List MemoryNote

-- `UserMemory()`
abbrev pub no_memory : UserMemory
no_memory = record {
  preferred_providers = [];
  avoided_providers = [];
  preferred_languages = [];
  budget_preference = none;
  certificate_importance = none;
  preferred_level = none;
  preferred_course_length = none;
  learning_style_notes = none;
  career_goals = [];
  completed_course_urls = [];
  rejected_course_urls = [];
  notes = [];
}

pub record ResearchPlan : Type 0 where
  pub topic : String
  pub constraints : List String
  pub search_queries : List String
  pub target_sources : List String
  pub exclude_patterns : List String
  pub min_valid_candidates : ℕ
  pub use_cache_first : Bool
  pub freshness_required : Bool
  pub rationale : String

-- Of `raw_metadata` the program reads the entry `duration_hours` alone.
pub record TavilySearchResult : Type 0 where
  pub query : String
  pub title : String
  pub url : String
  pub snippet : String
  pub score : Option ℕ
  pub metadata_duration_hours : Option ℕ

pub data Source : Type 0 where
  cache tavily manual : Source

-- A similarity: a number of millionths, or its opposite.
pub data Similarity : Type 0 where
  plus minus : ℕ → Similarity

pub record CourseCandidate : Type 0 where
  pub title : String
  pub provider : Option String
  pub url : String
  pub description : Option String
  pub price : Option String
  pub is_free : Option Bool
  pub has_certificate : Option Bool
  pub level : Option String
  pub language : Option String
  pub rating : Option ℕ
  pub published_or_updated : Option String
  pub source : Source
  pub evidence : List EvidenceItem
  pub confidence : ℕ
  pub duration_hours : Option ℕ
  pub profile_similarity : Option Similarity

pub data ValidationStatus : Type 0 where
  valid rejected uncertain : ValidationStatus

pub record CandidateValidation : Type 0 where
  pub url : String
  pub status : ValidationStatus
  pub reasons : List String
  pub missing_evidence : List String

pub record ResearchRunMetrics : Type 0 where
  pub queries_run : ℕ
  pub cache_hits : ℕ
  pub tavily_calls : ℕ
  pub valid_count : ℕ
  pub rejected_count : ℕ
  pub uncertain_count : ℕ
  pub replan_count : ℕ
  pub unsupported_claim_count : ℕ
  pub latency_ms : ℕ
  pub token_count : ℕ

-- `ResearchRunMetrics()`
abbrev pub no_metrics : ResearchRunMetrics
no_metrics = record {
  queries_run = 0;
  cache_hits = 0;
  tavily_calls = 0;
  valid_count = 0;
  rejected_count = 0;
  uncertain_count = 0;
  replan_count = 0;
  unsupported_claim_count = 0;
  latency_ms = 0;
  token_count = 0;
}

-- `course.source != "cache"`
abbrev pub is_found : Source → Bool
is_found cache = false
is_found tavily = true
is_found manual = true
