-- ===== src/Tests/Samples.antt =====
-- Sample data: an effect and a worker with the handlers of course_discovery/effects/handlers.py, a
-- thread's states, and simple services.
use course_discovery_agent.Prelude.{
  or_default, ℕ, String, true, false, none, some, [], ◌∷◌, arith, count_if,
}
use course_discovery_agent.Prelude.Dict.{get, put}
use course_discovery_agent.Domain.Models.{
  default_filters, no_metrics, no_memory, DeliveryStatus, CourseCandidate, tavily,
}
use course_discovery_agent.Domain.State.{AgentState, ResearchState}
use course_discovery_agent.Domain.RunConfig.{Configurable}
use course_discovery_agent.Effects.Models.{Effect, OutboxRecord, text}
use course_discovery_agent.Effects.MemoryStore.{Table, new_record}
use course_discovery_agent.Effects.Handlers.{stub_handlers, publish_digest}
use course_discovery_agent.Effects.Worker.{OutboxWorker, World, exponential_backoff}
use course_discovery_agent.Effects.Records.{IsTable, put-IsTable}
use course_discovery_agent.Effects.Budget.{IsIdle}
use course_discovery_agent.Workflow.Services.{Services, filters}
use course_discovery_agent.Research.Urls.{UrlLib}
use course_discovery_agent.Research.Search.{results}
use course_discovery_agent.Research.Services.{ResearchServices}

abbrev pub digest_effect : Effect
digest_effect = record {
  key = "publish:r1";
  kind = publish_digest;
  payload = ("digest", text "d") ∷ [];
}

abbrev pub worker : OutboxWorker
worker = record {
  handlers = stub_handlers;
  max_attempts = 2;
  backoff = λ n. or_default (exponential_backoff 1 60 n) 60;
  lease_seconds = 60;
  batch_size = 10;
  clock = λ n. n;
}

abbrev pub queued_record : OutboxRecord
queued_record = new_record digest_effect 0

abbrev pub one_record : OutboxRecord → Table
one_record r = (r.effect.key, r) ∷ []

pub nothing-IsTable : IsTable []
unfolding get
nothing-IsTable = record { dict = tt; keyed = λ k r e. absurd cc }

pub one_record-IsTable : (r : OutboxRecord) → IsTable (one_record r)
one_record-IsTable r = unfold put in put-IsTable r [] nothing-IsTable

abbrev pub one_queued : World
one_queued = record { table = one_record queued_record; calls = []; readings = 0 }

pub one_queued-IsIdle : IsIdle 2 one_queued
unfolding count_if
one_queued-IsIdle = record {
  table = one_record-IsTable queued_record;
  budget = record { counted = λ k. omega arith; allowed = λ k. omega arith };
}

abbrev pub config : Configurable
config = record {
  thread_id = "r1";
  review_rounds = none;
  research_iterations = none;
  chat_mode = false;
  close_reason = none;
}

abbrev pub request : AgentState
request = record {
  user_query = "free python course";
  user_id = some "u1";
  search_filters = none;
  valid_courses = [];
  digest = none;
  metrics = no_metrics;
  manager_feedback = none;
  feedback_history = [];
  rewrite_instructions = none;
  routing_decision = none;
  publish_status = none;
  discard_reason = none;
  memory_update = none;
  research_pass = none;
  research_retries = 0;
}

abbrev pub services : Services ℕ
services = record {
  redactor = λ t. some t;
  router_model = none;
  parse = λ s w. some (filters default_filters, w);
  research = λ i w. some (
    record {
      research_pass = i.research_pass;
      discard_reason = none;
      valid_courses = [];
      digest = some "No courses";
      metrics = no_metrics;
    },
    w,
  );
  submit = λ e w. some (DeliveryStatus.delivered, w);
  promote_staged_courses = λ run urls w. some w;
  discard_staged_courses = λ run w. some w;
  record_feedback = λ f w. some w;
  curate = λ s w. some (none, w);
}

abbrev pub urls : UrlLib String
urls = record {
  parse = λ t. some t;
  hostname = λ p. some "example.org";
  query = λ p. "";
  path = λ p. p;
  replace = λ q path p. path;
  unparse = λ p. p;
  parse_qsl = λ q. [];
  urlencode = λ items. "";
}

abbrev pub course : String → CourseCandidate
course url = record {
  title = url;
  provider = some "example";
  url = url;
  description = none;
  price = none;
  is_free = some true;
  has_certificate = none;
  level = none;
  language = some "en";
  rating = none;
  published_or_updated = none;
  source = tavily;
  evidence =
      record { source_url = url; quote_or_summary = "certificate"; supports = "certificate" ∷ [] }
      ∷ [];
  confidence = 550000;
  duration_hours = none;
  profile_similarity = none;
}

abbrev pub research_services : ResearchServices String ℕ
research_services = record {
  urls = urls;
  sha256 = λ t. t;
  ratio_90 = λ a b. false;
  hours_in = λ t. none;
  float_text = λ n. "4.0";
  search = λ q w. some (results [], w);
  load_user_memory = λ u w. some (no_memory, w);
  search_course_cache = λ f m u w. some ([], w);
  stage_courses = λ run cs vs w. some w;
  synthesize = λ s w. some ("digest", w);
}

abbrev pub pass_start : ResearchState
pass_start = record {
  user_id = some "u1";
  search_filters = some default_filters;
  routing_decision = none;
  rewrite_instructions = none;
  research_pass = some 0;
  discard_reason = none;
  valid_courses = [];
  digest = none;
  metrics = none;
  user_memory = none;
  cache_candidates = [];
  research_plan = none;
  tavily_results = [];
  extracted_candidates = [];
  scraped_courses =
      course "https://a.org/1" ∷ course "https://a.org/2" ∷ course "https://a.org/1" ∷ [];
  deduplicated_courses = course "https://a.org/1" ∷ course "https://a.org/2" ∷ [];
  rejected_courses = [];
  uncertain_courses = [];
  validation_results = [];
  research_iteration = 0;
  completed_queries = [];
  research_notes = [];
}
