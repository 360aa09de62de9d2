-- ===== src/Lib.antt =====
-- Course discovery agent: the program's core as checked definitions, with the theorems that make
-- it correct.
--
-- The program finds online courses for a user. An outer graph (course_discovery/workflows/
-- outer_graph.py) parses a request, runs research passes, sends a digest, waits for the reviewer's
-- reply, and publishes, searches again or discards. A pass is a graph of its own
-- (course_discovery/workflows/research_graph.py): it loads the profile and the known courses, plans
-- and runs searches, extracts, deduplicates and validates candidates, and plans further searches
-- while too few are valid. Messages and publications leave through an outbox
-- (course_discovery/effects), which a worker empties with retries.
--
-- The parts and their files:
--   Prelude    numbers, lists, texts, dictionaries and sorting as the source uses them
--   Domain     course_discovery/domain: models.py, state.py and run_config.py
--   Effects    course_discovery/effects: Models (models.py), MemoryStore (memory_store.py),
--              PostgresStore (postgres_store.py), Worker (worker.py), Gateway (gateway.py), Handlers
--              (handlers.py); Records, Leases, Settled, Budget, Rounds, Runs, Submission and Backoff
--              are about them, Simulation, Claims, Refinement and Stores about the two stores
--   Guardrails course_discovery/guardrails: Pii (pii.py), Injection (injection.py)
--   Review     course_discovery/review: Router (router.py), Nodes (nodes.py); Decisions is about them
--   Memory     course_discovery/research_agent/memory: Nodes (nodes.py), Patches and Repository
--              (repository.py); Merging is about them
--   Curator    course_discovery/memory_curator: Tools (tools.py), Graph (graph.py); Proposals,
--              Calls and Session are about them
--   Chat       course_discovery/chat: Store (store.py), Worker (worker.py), Transport (transport.py and
--              handlers.py); Batches is about the store, Parts and Delivery about the transport
--   Research   course_discovery/research_agent: Planning, Search, Extraction, Dedup and Validation are
--              the nodes, Highlights a part of synthesis/nodes.py, Graph is workflows/research_graph.py;
--              Services and Urls are what they call; Distinct, Suitable, Verdicts, Checked,
--              Costs, Loops and Passes are about them
--   Cache      course_discovery/research_agent/cache/repository.py: Staging is its staging table,
--              Promotion is about it
--   Privacy    course_discovery/privacy: Flow and Checks (flow.py), Specs (flow_specs.py), Registry
--              (registry.py), Sources (sources.py), Erasure (erasure.py); Spread, Writes, Rounds,
--              Fixpoint, Origins, Seeding, Traces, Coverage and Compliance are about the flow rules,
--              Access about the registry, Deletion and Erased about the erasure
--   Tagging    course_discovery/jobs: Graph (tagging_graph.py), Schedule (tagging.py), and
--              research_agent/tagging: Vocabulary and Tagger; Guarded is about the graph, Cleaned
--              about the tagger, Repeated about the scheduling
--   Persistence  course_discovery/persistence/encryption.py: Encryption and Checkpoints; KeyRing,
--              Sealing and RoundTrip are about them
--   Conversation  course_discovery/conversation: Selector (selector.py)
--   Workflow   Outer is workflows/outer_graph.py, Services what its nodes call, Steps one resume, Close
--              course_discovery/review/close.py;
--              Pauses and Rounds are about every position that a thread can get to
--   Tests      concrete runs
--
-- Conventions. A record of the source is a record, an enum a data type, a Literal a data type or a
-- text, a dictionary the list of its items in insertion order. A function of the source has its
-- name, without a leading underscore. A LangGraph node is a function from the state to the state:
-- what it returns is written at once, by `operator.add` where the channel has that reducer. `none` is
-- an exception that leaves a function. Instants and durations are numbers of microseconds, prices,
-- ratings and scores numbers of millionths. Letters and white space of `lower` and `strip` are those
-- of ASCII. Where a callable of the program's own is given, such as the worker's backoff, it is taken to
-- return unless its model says how it raises. Logs, metrics counters and traces have no part in a result.
--
-- What the program takes from elsewhere is a parameter: the language models, the searcher, the
-- redactor, `urllib.parse`, `hashlib`, `rapidfuzz`, regular expressions, the text of a float, the
-- trace context, HTTP, AES-GCM, base64, UTF-8 and the nonces, the saver of checkpoints, and the
-- database behind the profile and the cache. An effect's handler answers by the calls made before, the
-- clock by how often it was read, so that both may change at every turn.
--
-- Fuel. A resume of the outer graph has fuel for 11 nodes, which is enough from every node: a pass
-- that comes back stale is retried once. A research pass has fuel for max_research_iterations + 1
-- checks, which is enough since every gap search raises the iteration. A curator session has fuel for
-- the steps that its limit leaves, and each of its turns is a step. The propagation of labels has fuel
-- for one round more than there are pairs of a written channel and a label missing, and each round but
-- the last adds such a pair; a trace has fuel for one hop more than there are recorded origins. The
-- range of the parts of a message has fuel for its characters, and each step is of one at least.
--
-- Not modelled: the cache's catalogue and search, the feedback's rows, the digest's ranking and assembly,
-- the parsing of chat updates, the reflection by which `pii_seeds` reads annotations, database connections,
-- the tagger's prompt and embeddings. A set of texts is a list, in the order in which its loop runs. What the
-- graphs call is a field of Research.Services or Workflow.Services, also where another file models it.
-- The tables of the chat store, of the profile and of the staged courses are lists and dictionaries on
-- which each transaction is one step. The runtime's retry of a transient exception is not modelled
-- either: the exception leaves the node.
pub mod Prelude
pub mod Domain
pub mod Effects
pub mod Guardrails
pub mod Review
pub mod Memory
pub mod Research
pub mod Workflow
pub mod Chat
pub mod Curator
pub mod Conversation
pub mod Cache
pub mod Privacy
pub mod Persistence
pub mod Tagging
pub mod Tests
