-- ===== src/Effects/Worker.antt =====
-- course_discovery/effects/worker.py: `OutboxWorker` over the outbox in memory. A handler answers
-- by the calls that were made before, and the clock by how often it was read; logging and metrics
-- have no part in the result. `none` is an exception that leaves `run_once`.
use course_discovery_agent.Prelude.{
  ℕ, ◌+◌, ◌*◌, ◌-◌, ◌^◌, ◌<>◌, min, String, Option, none, some, List, [], ◌∷◌, ◌++◌, ltb, leb, ◌==◌,
  if◌then◌else◌,
}
use course_discovery_agent.Effects.Models.{Effect, OutboxRecord}
use course_discovery_agent.Effects.MemoryStore.{Table, claim, mark_delivered, release, mark_dead}

-- `exponential_backoff`, for a first and each later attempt: `attempts` is at least 1. From attempt 1025 on,
-- 2 ** 1024 is no float, and the product raises an OverflowError.
unfoldable pub exponential_backoff : ℕ → ℕ → ℕ → Option ℕ
exponential_backoff base cap attempts =
    if ltb 1024 attempts then none else some (min cap (base * 2 ^ (attempts - 1)))

-- How a handler ends: it returns, raises `PermanentEffectError`, or any other exception.
pub data Outcome : Type 0 where
  returns : Outcome
  permanent : String → Outcome
  raises : String → String → Outcome

abbrev pub Handler : Type 0
Handler = List Effect → Effect → Outcome

-- `backoff` is taken to return, as the default does for the attempts that it is asked for: they are below
-- `max_attempts`, 5 by default.
pub record OutboxWorker : Type 0 where
  pub handlers : String → Option Handler
  pub max_attempts : ℕ
  pub backoff : ℕ → ℕ
  pub lease_seconds : ℕ
  pub batch_size : ℕ
  pub clock : ℕ → ℕ

pub record WorkerStats : Type 0 where
  pub delivered_count : ℕ
  pub retried_count : ℕ
  pub dead_count : ℕ

-- The table, the handler calls made so far, and how often the clock was read.
pub record World : Type 0 where
  pub table : Table
  pub calls : List Effect
  pub readings : ℕ

abbrev pub Run : Type 0
Run = World × WorkerStats

abbrev pub no_stats : WorkerStats
no_stats = record { delivered_count = 0; retried_count = 0; dead_count = 0 }

-- `error or default`, where an empty text counts as absent.
abbrev pub text_or : Option String → String → String
text_or none d = d
text_or (some e) d = if e == "" then d else e

-- A table operation's result, put back beside the rest of the run.
abbrev pub with_table : Option Table → (Table → Run) → Option Run
with_table none f = none
with_table (some s) f = some (f s)

abbrev pub bury : String → String → World → WorkerStats → Option Run
bury key error w stats =
    with_table (mark_dead key error w.table)
      λ s. (record w { table = s }, record stats { dead_count = stats.dead_count + 1 })

module _ (self : OutboxWorker) where
  -- What follows the handler's call, by how it ended.
  unfoldable pub conclude : OutboxRecord → Outcome → World → WorkerStats → Option Run
  conclude r (permanent message) w stats = bury r.effect.key message w stats
  conclude r (raises kind message) w stats =
      let error = kind <> (": " <> message) in
      if leb self.max_attempts r.attempts
      then bury r.effect.key error w stats
      else with_table
          (release r.effect.key error (self.clock w.readings + self.backoff r.attempts) w.table)
          λ s. (
            record w { table = s; readings = w.readings + 1 },
            record stats { retried_count = stats.retried_count + 1 },
          )
  conclude r returns w stats =
      with_table (mark_delivered r.effect.key (self.clock w.readings) w.table) λ s. (
        record w { table = s; readings = w.readings + 1 },
        record stats { delivered_count = stats.delivered_count + 1 },
      )

  unfoldable pub deliver : OutboxRecord → Option Handler → World → WorkerStats → Option Run
  unfolding conclude
  deliver r none w stats =
      bury r.effect.key ("no handler for kind '" <> (r.effect.kind <> "'")) w stats
  deliver r (some handler) w stats =
      conclude r (handler w.calls r.effect) (record w { calls = w.calls ++ r.effect ∷ [] }) stats

  -- `_process`
  unfoldable pub process : OutboxRecord → World → WorkerStats → Option Run
  unfolding deliver
  process r w stats =
      if ltb self.max_attempts r.attempts
      then bury r.effect.key (text_or r.last_error "lease expired after final attempt") w stats
      else deliver r (self.handlers r.effect.kind) w stats

  -- The loop of `run_once` over the claimed records.
  unfoldable pub process_all : List OutboxRecord → World → WorkerStats → Option Run
  process_all [] w stats = some (w, stats)
  process_all (r ∷ rest) w stats = elim (process r w stats) [
    | none ↦ none
    | some (w', stats') ↦ process_all rest w' stats'
  ]

  unfoldable pub run_once : World → Option Run
  run_once w =
      let (claimed, s) = claim (self.clock w.readings) self.batch_size self.lease_seconds w.table in
      process_all claimed (record w { table = s; readings = w.readings + 1 }) no_stats
