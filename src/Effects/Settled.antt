-- ===== src/Effects/Settled.antt =====
-- One record's pass through `_process` of course_discovery/effects/worker.py.
use course_discovery_agent.Prelude.{
  ℕ, ◌+◌, ◌<>◌, ◌≤◌, String, false, Option, none, some, List, [], ◌∷◌, ◌++◌, ◌≡◌, refl, ◌⊎◌, inl,
  inr, arith, Bool-cases, leb, ltb,
}
use course_discovery_agent.Prelude.Dict.{get, put}
use course_discovery_agent.Effects.Models.{Effect, OutboxRecord, is_in_progress}
use course_discovery_agent.Effects.MemoryStore.{
  Table, update, update_found, mark_delivered, release, mark_dead, as_delivered, as_released,
  as_dead,
}
use course_discovery_agent.Effects.Worker.{
  Outcome, returns, permanent, raises, Handler, OutboxWorker, WorkerStats, World, bury, conclude,
  deliver, process, text_or,
}

pub update-found :
    (key : String) (change : OutboxRecord → OutboxRecord) (s : Table) (r : OutboxRecord)
    → get key s ≡ some r
    → update key change s ≡ some (put key (change r) s)
unfolding update
update-found key change s r e = rw (e, update_found)

abbrev pub total : WorkerStats → ℕ
total stats = stats.delivered_count + stats.retried_count + stats.dead_count

-- How a record's turn ends: it is no longer in progress, keeps its effect and its attempts, no
-- other key of the table is touched, and the run's statistics count it once.
pub record Settles (r : OutboxRecord) (table : Table) (stats : WorkerStats) (w' : World)
    (stats' : WorkerStats) : Type 0 where
  pub final : OutboxRecord
  pub written : w'.table ≡ put r.effect.key final table
  pub same_effect : final.effect ≡ r.effect
  pub same_attempts : final.attempts ≡ r.attempts
  pub settled : is_in_progress final.status ≡ false
  pub counted : total stats' ≡ total stats + 1

-- A run that ends without an exception, in a world and statistics with a property.
abbrev pub Ends : (World → WorkerStats → Type 0) → Option (World × WorkerStats) → Type 0
Ends P o = (w' : World) × (stats' : WorkerStats) × (o ≡ some (w', stats')) × P w' stats'

-- The handler is called once or not at all, and not past the allowed attempts.
abbrev pub CallsAtMost : ℕ → OutboxRecord → List Effect → List Effect → Type 0
CallsAtMost limit r calls calls' =
    (calls' ≡ calls) ⊎ ((r.attempts ≤ limit) × (calls' ≡ calls ++ r.effect ∷ []))

module _ (self : OutboxWorker) (r : OutboxRecord) (stats : WorkerStats) where
  abbrev Concludes : World → World → WorkerStats → Type 0
  Concludes w w' stats' = Settles r w.table stats w' stats' × (w'.calls ≡ w.calls)

  bury-Ends :
      (w : World) (error : String)
      → get r.effect.key w.table ≡ some r
      → Ends (Concludes w) (bury r.effect.key error w stats)
  unfolding mark_dead
  bury-Ends w error e = (
    record w { table = put r.effect.key (as_dead error r) w.table },
    record stats { dead_count = stats.dead_count + 1 },
    rw (update-found r.effect.key (as_dead error) w.table r e),
    (
      record {
        final = as_dead error r;
        written = refl;
        same_effect = refl;
        same_attempts = refl;
        settled = refl;
        counted = omega arith;
      },
      refl,
    ),
  )

  conclude-Ends :
      (o : Outcome) (w : World)
      → get r.effect.key w.table ≡ some r
      → Ends (Concludes w) (conclude self r o w stats)
  unfolding conclude mark_delivered release
  conclude-Ends (permanent message) w e = bury-Ends w message e
  conclude-Ends returns w e =
      let final : OutboxRecord = as_delivered (self.clock w.readings) r in
      (
        record w { table = put r.effect.key final w.table; readings = w.readings + 1 },
        record stats { delivered_count = stats.delivered_count + 1 },
        rw (update-found r.effect.key (as_delivered (self.clock w.readings)) w.table r e),
        (
          record {
            final = final;
            written = refl;
            same_effect = refl;
            same_attempts = refl;
            settled = refl;
            counted = omega arith;
          },
          refl,
        ),
      )
  conclude-Ends (raises kind message) w e = elim (Bool-cases (leb self.max_attempts r.attempts)) [
    | inl last ↦ rw last (bury-Ends w (kind <> (": " <> message)) e)
    | inr more ↦
        let error : String = kind <> (": " <> message) in
        let retry_at : ℕ = self.clock w.readings + self.backoff r.attempts in
        let final : OutboxRecord = as_released error retry_at r in
        rw more (
          record w { table = put r.effect.key final w.table; readings = w.readings + 1 },
          record stats { retried_count = stats.retried_count + 1 },
          rw (update-found r.effect.key (as_released error retry_at) w.table r e),
          (
            record {
              final = final;
              written = refl;
              same_effect = refl;
              same_attempts = refl;
              settled = refl;
              counted = omega arith;
            },
            refl,
          ),
        )
  ]

  abbrev pub Processed : World → World → WorkerStats → Type 0
  Processed w w' stats' =
      Settles r w.table stats w' stats' × CallsAtMost self.max_attempts r w.calls w'.calls

  deliver-Ends :
      (handler : Option Handler) (w : World)
      → r.attempts ≤ self.max_attempts
      → get r.effect.key w.table ≡ some r
      → Ends (Processed w) (deliver self r handler w stats)
  unfolding deliver
  deliver-Ends none w allowed e =
      let (w', stats', ran, (turn, same)) =
        bury-Ends w ("no handler for kind '" <> (r.effect.kind <> "'")) e in
      (w', stats', ran, (turn, inl same))
  deliver-Ends (some handler) w allowed e =
      let called : World = record w { calls = w.calls ++ r.effect ∷ [] } in
      let (w', stats', ran, (turn, same)) = conclude-Ends (handler w.calls r.effect) called e in
      (w', stats', ran, (turn, inr (allowed, same)))

  -- `_process` of a record that the table holds under its key raises nothing, whatever its handler
  -- does. The record ends delivered, dead or queued again, and its handler runs at most once,
  -- within the attempts.
  pub process-Ends :
      (w : World) → get r.effect.key w.table ≡ some r → Ends (Processed w) (process self r w stats)
  unfolding process
  process-Ends w e = elim (Bool-cases (ltb self.max_attempts r.attempts)) [
    | inl spent ↦
        let (w', stats', ran, (turn, same)) =
          bury-Ends w (text_or r.last_error "lease expired after final attempt") e in
        rw spent (w', stats', ran, (turn, inl same))
    | inr left ↦ rw left (deliver-Ends (self.handlers r.effect.kind) w (ground arith) e)
  ]
