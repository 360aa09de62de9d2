-- ===== src/Tests/Effects.antt =====
-- Runs of the outbox: course_discovery/effects.
use course_discovery_agent.Prelude.{
  ℕ, none, ◌≤◌, false, some, [], ◌∷◌, ◌≡◌, refl, arith, All, length, min,
}
use course_discovery_agent.Prelude.Dict.{get}
use course_discovery_agent.Effects.MemoryStore.{Table, claim, is_due, lease}
use course_discovery_agent.Effects.Worker.{World, exponential_backoff, process, run_once, no_stats}
use course_discovery_agent.Effects.Backoff.{exponential_backoff_bounds}
use course_discovery_agent.Effects.Leases.{claim_exclusive}
use course_discovery_agent.Effects.Settled.{Ends, Processed, process-Ends, total}
use course_discovery_agent.Effects.Budget.{IsIdle, calls_for}
use course_discovery_agent.Effects.Rounds.{run_once-Ends}
use course_discovery_agent.Effects.Runs.{
  defer, deliver_now, round, perform_all, empty_world, calls-le-max_attempts,
}
use course_discovery_agent.Tests.Samples.{
  digest_effect, worker, queued_record, one_record, one_record-IsTable, one_queued,
  one_queued-IsIdle,
}

calls-le-max_attempts_example :
    (w : World) × (perform_all
        (λ p. p)
        worker
        (defer digest_effect ∷ round ∷ deliver_now digest_effect ∷ [])
        (empty_world (λ p. p) worker)
      ≡ some w)
    × (calls_for "publish:r1" w.calls ≤ 2)
calls-le-max_attempts_example =
    calls-le-max_attempts (λ p. p) worker
      (defer digest_effect ∷ round ∷ deliver_now digest_effect ∷ []) "publish:r1"

run_once-Ends_example :
    Ends
      (λ w' stats.
        IsIdle 2 w' × (total stats ≡ length (claim 0 10 60 (one_record queued_record)).0))
      (run_once worker one_queued)
run_once-Ends_example = run_once-Ends worker one_queued one_queued-IsIdle

claim_exclusive_example :
    All
      (λ x.
        (get x.effect.key (claim 0 10 60 (one_record queued_record)).1 ≡ some x)
        × (is_due 59 x ≡ false))
      (claim 0 10 60 (one_record queued_record)).0
claim_exclusive_example =
    claim_exclusive 0 10 60 59 (one_record queued_record) (one_record-IsTable queued_record)
      (omega arith)

process-Ends_example :
    Ends
      (Processed worker
        (lease 60 queued_record)
        no_stats
        (record one_queued { table = one_record (lease 60 queued_record) }))
      (process worker
        (lease 60 queued_record)
        (record one_queued { table = one_record (lease 60 queued_record) })
        no_stats)
unfolding get lease
process-Ends_example =
    process-Ends worker (lease 60 queued_record) no_stats
      (record one_queued { table = one_record (lease 60 queued_record) }) refl

abbrev no_records : Table
no_records = []

exponential_backoff_bounds_example :
    (now : ℕ) × (after : ℕ) × (exponential_backoff 1 60 3 ≡ some now)
    × (exponential_backoff 1 60 4 ≡ some after)
    × (now ≤ 60)
    × (min 1 60 ≤ now)
    × (now ≤ after)
    × (exponential_backoff 1 60 1025 ≡ none)
exponential_backoff_bounds_example = exponential_backoff_bounds 1 60 2 0 (omega arith)
