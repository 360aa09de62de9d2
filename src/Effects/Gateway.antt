-- ===== src/Effects/Gateway.antt =====
-- course_discovery/effects/gateway.py. `inject` is OpenTelemetry's `inject_trace_context`, which
-- gives the payload that is stored.
use course_discovery_agent.Prelude.{ℕ, ◌+◌, String, Bool, true, false, Option, none, some}
use course_discovery_agent.Prelude.Dict.{Dict, get}
use course_discovery_agent.Domain.Models.{DeliveryStatus}
use course_discovery_agent.Effects.Models.{Effect, OutboxRecord, RecordStatus, Value, is_queued}
use course_discovery_agent.Effects.MemoryStore.{Table, enqueue}
use course_discovery_agent.Effects.Worker.{OutboxWorker, World, run_once}

abbrev pub to_delivery_status : RecordStatus → DeliveryStatus
to_delivery_status RecordStatus.delivered = DeliveryStatus.delivered
to_delivery_status RecordStatus.dead = DeliveryStatus.dead
to_delivery_status RecordStatus.queued = DeliveryStatus.queued
to_delivery_status RecordStatus.in_progress = DeliveryStatus.queued

unfoldable pub status_found : Option OutboxRecord → Option DeliveryStatus
status_found none = none
status_found (some r) = some (to_delivery_status r.status)

unfoldable pub status : String → Table → Option DeliveryStatus
unfolding status_found
status key s = status_found (get key s)

abbrev pub or_queued : Option DeliveryStatus → DeliveryStatus
or_queued none = DeliveryStatus.queued
or_queued (some d) = d

-- What follows the enqueueing: a record that is queued sends the worker round at once.
unfoldable pub after_enqueue :
    OutboxWorker → Effect → Bool → World → Option (DeliveryStatus × World)
after_enqueue worker effect true w = elim (run_once worker w) [
  | none ↦ none
  | some (w', stats) ↦ some (or_queued (status effect.key w'.table), w')
]
after_enqueue worker effect false w = some (or_queued (status effect.key w.table), w)

module _ (inject : Dict Value → Dict Value) where
  abbrev pub traced : Effect → Effect
  traced effect = record effect { payload = inject effect.payload }

  -- `OutboxGateway.submit`
  unfoldable pub submit : (ℕ → ℕ) → Effect → World → DeliveryStatus × World
  submit clock effect w =
      let (r, s) = enqueue (traced effect) (clock w.readings) w.table in
      (to_delivery_status r.status, record w { table = s; readings = w.readings + 1 })

  -- `InlineGateway.submit`; `none` where an exception leaves the worker's run.
  unfoldable pub submit_inline : OutboxWorker → Effect → World → Option (DeliveryStatus × World)
  submit_inline worker effect w =
      let (r, s) = enqueue (traced effect) (worker.clock w.readings) w.table in
      after_enqueue worker effect (is_queued r.status)
        (record w { table = s; readings = w.readings + 1 })
