-- ===== src/Effects/Runs.antt =====
-- Whole runs: course_discovery/effects/worker.py and gateway.py over one outbox, for any sequence
-- of submissions and worker rounds.
use course_discovery_agent.Prelude.{
  ℕ, ◌+◌, ◌≤◌, String, Bool, true, false, Option, none, some, List, [], ◌∷◌, ◌≡◌, refl, inl, inr,
  ◌∙◌, eq_iff, arith, count_if, Option-cases,
}
use course_discovery_agent.Prelude.Dict.{Dict, get, get-put}
use course_discovery_agent.Domain.Models.{DeliveryStatus}
use course_discovery_agent.Effects.Models.{Effect, Value, is_queued}
use course_discovery_agent.Effects.MemoryStore.{enqueue, enqueue_found, new_record}
use course_discovery_agent.Effects.Worker.{OutboxWorker, World, run_once}
use course_discovery_agent.Effects.Gateway.{
  traced, submit, submit_inline, after_enqueue, or_queued, status,
}
use course_discovery_agent.Effects.Records.{enqueue-IsTable}
use course_discovery_agent.Effects.Budget.{calls_for, WithinBudget, IsIdle}
use course_discovery_agent.Effects.Rounds.{run_once-Ends}

enqueue-WithinBudget :
    (limit : ℕ) (effect : Effect) (now readings : ℕ) (w : World)
    → WithinBudget limit w
    → WithinBudget limit (record w { table = (enqueue effect now w.table).1; readings = readings })
unfolding enqueue
enqueue-WithinBudget limit effect now readings w b = record {
  counted = λ k. elim (Option-cases (get effect.key w.table)) [
    | inr (r, e) ↦ rw (e, enqueue_found) (b.counted k)
    | inl e ↦
        rw (e, enqueue_found)
          (ground (
            arith,
            b.counted k,
            get-put effect.key k (new_record effect now) w.table,
            eq_iff effect.key k,
          ))
  ];
  allowed = b.allowed;
}

module _ (inject : Dict Value → Dict Value) (self : OutboxWorker) where
  -- What the program does with the outbox: it submits an effect, to be delivered later or at once,
  -- or the worker makes a round.
  pub data Operation : Type 0 where
    defer : Effect → Operation
    deliver_now : Effect → Operation
    round : Operation

  -- `none` where an exception leaves the operation.
  pub perform : Operation → World → Option World
  perform (defer effect) w = some (submit inject self.clock effect w).1
  perform (deliver_now effect) w = elim (submit_inline inject self effect w) [
    | none ↦ none
    | some (_, w') ↦ some w'
  ]
  perform round w = elim (run_once self w) [ none ↦ none | some (w', _) ↦ some w' ]

  pub perform_all : List Operation → World → Option World
  perform_all [] w = some w
  perform_all (o ∷ rest) w = elim (perform o w) [ none ↦ none | some w' ↦ perform_all rest w' ]

  queued_IsIdle :
      (effect : Effect) (w : World)
      → IsIdle self.max_attempts w
      → IsIdle self.max_attempts (record w {
        table = (enqueue (traced inject effect) (self.clock w.readings) w.table).1;
        readings = w.readings + 1;
      })
  queued_IsIdle effect w h = record {
    table = enqueue-IsTable (traced inject effect) (self.clock w.readings) w.table h.table;
    budget =
        enqueue-WithinBudget self.max_attempts (traced inject effect) (self.clock w.readings)
          (w.readings + 1) w h.budget;
  }

  after_enqueue_ends :
      (effect : Effect) (b : Bool) (w : World)
      → IsIdle self.max_attempts w
      → (d : DeliveryStatus) × (w' : World) × (after_enqueue self effect b w ≡ some (d, w'))
        × IsIdle self.max_attempts w'
  unfolding after_enqueue
  after_enqueue_ends effect false w h = (_, w, refl, h)
  after_enqueue_ends effect true w h =
      let (w', stats, ran, (idle, _)) = run_once-Ends self w h in
      (or_queued (status effect.key w'.table), w', rw (ran, after_enqueue), idle)

  perform_ends :
      (o : Operation) (w : World)
      → IsIdle self.max_attempts w
      → (w' : World) × (perform o w ≡ some w') × IsIdle self.max_attempts w'
  unfolding perform submit submit_inline
  perform_ends (defer effect) w h = (_, refl, queued_IsIdle effect w h)
  perform_ends round w h =
      let (w', stats, ran, (idle, _)) = run_once-Ends self w h in (w', rw (ran, perform), idle)
  perform_ends (deliver_now effect) w h =
      let (d, w', ran, idle) =
        after_enqueue_ends effect
          (is_queued (enqueue (traced inject effect) (self.clock w.readings) w.table).0.status) _
          (queued_IsIdle effect w h) in
      (w', rw (ran, perform), idle)

  perform_all-cons :
      (o : Operation) (rest : List Operation) (w w' : World)
      → perform o w ≡ some w'
      → perform_all (o ∷ rest) w ≡ perform_all rest w'
  unfolding perform_all
  perform_all-cons o rest w w' e = rw (e, perform_all)

  perform_all_ends :
      (operations : List Operation) (w : World)
      → IsIdle self.max_attempts w
      → (w' : World) × (perform_all operations w ≡ some w') × IsIdle self.max_attempts w'
  unfolding perform_all
  perform_all_ends [] w h = (w, refl, h)
  perform_all_ends (o ∷ rest) w h =
      let (w', ran, idle) = perform_ends o w h in
      let (last, finished, end) = perform_all_ends rest w' idle in
      (last, perform_all-cons o rest w w' ran ∙ finished, end)

  abbrev pub empty_world : World
  empty_world = record { table = []; calls = []; readings = 0 }

  -- From an empty outbox, any sequence of submissions, deferred or delivered at once, and worker
  -- rounds ends without an exception, and the handlers were called at most `max_attempts` times
  -- for each key, whatever they did and however the clock ran.
  pub calls-le-max_attempts :
      (operations : List Operation) (k : String)
      → (w : World) × (perform_all operations empty_world ≡ some w)
        × (calls_for k w.calls ≤ self.max_attempts)
  unfolding count_if get
  calls-le-max_attempts operations k =
      let (w, ran, idle) = perform_all_ends operations empty_world (record {
        table = record { dict = tt; keyed = λ j r e. cc };
        budget = record { counted = λ j. omega arith; allowed = λ j. omega arith };
      }) in
      (w, ran, idle.budget.allowed k)
