-- ===== src/Effects/Budget.antt =====
-- How often a worker's run calls the handlers: course_discovery/effects/worker.py, `run_once`.
use course_discovery_agent.Prelude.{
  ℕ, ◌+◌, ◌≤◌, String, false, Option, none, some, List, [], ◌∷◌, ◌++◌, ◌≡◌, refl, inl, inr, sym, ap,
  ◌∙◌, subst, ◌==◌, eq_iff, eq_refl, arith, if◌then◌else◌, Bool-cases, All, All-map, All-both,
  count_if, length,
}
use course_discovery_agent.Prelude.Dict.{get, put, get-put}
use course_discovery_agent.Effects.Models.{Effect, OutboxRecord}
use course_discovery_agent.Effects.Worker.{OutboxWorker, WorkerStats, World, process, process_all}
use course_discovery_agent.Effects.Records.{
  IsTable, put-IsTable, occurrences, occurrences-cons_self, occurrences-le_cons,
}
use course_discovery_agent.Effects.Settled.{Settles, Ends, CallsAtMost, process-Ends, total}

-- How many of the handler calls were for a key.
abbrev pub calls_for : String → List Effect → ℕ
calls_for k = count_if (λ e. e.key == k)

abbrev pub attempts_of : Option OutboxRecord → ℕ
attempts_of none = 0
attempts_of (some r) = r.attempts

-- No key's handler calls pass its counted attempts, nor the allowed number.
pub record WithinBudget (limit : ℕ) (w : World) : Type 0 where
  pub counted : (k : String) → calls_for k w.calls ≤ attempts_of (get k w.table)
  pub allowed : (k : String) → calls_for k w.calls ≤ limit

-- A claimed record that has not been processed yet: it is in the table, and its new attempt has
-- not called its handler.
pub record IsPending (w : World) (r : OutboxRecord) : Type 0 where
  pub stored : get r.effect.key w.table ≡ some r
  pub uncalled : calls_for r.effect.key w.calls + 1 ≤ r.attempts

calls_for-snoc :
    (k : String) (calls : List Effect) (e : Effect)
    → calls_for k (calls ++ e ∷ [])
      ≡ (if e.key == k then calls_for k calls + 1 else calls_for k calls)
unfolding count_if
calls_for-snoc k [] e = ground arith
calls_for-snoc k (x ∷ calls) e = ground (arith, calls_for-snoc k calls e)

pub absent_all :
    (k : String) (rest : List OutboxRecord)
    → occurrences k rest ≡ 0
    → All (λ r. (r.effect.key == k) ≡ false) rest
unfolding count_if
absent_all k [] h = tt
absent_all k (r ∷ rest) h = (ground arith, absent_all k rest (ground arith))

module _ (limit : ℕ) (r : OutboxRecord) (stats : WorkerStats) (w w' : World) (stats' : WorkerStats)
    (turn : Settles r w.table stats w' stats') (called : CallsAtMost limit r w.calls w'.calls) where
  get_after :
      (k : String) → get k w'.table ≡ (if r.effect.key == k then some turn.final else get k w.table)
  get_after k = ap (get k) turn.written ∙ get-put r.effect.key k turn.final w.table

  turn-IsTable : IsTable w.table → IsTable w'.table
  turn-IsTable h = subst IsTable (sym turn.written) (
      subst (λ (e : Effect). IsTable (put e.key turn.final w.table)) turn.same_effect
        (put-IsTable turn.final w.table h))

  calls_after :
      (k : String) → (r.effect.key == k) ≡ false → calls_for k w'.calls ≡ calls_for k w.calls
  calls_after k other = elim called [
    | inl same ↦ rw same
    | inr (_, more) ↦ rw more (calls_for-snoc k w.calls r.effect ∙ rw other)
  ]

  turn_other :
      (x : OutboxRecord) → (x.effect.key == r.effect.key) ≡ false → IsPending w x → IsPending w' x
  turn_other x other p = record {
    stored = ground (
      arith,
      get_after x.effect.key,
      p.stored,
      eq_iff r.effect.key x.effect.key,
      eq_iff x.effect.key r.effect.key,
    );
    uncalled = ground (
      arith,
      calls_after x.effect.key,
      p.uncalled,
      eq_iff r.effect.key x.effect.key,
      eq_iff x.effect.key r.effect.key,
    );
  }

  calls_self :
      IsPending w r
      → calls_for r.effect.key w.calls ≤ limit
      → (calls_for r.effect.key w'.calls ≤ r.attempts) × (calls_for r.effect.key w'.calls ≤ limit)
  calls_self p below = elim called [
    | inl same ↦ rw same (omega (arith, p.uncalled), below)
    | inr (room, more) ↦
        let one : calls_for r.effect.key w'.calls ≡ calls_for r.effect.key w.calls + 1 =
          ap (calls_for r.effect.key) more
          ∙ calls_for-snoc r.effect.key w.calls r.effect
          ∙ rw eq_refl in
        (omega (arith, p.uncalled), omega (arith, p.uncalled))
  ]

  turn-WithinBudget : IsPending w r → WithinBudget limit w → WithinBudget limit w'
  turn-WithinBudget p b = record {
    counted = λ k. elim (Bool-cases (r.effect.key == k)) [
      | inl same ↦
          let key : r.effect.key ≡ k = (eq_iff _ _).0 same in
          subst (λ j. calls_for j w'.calls ≤ attempts_of (get j w'.table)) key
            (rw (get_after r.effect.key, eq_refl, turn.same_attempts)
              (calls_self p (b.allowed r.effect.key)).0)
      | inr other ↦ rw (get_after k, other, calls_after k other) (b.counted k)
    ];
    allowed = λ k. elim (Bool-cases (r.effect.key == k)) [
      | inl same ↦
          subst (λ j. calls_for j w'.calls ≤ limit) ((eq_iff _ _).0 same)
            (calls_self p (b.allowed r.effect.key)).1
      | inr other ↦ rw (calls_after k other) (b.allowed k)
    ];
  }

-- Where a run of the worker stands between two records.
pub record IsRunning (limit : ℕ) (rest : List OutboxRecord) (w : World) : Type 0 where
  pub table : IsTable w.table
  pub budget : WithinBudget limit w
  pub pending : All (IsPending w) rest
  pub once : (k : String) → occurrences k rest ≤ 1

pub record IsIdle (limit : ℕ) (w : World) : Type 0 where
  pub table : IsTable w.table
  pub budget : WithinBudget limit w

module _ (self : OutboxWorker) where
  process_all-cons :
      (r : OutboxRecord) (rest : List OutboxRecord) (w w' : World) (stats stats' : WorkerStats)
      → process self r w stats ≡ some (w', stats')
      → process_all self (r ∷ rest) w stats ≡ process_all self rest w' stats'
  unfolding process_all
  process_all-cons r rest w w' stats stats' e = rw (e, process_all)

  pub process_all-Ends :
      (rest : List OutboxRecord) (w : World) (stats : WorkerStats)
      → IsRunning self.max_attempts rest w
      → Ends
          (λ w' stats'. IsIdle self.max_attempts w' × (total stats' ≡ total stats + length rest))
          (process_all self rest w stats)
  unfolding process_all
  process_all-Ends [] w stats h =
      (w, stats, refl, (record { table = h.table; budget = h.budget }, omega arith))
  process_all-Ends (r ∷ rest) w stats h =
      let (w', stats', ran, (turn, called)) = process-Ends self r stats w h.pending.0.stored in
      let absent : occurrences r.effect.key rest ≡ 0 =
        omega (arith, h.once r.effect.key, occurrences-cons_self r rest) in
      let next : IsRunning self.max_attempts rest w' = record {
        table = turn-IsTable self.max_attempts r stats w w' stats' turn called h.table;
        budget =
            turn-WithinBudget self.max_attempts r stats w w' stats' turn called h.pending.0
              h.budget;
        pending =
            All-map
              (λ x (other, p).
                turn_other self.max_attempts r stats w w' stats' turn called x other p)
              rest (All-both _ _ rest (absent_all r.effect.key rest absent) h.pending.1);
        once = λ k. omega (arith, h.once k, occurrences-le_cons k r rest);
      } in
      let (last, final, finished, (idle, sum)) = process_all-Ends rest w' stats' next in
      (
        last,
        final,
        process_all-cons r rest w w' stats stats' ran ∙ finished,
        (idle, omega (arith, turn.counted)),
      )
