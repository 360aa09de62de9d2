-- ===== src/Effects/Rounds.antt =====
-- One round of the worker: `run_once` of course_discovery/effects/worker.py.
use native.Mathlib.Nat.{le_trans}
use course_discovery_agent.Prelude.{
  ℕ, ◌+◌, ◌≤◌, String, some, List, [], ◌∷◌, ◌≡◌, refl, subst, eq_iff, arith, All, All-map, All-both,
  count_if, length,
}
use course_discovery_agent.Prelude.Dict.{get, put, get-put}
use course_discovery_agent.Effects.Models.{Effect, OutboxRecord}
use course_discovery_agent.Effects.MemoryStore.{Table, lease, claim, lease_all, due_records}
use course_discovery_agent.Effects.Worker.{OutboxWorker, World, run_once, no_stats}
use course_discovery_agent.Effects.Records.{
  occurrences, occurrences-cons_self, occurrences-le_cons, due_records_found, due_records_once,
  claim-IsTable,
}
use course_discovery_agent.Effects.Leases.{lease_all_stored}
use course_discovery_agent.Effects.Settled.{Ends, total}
use course_discovery_agent.Effects.Budget.{
  calls_for, attempts_of, IsRunning, IsIdle, absent_all, process_all-Ends,
}

abbrev Held : Table → OutboxRecord → Type 0
Held s r = get r.effect.key s ≡ some r

-- Leasing one record leaves the others, under other keys, where they were.
Held-after :
    (until : ℕ) (r : OutboxRecord) (rest : List OutboxRecord) (s : Table)
    → occurrences r.effect.key rest ≡ 0
    → All (Held s) rest
    → All (Held (put r.effect.key (lease until r) s)) rest
Held-after until r rest s absent held =
    All-map
      (λ x (other, h). ground (
        arith,
        get-put r.effect.key x.effect.key (lease until r) s,
        eq_iff r.effect.key x.effect.key,
        eq_iff x.effect.key r.effect.key,
      ))
      rest (All-both _ _ rest (absent_all r.effect.key rest absent) held)

lease_all_attempts :
    (until : ℕ) (due : List OutboxRecord) (s : Table) (k : String)
    → ((j : String) → occurrences j due ≤ 1)
    → All (Held s) due
    → attempts_of (get k s) ≤ attempts_of (get k (lease_all until due s).1)
unfolding lease_all
lease_all_attempts until [] s k once held = omega arith
lease_all_attempts until (r ∷ due) s k once held =
    let absent : occurrences r.effect.key due ≡ 0 =
      omega (arith, once r.effect.key, occurrences-cons_self r due) in
    let later : attempts_of (get k (put r.effect.key (lease until r) s))
        ≤ attempts_of (get k (lease_all until due (put r.effect.key (lease until r) s)).1) =
      lease_all_attempts until due (put r.effect.key (lease until r) s) k
        (λ j. omega (arith, once j, occurrences-le_cons j r due))
        (Held-after until r due s absent held.1) in
    let now : attempts_of (get k s) ≤ attempts_of (get k (put r.effect.key (lease until r) s)) =
      unfold lease in
      ground (arith, get-put r.effect.key k (lease until r) s, held.0, eq_iff r.effect.key k) in
    omega arith

lease_all_once :
    (until : ℕ) (due : List OutboxRecord) (s : Table) (k : String)
    → occurrences k (lease_all until due s).0 ≡ occurrences k due
unfolding lease_all lease count_if
lease_all_once until [] s k = refl
lease_all_once until (r ∷ due) s k =
    ground (arith, lease_all_once until due (put r.effect.key (lease until r) s) k)

-- Each leased record comes from a held one: its calls so far are below its new attempt.
lease_all_uncalled :
    (until : ℕ) (due : List OutboxRecord) (s : Table) (calls : List Effect)
    → All (λ r. calls_for r.effect.key calls ≤ r.attempts) due
    → All (λ x. calls_for x.effect.key calls + 1 ≤ x.attempts) (lease_all until due s).0
unfolding lease_all lease
lease_all_uncalled until [] s calls h = tt
lease_all_uncalled until (r ∷ due) s calls h =
    (omega (arith, h.0), lease_all_uncalled until due _ calls h.1)

abbrev pub after_claim : OutboxWorker → World → World
after_claim self w = record w {
  table = (claim (self.clock w.readings) self.batch_size self.lease_seconds w.table).1;
  readings = w.readings + 1;
}

claim-IsRunning :
    (self : OutboxWorker) (w : World)
    → IsIdle self.max_attempts w
    → IsRunning self.max_attempts
        (claim (self.clock w.readings) self.batch_size self.lease_seconds w.table).0
        (after_claim self w)
unfolding claim
claim-IsRunning self w h =
    let until : ℕ = self.clock w.readings + self.lease_seconds in
    let due : List OutboxRecord = due_records (self.clock w.readings) self.batch_size w.table in
    let once : (k : String) → occurrences k due ≤ 1 =
      λ k. due_records_once k (self.clock w.readings) self.batch_size w.table h.table in
    let held : All (Held w.table) due =
      All-map (λ r m. m.found) due
        (due_records_found (self.clock w.readings) self.batch_size w.table h.table) in
    record {
      table =
          claim-IsTable (self.clock w.readings) self.batch_size self.lease_seconds w.table h.table;
      budget = record {
        counted =
            λ k. le_trans (h.budget.counted k) (lease_all_attempts until due w.table k once held);
        allowed = h.budget.allowed;
      };
      pending =
          All-map (λ x (stored, uncalled). record { stored = stored; uncalled = uncalled }) _
            (All-both _ _ (lease_all until due w.table).0 (lease_all_stored until due w.table once)
              (lease_all_uncalled until due w.table w.calls (
                All-map
                  (λ r e.
                    subst (λ o. calls_for r.effect.key w.calls ≤ attempts_of o) e
                      (h.budget.counted r.effect.key))
                  due held)));
      once = λ k. rw (lease_all_once until due w.table k) (once k);
    }

-- Over a table whose records stand under their own keys, once each, with every key's calls within its
-- counted attempts and the limit, `run_once` raises nothing, whatever the handlers do; it leaves a table whose records stand under
-- their keys, and it counts each claimed record once, as delivered, retried or dead.
pub run_once-Ends :
    (self : OutboxWorker) (w : World)
    → IsIdle self.max_attempts w
    → Ends
        (λ w' stats.
          IsIdle self.max_attempts w'
          × (total stats
              ≡ length
                  (claim (self.clock w.readings) self.batch_size self.lease_seconds w.table).0))
        (run_once self w)
unfolding run_once
run_once-Ends self w h =
    let (w', stats, ran, (idle, sum)) =
      process_all-Ends self
        (claim (self.clock w.readings) self.batch_size self.lease_seconds w.table).0
        (after_claim self w) no_stats (claim-IsRunning self w h) in
    (w', stats, ran, (idle, omega arith))
