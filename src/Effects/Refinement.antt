-- ===== src/Effects/Refinement.antt =====
-- course_discovery/effects: the two outbox stores behave alike.
use course_discovery_agent.Prelude.{
  ℕ, ◌+◌, String, Bool, true, not, none, some, List, [], ◌∷◌, ◌≡◌, refl, inl, inr, arith,
  if◌then◌else◌, filter, map, eq_refl, Bool-cases, Option-cases, ap, ◌∙◌, sym, subst, count_if,
  count_if-sort_by, All-map, is_some,
}
use course_discovery_agent.Effects.Models.{Effect, OutboxRecord, is_dead}
use course_discovery_agent.Effects.MemoryStore
use course_discovery_agent.Effects.MemoryStore.{
  Table, new_record, lease, lease_all, due_records, update, as_delivered, as_released, as_dead,
  is_stale, is_due, update_found, requeue_found, enqueue_found,
}
use course_discovery_agent.Effects.Records.{due_records_found, due_records_once}
use course_discovery_agent.Effects.PostgresStore
use course_discovery_agent.Effects.PostgresStore.{
  Rows, has_key, select, update_where, picked, is_picked, comes_first, as_requeued, is_dead_key,
  insert_row,
}
use course_discovery_agent.Effects.Simulation.{
  to_table, IsUnique, values-to_table, get-to_table, keep-to_table, put-new, put-update, KeepsKey,
  select-none, update_dead, update_dead_none, select-append, select-some,
}
use course_discovery_agent.Effects.Claims.{
  to_table-IsTable, IsSelection, lease_all-to_table, counts,
}

lease_all-map :
    (until : ℕ) (due : List OutboxRecord) (s : Table)
    → (lease_all until due s).0 ≡ map (lease until) due
unfolding lease_all
lease_all-map until [] s = refl
lease_all-map until (r ∷ due) s = ap (λ rest. lease until r ∷ rest) (lease_all-map until due _)

count_if-map :
    (p : OutboxRecord → Bool) (f : OutboxRecord → OutboxRecord) (xs : List OutboxRecord)
    → count_if p (map f xs) ≡ count_if (λ x. p (f x)) xs
unfolding count_if
count_if-map p f [] = refl
count_if-map p f (x ∷ xs) = ground (arith, count_if-map p f xs)

module _ (rows : Rows) (unique : IsUnique rows) where
  due_picked : (now limit : ℕ) → due_records now limit (to_table rows) ≡ picked now limit rows
  unfolding due_records picked
  due_picked now limit = rw (values-to_table rows) refl

  picked-IsSelection : (now limit : ℕ) → IsSelection (picked now limit rows) rows
  picked-IsSelection now limit =
      let table = to_table-IsTable rows unique in
      subst (λ due. IsSelection due rows) (due_picked now limit)
        (record {
          found =
              All-map (λ r d. sym (get-to_table r.effect.key rows) ∙ d.found)
                (due_records now limit (to_table rows))
                (due_records_found now limit (to_table rows) table);
          once = λ k. due_records_once k now limit (to_table rows) table;
        })

  -- The claimed records are the same ones, as often.
  pub claim_counts :
      (now limit seconds : ℕ) (p : OutboxRecord → Bool)
      → count_if p (PostgresStore.claim now limit seconds rows).0
        ≡ count_if p (MemoryStore.claim now limit seconds (to_table rows)).0
  unfolding MemoryStore.claim PostgresStore.claim
  claim_counts now limit seconds p =
      let due = picked now limit rows in
      let f = lease (now + seconds) in
      rw (due_picked now limit, lease_all-map (now + seconds) due (to_table rows))
        (count_if-sort_by comes_first p (map f (filter (is_picked due) rows))
          ∙ (count_if-map p f (filter (is_picked due) rows)
              ∙ (counts (λ x. p (f x)) due rows unique (picked-IsSelection now limit)
                  ∙ sym (count_if-map p f due))))

  pub claim_table :
      (now limit seconds : ℕ)
      → (MemoryStore.claim now limit seconds (to_table rows)).1
        ≡ to_table (PostgresStore.claim now limit seconds rows).1
  unfolding MemoryStore.claim PostgresStore.claim
  claim_table now limit seconds = rw (due_picked now limit) (
      lease_all-to_table (now + seconds) (picked now limit rows) rows unique
        (picked-IsSelection now limit))

  -- An update of one record, with the exception of the store in memory where there is none.
  pub updated :
      (change : OutboxRecord → OutboxRecord) (key : String)
      → KeepsKey change
      → update key change (to_table rows) ≡ (
          if is_some (select key rows)
          then some (to_table (update_where (has_key key) change rows))
          else none)
  unfolding update
  updated change key keeps = elim (Option-cases (select key rows)) [
    | inl e ↦ rw (get-to_table key rows, e, update_found) refl
    | inr (r, e) ↦
        rw (get-to_table key rows, e, update_found)
          (ap some (put-update change key rows r keeps unique e))
  ]

  pub requeued :
      (key : String) (now : ℕ)
      → MemoryStore.requeue key now (to_table rows)
        ≡ ((PostgresStore.requeue key now rows).0, to_table (PostgresStore.requeue key now rows).1)
  unfolding MemoryStore.requeue PostgresStore.requeue
  requeued key now = elim (Option-cases (select key rows)) [
    | inl e ↦
        let (same, count) = update_dead_none (as_requeued now) key rows e in
        rw (get-to_table key rows, e, requeue_found, same, count) refl
    | inr (r, e) ↦
        let (same, count) = update_dead (as_requeued now) key rows r unique e in
        elim (Bool-cases (is_dead r.status)) [
          | inl d ↦
              rw (get-to_table key rows, e, requeue_found, same, count, d)
                (ap (λ (t : Table). (true, t))
                  (put-update (as_requeued now) key rows r (λ x. refl) unique e))
          | inr d ↦ rw (get-to_table key rows, e, requeue_found, same, count, d) refl
        ]
  ]

  pub pruned :
      (older_than : ℕ)
      → MemoryStore.prune_delivered older_than (to_table rows) ≡ (
        (PostgresStore.prune_delivered older_than rows).0,
        to_table (PostgresStore.prune_delivered older_than rows).1,
      )
  unfolding MemoryStore.prune_delivered PostgresStore.prune_delivered
  pruned older_than =
      rw (values-to_table rows, keep-to_table (λ r. not (is_stale older_than r)) rows) refl

  pub enqueued :
      (effect : Effect) (now : ℕ)
      → ((PostgresStore.enqueue effect now rows).0
          ≡ some (MemoryStore.enqueue effect now (to_table rows)).0)
        × (to_table (PostgresStore.enqueue effect now rows).1
            ≡ (MemoryStore.enqueue effect now (to_table rows)).1)
  unfolding MemoryStore.enqueue PostgresStore.enqueue insert_row
  enqueued effect now = elim (Option-cases (select effect.key rows)) [
    | inl e ↦
        let fresh = new_record effect now in
        rw (get-to_table effect.key rows, e, enqueue_found, select-none effect.key rows e)
          (
            select-append effect.key rows fresh e (unfold has_key in rw (eq_refl) refl),
            sym (put-new fresh rows e),
          )
    | inr (r, e) ↦
        rw (get-to_table effect.key rows, e, enqueue_found, select-some effect.key rows r e)
          (e, refl)
  ]
