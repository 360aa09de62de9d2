-- ===== src/Effects/Stores.antt =====
-- course_discovery/effects/store.py: what the two outbox stores have in common. Each operation of the
-- Postgres store does to the rows what that of the store in memory does to the dictionary.
use course_discovery_agent.Prelude.{
  ℕ, String, Bool, true, false, not, Option, none, some, ◌≡◌, refl, inl, inr, if◌then◌else◌,
  Option-cases, sym, length, take, filter, sort_by, text_le, count_if-sort_by, List, length-filter,
  ◌+◌, ◌≤◌, arith, ◌∙◌, length-take_eq, take_all, length-sort_by, subst, count_if, is_some, ap,
}
use course_discovery_agent.Prelude.Dict.{get, put-IsDict, keep-IsDict, IsDict}
use course_discovery_agent.Effects.Models.{Effect, OutboxRecord, is_dead}
use course_discovery_agent.Effects.MemoryStore
use course_discovery_agent.Effects.MemoryStore.{Table, as_delivered, as_released, as_dead, is_stale}
use course_discovery_agent.Effects.Records.{enqueue-IsTable, claim-IsTable}
use course_discovery_agent.Effects.PostgresStore
use course_discovery_agent.Effects.PostgresStore.{
  Rows, has_key, select, update_where, as_requeued, is_dead_key,
}
use course_discovery_agent.Effects.Simulation.{
  to_table, IsUnique, values-to_table, get-to_table, put-update, KeepsKey, update_where-none,
  select-none, update_dead, update_dead_none,
}
use course_discovery_agent.Effects.Claims.{to_table-IsTable}
use course_discovery_agent.Effects.Refinement.{
  claim_counts, claim_table, updated, requeued, pruned, enqueued,
}

-- What an update of one record does: the dictionary raises where the rows stay as they are.
abbrev pub AgreesOn : String → Rows → Option Table → Rows → Type 0
AgreesOn key rows table rows' =
    (table ≡ (if is_some (select key rows) then some (to_table rows') else none))
    × (rows' ≡ (if is_some (select key rows) then rows' else rows))
    × IsUnique rows'

-- The same results, and the same table afterwards, whose keys are unique again.
pub record Refines (rows : Rows) : Type 0 where
  pub enqueue :
      (effect : Effect) (now : ℕ)
      → ((PostgresStore.enqueue effect now rows).0
          ≡ some (MemoryStore.enqueue effect now (to_table rows)).0)
        × (to_table (PostgresStore.enqueue effect now rows).1
            ≡ (MemoryStore.enqueue effect now (to_table rows)).1)
        × IsUnique (PostgresStore.enqueue effect now rows).1
  pub claim :
      (now limit seconds : ℕ)
      → ((p : OutboxRecord → Bool)
          → count_if p (PostgresStore.claim now limit seconds rows).0
            ≡ count_if p (MemoryStore.claim now limit seconds (to_table rows)).0)
        × (to_table (PostgresStore.claim now limit seconds rows).1
            ≡ (MemoryStore.claim now limit seconds (to_table rows)).1)
        × IsUnique (PostgresStore.claim now limit seconds rows).1
  pub mark_delivered :
      (key : String) (now : ℕ)
      → AgreesOn key rows
          (MemoryStore.mark_delivered key now (to_table rows))
          (PostgresStore.mark_delivered key now rows)
  pub release :
      (key error : String) (retry_at : ℕ)
      → AgreesOn key rows
          (MemoryStore.release key error retry_at (to_table rows))
          (PostgresStore.release key error retry_at rows)
  pub mark_dead :
      (key error : String)
      → AgreesOn key rows
          (MemoryStore.mark_dead key error (to_table rows))
          (PostgresStore.mark_dead key error rows)
  pub find : (key : String) → select key rows ≡ get key (to_table rows)
  pub list_dead :
      (before : String → String → Bool) (limit : ℕ)
      → (length (PostgresStore.list_dead before limit rows)
          ≡ length (MemoryStore.list_dead limit (to_table rows)))
        × (PostgresStore.list_dead text_le limit rows ≡ MemoryStore.list_dead limit (to_table rows))
  pub list_all_dead :
      (before : String → String → Bool) (more : ℕ) (p : OutboxRecord → Bool)
      → count_if p (PostgresStore.list_dead before (length rows + more) rows)
        ≡ count_if p (MemoryStore.list_dead (length rows + more) (to_table rows))
  pub requeue :
      (key : String) (now : ℕ)
      → ((PostgresStore.requeue key now rows).0 ≡ (MemoryStore.requeue key now (to_table rows)).0)
        × (to_table (PostgresStore.requeue key now rows).1
            ≡ (MemoryStore.requeue key now (to_table rows)).1)
        × IsUnique (PostgresStore.requeue key now rows).1
  pub prune_delivered :
      (older_than : ℕ)
      → ((PostgresStore.prune_delivered older_than rows).0
          ≡ (MemoryStore.prune_delivered older_than (to_table rows)).0)
        × (to_table (PostgresStore.prune_delivered older_than rows).1
            ≡ (MemoryStore.prune_delivered older_than (to_table rows)).1)
        × IsUnique (PostgresStore.prune_delivered older_than rows).1
  pub stats : (now : ℕ) → PostgresStore.stats now rows ≡ MemoryStore.stats now (to_table rows)

module _ (rows : Rows) (unique : IsUnique rows) where
  update-IsUnique :
      (change : OutboxRecord → OutboxRecord) (key : String)
      → KeepsKey change
      → IsUnique (update_where (has_key key) change rows)
  update-IsUnique change key keeps = elim (Option-cases (select key rows)) [
    | inl e ↦
        subst IsUnique (sym (update_where-none (has_key key) change rows (select-none key rows e)))
          unique
    | inr (r, e) ↦
        subst (λ (t : Table). IsDict t) (put-update change key rows r keeps unique e)
          (put-IsDict key (change r) (to_table rows) unique)
  ]

  unchanged :
      (change : OutboxRecord → OutboxRecord) (key : String)
      → update_where (has_key key) change rows
        ≡ (if is_some (select key rows) then update_where (has_key key) change rows else rows)
  unchanged change key = elim (Option-cases (select key rows)) [
    | inl e ↦ rw e (update_where-none (has_key key) change rows (select-none key rows e))
    | inr (r, e) ↦ rw e refl
  ]

  agrees :
      (change : OutboxRecord → OutboxRecord) (key : String)
      → KeepsKey change
      → AgreesOn key rows
          (MemoryStore.update key change (to_table rows))
          (update_where (has_key key) change rows)
  agrees change key keeps =
      (updated rows unique change key keeps, unchanged change key, update-IsUnique change key keeps)

  requeue-IsUnique : (key : String) (now : ℕ) → IsUnique (PostgresStore.requeue key now rows).1
  unfolding PostgresStore.requeue
  requeue-IsUnique key now = elim (Option-cases (select key rows)) [
    | inl e ↦ subst IsUnique (sym (update_dead_none (as_requeued now) key rows e).0) unique
    | inr (r, e) ↦
        subst IsUnique (sym (update_dead (as_requeued now) key rows r unique e).0)
          (either _ (is_dead r.status) (update-IsUnique (as_requeued now) key (λ x. refl)))
  ]
    where
      either : (r : Rows) (b : Bool) → IsUnique r → IsUnique (if b then r else rows)
      either r true h = h
      either r false h = unique

  abbrev dead_rows : List OutboxRecord
  dead_rows = filter (λ r. is_dead r.status) rows

  all_dead :
      (before : String → String → Bool) (more : ℕ) (p : OutboxRecord → Bool)
      → count_if p
          (take (length rows + more) (sort_by (λ a b. before a.effect.key b.effect.key) dead_rows))
        ≡ count_if p dead_rows
  all_dead before more p =
      let sorted = sort_by (λ a b. before a.effect.key b.effect.key) dead_rows in
      let few : length sorted ≤ length rows + more = omega (
        arith,
        length-sort_by (λ a b. before a.effect.key b.effect.key) dead_rows,
        length-filter (λ r. is_dead r.status) rows,
      ) in
      ap (count_if p) (take_all (length rows + more) sorted few)
      ∙ count_if-sort_by (λ a b. before a.effect.key b.effect.key) p dead_rows

  -- Where the keys of the rows are unique, each operation of the Postgres store returns what that of the
  -- store in memory returns on the rows as a dictionary, the claimed records as often though perhaps in
  -- another order, and leaves the rows of the dictionary that it leaves, with unique keys. The dead
  -- records are listed in the order of the database's collation: they are as many as in memory, the same
  -- ones where the limit leaves none out, and the same in the same order where the collation is by code
  -- points. Only an update of a key that is not there raises in memory, and leaves the rows as they are
  -- in Postgres.
  pub postgres-Refines : Refines rows
  unfolding MemoryStore.mark_delivered MemoryStore.release MemoryStore.mark_dead
      PostgresStore.mark_delivered PostgresStore.release PostgresStore.mark_dead
  postgres-Refines = record {
    enqueue = λ effect now.
        let (result, table) = enqueued rows unique effect now in
        (
          result,
          table,
          subst (λ (t : Table). IsDict t) (sym table)
              (enqueue-IsTable effect now (to_table rows) (to_table-IsTable rows unique)).dict,
        );
    claim = λ now limit seconds.
        let table = claim_table rows unique now limit seconds in
        (
          claim_counts rows unique now limit seconds,
          sym table,
          subst (λ (t : Table). IsDict t) table
              (claim-IsTable now limit seconds (to_table rows) (to_table-IsTable rows unique)).dict,
        );
    mark_delivered = λ key now. agrees (as_delivered now) key (λ r. refl);
    release = λ key error retry_at. agrees (as_released error retry_at) key (λ r. refl);
    mark_dead = λ key error. agrees (as_dead error) key (λ r. refl);
    find = λ key. sym (get-to_table key rows);
    list_dead = λ before limit.
        unfold PostgresStore.list_dead MemoryStore.list_dead in
        rw (values-to_table rows) (
          length-take_eq limit (sort_by (λ a b. before a.effect.key b.effect.key) dead_rows)
              (sort_by (λ a b. text_le a.effect.key b.effect.key) dead_rows)
              (length-sort_by (λ a b. before a.effect.key b.effect.key) dead_rows
                ∙ sym (length-sort_by (λ a b. text_le a.effect.key b.effect.key) dead_rows)),
          refl,
        );
    list_all_dead = λ before more p.
        unfold PostgresStore.list_dead MemoryStore.list_dead in
        rw (values-to_table rows) (all_dead before more p ∙ sym (all_dead text_le more p));
    requeue = λ key now.
        let same = requeued rows unique key now in
        (
          sym (ap (λ (x : Bool × Table). x.0) same),
          sym (ap (λ (x : Bool × Table). x.1) same),
          requeue-IsUnique key now,
        );
    prune_delivered = λ older_than.
        let same = pruned rows unique older_than in
        (
          sym (ap (λ (x : ℕ × Table). x.0) same),
          sym (ap (λ (x : ℕ × Table). x.1) same),
          subst (λ (t : Table). IsDict t) (ap (λ (x : ℕ × Table). x.1) same)
              (unfold MemoryStore.prune_delivered in
                keep-IsDict (λ _ r. not (is_stale older_than r)) (to_table rows) unique),
        );
    stats = λ now. unfold PostgresStore.stats MemoryStore.stats in rw (values-to_table rows) refl;
  }
