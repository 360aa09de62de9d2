-- ===== src/Effects/PostgresStore.antt =====
-- course_discovery/effects/postgres_store.py: the outbox table of migrations/003_outbox.sql, whose keys
-- are unique, as the list of its rows in the order of their ids. Each method runs one statement, or an
-- insert and a query, and is one step on the table; no other transaction holds a row, so that
-- `SKIP LOCKED` skips none.
use course_discovery_agent.Prelude.{
  ℕ, ◌+◌, String, Bool, ◌&&◌, ◌||◌, not, Option, none, some, List, [], ◌∷◌, ◌++◌, ltb, eqb,
  if◌then◌else◌, length, filter, take, map, any, sort_on, sort_by, is_in, ◌==◌, text_le,
}
use course_discovery_agent.Effects.Models.{Effect, OutboxRecord, OutboxStats, queued, is_dead}
use course_discovery_agent.Effects.MemoryStore.{
  new_record, is_due, lease, as_delivered, as_released, as_dead, is_stale, is_undelivered, earliest,
  age,
}

abbrev pub Rows : Type 0
Rows = List OutboxRecord

-- `WHERE key = %s`
unfoldable pub has_key : String → OutboxRecord → Bool
has_key key r = r.effect.key == key

-- `SELECT … WHERE key = %s`, `.fetchone()`
unfoldable pub select : String → Rows → Option OutboxRecord
select key [] = none
select key (r ∷ rows) = if has_key key r then some r else select key rows

-- `UPDATE outbox SET … WHERE …`
unfoldable pub update_where : (OutboxRecord → Bool) → (OutboxRecord → OutboxRecord) → Rows → Rows
update_where test change [] = []
update_where test change (r ∷ rows) =
    (if test r then change r else r) ∷ update_where test change rows

unfoldable pub insert_row : Effect → ℕ → Rows → Rows
insert_row effect now rows =
    if any (has_key effect.key) rows then rows else rows ++ new_record effect now ∷ []

unfoldable pub enqueue : Effect → ℕ → Rows → Option OutboxRecord × Rows
enqueue effect now rows = let rows' = insert_row effect now rows in (select effect.key rows', rows')

-- `(status = 'queued' AND next_attempt_at <= now) OR (status = 'in_progress' AND locked_until <= now)`
-- is `is_due`; the order by the id is that of the rows.
unfoldable pub picked : ℕ → ℕ → Rows → List OutboxRecord
picked now limit rows = take limit (sort_on (λ r. r.next_attempt_at) (filter (is_due now) rows))

unfoldable pub keys_of : List OutboxRecord → List String
keys_of [] = []
keys_of (r ∷ rs) = r.effect.key ∷ keys_of rs

unfoldable pub is_picked : List OutboxRecord → OutboxRecord → Bool
is_picked due r = is_in r.effect.key (keys_of due)

-- `(next_attempt_at, key)`, in Python's order.
unfoldable pub comes_first : OutboxRecord → OutboxRecord → Bool
comes_first a b =
    ltb a.next_attempt_at b.next_attempt_at
    || (eqb a.next_attempt_at b.next_attempt_at && text_le a.effect.key b.effect.key)

-- The rows that `RETURNING` gives are those that were updated.
unfoldable pub claim : ℕ → ℕ → ℕ → Rows → List OutboxRecord × Rows
claim now limit lease_seconds rows =
    let due = picked now limit rows in
    let until = now + lease_seconds in
    (
      sort_by comes_first (map (lease until) (filter (is_picked due) rows)),
      update_where (is_picked due) (lease until) rows,
    )

unfoldable pub mark_delivered : String → ℕ → Rows → Rows
mark_delivered key now = update_where (has_key key) (as_delivered now)

unfoldable pub release : String → String → ℕ → Rows → Rows
release key error retry_at = update_where (has_key key) (as_released error retry_at)

unfoldable pub mark_dead : String → String → Rows → Rows
mark_dead key error = update_where (has_key key) (as_dead error)

abbrev pub as_requeued : ℕ → OutboxRecord → OutboxRecord
as_requeued now r = record r { status = queued; attempts = 0; next_attempt_at = now }

unfoldable pub is_dead_key : String → OutboxRecord → Bool
is_dead_key key r = has_key key r && is_dead r.status

-- `cursor.rowcount == 1`
unfoldable pub requeue : String → ℕ → Rows → Bool × Rows
requeue key now rows = (
  eqb (length (filter (is_dead_key key) rows)) 1,
  update_where (is_dead_key key) (as_requeued now) rows,
)

-- `ORDER BY key`: `before` is the order of texts of the database's collation.
unfoldable pub list_dead : (String → String → Bool) → ℕ → Rows → List OutboxRecord
list_dead before limit rows =
    take limit
      (sort_by (λ a b. before a.effect.key b.effect.key) (filter (λ r. is_dead r.status) rows))

unfoldable pub prune_delivered : ℕ → Rows → ℕ × Rows
prune_delivered older_than rows =
    (length (filter (is_stale older_than) rows), filter (λ r. not (is_stale older_than r)) rows)

unfoldable pub stats : ℕ → Rows → OutboxStats
stats now rows =
    let undelivered = filter is_undelivered rows in
    record {
      pending = length undelivered;
      dead_count = length (filter (λ r. is_dead r.status) rows);
      oldest_pending_age = age now (earliest undelivered);
    }
