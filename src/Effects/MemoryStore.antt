-- ===== src/Effects/MemoryStore.antt =====
-- course_discovery/effects/memory_store.py: the outbox table in memory. Each method holds the
-- store's lock from beginning to end, so each is one step on the table. `update` is `none` where
-- `_update` raises a KeyError.
use course_discovery_agent.Prelude.{
  ℕ, ◌+◌, ◌-◌, String, Bool, true, false, ◌&&◌, ◌||◌, not, Option, none, some, List, [], ◌∷◌, ltb,
  leb, if◌then◌else◌, length, filter, take, sort_on, sort_by, text_le,
}
use course_discovery_agent.Prelude.Dict.{Dict, get, put, values, keep}
use course_discovery_agent.Effects.Models.{
  Effect, OutboxRecord, OutboxStats, queued, in_progress, delivered, dead, is_queued,
  is_in_progress, is_delivered, is_dead,
}

abbrev pub Table : Type 0
Table = Dict OutboxRecord

abbrev pub new_record : Effect → ℕ → OutboxRecord
new_record effect now = record {
  effect = effect;
  status = queued;
  attempts = 0;
  next_attempt_at = now;
  locked_until = none;
  last_error = none;
  delivered_at = none;
  created_at = some now;
}

unfoldable pub enqueue_found : Effect → ℕ → Table → Option OutboxRecord → OutboxRecord × Table
enqueue_found effect now s (some existing) = (existing, s)
enqueue_found effect now s none =
    let fresh = new_record effect now in (fresh, put effect.key fresh s)

unfoldable pub enqueue : Effect → ℕ → Table → OutboxRecord × Table
unfolding enqueue_found
enqueue effect now s = enqueue_found effect now s (get effect.key s)

-- `instant is not None and instant <= now`
abbrev pub is_past : Option ℕ → ℕ → Bool
is_past none now = false
is_past (some t) now = leb t now

unfoldable pub is_due : ℕ → OutboxRecord → Bool
is_due now r =
    (is_queued r.status && leb r.next_attempt_at now)
    || (is_in_progress r.status && is_past r.locked_until now)

unfoldable pub lease : ℕ → OutboxRecord → OutboxRecord
lease until r = record r {
  status = in_progress;
  attempts = r.attempts + 1;
  locked_until = some until;
}

-- The loop over `due`: the table, and the leased records in order.
unfoldable pub lease_all : ℕ → List OutboxRecord → Table → List OutboxRecord × Table
lease_all until [] s = ([], s)
lease_all until (r ∷ due) s =
    let leased = lease until r in
    let (rest, s') = lease_all until due (put r.effect.key leased s) in (leased ∷ rest, s')

unfoldable pub due_records : ℕ → ℕ → Table → List OutboxRecord
due_records now limit s =
    take limit (sort_on (λ r. r.next_attempt_at) (filter (is_due now) (values s)))

unfoldable pub claim : ℕ → ℕ → ℕ → Table → List OutboxRecord × Table
claim now limit lease_seconds s = lease_all (now + lease_seconds) (due_records now limit s) s

unfoldable pub update_found :
    String → (OutboxRecord → OutboxRecord) → Table → Option OutboxRecord → Option Table
update_found key change s none = none
update_found key change s (some r) = some (put key (change r) s)

unfoldable pub update : String → (OutboxRecord → OutboxRecord) → Table → Option Table
unfolding update_found
update key change s = update_found key change s (get key s)

abbrev pub as_delivered : ℕ → OutboxRecord → OutboxRecord
as_delivered now r = record r {
  status = delivered;
  locked_until = none;
  last_error = none;
  delivered_at = some now;
}

abbrev pub as_released : String → ℕ → OutboxRecord → OutboxRecord
as_released error retry_at r = record r {
  status = queued;
  locked_until = none;
  last_error = some error;
  next_attempt_at = retry_at;
}

abbrev pub as_dead : String → OutboxRecord → OutboxRecord
as_dead error r = record r { status = dead; locked_until = none; last_error = some error }

unfoldable pub mark_delivered : String → ℕ → Table → Option Table
mark_delivered key now = update key (as_delivered now)

unfoldable pub release : String → String → ℕ → Table → Option Table
release key error retry_at = update key (as_released error retry_at)

unfoldable pub mark_dead : String → String → Table → Option Table
mark_dead key error = update key (as_dead error)

unfoldable pub requeue_found : String → ℕ → Table → Option OutboxRecord → Bool × Table
requeue_found key now s none = (false, s)
requeue_found key now s (some r) =
    if is_dead r.status
    then (true, put key (record r { status = queued; attempts = 0; next_attempt_at = now }) s)
    else (false, s)

unfoldable pub requeue : String → ℕ → Table → Bool × Table
unfolding requeue_found
requeue key now s = requeue_found key now s (get key s)

unfoldable pub list_dead : ℕ → Table → List OutboxRecord
list_dead limit s =
    take limit (
      sort_by (λ a b. text_le a.effect.key b.effect.key)
        (filter (λ r. is_dead r.status) (values s)))

-- `instant is not None and instant < cutoff`
abbrev pub is_before : Option ℕ → ℕ → Bool
is_before none cutoff = false
is_before (some t) cutoff = ltb t cutoff

unfoldable pub is_stale : ℕ → OutboxRecord → Bool
is_stale older_than r = is_delivered r.status && is_before r.delivered_at older_than

-- The keys of the stale records are found first, and deleted then.
unfoldable pub prune_delivered : ℕ → Table → ℕ × Table
unfolding is_stale
prune_delivered older_than s =
    (length (filter (is_stale older_than) (values s)), keep (λ _ r. not (is_stale older_than r)) s)

unfoldable pub earliest : List OutboxRecord → Option ℕ
earliest [] = none
earliest (r ∷ rest) = sooner r.created_at (earliest rest)
  where
    sooner : Option ℕ → Option ℕ → Option ℕ
    sooner none b = b
    sooner (some a) none = some a
    sooner (some a) (some b) = if leb a b then some a else some b

unfoldable pub age : ℕ → Option ℕ → ℕ
age now none = 0
age now (some created) = now - created

abbrev pub is_undelivered : OutboxRecord → Bool
is_undelivered r = is_queued r.status || is_in_progress r.status

unfoldable pub stats : ℕ → Table → OutboxStats
unfolding earliest age
stats now s =
    let undelivered = filter is_undelivered (values s) in
    record {
      pending = length undelivered;
      dead_count = length (filter (λ r. is_dead r.status) (values s));
      oldest_pending_age = age now (earliest undelivered);
    }
