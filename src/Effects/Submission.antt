-- ===== src/Effects/Submission.antt =====
-- The table operations of course_discovery/effects/memory_store.py, key by key.
use course_discovery_agent.Prelude.{
  ℕ, String, not, none, some, ◌≡◌, refl, ◌⊎◌, inl, inr, ◌==◌, eq_iff, eq_refl, arith, if◌then◌else◌,
  Option-cases, ◌∙◌,
}
use course_discovery_agent.Prelude.Dict.{get, put, get-put, get-keep, only_if}
use course_discovery_agent.Effects.Models.{Effect, OutboxRecord, queued, delivered, is_dead}
use course_discovery_agent.Effects.MemoryStore.{
  Table, enqueue, enqueue_found, new_record, requeue, requeue_found, release, as_released, update,
  update_found, prune_delivered, is_stale,
}
use course_discovery_agent.Effects.Records.{IsTable}

-- `enqueue` inserts a queued record with no attempts where the key is new, and where it is not it
-- returns the record that is there. In both cases the key then holds what was returned, and every
-- other key what it held.
pub enqueue_cases :
    (effect : Effect) (now : ℕ) (s : Table) (k : String)
    → let (r, s') = enqueue effect now s in
      ((get effect.key s ≡ some r) ⊎ ((get effect.key s ≡ none) × (r ≡ new_record effect now)))
      × (get k s' ≡ (if effect.key == k then some r else get k s))
unfolding enqueue
enqueue_cases effect now s k = elim (Option-cases (get effect.key s)) [
  | inl e ↦ rw (e, enqueue_found) (inr (refl, refl), get-put effect.key k (new_record effect now) s)
  | inr (r, e) ↦ rw (e, enqueue_found) (inl refl, ground (arith, eq_iff effect.key k))
]

-- For a key that has a record, `requeue` answers whether it was dead. A dead record is queued again with no attempts and
-- due at once; any other table is left as it is.
pub requeue_cases :
    (key : String) (now : ℕ) (s : Table) (r : OutboxRecord)
    → get key s ≡ some r
    → let (done, s') = requeue key now s in
      (done ≡ is_dead r.status)
      × (s' ≡ (
          if done
          then put key (record r { status = queued; attempts = 0; next_attempt_at = now }) s
          else s))
unfolding requeue
requeue_cases key now s r e = rw (e, requeue_found) (ground arith)

-- Over a table whose records stand under their own keys, once each: `prune_delivered` removes the
-- delivered records of before the cutoff, and no other.
pub get-prune_delivered :
    (older_than : ℕ) (s : Table) (k : String)
    → IsTable s
    → get k (prune_delivered older_than s).1 ≡ only_if (λ r. not (is_stale older_than r)) (get k s)
unfolding prune_delivered
get-prune_delivered older_than s k h = get-keep (λ _ r. not (is_stale older_than r)) k s h.dict

-- `release` does not ask who holds the record: where the key has a delivered record, it succeeds
-- and leaves the same effect queued.
pub release-undoes_delivery :
    (key error : String) (retry_at : ℕ) (s : Table) (r : OutboxRecord)
    → get key s ≡ some r
    → r.status ≡ delivered
    → (s' : Table) × (r' : OutboxRecord) × (release key error retry_at s ≡ some s')
      × (get key s' ≡ some r')
      × (r'.status ≡ queued)
      × (r'.effect ≡ r.effect)
unfolding release update
release-undoes_delivery key error retry_at s r e d = (
  put key (as_released error retry_at r) s,
  as_released error retry_at r,
  rw (e, update_found),
  get-put key key (as_released error retry_at r) s ∙ rw eq_refl,
  refl,
  refl,
)
