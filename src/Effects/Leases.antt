-- ===== src/Effects/Leases.antt =====
-- `claim` of course_discovery/effects/memory_store.py: what a worker gets, and for how long.
use course_discovery_agent.Prelude.{
  ℕ, ◌+◌, ◌≤◌, ◌<◌, String, true, false, some, List, [], ◌∷◌, ◌≡◌, refl, ◌⊎◌, inl, inr, ◌==◌,
  eq_iff, eq_refl, arith, All, All-map, All-both, count_if, Bool-cases, subst, ◌∙◌,
}
use course_discovery_agent.Prelude.Dict.{get, put, get-put}
use course_discovery_agent.Effects.Models.{OutboxRecord}
use course_discovery_agent.Effects.MemoryStore.{Table, is_due, lease, lease_all, due_records, claim}
use course_discovery_agent.Effects.Records.{
  IsTable, occurrences, IsDueIn, due_records_found, due_records_once, occurrences-cons_self,
  occurrences-le_cons,
}

module _ (P : OutboxRecord → Type 0) (until : ℕ) where
  -- A record that is leased from one with the property.
  abbrev IsLeased : OutboxRecord → Type 0
  IsLeased x = (r : OutboxRecord) × P r × (x ≡ lease until r)

  lease_all_cases :
      (due : List OutboxRecord) (s : Table) (k : String) (x : OutboxRecord)
      → All P due
      → get k (lease_all until due s).1 ≡ some x
      → (get k s ≡ some x) ⊎ ((r : OutboxRecord) × P r × (r.effect.key ≡ k) × (x ≡ lease until r))
  unfolding lease_all
  lease_all_cases [] s k x h e = inl e
  lease_all_cases (r ∷ due) s k x h e =
      elim (lease_all_cases due (put r.effect.key (lease until r) s) k x h.1 e) [
        | inr found ↦ inr found
        | inl before ↦ elim (Bool-cases (r.effect.key == k)) [
          | inl same ↦ inr (
            r,
            h.0,
            (eq_iff _ _).0 same,
            ground (arith, get-put r.effect.key k (lease until r) s),
          )
          | inr other ↦ inl (ground (arith, get-put r.effect.key k (lease until r) s))
        ]
      ]

  All-lease_all :
      (due : List OutboxRecord) (s : Table) → All P due → All IsLeased (lease_all until due s).0
  unfolding lease_all
  All-lease_all [] s h = tt
  All-lease_all (r ∷ due) s h = ((r, h.0, refl), All-lease_all due _ h.1)

-- A key that is not among the records is left alone.
lease_all_other :
    (until : ℕ) (due : List OutboxRecord) (s : Table) (k : String)
    → occurrences k due ≡ 0
    → get k (lease_all until due s).1 ≡ get k s
unfolding lease_all count_if
lease_all_other until [] s k h = refl
lease_all_other until (r ∷ due) s k h = ground (
  arith,
  lease_all_other until due (put r.effect.key (lease until r) s) k,
  get-put r.effect.key k (lease until r) s,
)

-- Where no key stands twice, every leased record is in the table.
pub lease_all_stored :
    (until : ℕ) (due : List OutboxRecord) (s : Table)
    → ((k : String) → occurrences k due ≤ 1)
    → All (λ x. get x.effect.key (lease_all until due s).1 ≡ some x) (lease_all until due s).0
unfolding lease_all lease
lease_all_stored until [] s h = tt
lease_all_stored until (r ∷ due) s h = (
  lease_all_other until due (put r.effect.key (lease until r) s) r.effect.key
        (omega (arith, h r.effect.key, occurrences-cons_self r due))
      ∙ get-put r.effect.key r.effect.key (lease until r) s
      ∙ rw eq_refl,
  lease_all_stored until due _ (λ k. omega (arith, h k, occurrences-le_cons k r due)),
)

-- Over a table whose records stand under their own keys, once each: after `claim`, each key's
-- record is as before, or it was due and is now leased: in progress, one attempt more, locked for
-- the lease. No other field of any record changes.
pub claim_cases :
    (now limit seconds : ℕ) (s : Table) (k : String) (x : OutboxRecord)
    → IsTable s
    → get k (claim now limit seconds s).1 ≡ some x
    → (get k s ≡ some x)
      ⊎ ((r : OutboxRecord) × (get k s ≡ some r)
          × (is_due now r ≡ true)
          × (x ≡ lease (now + seconds) r))
unfolding claim
claim_cases now limit seconds s k x h e =
    elim (lease_all_cases (IsDueIn s now) (now + seconds) (due_records now limit s) s k x
      (due_records_found now limit s h) e) [
        | inl same ↦ inl same
        | inr (r, m, key, new) ↦ inr (r, subst (λ j. get j s ≡ some r) key m.found, m.due, new)
      ]

lease-not_due :
    (until now : ℕ) (r : OutboxRecord) → now < until → is_due now (lease until r) ≡ false
unfolding lease is_due
lease-not_due until now r h = ground arith

-- Over a table whose records stand under their own keys, once each: the records that one worker
-- claims stand in the table as it got them, and until the lease ends none of them is due.
pub claim_exclusive :
    (now limit seconds later : ℕ) (s : Table)
    → IsTable s
    → later < now + seconds
    → All
        (λ x. (get x.effect.key (claim now limit seconds s).1 ≡ some x) × (is_due later x ≡ false))
        (claim now limit seconds s).0
unfolding claim
claim_exclusive now limit seconds later s h early =
    All-both _ _ (lease_all (now + seconds) (due_records now limit s) s).0
      (lease_all_stored (now + seconds) (due_records now limit s) s
        (λ k. due_records_once k now limit s h))
      (All-map (λ x (r, _, e). rw e (lease-not_due (now + seconds) later r early)) _
        (All-lease_all (IsDueIn s now) (now + seconds) (due_records now limit s) s
          (due_records_found now limit s h)))
