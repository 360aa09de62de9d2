-- ===== src/Effects/Records.antt =====
-- The outbox table's invariant: a dictionary, whose records stand under their own keys.
use course_discovery_agent.Prelude.{
  ℕ, suc, ◌≤◌, String, true, none, some, List, [], ◌∷◌, ◌≡◌, refl, inl, inr, ◌==◌, eq_iff, eq_refl,
  arith, filter, All, sort_on, count_if, count_if-filter, count_if-take, count_if-sort_on,
  All-filter, All-map, All-take, All-sort_on, subst, sym, Option-cases,
}
use course_discovery_agent.Prelude.Dict.{get, put, values, get-put, IsDict, put-IsDict, All-values}
use course_discovery_agent.Effects.Models.{Effect, OutboxRecord}
use course_discovery_agent.Effects.MemoryStore.{
  Table, enqueue, enqueue_found, lease, lease_all, due_records, claim, is_due,
}

pub record IsTable (s : Table) : Type 0 where
  pub dict : IsDict s
  pub keyed : (k : String) (r : OutboxRecord) → get k s ≡ some r → r.effect.key ≡ k

-- Writing a record under its key keeps the invariant.
pub put-IsTable : (r : OutboxRecord) (s : Table) → IsTable s → IsTable (put r.effect.key r s)
put-IsTable r s h = record {
  dict = put-IsDict r.effect.key r s h.dict;
  keyed = λ k x e. ground (arith, get-put r.effect.key k r s, eq_iff r.effect.key k, h.keyed k x);
}

pub enqueue-IsTable :
    (effect : Effect) (now : ℕ) (s : Table) → IsTable s → IsTable (enqueue effect now s).1
unfolding enqueue
enqueue-IsTable effect now s h = elim (Option-cases (get effect.key s)) [
  | inl e ↦ rw (e, enqueue_found) (put-IsTable _ s h)
  | inr (r, e) ↦ rw (e, enqueue_found) h
]

pub lease_all-IsTable :
    (until : ℕ) (due : List OutboxRecord) (s : Table)
    → IsTable s
    → IsTable (lease_all until due s).1
unfolding lease_all lease
lease_all-IsTable until [] s h = h
lease_all-IsTable until (r ∷ due) s h =
    lease_all-IsTable until due _ (put-IsTable (lease until r) s h)

pub claim-IsTable :
    (now limit seconds : ℕ) (s : Table) → IsTable s → IsTable (claim now limit seconds s).1
unfolding claim
claim-IsTable now limit seconds s h = lease_all-IsTable _ (due_records now limit s) s h

-- How many of the records stand under a key.
abbrev pub occurrences : String → List OutboxRecord → ℕ
occurrences k = count_if (λ r. r.effect.key == k)

none_listed :
    (k : String) (s : Table)
    → IsDict s
    → ((j : String) (r : OutboxRecord) → get j s ≡ some r → r.effect.key ≡ j)
    → get k s ≡ none
    → occurrences k (values s) ≡ 0
unfolding values count_if get
none_listed k [] d keyed e = refl
none_listed k ((j, r) ∷ s) d keyed e =
    let own : r.effect.key ≡ j = keyed j r (rw eq_refl) in
    let rest : occurrences k (values s) ≡ 0 =
      none_listed k s d.1 (λ i x found. keyed i x (ground (arith, eq_iff j i))) (ground arith) in
    ground arith

-- No key stands twice among the values.
values_once :
    (k : String) (s : Table)
    → IsDict s
    → ((j : String) (r : OutboxRecord) → get j s ≡ some r → r.effect.key ≡ j)
    → occurrences k (values s) ≤ 1
unfolding values count_if get
values_once k [] d keyed = omega arith
values_once k ((j, r) ∷ s) d keyed =
    let own : r.effect.key ≡ j = keyed j r (rw eq_refl) in
    let rest : occurrences k (values s) ≤ 1 =
      values_once k s d.1 (λ i x found. keyed i x (ground (arith, eq_iff j i))) in
    ground (
      arith,
      eq_iff j k,
      none_listed j s d.1 (λ i x found. keyed i x (ground (arith, eq_iff j i))) d.0,
    )

-- Under a table, a record is due, and the table holds it under its key.
pub record IsDueIn (s : Table) (now : ℕ) (r : OutboxRecord) : Type 0 where
  pub found : get r.effect.key s ≡ some r
  pub due : is_due now r ≡ true

-- What `claim` selects is due and in the table,
pub due_records_found :
    (now limit : ℕ) (s : Table) → IsTable s → All (IsDueIn s now) (due_records now limit s)
unfolding due_records
due_records_found now limit s h = All-take _ limit _ (
    All-sort_on _ _ _ (
      All-map (λ r m. record { found = m.0; due = m.1 }) _
        (All-filter (λ r. get r.effect.key s ≡ some r) (is_due now) (values s)
          (All-map (λ r (k, e). subst (λ j. get j s ≡ some r) (sym (h.keyed k r e)) e) (values s)
            (All-values s h.dict)))))

-- and holds no key twice.
pub due_records_once :
    (k : String) (now limit : ℕ) (s : Table)
    → IsTable s
    → occurrences k (due_records now limit s) ≤ 1
unfolding due_records
due_records_once k now limit s h = omega (
  arith,
  count_if-take (λ r. r.effect.key == k) limit
      (sort_on (λ r. r.next_attempt_at) (filter (is_due now) (values s))),
  count_if-sort_on (λ (r : OutboxRecord). r.next_attempt_at) (λ r. r.effect.key == k)
      (filter (is_due now) (values s)),
  count_if-filter (λ r. r.effect.key == k) (is_due now) (values s),
  values_once k s h.dict h.keyed,
)

pub occurrences-cons_self :
    (r : OutboxRecord) (rest : List OutboxRecord)
    → occurrences r.effect.key (r ∷ rest) ≡ suc (occurrences r.effect.key rest)
unfolding count_if
occurrences-cons_self r rest = rw eq_refl

pub occurrences-le_cons :
    (k : String) (r : OutboxRecord) (rest : List OutboxRecord)
    → occurrences k rest ≤ occurrences k (r ∷ rest)
unfolding count_if
occurrences-le_cons k r rest = ground arith
