-- ===== src/Effects/Claims.antt =====
-- course_discovery/effects: a claim of the Postgres outbox is a claim of the one in memory.
use course_discovery_agent.Prelude.{
  ℕ, ◌≤◌, String, Bool, true, false, none, some, List, [], ◌∷◌, ◌≡◌, refl, inl, inr, arith, filter,
  any, is_in, All, ◌==◌, eq_iff, Bool-cases, ap, ◌∙◌, sym, subst, some-inj, count_if,
}
use course_discovery_agent.Prelude.Dict.{put, put-IsDict, IsDict}
use course_discovery_agent.Effects.Models.{OutboxRecord}
use course_discovery_agent.Effects.MemoryStore.{Table, lease, lease_all}
use course_discovery_agent.Effects.Records.{
  IsTable, occurrences, occurrences-cons_self, occurrences-le_cons,
}
use course_discovery_agent.Effects.PostgresStore.{
  Rows, has_key, select, update_where, keys_of, is_picked,
}
use course_discovery_agent.Effects.Simulation.{
  to_table, IsUnique, get-to_table, put-update, KeepsKey, update_where-none, rest_alone,
}

select_keyed :
    (k : String) (rows : Rows) (r : OutboxRecord) → select k rows ≡ some r → r.effect.key ≡ k
unfolding select has_key
select_keyed k [] r h = cc
select_keyed k (x ∷ rows) r h = elim (Bool-cases (x.effect.key == k)) [
  | inl e ↦
      subst (λ (s : OutboxRecord). s.effect.key ≡ k) (some-inj (rw e at h))
        ((eq_iff x.effect.key k).0 e)
  | inr e ↦ select_keyed k rows r (rw e at h)
]

pub to_table-IsTable : (rows : Rows) → IsUnique rows → IsTable (to_table rows)
to_table-IsTable rows h = record {
  dict = h;
  keyed = λ k r e. select_keyed k rows r (sym (get-to_table k rows) ∙ e);
}

keys_none :
    (k : String) (rs : List OutboxRecord) → occurrences k rs ≡ 0 → is_in k (keys_of rs) ≡ false
unfolding keys_of is_in count_if
keys_none k [] h = refl
keys_none k (r ∷ rs) h = ground (arith, keys_none k rs)

-- Records of the rows, each key once.
pub record IsSelection (due : List OutboxRecord) (rows : Rows) : Type 0 where
  pub found : All (λ r. select r.effect.key rows ≡ some r) due
  pub once : (k : String) → occurrences k due ≤ 1

module _ (change : OutboxRecord → OutboxRecord) (keeps : KeepsKey change) where
  -- Two updates, one after the other, are the update of both selections.
  update_where-cons :
      (d : OutboxRecord) (ds : List OutboxRecord) (rows : Rows)
      → is_in d.effect.key (keys_of ds) ≡ false
      → update_where (is_picked ds) change (update_where (has_key d.effect.key) change rows)
        ≡ update_where (is_picked (d ∷ ds)) change rows
  unfolding update_where is_picked has_key keys_of is_in
  update_where-cons d ds [] new = refl
  update_where-cons d ds (r ∷ rows) new = elim (Bool-cases (r.effect.key == d.effect.key)) [
    | inl e ↦
        let same = (eq_iff r.effect.key d.effect.key).0 e in
        let here : (d.effect.key == r.effect.key) ≡ true =
          (eq_iff d.effect.key r.effect.key).1 (sym same) in
        let out : is_in (change r).effect.key (keys_of ds) ≡ false = rw (keeps r, same) new in
        rw (e, here, out, update_where-cons d ds rows new) refl
    | inr e ↦
        let here : (d.effect.key == r.effect.key) ≡ false =
          ground (arith, eq_iff d.effect.key r.effect.key, eq_iff r.effect.key d.effect.key) in
        rw (e, here, update_where-cons d ds rows new) refl
  ]

  select-update_where :
      (k j : String) (rows : Rows) (r : OutboxRecord)
      → (j == k) ≡ false
      → select k rows ≡ some r
      → select k (update_where (has_key j) change rows) ≡ some r
  unfolding select update_where has_key
  select-update_where k j [] r other h = cc
  select-update_where k j (x ∷ rows) r other h = elim (Bool-cases (x.effect.key == j)) [
    | inl e ↦
        let away : (x.effect.key == k) ≡ false = rw ((eq_iff x.effect.key j).0 e) other in
        let away' : ((change x).effect.key == k) ≡ false = rw (keeps x) away in
        rw (e, away') (select-update_where k j rows r other (rw away at h))
    | inr e ↦ elim (Bool-cases (x.effect.key == k)) [
      | inl f ↦ rw (e, f) (rw f at h)
      | inr f ↦ rw (e, f) (select-update_where k j rows r other (rw f at h))
    ]
  ]

lease-KeepsKey : (until : ℕ) → KeepsKey (lease until)
unfolding lease
lease-KeepsKey until r = refl

once_tail :
    (d : OutboxRecord) (ds : List OutboxRecord)
    → ((k : String) → occurrences k (d ∷ ds) ≤ 1)
    → ((k : String) → occurrences k ds ≤ 1) × (is_in d.effect.key (keys_of ds) ≡ false)
once_tail d ds once = (
  λ k. omega (arith, once k, occurrences-le_cons k d ds),
  keys_none d.effect.key ds (omega (arith, once d.effect.key, occurrences-cons_self d ds)),
)

selection_tail :
    (change : OutboxRecord → OutboxRecord) (keeps : KeepsKey change) (d : OutboxRecord)
    (ds : List OutboxRecord) (rows : Rows)
    → is_in d.effect.key (keys_of ds) ≡ false
    → All (λ r. select r.effect.key rows ≡ some r) ds
    → All (λ r. select r.effect.key (update_where (has_key d.effect.key) change rows) ≡ some r) ds
unfolding keys_of is_in
selection_tail change keeps d [] rows new h = tt
selection_tail change keeps d (x ∷ ds) rows new h = (
  select-update_where change keeps x.effect.key d.effect.key rows x
      (ground (arith, eq_iff x.effect.key d.effect.key, eq_iff d.effect.key x.effect.key)) h.0,
  selection_tail change keeps d ds rows (ground arith) h.1,
)

none_picked : (rows : Rows) → any (is_picked []) rows ≡ false
unfolding any is_picked keys_of is_in
none_picked [] = refl
none_picked (r ∷ rows) = none_picked rows

-- Leasing the selected records one by one is one update of their rows.
pub lease_all-to_table :
    (until : ℕ) (due : List OutboxRecord) (rows : Rows)
    → IsUnique rows
    → IsSelection due rows
    → (lease_all until due (to_table rows)).1
      ≡ to_table (update_where (is_picked due) (lease until) rows)
unfolding lease_all
lease_all-to_table until [] rows unique s =
    ap to_table (sym (update_where-none (is_picked []) (lease until) rows (none_picked rows)))
lease_all-to_table until (d ∷ ds) rows unique s =
    let keeps = lease-KeepsKey until in
    let (once, new) = once_tail d ds s.once in
    let rows' = update_where (has_key d.effect.key) (lease until) rows in
    let written : put d.effect.key (lease until d) (to_table rows) ≡ to_table rows' =
      put-update (lease until) d.effect.key rows d keeps unique s.found.0 in
    rw written (
      lease_all-to_table until ds rows'
        (subst (λ (t : Table). IsDict t) written
          (put-IsDict d.effect.key (lease until d) (to_table rows) unique))
        (record { found = selection_tail (lease until) keeps d ds rows new s.found.1; once = once })
      ∙ ap to_table (update_where-cons (lease until) keeps d ds rows new))

module _ (p : OutboxRecord → Bool) where
  count_if-picked_none :
      (d : OutboxRecord) (ds : List OutboxRecord) (rows : Rows)
      → select d.effect.key rows ≡ none
      → count_if p (filter (is_picked (d ∷ ds)) rows) ≡ count_if p (filter (is_picked ds) rows)
  unfolding select filter count_if is_picked keys_of is_in has_key
  count_if-picked_none d ds [] h = refl
  count_if-picked_none d ds (x ∷ rows) h = elim (Bool-cases (x.effect.key == d.effect.key)) [
    | inl e ↦ cc (rw e at h)
    | inr e ↦
        let rest = count_if-picked_none d ds rows (rw e at h) in
        ground (arith, eq_iff x.effect.key d.effect.key, eq_iff d.effect.key x.effect.key)
  ]

  cons_count :
      (d : OutboxRecord) (xs ys : List OutboxRecord)
      → count_if p xs ≡ count_if p ys
      → count_if p (d ∷ xs) ≡ count_if p (d ∷ ys)
  unfolding count_if
  cons_count d xs ys h = ground arith

  nothing : (rows : Rows) → count_if p (filter (is_picked []) rows) ≡ count_if p []
  unfolding count_if filter is_picked keys_of is_in
  nothing [] = refl
  nothing (r ∷ rows) = nothing rows

  count_here :
      (d : OutboxRecord) (ds : List OutboxRecord) (x : OutboxRecord) (rows : Rows)
      → x ≡ d
      → is_in d.effect.key (keys_of ds) ≡ false
      → count_if p (filter (is_picked (d ∷ ds)) rows) ≡ count_if p (filter (is_picked ds) rows)
      → count_if p (filter (is_picked (d ∷ ds)) (x ∷ rows))
        ≡ count_if p (d ∷ filter (is_picked ds) (x ∷ rows))
  unfolding count_if filter is_picked keys_of is_in
  count_here d ds x rows same new rest =
      subst
        (λ (y : OutboxRecord).
          count_if p (filter (is_picked (d ∷ ds)) (y ∷ rows))
          ≡ count_if p (d ∷ filter (is_picked ds) (y ∷ rows)))
        (sym same) (ground (arith, eq_iff d.effect.key d.effect.key))

  count_there :
      (d : OutboxRecord) (ds : List OutboxRecord) (x : OutboxRecord) (rows : Rows)
      → has_key d.effect.key x ≡ false
      → count_if p (filter (is_picked (d ∷ ds)) rows) ≡ count_if p (d ∷ filter (is_picked ds) rows)
      → count_if p (filter (is_picked (d ∷ ds)) (x ∷ rows))
        ≡ count_if p (d ∷ filter (is_picked ds) (x ∷ rows))
  unfolding count_if filter is_picked keys_of is_in has_key
  count_there d ds x rows e rest =
      ground (arith, eq_iff d.effect.key x.effect.key, eq_iff x.effect.key d.effect.key)

  count_if-picked :
      (d : OutboxRecord) (ds : List OutboxRecord) (rows : Rows)
      → IsUnique rows
      → select d.effect.key rows ≡ some d
      → is_in d.effect.key (keys_of ds) ≡ false
      → count_if p (filter (is_picked (d ∷ ds)) rows) ≡ count_if p (d ∷ filter (is_picked ds) rows)
  unfolding select
  count_if-picked d ds [] unique h new = cc
  count_if-picked d ds (x ∷ rows) unique h new = elim (Bool-cases (has_key d.effect.key x)) [
    | inl e ↦
        let same : x ≡ d = some-inj (rw e at h) in
        let alone = rest_alone d.effect.key x rows unique e in
        count_here d ds x rows same new (count_if-picked_none d ds rows alone)
    | inr e ↦
        count_there d ds x rows e
          (count_if-picked d ds rows (unfold to_table in unique.1) (rw e at h) new)
  ]

  pub counts :
      (due : List OutboxRecord) (rows : Rows)
      → IsUnique rows
      → IsSelection due rows
      → count_if p (filter (is_picked due) rows) ≡ count_if p due
  counts [] rows unique s = nothing rows
  counts (d ∷ ds) rows unique s =
      let (once, new) = once_tail d ds s.once in
      count_if-picked d ds rows unique s.found.0 new
      ∙ cons_count d (filter (is_picked ds) rows) ds
          (counts ds rows unique (record { found = s.found.1; once = once }))
