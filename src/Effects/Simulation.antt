-- ===== src/Effects/Simulation.antt =====
-- course_discovery/effects: the rows of the Postgres outbox as the dictionary of the one in memory.
use course_discovery_agent.Prelude.{
  String, Bool, true, false, none, some, [], ◌∷◌, ◌++◌, ◌≡◌, refl, inl, inr, arith, if◌then◌else◌,
  length, filter, any, ◌==◌, eq_iff, Bool-cases, ap, ◌∙◌, sym, subst, some-inj, suc,
}
use course_discovery_agent.Prelude.Dict.{get, put, values, keep, IsDict}
use course_discovery_agent.Effects.Models.{OutboxRecord, is_dead}
use course_discovery_agent.Effects.MemoryStore.{Table}
use course_discovery_agent.Effects.PostgresStore.{Rows, has_key, select, update_where, is_dead_key}

-- Each row under its key.
unfoldable pub to_table : Rows → Table
to_table [] = []
to_table (r ∷ rows) = (r.effect.key, r) ∷ to_table rows

-- The keys are unique.
abbrev pub IsUnique : Rows → Type 0
IsUnique rows = IsDict (to_table rows)

pub values-to_table : (rows : Rows) → values (to_table rows) ≡ rows
unfolding values to_table
values-to_table [] = refl
values-to_table (r ∷ rows) = rw (values-to_table rows) refl

pub get-to_table : (key : String) (rows : Rows) → get key (to_table rows) ≡ select key rows
unfolding get to_table select has_key
get-to_table key [] = refl
get-to_table key (r ∷ rows) = ground (arith, get-to_table key rows)

pub keep-to_table :
    (p : OutboxRecord → Bool) (rows : Rows)
    → keep (λ _ r. p r) (to_table rows) ≡ to_table (filter p rows)
unfolding keep to_table filter
keep-to_table p [] = refl
keep-to_table p (r ∷ rows) = elim (Bool-cases (p r)) [
  | inl e ↦ rw (e, keep-to_table p rows) refl
  | inr e ↦ rw (e, keep-to_table p rows) refl
]

pub put-new :
    (r : OutboxRecord) (rows : Rows)
    → select r.effect.key rows ≡ none
    → put r.effect.key r (to_table rows) ≡ to_table (rows ++ r ∷ [])
unfolding put to_table select has_key
put-new r [] h = refl
put-new r (x ∷ rows) h = elim (Bool-cases (x.effect.key == r.effect.key)) [
  | inl e ↦ cc (rw e at h)
  | inr e ↦ rw (e, put-new r rows (rw e at h)) refl
]

-- An update whose test no row passes changes nothing.
pub update_where-none :
    (test : OutboxRecord → Bool) (change : OutboxRecord → OutboxRecord) (rows : Rows)
    → any test rows ≡ false
    → update_where test change rows ≡ rows
unfolding update_where any
update_where-none test change [] h = refl
update_where-none test change (r ∷ rows) h = elim (Bool-cases (test r)) [
  | inl e ↦ cc (rw e at h)
  | inr e ↦ rw (e, update_where-none test change rows (rw e at h)) refl
]

pub select-none :
    (key : String) (rows : Rows) → select key rows ≡ none → any (has_key key) rows ≡ false
unfolding select any
select-none key [] h = refl
select-none key (r ∷ rows) h = elim (Bool-cases (has_key key r)) [
  | inl e ↦ cc (rw e at h)
  | inr e ↦ rw e (select-none key rows (rw e at h))
]

abbrev pub KeepsKey : (OutboxRecord → OutboxRecord) → Type 0
KeepsKey change = (r : OutboxRecord) → (change r).effect.key ≡ r.effect.key

-- The key of a row is that of no other.
pub rest_alone :
    (key : String) (x : OutboxRecord) (rows : Rows)
    → IsUnique (x ∷ rows)
    → has_key key x ≡ true
    → select key rows ≡ none
unfolding has_key to_table
rest_alone key x rows unique e =
    sym (get-to_table key rows)
    ∙ subst (λ k. get k (to_table rows) ≡ none) ((eq_iff x.effect.key key).0 e) unique.0

-- Writing a changed record under its key is the update of its row.
pub put-update :
    (change : OutboxRecord → OutboxRecord) (key : String) (rows : Rows) (r : OutboxRecord)
    → KeepsKey change
    → IsUnique rows
    → select key rows ≡ some r
    → put key (change r) (to_table rows) ≡ to_table (update_where (has_key key) change rows)
unfolding put to_table update_where select has_key
put-update change key [] r keeps unique h = cc
put-update change key (x ∷ rows) r keeps unique h = elim (Bool-cases (x.effect.key == key)) [
  | inl e ↦
      let same : x ≡ r = some-inj (rw e at h) in
      let alone = select-none key rows (rest_alone key x rows unique e) in
      rw (e, update_where-none (has_key key) change rows alone)
        (ap (λ (s : OutboxRecord). (x.effect.key, change s) ∷ to_table rows) (sym same)
          ∙ ap (λ (k : String). (k, change x) ∷ to_table rows) (sym (keeps x)))
  | inr e ↦ rw (e, put-update change key rows r keeps unique.1 (rw e at h)) refl
]

pub update_dead_none :
    (change : OutboxRecord → OutboxRecord) (key : String) (rows : Rows)
    → select key rows ≡ none
    → (update_where (is_dead_key key) change rows ≡ rows)
      × (length (filter (is_dead_key key) rows) ≡ 0)
unfolding update_where select is_dead_key filter
update_dead_none change key [] h = (refl, omega arith)
update_dead_none change key (x ∷ rows) h = elim (Bool-cases (has_key key x)) [
  | inl e ↦ cc (rw e at h)
  | inr e ↦
      let (same, count) = update_dead_none change key rows (rw e at h) in
      (rw (e, same) refl, rw (e) count)
]

abbrev DeadUpdate : (OutboxRecord → OutboxRecord) → String → Rows → OutboxRecord → Type 0
DeadUpdate change key rows r =
    (update_where (is_dead_key key) change rows
      ≡ (if is_dead r.status then update_where (has_key key) change rows else rows))
    × (length (filter (is_dead_key key) rows) ≡ (if is_dead r.status then 1 else 0))

update_dead_here :
    (change : OutboxRecord → OutboxRecord) (key : String) (x : OutboxRecord) (rows : Rows)
    → IsUnique (x ∷ rows)
    → has_key key x ≡ true
    → DeadUpdate change key (x ∷ rows) x
unfolding update_where is_dead_key filter
update_dead_here change key x rows unique e =
    let alone = rest_alone key x rows unique e in
    let (same, count) = update_dead_none change key rows alone in
    let still = update_where-none (has_key key) change rows (select-none key rows alone) in
    elim (Bool-cases (is_dead x.status)) [
      | inl d ↦ (rw (e, d, same, still) refl, rw (e, d) (ap suc count))
      | inr d ↦ (rw (e, d, same) refl, rw (e, d) count)
    ]

update_dead_there :
    (change : OutboxRecord → OutboxRecord) (key : String) (x : OutboxRecord) (rows : Rows)
    (r : OutboxRecord)
    → has_key key x ≡ false
    → DeadUpdate change key rows r
    → DeadUpdate change key (x ∷ rows) r
unfolding update_where is_dead_key filter
update_dead_there change key x rows r e h = elim (Bool-cases (is_dead r.status)) [
  | inl d ↦ (rw (e, h.0, d) refl, rw e h.1)
  | inr d ↦ (rw (e, h.0, d) refl, rw e h.1)
]

-- Only the row under the key can be the dead one that is updated.
pub update_dead :
    (change : OutboxRecord → OutboxRecord) (key : String) (rows : Rows) (r : OutboxRecord)
    → IsUnique rows
    → select key rows ≡ some r
    → DeadUpdate change key rows r
unfolding select to_table
update_dead change key [] r unique h = cc
update_dead change key (x ∷ rows) r unique h = elim (Bool-cases (has_key key x)) [
  | inl e ↦
      subst (DeadUpdate change key (x ∷ rows)) (some-inj (rw e at h))
        (update_dead_here change key x rows unique e)
  | inr e ↦
      update_dead_there change key x rows r e (update_dead change key rows r unique.1 (rw e at h))
]

pub select-append :
    (key : String) (rows : Rows) (r : OutboxRecord)
    → select key rows ≡ none
    → has_key key r ≡ true
    → select key (rows ++ r ∷ []) ≡ some r
unfolding select
select-append key [] r h e = rw e refl
select-append key (x ∷ rows) r h e = elim (Bool-cases (has_key key x)) [
  | inl f ↦ cc (rw f at h)
  | inr f ↦ rw f (select-append key rows r (rw f at h) e)
]

pub select-some :
    (key : String) (rows : Rows) (r : OutboxRecord)
    → select key rows ≡ some r
    → any (has_key key) rows ≡ true
unfolding select any
select-some key [] r h = cc
select-some key (x ∷ rows) r h = elim (Bool-cases (has_key key x)) [
  | inl f ↦ rw f refl
  | inr f ↦ rw f (select-some key rows r (rw f at h))
]
