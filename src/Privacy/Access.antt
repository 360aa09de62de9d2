-- ===== src/Privacy/Access.antt =====
-- course_discovery/privacy/registry.py: who may open a thread.
use course_discovery_agent.Prelude.{
  ℕ, String, Bool, true, false, ◌&&◌, Option, none, some, ◌==◌, ◌≡◌, refl, arith, if◌then◌else◌,
  eq_iff, eq_refl, inl, inr, ◌↔◌, Bool-cases, Option-cases, subst,
}
use course_discovery_agent.Prelude.Dict.{get, get-put}
use course_discovery_agent.Privacy.Registry.{
  RunThread, Registry, granted, access_error, upserted, insert_thread, register_thread,
  check_version, check_row, authorize_thread, state_schema_version,
}

-- Whose row it is, if the present version of the state wrote it.
pub record MayOpen (user_id : Option String) (thread_id : String) (rows : Registry) : Type 0 where
  pub row : RunThread
  pub found : get thread_id rows ≡ some row
  pub owner : user_id ≡ some row.user_id
  pub named : (row.user_id == "") ≡ false
  pub current : row.schema_version ≡ some state_schema_version

check_row-granted :
    (user_id : Option String) (row : RunThread)
    → check_row user_id (some row) ≡ granted
    → (user_id ≡ some row.user_id)
      × ((row.user_id == "") ≡ false)
      × (row.schema_version ≡ some state_schema_version)
unfolding check_row check_version
check_row-granted none row h = cc
check_row-granted (some u) row h = elim (Option-cases row.schema_version) [
  | inl e ↦ absurd (ground (arith, e))
  | inr (n, e) ↦ (
    ground (arith, eq_iff row.user_id u),
    ground (arith, eq_iff row.user_id u),
    ground (arith, e),
  )
]

-- With a database, `authorize_thread` lets through exactly the owner of a thread that the present
-- version of the state wrote.
pub authorize_thread-MayOpen :
    (user_id : Option String) (thread_id : String) (rows : Registry)
    → (authorize_thread user_id thread_id (some rows) ≡ granted) ↔ MayOpen user_id thread_id rows
unfolding authorize_thread check_row check_version
authorize_thread-MayOpen user_id thread_id rows = (
  λ h. elim (Option-cases (get thread_id rows)) [
    | inl e ↦ cc (rw (e, check_row) at h)
    | inr (row, e) ↦
        let (owner, named, current) = check_row-granted user_id row (rw e at h) in
        record { row = row; found = e; owner = owner; named = named; current = current }
  ],
  λ m. rw (m.found, m.owner) (rw (m.named, eq_refl, m.current) refl),
)

abbrev is_new : Option RunThread → Bool
is_new none = true
is_new (some _) = false

abbrev is_user : Option String → String → Bool
is_user none u = false
is_user (some v) u = v == u

check_row-new :
    (now : ℕ) (u : String) (v : Option String)
    → (u == "") ≡ false
    → check_row v (some (upserted now u none)) ≡ (if is_user v u then granted else access_error)
unfolding check_row check_version upserted
check_row-new now u none named = refl
check_row-new now u (some v) named = ground (arith, eq_iff u v, eq_iff v u)

check_row-touched :
    (now : ℕ) (u : String) (row : RunThread) (v : Option String)
    → check_row v (some (upserted now u (some row))) ≡ check_row v (some row)
unfolding check_row upserted
check_row-touched now u row none = refl
check_row-touched now u row (some v) = refl

-- Registering a thread for a user opens it to that user alone if it is new, and changes nothing about
-- who may open which thread if it is known.
pub authorize_thread-register :
    (now : ℕ) (u t : String) (db : Registry) (v : Option String) (s : String)
    → (u == "") ≡ false
    → authorize_thread v s (register_thread now (some u) t (some db)) ≡ (
        if (t == s) && is_new (get t db)
        then (if is_user v u then granted else access_error)
        else authorize_thread v s (some db))
unfolding authorize_thread register_thread insert_thread
authorize_thread-register now u t db v s named =
    rw (named, get-put t s (upserted now u (get t db)) db)
      (elim (Bool-cases (t == s)) [
        | inl e ↦ elim (Option-cases (get t db)) [
          | inl fresh ↦ rw (e, fresh) (check_row-new now u v named)
          | inr (row, known) ↦
              let here : get s db ≡ some row =
                subst (λ x. get x db ≡ some row) ((eq_iff t s).0 e) known in
              rw (e, known, here) (check_row-touched now u row v)
        ]
        | inr e ↦ rw e refl
      ])
