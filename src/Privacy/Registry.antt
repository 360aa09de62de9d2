-- ===== src/Privacy/Registry.antt =====
-- course_discovery/privacy/registry.py and domain/contract.py: the threads that a database knows,
-- whose they are, and which version of the state wrote them. The table is that of
-- migrations/005_run_threads.sql, with its primary key; `none` stands for no database. Of
-- course_discovery/persistence/checkpointer.py, the pruning of stale threads.
use course_discovery_agent.Prelude.{
  ℕ, String, Bool, true, not, ◌||◌, Option, none, some, List, [], ◌∷◌, is_in, ltb, eqb, or_default,
  ◌==◌, if◌then◌else◌, is_empty,
}
use course_discovery_agent.Prelude.Dict.{Dict, get, put, keep}

abbrev pub state_schema_version : ℕ
state_schema_version = 4

abbrev pub unversioned : ℕ
unversioned = 1

pub record RunThread : Type 0 where
  pub user_id : String
  pub schema_version : Option ℕ
  pub last_activity_at : ℕ

abbrev pub Registry : Type 0
Registry = Dict RunThread

-- `not user_id`
abbrev pub is_anonymous : Option String → Bool
is_anonymous none = true
is_anonymous (some u) = u == ""

-- The row that `INSERT … ON CONFLICT (thread_id) DO UPDATE` leaves.
unfoldable pub upserted : ℕ → String → Option RunThread → RunThread
upserted now user_id none = record {
  user_id = user_id;
  schema_version = some state_schema_version;
  last_activity_at = now;
}
upserted now user_id (some row) = record row { last_activity_at = now }

unfoldable pub insert_thread : ℕ → Option String → String → Registry → Registry
insert_thread now none thread_id rows = rows
insert_thread now (some u) thread_id rows =
    if u == "" then rows else put thread_id (upserted now u (get thread_id rows)) rows

unfoldable pub register_thread : ℕ → Option String → String → Option Registry → Option Registry
register_thread now user_id thread_id none = none
register_thread now user_id thread_id (some rows) = some (insert_thread now user_id thread_id rows)

-- How `authorize_thread` ends: it returns, or raises one of two errors.
pub data Access : Type 0 where
  granted : Access
  access_error : Access
  incompatible : ℕ → Access

unfoldable pub check_version : ℕ → Access
check_version stored = if eqb stored state_schema_version then granted else incompatible stored

-- `row[0] != user_id`, after the tests for no user and no row.
unfoldable pub check_row : Option String → Option RunThread → Access
check_row user_id none = access_error
check_row none (some row) = access_error
check_row (some u) (some row) =
    if u == "" || not (row.user_id == u)
    then access_error
    else check_version (or_default row.schema_version unversioned)

unfoldable pub authorize_thread : Option String → String → Option Registry → Access
authorize_thread user_id thread_id none = granted
authorize_thread user_id thread_id (some rows) = check_row user_id (get thread_id rows)

unfoldable pub stale_keys : ℕ → Registry → List String
stale_keys cutoff [] = []
stale_keys cutoff ((t, row) ∷ rows) =
    let rest = stale_keys cutoff rows in if ltb row.last_activity_at cutoff then t ∷ rest else rest

unfoldable pub stale_threads : ℕ → Option Registry → List String
stale_threads cutoff none = []
stale_threads cutoff (some rows) = stale_keys cutoff rows

unfoldable pub forget_threads : List String → Option Registry → Option Registry
forget_threads thread_ids none = none
forget_threads thread_ids (some rows) =
    if is_empty thread_ids then some rows else some (keep (λ t row. not (is_in t thread_ids)) rows)
