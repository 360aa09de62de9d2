-- ===== src/Privacy/Sources.antt =====
-- course_discovery/privacy/sources.py: the tables that hold data of users, and the foreign keys of
-- migrations/001_postgres_pgvector.sql that refer to `users`. The columns that matter are those of
-- `Row`; the schema is taken as applied, so that every table is there.
use course_discovery_agent.Prelude.{
  ℕ, suc, ◌+◌, String, Bool, true, false, not, Option, none, some, List, [], ◌∷◌, map, filter,
  is_in, if◌then◌else◌, ◌==◌, count_if, or_default,
}
use course_discovery_agent.Prelude.Dict.{Dict, get, put}

-- `user` is the value that a source matches on: a column, or a key of a JSON column.
pub record Row : Type 0 where
  pub user : Option String
  pub status : String
  pub body : String

-- The rows of each table, in the order of their creation.
abbrev pub Database : Type 0
Database = String → List Row

unfoldable pub owned : String → Row → Bool
owned user_id r = elim r.user [ none ↦ false | some u ↦ u == user_id ]

pub record UserDataSource : Type 0 where
  pub table : String
  pub breaks_down : Bool

-- `SELECT status, count(*) … GROUP BY status`, for the rows of a user
unfoldable pub by_status : String → List Row → Dict ℕ
by_status user_id [] = []
by_status user_id (r ∷ rs) =
    let rest = by_status user_id rs in
    if owned user_id r then put r.status (suc (or_default (get r.status rest) 0)) rest else rest

unfoldable pub sum : Dict ℕ → ℕ
sum [] = 0
sum ((k, n) ∷ d) = n + sum d

unfoldable pub count : UserDataSource → Database → String → ℕ × Dict ℕ
count source db user_id =
    if source.breaks_down
    then (sum (by_status user_id (db source.table)), by_status user_id (db source.table))
    else (count_if (owned user_id) (db source.table), [])

-- Without the rows of a user.
unfoldable pub others : String → List Row → List Row
others user_id = filter (λ r. not (owned user_id r))

-- `ON DELETE SET NULL`
unfoldable pub forget : String → Row → Row
forget user_id r = if owned user_id r then record r { user = none } else r

unfoldable pub sets_null : String → Bool
sets_null table = is_in table ("recommendation_events" ∷ "research_runs" ∷ [])

-- What a deleted user does to the rows of another table that refers to `users`.
unfoldable pub follow : String → String → List Row → List Row
follow user_id table rows =
    if sets_null table
    then map (forget user_id) rows
    else if table == "user_preferences"
    then others user_id rows
    else rows

unfoldable pub delete : UserDataSource → String → Database → Database
delete source user_id db table =
    if source.table == table
    then others user_id (db table)
    else if source.table == "users"
    then follow user_id table (db table)
    else db table

unfoldable pub source : String → UserDataSource
source table = record { table = table; breaks_down = false }

unfoldable pub user_data_sources : List UserDataSource
unfolding source
user_data_sources =
    source "chat_inbox"
    ∷ source "chat_identities"
    ∷ source "chat_user_leases"
    ∷ record { table = "outbox"; breaks_down = true }
    ∷ source "memory_updates"
    ∷ source "recommendation_events"
    ∷ source "research_runs"
    ∷ source "user_preferences"
    ∷ source "users"
    ∷ source "run_threads"
    ∷ []

unfoldable pub not_user_data : List String
not_user_data =
    "courses" ∷ "chat_updates" ∷ "course_evidence" ∷ "pending_courses" ∷ "checkpoints"
    ∷ "checkpoint_blobs" ∷ "checkpoint_writes" ∷ "checkpoint_migrations" ∷ []
