-- ===== src/Tests/Access.antt =====
-- Runs of the registry of threads, of an erasure and of closing a thread: course_discovery/privacy and
-- course_discovery/review/close.py.
use course_discovery_agent.Prelude.{
  ℕ, String, true, not, Option, none, some, List, [], ◌∷◌, ◌≡◌, refl, filter, is_in, ◌==◌, arith,
  eq_iff, if◌then◌else◌, ◌&&◌,
}
use course_discovery_agent.Prelude.Dict.{get}
use course_discovery_agent.Memory.Nodes.{feedback_record}
use course_discovery_agent.Privacy.Registry.{Registry, authorize_thread, register_thread}
use course_discovery_agent.Privacy.Access.{MayOpen, authorize_thread-register}
use course_discovery_agent.Privacy.Sources.{Row, Database, user_data_sources, others}
use course_discovery_agent.Privacy.Erasure.{ErasureReport, erase_user, clean}
use course_discovery_agent.Privacy.Deletion.{tables}
use course_discovery_agent.Privacy.Erased.{saver_tables, Deletes, erase_user-is_clean}
use course_discovery_agent.Workflow.Outer.{await_human_review}
use course_discovery_agent.Workflow.Steps.{ended}
use course_discovery_agent.Workflow.Close.{
  close_thread, closed, accepted, close_config, close_thread-accepts,
}
use course_discovery_agent.Tests.Samples.{request, services}

abbrev threads : Registry
threads = ("t1", record { user_id = "ada"; schema_version = some 4; last_activity_at = 3 }) ∷ []

authorize_thread-register_example :
    authorize_thread (some "eve") "t1" (register_thread 9 (some "eve") "t1" (some threads))
    ≡ authorize_thread (some "eve") "t1" (some threads)
unfolding get
authorize_thread-register_example =
    authorize_thread-register 9 "eve" "t1" threads (some "eve") "t1" refl

ada_may : MayOpen (some "ada") "t1" threads
unfolding get
ada_may = record {
  row = record { user_id = "ada"; schema_version = some 4; last_activity_at = 3 };
  found = refl;
  owner = refl;
  named = refl;
  current = refl;
}

close_thread-accepts_example :
    (close_thread services "ada" "t1" "implicit"
        (some threads)
        (record { next = await_human_review ∷ []; state = request })
        0
      ≡ closed (ended (record (accepted request) { memory_update = none }) 0))
    × ((feedback_record (close_config "t1" "implicit") (accepted request)).accepted ≡ true)
close_thread-accepts_example =
    close_thread-accepts services "ada" "t1" "implicit" threads request 0 0 0 none ada_may refl refl

-- A saver that holds the ids of its threads, and has rows of them in the database too.
abbrev without : String → Database → Database
without t db table =
    if is_in table saver_tables
    then filter (λ (r : Row). not (r.body == t)) (db table)
    else db table

abbrev remove : String → List String → Database → Option (List String × Database)
remove t ts db = some (filter (λ u. not (u == t)) ts, without t db)

abbrev held : String → List String → Database → Option ℕ
held t ts db = some (if is_in t ts then 1 else 0)

removed :
    (u t : String) (ts : List String)
    → is_in u (filter (λ x. not (x == t)) ts) ≡ (is_in u ts && not (u == t))
unfolding filter is_in
removed u t [] = refl
removed u t (x ∷ ts) = ground (arith, removed u t ts, eq_iff x u, eq_iff u t, eq_iff x t)

remove-Deletes : Deletes (List String) remove held
remove-Deletes = (
  λ t ts db. (
    filter (λ u. not (u == t)) ts,
    without t db,
    refl,
    rw (removed t t ts) (ground (arith, eq_iff t t)),
    λ u h. rw (removed u t ts) (ground arith),
    λ table m. rw m refl,
  ),
  λ t ts db db' h. refl,
)

abbrev row : Option String → String → Row
row user body = record { user = user; status = "queued"; body = body }

abbrev database : Database
database table =
    if table == "run_threads"
    then row (some "ada") "t1" ∷ row (some "eve") "t2" ∷ []
    else if table == "recommendation_events"
    then row (some "ada") "liked" ∷ []
    else if table == "checkpoints"
    then row none "t1" ∷ row none "t2" ∷ []
    else []

erase_user-is_clean_example :
    (report : ErasureReport) × (db' : Database) × (saver' : List String) × (erase_user
        (List String)
        (λ u. u)
        remove
        held
        "ada"
        true
        (some database)
        ("t1" ∷ "t2" ∷ [])
      ≡ some (report, db', saver'))
    × (clean report ≡ true)
    × ((table : String)
        → db' table ≡ (
            if is_in table (tables user_data_sources)
            then others "ada" (database table)
            else if is_in table saver_tables
            then db' table
            else database table))
erase_user-is_clean_example =
    erase_user-is_clean (List String) (λ u. u) remove held remove-Deletes "ada" database
      ("t1" ∷ "t2" ∷ [])
