-- ===== src/Privacy/Erasure.antt =====
-- course_discovery/privacy/erasure.py: everything that is stored for one user is deleted. The hash of
-- `user_ref` and the saver of checkpoints are parameters. The saver has a state of its own and may keep
-- tables in the same database: `delete_thread` gives both as it leaves them, or raises, and `listed` says
-- how many checkpoints `alist` yields of a thread with `limit=1`, or that it raises.
use course_discovery_agent.Prelude.{
  ℕ, ◌+◌, String, Bool, not, ◌&&◌, Option, none, some, List, [], ◌∷◌, filter, any, if◌then◌else◌,
  ◌==◌, eqb,
}
use course_discovery_agent.Prelude.Dict.{Dict, put, values}
use course_discovery_agent.Privacy.Sources.{
  Row, Database, UserDataSource, owned, count, delete, user_data_sources,
}

pub record ErasureReport : Type 0 where
  pub user_ref : String
  pub executed : Bool
  pub threads : List String
  pub rows : Dict ℕ
  pub outbox_by_status : Dict ℕ
  pub residual : Dict ℕ

unfoldable pub clean : ErasureReport → Bool
clean r = r.executed && not (any (λ n. not (eqb n 0)) (values r.residual))

unfoldable pub bodies : List Row → List String
bodies [] = []
bodies (r ∷ rs) = r.body ∷ bodies rs

-- A row of `run_threads` has the thread's id for its body.
unfoldable pub thread_ids : Database → String → List String
thread_ids db user_id = bodies (filter (owned user_id) (db "run_threads"))

unfoldable pub survey_from :
    List UserDataSource → Database → String → Dict ℕ → Dict ℕ → Dict ℕ × Dict ℕ
survey_from [] db user_id rows outbox = (rows, outbox)
survey_from (s ∷ ss) db user_id rows outbox =
    survey_from ss db user_id (put s.table (count s db user_id).0 rows)
      (if s.table == "outbox" then (count s db user_id).1 else outbox)

unfoldable pub survey : Database → String → Dict ℕ × Dict ℕ
survey db user_id = survey_from user_data_sources db user_id [] []

unfoldable pub delete_all : List UserDataSource → String → Database → Database
delete_all [] user_id db = db
delete_all (s ∷ ss) user_id db = delete_all ss user_id (delete s user_id db)

module _ (S : Type 0) (hash : String → String)
    (delete_thread : String → S → Database → Option (S × Database))
    (listed : String → S → Database → Option ℕ) where
  unfoldable pub surviving_threads : S → Database → List String → ℕ
  surviving_threads saver db [] = 0
  surviving_threads saver db (t ∷ ts) =
      (elim (listed t saver db) [ none ↦ 1 | some n ↦ n ]) + surviving_threads saver db ts

  unfoldable pub delete_threads : List String → S → Database → Option (S × Database)
  delete_threads [] saver db = some (saver, db)
  delete_threads (t ∷ ts) saver db = elim (delete_thread t saver db) [
    | none ↦ none
    | some (saver', db') ↦ delete_threads ts saver' db'
  ]

  -- `none` stands for an exception; `db` is `none` without a database.
  unfoldable pub erase_user :
      String → Bool → Option Database → S → Option (ErasureReport × Database × S)
  erase_user user_id execute none saver = none
  erase_user user_id execute (some db) saver =
      let threads = thread_ids db user_id in
      let report : ErasureReport = record {
        user_ref = hash user_id;
        executed = execute;
        threads = threads;
        rows = (survey db user_id).0;
        outbox_by_status = (survey db user_id).1;
        residual = [];
      } in
      if execute
      then elim (delete_threads threads saver db) [
        | none ↦ none
        | some (saver', emptied) ↦
            let db' = delete_all user_data_sources user_id emptied in
            some (
              record report {
                residual =
                    put "checkpoint_threads" (surviving_threads saver' db' threads)
                      (survey db' user_id).0;
              },
              db',
              saver',
            )
      ]
      else some (report, db, saver)
