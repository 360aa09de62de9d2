-- ===== src/Privacy/Erased.antt =====
-- course_discovery/privacy/erasure.py: what an erasure leaves and reports.
use course_discovery_agent.Prelude.{
  ℕ, String, Bool, true, false, not, Option, some, List, [], ◌∷◌, filter, any, is_in, if◌then◌else◌,
  eqb, eq_refl, arith, ◌≡◌, refl, inl, inr, Bool-cases, count_if, ap, ◌∙◌, Option,
}
use course_discovery_agent.Prelude.Dict.{Dict, put, values}
use course_discovery_agent.Privacy.Sources.{
  Row, Database, UserDataSource, owned, by_status, sum, count, others, source, user_data_sources,
}
use course_discovery_agent.Privacy.Erasure.{
  ErasureReport, clean, thread_ids, survey_from, survey, delete_all, surviving_threads,
  delete_threads, erase_user,
}
use course_discovery_agent.Privacy.Deletion.{
  tables, found_in, delete_all-covered, delete_all-untouched, sources_covered, referring_sources,
}

abbrev is_positive : ℕ → Bool
is_positive n = not (eqb n 0)

values-put :
    (k : String) (n : ℕ) (d : Dict ℕ)
    → any is_positive (values d) ≡ false
    → any is_positive (values (put k n d)) ≡ is_positive n
unfolding any values put
values-put k n [] h = ground arith
values-put k n ((j, m) ∷ d) h = ground (arith, values-put k n d)

by_status-others :
    (user_id : String) (rows : List Row) → by_status user_id (others user_id rows) ≡ []
unfolding by_status others filter
by_status-others user_id [] = refl
by_status-others user_id (r ∷ rs) = ground (arith, by_status-others user_id rs)

count_if-others :
    (user_id : String) (rows : List Row) → count_if (owned user_id) (others user_id rows) ≡ 0
unfolding count_if others filter
count_if-others user_id [] = refl
count_if-others user_id (r ∷ rs) = ground (arith, count_if-others user_id rs)

count-others :
    (s : UserDataSource) (user_id : String) (db : Database) (rows : List Row)
    → db s.table ≡ others user_id rows
    → (count s db user_id).0 ≡ 0
unfolding count sum
count-others s user_id db rows h = elim (Bool-cases s.breaks_down) [
  | inl e ↦ rw (e, h, by_status-others user_id rows) refl
  | inr e ↦ rw (e, h) (count_if-others user_id rows)
]

survey_from-nothing :
    (ss : List UserDataSource) (user_id : String) (before db : Database) (rows outbox : Dict ℕ)
    → ((table : String) → is_in table (tables ss) ≡ true → db table ≡ others user_id (before table))
    → any is_positive (values rows) ≡ false
    → any is_positive (values (survey_from ss db user_id rows outbox).0) ≡ false
unfolding survey_from tables is_in
survey_from-nothing [] user_id before db rows outbox h z = z
survey_from-nothing (s ∷ ss) user_id before db rows outbox h z =
    survey_from-nothing ss user_id before db (put s.table (count s db user_id).0 rows) _
      (λ t m. h t (ground arith))
      (rw (count-others s user_id db (before s.table) (h s.table (rw eq_refl refl)))
        (values-put s.table 0 rows z))

survey-nothing :
    (user_id : String) (before db : Database)
    → ((table : String)
        → is_in table (tables user_data_sources) ≡ true
        → db table ≡ others user_id (before table))
    → any is_positive (values (survey db user_id).0) ≡ false
unfolding survey any values
survey-nothing user_id before db h =
    survey_from-nothing user_data_sources user_id before db [] [] h refl

-- The tables that a saver in the same database deletes from.
unfoldable pub saver_tables : List String
saver_tables = "checkpoints" ∷ "checkpoint_blobs" ∷ "checkpoint_writes" ∷ []

-- They are no sources, so that the deletions from the sources leave them.
saver_tables-apart :
    (table : String)
    → is_in table saver_tables ≡ true
    → is_in table (tables user_data_sources) ≡ false
saver_tables-apart table m =
    let apart : not (is_in table (tables user_data_sources)) ≡ true =
      found_in (λ t. not (is_in t (tables user_data_sources))) table saver_tables
        (unfold any saver_tables user_data_sources tables source is_in in refl) m in
    ground (arith, apart)

kept_apart :
    (table : String)
    → is_in table (tables user_data_sources) ≡ true
    → is_in table saver_tables ≡ false
kept_apart table m = elim (Bool-cases (is_in table saver_tables)) [
  | inl t ↦ absurd (ground (arith, m, saver_tables-apart table t))
  | inr t ↦ t
]

-- A thread that is deleted is gone, the others that are gone stay so, and only the saver's tables change;
-- and whether a thread is gone depends on the saver and its tables alone.
abbrev pub Deletes :
    (S : Type 0)
    → (String → S → Database → Option (S × Database))
    → (String → S → Database → Option ℕ)
    → Type 0
Deletes S delete_thread listed =
    ((t : String) (s : S) (db : Database)
      → (s' : S) × (db' : Database) × (delete_thread t s db ≡ some (s', db'))
        × (listed t s' db' ≡ some 0)
        × ((u : String) → listed u s db ≡ some 0 → listed u s' db' ≡ some 0)
        × ((table : String) → is_in table saver_tables ≡ false → db' table ≡ db table))
    × ((t : String) (s : S) (db db' : Database)
        → ((table : String) → is_in table saver_tables ≡ true → db' table ≡ db table)
        → listed t s db' ≡ listed t s db)

module _ (S : Type 0) (hash : String → String)
    (delete_thread : String → S → Database → Option (S × Database))
    (listed : String → S → Database → Option ℕ) (deletes : Deletes S delete_thread listed) where
  delete_threads_total :
      (ts : List String) (s : S) (db : Database)
      → (s' : S) × (db' : Database) × (delete_threads S hash delete_thread listed ts s db
          ≡ some (s', db'))
        × (surviving_threads S hash delete_thread listed s' db' ts ≡ 0)
        × ((u : String) → listed u s db ≡ some 0 → listed u s' db' ≡ some 0)
        × ((table : String) → is_in table saver_tables ≡ false → db' table ≡ db table)
  unfolding delete_threads surviving_threads
  delete_threads_total [] s db = (s, db, refl, refl, λ u h. h, λ table m. refl)
  delete_threads_total (t ∷ ts) s db =
      let (r, rdb, deleted, gone, kept, same) = deletes.0 t s db in
      let (s', db', rest, none_left, kept', same') = delete_threads_total ts r rdb in
      (
        s',
        db',
        rw (deleted, delete_threads) rest,
        rw (kept' t gone, none_left) refl,
        λ u h. kept' u (kept u h),
        λ table m. same' table m ∙ same table m,
      )

  surviving_threads-same :
      (ts : List String) (s : S) (db db' : Database)
      → ((table : String) → is_in table saver_tables ≡ true → db' table ≡ db table)
      → surviving_threads S hash delete_thread listed s db' ts
        ≡ surviving_threads S hash delete_thread listed s db ts
  unfolding surviving_threads
  surviving_threads-same [] s db db' h = refl
  surviving_threads-same (t ∷ ts) s db db' h =
      rw (deletes.1 t s db db' h, surviving_threads-same ts s db db' h) refl

  untouched :
      (user_id table : String) (db : Database)
      → is_in table (tables user_data_sources) ≡ false
      → delete_all user_data_sources user_id db table ≡ db table
  untouched user_id table db m =
      let (a, b) = referring_sources table m in
      delete_all-untouched user_id table user_data_sources db m a b

  -- With a database, and a saver of checkpoints that deletes threads and changes no tables but its own, an
  -- erasure that is to be executed ends and reports that it is clean. Each table of the sources then
  -- holds exactly the rows that are not the user's, with their contents, and no other table has changed
  -- but those that the saver deletes from.
  pub erase_user-is_clean :
      (user_id : String) (db : Database) (saver : S)
      → (report : ErasureReport) × (db' : Database) × (saver' : S) × (erase_user S hash
            delete_thread listed user_id true
            (some db)
            saver
          ≡ some (report, db', saver'))
        × (clean report ≡ true)
        × ((table : String)
            → db' table ≡ (
                if is_in table (tables user_data_sources)
                then others user_id (db table)
                else if is_in table saver_tables
                then db' table
                else db table))
  unfolding erase_user clean
  erase_user-is_clean user_id db saver =
      let threads = thread_ids db user_id in
      let (saver', emptied, deleted, none_left, _, same) = delete_threads_total threads saver db in
      let db' = delete_all user_data_sources user_id emptied in
      let left = λ (table : String) (m : is_in table (tables user_data_sources) ≡ true).
        delete_all-covered user_id table user_data_sources emptied (sources_covered table m) in
      let still : surviving_threads S hash delete_thread listed saver' db' threads ≡ 0 =
        surviving_threads-same threads saver' emptied db'
          (λ table m. untouched user_id table emptied (saver_tables-apart table m))
        ∙ none_left in
      (
        record {
          user_ref = hash user_id;
          executed = true;
          threads = threads;
          rows = (survey db user_id).0;
          outbox_by_status = (survey db user_id).1;
          residual =
              put "checkpoint_threads"
                (surviving_threads S hash delete_thread listed saver' db' threads)
                (survey db' user_id).0;
        },
        db',
        saver',
        rw (deleted) refl,
        rw (still) (
            ap not (
              values-put "checkpoint_threads" 0 (survey db' user_id).0
                (survey-nothing user_id emptied db' left))),
        λ table. elim (Bool-cases (is_in table (tables user_data_sources))) [
          | inl m ↦
              let plain : is_in table saver_tables ≡ false = kept_apart table m in
              rw m (left table m ∙ ap (others user_id) (same table plain))
          | inr m ↦ elim (Bool-cases (is_in table saver_tables)) [
            | inl t ↦ rw (m, t) refl
            | inr t ↦ rw (m, t) (untouched user_id table emptied m ∙ same table t)
          ]
        ],
      )
