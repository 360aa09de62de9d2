-- ===== src/Privacy/Deletion.antt =====
-- course_discovery/privacy/sources.py: what the deletions leave of each table.
use course_discovery_agent.Prelude.{
  String, Bool, true, false, not, ◌&&◌, ◌||◌, List, [], ◌∷◌, map, filter, any, is_in, ◌==◌, eq_iff,
  arith, ◌≡◌, refl, inl, inr, Bool-cases, ◌∙◌, ap, subst,
}
use course_discovery_agent.Privacy.Sources.{
  Row, Database, UserDataSource, others, forget, sets_null, follow, delete, source,
  user_data_sources,
}
use course_discovery_agent.Privacy.Erasure.{delete_all}

module _ (user_id : String) where
  others-others : (rows : List Row) → others user_id (others user_id rows) ≡ others user_id rows
  unfolding others filter
  others-others [] = refl
  others-others (r ∷ rs) = ground (arith, others-others rs)

  forget-others :
      (rows : List Row) → map (forget user_id) (others user_id rows) ≡ others user_id rows
  unfolding others filter forget
  forget-others [] = refl
  forget-others (r ∷ rs) = ground (arith, forget-others rs)

  -- What follows a deleted user does nothing to a table without rows of the user.
  follow-others :
      (table : String) (rows : List Row)
      → follow user_id table (others user_id rows) ≡ others user_id rows
  unfolding follow
  follow-others table rows = ground (arith, forget-others rows, others-others rows)

  delete-others :
      (s : UserDataSource) (table : String) (db : Database) (rows : List Row)
      → db table ≡ others user_id rows
      → delete s user_id db table ≡ others user_id rows
  unfolding delete
  delete-others s table db rows h = ground (arith, others-others rows, follow-others table rows)

  delete_all-others :
      (ss : List UserDataSource) (table : String) (db : Database) (rows : List Row)
      → db table ≡ others user_id rows
      → delete_all ss user_id db table ≡ others user_id rows
  unfolding delete_all
  delete_all-others [] table db rows h = h
  delete_all-others (s ∷ ss) table db rows h =
      delete_all-others ss table (delete s user_id db) rows (delete-others s table db rows h)

-- A table is emptied of the user's rows before the user is deleted, if its rows would outlive that.
pub is_covered : String → List UserDataSource → Bool
is_covered table [] = false
is_covered table (s ∷ ss) =
    (s.table == table) || (not ((s.table == "users") && sets_null table) && is_covered table ss)

pub delete_all-covered :
    (user_id table : String) (ss : List UserDataSource) (db : Database)
    → is_covered table ss ≡ true
    → delete_all ss user_id db table ≡ others user_id (db table)
unfolding is_covered delete_all
delete_all-covered user_id table [] db h = cc
delete_all-covered user_id table (s ∷ ss) db h = elim (Bool-cases (s.table == table)) [
  | inl e ↦
      delete_all-others user_id ss table (delete s user_id db) (db table)
        (unfold delete in rw e refl)
  | inr e ↦ elim (Bool-cases (s.table == "users")) [
    | inl u ↦ elim (Bool-cases (table == "user_preferences")) [
      | inl p ↦
          delete_all-others user_id ss table (delete s user_id db) (db table)
            (unfold delete follow in ground arith)
      | inr p ↦
          delete_all-covered user_id table ss (delete s user_id db) (ground arith)
          ∙ ap (others user_id) (unfold delete follow in ground arith)
    ]
    | inr u ↦
        delete_all-covered user_id table ss (delete s user_id db) (ground arith)
        ∙ ap (others user_id) (unfold delete in ground arith)
  ]
]

unfoldable pub tables : List UserDataSource → List String
tables [] = []
tables (s ∷ ss) = s.table ∷ tables ss

pub delete_all-untouched :
    (user_id table : String) (ss : List UserDataSource) (db : Database)
    → is_in table (tables ss) ≡ false
    → sets_null table ≡ false
    → (table == "user_preferences") ≡ false
    → delete_all ss user_id db table ≡ db table
unfolding delete_all tables is_in
delete_all-untouched user_id table [] db h n p = refl
delete_all-untouched user_id table (s ∷ ss) db h n p =
    delete_all-untouched user_id table ss (delete s user_id db) (ground arith) n p
    ∙ (unfold delete follow in ground arith)

pub found_in :
    (p : String → Bool) (t : String) (xs : List String)
    → any (λ x. not (p x)) xs ≡ false
    → is_in t xs ≡ true
    → p t ≡ true
unfolding any is_in
found_in p t [] h m = cc
found_in p t (x ∷ xs) h m = elim (Bool-cases (x == t)) [
  | inl e ↦ subst (λ y. p y ≡ true) ((eq_iff x t).0 e) (ground arith)
  | inr e ↦ found_in p t xs (ground arith) (ground arith)
]

pub sources_covered :
    (table : String)
    → is_in table (tables user_data_sources) ≡ true
    → is_covered table user_data_sources ≡ true
sources_covered table m =
    found_in (λ t. is_covered t user_data_sources) table (tables user_data_sources)
      (unfold any is_covered user_data_sources tables source sets_null is_in in refl) m

-- The tables that refer to `users` are sources themselves.
pub referring_sources :
    (table : String)
    → is_in table (tables user_data_sources) ≡ false
    → (sets_null table ≡ false) × ((table == "user_preferences") ≡ false)
unfolding user_data_sources tables source sets_null is_in
referring_sources table h = (
  ground (arith, eq_iff "recommendation_events" table, eq_iff "research_runs" table),
  ground (arith, eq_iff table "user_preferences", eq_iff "user_preferences" table),
)
