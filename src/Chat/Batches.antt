-- ===== src/Chat/Batches.antt =====
-- What the batches of course_discovery/chat/store.py keep: one open batch for a user, one worker for
-- a batch.
use course_discovery_agent.Prelude.{
  ℕ, ◌+◌, ◌≤◌, String, Bool, true, false, none, some, List, [], ◌∷◌, map, ◌≡◌, refl, sym, ap, ◌∙◌,
  subst, ◌⊎◌, inl, inr, arith, All, All-map, All-filter, All-sort_on, filter, length,
  length-sort_on, Bool-cases, eq_refl, All-append,
}
use course_discovery_agent.Prelude.Dict.{get, get-put}
use course_discovery_agent.Chat.Store.{
  Batch, InboxRow, Database, InboundMessage, is_any, is_batched, rows_of, next_rows, or_waiting,
  by_update, batch_id_of, mark_row, is_free, take_rows, claim_user, ingest,
}

-- An open row of the user that is in a batch is in this one.
abbrev pub IsIn : String → ℕ → InboxRow → Type 0
IsIn user b r = (is_batched user r ≡ false) ⊎ (r.batch_id ≡ some b)

-- The user has at most one open batch.
abbrev pub IsSingle : String → List InboxRow → Type 0
IsSingle user inbox = (b : ℕ) × All (IsIn user b) inbox

mark_row-IsIn :
    (user : String) (b : ℕ) (ids : List ℕ) (inbox : List InboxRow)
    → All (IsIn user b) inbox
    → All (IsIn user b) (map (mark_row b ids) inbox)
unfolding mark_row
mark_row-IsIn user b ids [] h = tt
mark_row-IsIn user b ids (r ∷ inbox) h = elim (Bool-cases (is_any r.update_id ids)) [
  | inl e ↦ rw e (inr refl, mark_row-IsIn user b ids inbox h.1)
  | inr e ↦ rw e (h.0, mark_row-IsIn user b ids inbox h.1)
]

-- What holds of the rows that a query selects.
rows_of-All :
    (P : InboxRow → Type 0) (p : InboxRow → Bool) (db : Database)
    → All P db.chat_inbox
    → All (λ r. P r × (p r ≡ true)) (rows_of p db)
unfolding rows_of
rows_of-All P p db h =
    All-sort_on by_update _ (filter p db.chat_inbox) (All-filter P p db.chat_inbox h)

nothing_selected :
    (p : InboxRow → Bool) (db : Database) → rows_of p db ≡ [] → length (filter p db.chat_inbox) ≡ 0
unfolding rows_of
nothing_selected p db e = sym (length-sort_on by_update (filter p db.chat_inbox)) ∙ ap length e

none_selected :
    (p : InboxRow → Bool) (inbox : List InboxRow)
    → length (filter p inbox) ≡ 0
    → All (λ r. p r ≡ false) inbox
unfolding filter
none_selected p [] = λ e. tt
none_selected p (r ∷ inbox) = elim (Bool-cases (p r)) [
  | inl e ↦ rw e (λ h. absurd (omega (arith, h)))
  | inr e ↦ rw e (λ h. (refl, none_selected p inbox h))
]

List-cases :
    (xs : List InboxRow) → (xs ≡ []) ⊎ ((x : InboxRow) × (rest : List InboxRow) × (xs ≡ x ∷ rest))
List-cases [] = inl refl
List-cases (x ∷ rest) = inr (x, rest, refl)

module _ (lease_duration : ℕ) where
  take_rows-IsSingle :
      (user owner : String) (now : ℕ) (db : Database) (rows : List InboxRow)
      → ((r : InboxRow) (rest : List InboxRow)
          → rows ≡ r ∷ rest
          → All (IsIn user (batch_id_of r)) db.chat_inbox)
      → IsSingle user db.chat_inbox
      → IsSingle user (take_rows lease_duration user owner now db rows).1.chat_inbox
  unfolding take_rows
  take_rows-IsSingle user owner now db [] first h = h
  take_rows-IsSingle user owner now db (r ∷ rest) first h = (
    batch_id_of r,
    mark_row-IsIn user (batch_id_of r) (map by_update (r ∷ rest)) db.chat_inbox (first r rest refl),
  )

  -- The open batch's own number, where a row of it is selected.
  first_batched :
      (user : String) (b : ℕ) (db : Database) (r : InboxRow) (rest : List InboxRow)
      → All (IsIn user b) db.chat_inbox
      → rows_of (is_batched user) db ≡ r ∷ rest
      → batch_id_of r ≡ b
  first_batched user b db r rest h e =
      let selected =
        subst (All (λ x. IsIn user b x × (is_batched user x ≡ true))) e
          (rows_of-All (IsIn user b) (is_batched user) db h) in
      elim selected.0.0 [
        | inl other ↦ absurd (ground (arith, other, selected.0.1))
        | inr is ↦ rw is refl
      ]

  next_rows-first :
      (user : String) (db : Database)
      → IsSingle user db.chat_inbox
      → (r : InboxRow) (rest : List InboxRow) → next_rows user db ≡ r ∷ rest
      → All (IsIn user (batch_id_of r)) db.chat_inbox
  unfolding next_rows or_waiting
  next_rows-first user db (b, h) r rest = elim (List-cases (rows_of (is_batched user) db)) [
    | inl e ↦ λ _.
        All-map (λ x other. inl other) db.chat_inbox
          (none_selected (is_batched user) db.chat_inbox (nothing_selected (is_batched user) db e))
    | inr (r1, rest1, e) ↦ rw e (λ same.
        subst (λ n. All (IsIn user n) db.chat_inbox)
          (sym (first_batched user b db r rest h (e ∙ same))) h)
  ]

  -- Claiming for a user that has at most one open batch leaves it with at most one.
  pub claim_user-IsSingle :
      (user owner : String) (now : ℕ) (db : Database)
      → IsSingle user db.chat_inbox
      → IsSingle user (claim_user lease_duration user owner now db).1.chat_inbox
  unfolding claim_user
  claim_user-IsSingle user owner now db h =
      elim (Bool-cases (is_free (get user db.chat_user_leases) now)) [
        | inl free ↦
            rw free (
              take_rows-IsSingle user owner now db (next_rows user db) (next_rows-first user db h)
                h)
        | inr held ↦ rw held h
      ]

  taken_lease :
      (user owner : String) (now : ℕ) (db : Database) (rows : List InboxRow) (b : Batch)
      → (take_rows lease_duration user owner now db rows).0 ≡ some b
      → get user (take_rows lease_duration user owner now db rows).1.chat_user_leases
        ≡ some (record { owner = owner; locked_until = now + lease_duration })
  unfolding take_rows
  taken_lease user owner now db [] b e = absurd cc
  taken_lease user owner now db (r ∷ rest) b e =
      get-put user user _ db.chat_user_leases ∙ rw eq_refl refl

  -- Where a claim got a batch for a user, no claim for that user, by whichever worker, gets
  -- anything or changes anything until the lease ends.
  pub claim_user-is_exclusive :
      (user owner other : String) (now later : ℕ) (db : Database) (b : Batch)
      → (claim_user lease_duration user owner now db).0 ≡ some b
      → later ≤ now + lease_duration
      → claim_user lease_duration user other later (claim_user lease_duration user owner now db).1
        ≡ (none, (claim_user lease_duration user owner now db).1)
  unfolding claim_user
  claim_user-is_exclusive user owner other now later db b =
      elim (Bool-cases (is_free (get user db.chat_user_leases) now)) [
        | inl free ↦ rw free (λ e early.
            rw (taken_lease user owner now db (next_rows user db) b e) (ground (arith, early)))
        | inr held ↦ rw held (λ e early. absurd cc)
      ]

  ingest-waiting :
      (fresh_id user redacted_text : String) (message : InboundMessage) (b : ℕ) (db : Database)
      → All (IsIn user b) db.chat_inbox
      → All (IsIn user b) (ingest fresh_id message redacted_text db).1.chat_inbox
  unfolding ingest is_batched
  ingest-waiting fresh_id user redacted_text message b db h =
      elim (Bool-cases (is_any message.update_id db.chat_updates)) [
        | inl known ↦ rw known h
        | inr new ↦ rw new (All-append (IsIn user b) db.chat_inbox _ h (inl (ground arith), tt))
      ]
