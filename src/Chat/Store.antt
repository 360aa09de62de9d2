-- ===== src/Chat/Store.antt =====
-- course_discovery/chat/store.py. The tables of the database are lists and dictionaries; each method
-- is one transaction, and `now` is the database's clock. `fresh_id` is the identifier that a new chat
-- gets. `none` of `renew` and `complete` is a LeaseLost.
use course_discovery_agent.Prelude.{
  ℕ, ◌+◌, ◌<>◌, String, Bool, true, false, not, ◌&&◌, ◌||◌, Option, none, some, is_some, List, [],
  ◌∷◌, ◌++◌, map, ltb, eqb, filter, sort_on, join, show, ◌==◌, if◌then◌else◌,
}
use course_discovery_agent.Prelude.Dict.{Dict, get, put, keep}

abbrev pub max_attempts : ℕ
max_attempts = 3

pub record Batch : Type 0 where
  pub user_id : String
  pub batch_id : ℕ
  pub update_ids : List ℕ
  pub text : String
  pub attempts : ℕ
  pub owner : String

unfoldable pub thread_id : Batch → String
thread_id b = "chat-" <> show b.batch_id

pub record InboundMessage : Type 0 where
  pub update_id : ℕ
  pub chat_id : ℕ

-- A row of `chat_inbox`.
pub record InboxRow : Type 0 where
  pub update_id : ℕ
  pub user_id : String
  pub text : String
  pub batch_id : Option ℕ
  pub attempts : ℕ
  pub done_at : Option ℕ

pub record UserLease : Type 0 where
  pub owner : String
  pub locked_until : ℕ

pub record Database : Type 0 where
  pub chat_updates : List ℕ
  pub chat_identities : List (ℕ × String)
  pub chat_inbox : List InboxRow
  pub chat_user_leases : Dict UserLease

-- `update_id = ANY(ids)`
unfoldable pub is_any : ℕ → List ℕ → Bool
is_any n [] = false
is_any n (m ∷ ms) = eqb m n || is_any n ms

-- A new chat gets a row; a chat that has one keeps it.
unfoldable pub identify : String → ℕ → List (ℕ × String) → String × List (ℕ × String)
identify fresh_id chat [] = (fresh_id, (chat, fresh_id) ∷ [])
identify fresh_id chat ((c, u) ∷ rest) =
    let (found, rows) = identify fresh_id chat rest in
    if eqb c chat then (u, (c, u) ∷ rest) else (found, (c, u) ∷ rows)

-- `WHERE user_id = %s`, the first row of the user
unfoldable pub chat_id_for : String → List (ℕ × String) → Option ℕ
chat_id_for user [] = none
chat_id_for user ((chat, u) ∷ rest) = if u == user then some chat else chat_id_for user rest

unfoldable pub ingest : String → InboundMessage → String → Database → Bool × Database
ingest fresh_id message redacted_text db =
    if is_any message.update_id db.chat_updates then (false, db) else (
      true,
      record db {
        chat_updates = message.update_id ∷ db.chat_updates;
        chat_identities = (identify ("tg-" <> fresh_id) message.chat_id db.chat_identities).1;
        chat_inbox =
            db.chat_inbox
            ++ record {
              update_id = message.update_id;
              user_id = (identify ("tg-" <> fresh_id) message.chat_id db.chat_identities).0;
              text = redacted_text;
              batch_id = none;
              attempts = 0;
              done_at = none;
            }
              ∷ [];
      },
    )

unfoldable pub is_pending : String → InboxRow → Bool
is_pending user r = r.user_id == user && not (is_some r.done_at)

unfoldable pub is_batched : String → InboxRow → Bool
is_batched user r = is_pending user r && is_some r.batch_id

unfoldable pub is_waiting : String → InboxRow → Bool
is_waiting user r = is_pending user r && not (is_some r.batch_id)

abbrev pub by_update : InboxRow → ℕ
by_update r = r.update_id

unfoldable pub rows_of : (InboxRow → Bool) → Database → List InboxRow
rows_of p db = sort_on by_update (filter p db.chat_inbox)

unfoldable pub or_waiting : List InboxRow → List InboxRow → List InboxRow
or_waiting [] waiting = waiting
or_waiting (r ∷ rs) waiting = r ∷ rs

-- The rows of the open batch, or, where there is none, those that wait for one.
unfoldable pub next_rows : String → Database → List InboxRow
next_rows user db = or_waiting (rows_of (is_batched user) db) (rows_of (is_waiting user) db)

abbrev pub is_free : Option UserLease → ℕ → Bool
is_free none now = true
is_free (some l) now = ltb l.locked_until now

largest_attempts : ℕ → List InboxRow → ℕ
largest_attempts n [] = n
largest_attempts n (r ∷ rs) =
    if ltb n r.attempts then largest_attempts r.attempts rs else largest_attempts n rs

abbrev pub batch_id_of : InboxRow → ℕ
batch_id_of r = elim r.batch_id [ none ↦ r.update_id | some b ↦ b ]

-- `UPDATE chat_inbox SET batch_id, attempts = attempts + 1`
unfoldable pub mark_row : ℕ → List ℕ → InboxRow → InboxRow
mark_row b ids r =
    if is_any r.update_id ids then record r { batch_id = some b; attempts = r.attempts + 1 } else r

-- `WHERE user_id = %s AND owner = %s`
abbrev pub is_held : Batch → Option UserLease → Bool
is_held b none = false
is_held b (some l) = l.owner == b.owner

abbrev pub close_row : ℕ → List ℕ → InboxRow → InboxRow
close_row now ids r = if is_any r.update_id ids then record r { done_at = some now } else r

module _ (lease_duration : ℕ) where
  abbrev pub leased : String → String → ℕ → Database → Database
  leased user owner now db = record db {
    chat_user_leases =
        put user (record { owner = owner; locked_until = now + lease_duration })
          db.chat_user_leases;
  }

  abbrev pub unleased : String → Database → Database
  unleased user db = record db {
    chat_user_leases = keep (λ u _. not (u == user)) db.chat_user_leases;
  }

  unfoldable pub take_rows :
      String → String → ℕ → Database → List InboxRow → Option Batch × Database
  unfolding largest_attempts
  take_rows user owner now db [] = (none, unleased user (leased user owner now db))
  take_rows user owner now db (r ∷ rs) =
      let ids = map by_update (r ∷ rs) in
      (
        some (record {
          user_id = user;
          batch_id = batch_id_of r;
          update_ids = ids;
          text = join "\n" (map (λ x. x.text) (r ∷ rs));
          attempts = largest_attempts r.attempts rs + 1;
          owner = owner;
        }),
        record (leased user owner now db) {
          chat_inbox = map (mark_row (batch_id_of r) ids) db.chat_inbox;
        },
      )

  -- `_claim_user`
  unfoldable pub claim_user : String → String → ℕ → Database → Option Batch × Database
  claim_user user owner now db =
      if is_free (get user db.chat_user_leases) now
      then take_rows user owner now db (next_rows user db)
      else (none, db)

  -- The users with open rows, in the order of their first rows.
  users_from : List String → List InboxRow → List String
  users_from seen [] = []
  users_from seen (r ∷ rs) =
      if is_seen r.user_id seen
      then users_from seen rs
      else r.user_id ∷ users_from (r.user_id ∷ seen) rs
    where
      is_seen : String → List String → Bool
      is_seen u [] = false
      is_seen u (v ∷ vs) = v == u || is_seen u vs

  abbrev pub is_open : InboxRow → Bool
  is_open r = not (is_some r.done_at)

  unfoldable pub claim_first : String → ℕ → List String → Database → Option Batch × Database
  claim_first owner now [] db = (none, db)
  claim_first owner now (u ∷ us) db =
      let (found, db') = claim_user u owner now db in
      let rest = claim_first owner now us db' in elim found [ some b ↦ (some b, db') | none ↦ rest ]

  unfoldable pub claim : String → ℕ → Database → Option Batch × Database
  unfolding users_from
  claim owner now db = claim_first owner now (users_from [] (rows_of is_open db)) db

  unfoldable pub renew : Batch → ℕ → Database → Option Database
  renew b now db =
      if is_held b (get b.user_id db.chat_user_leases)
      then some (leased b.user_id b.owner now db)
      else none

  unfoldable pub complete : Batch → ℕ → Database → Option Database
  complete b now db =
      if is_held b (get b.user_id db.chat_user_leases)
      then some (record (unleased b.user_id db) {
        chat_inbox = map (close_row now b.update_ids) db.chat_inbox;
      })
      else none
