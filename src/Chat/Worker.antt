-- ===== src/Chat/Worker.antt =====
-- `run_once` of course_discovery/chat/worker.py. While the runner runs, its heartbeat and the rest of
-- the program change the tables too: the runner gives the outside state and the tables as it leaves
-- them, and whether it raised. `submit` is the outbox gateway, `none` where it raises. `run_once` returns
-- whether it had a batch, or `none` where an exception leaves it.
use course_discovery_agent.Prelude.{
  ℕ, ◌<>◌, ◌≤◌, String, Bool, true, false, Option, none, some, List, [], ◌∷◌, map, show, ltb,
  if◌then◌else◌, or_default, ◌≡◌, refl, ◌⊎◌, inl, inr, arith, All, Bool-cases,
}
use course_discovery_agent.Prelude.Dict.{get}
use course_discovery_agent.Effects.Models.{Effect, text}
use course_discovery_agent.Effects.Handlers.{send_chat_notice}
use course_discovery_agent.Chat.Store.{
  Batch, InboxRow, Database, claim, complete, close_row, is_held, is_any, thread_id, max_attempts,
}

abbrev pub failure_notice : String
failure_notice = "Something went wrong with that request. Please try again."

unfoldable pub notice_effect : Batch → Effect
notice_effect b = record {
  key = "chat_notice:" <> show b.batch_id;
  kind = send_chat_notice;
  payload = ("user_id", text b.user_id) ∷ ("text", text failure_notice) ∷ [];
}

pub record ChatWorld (W : Type 0) : Type 0 where
  pub outside : W
  pub tables : Database

-- Every row of the batch is done.
abbrev pub IsClosed : Batch → ℕ → List InboxRow → Type 0
IsClosed b now = All (λ r. (is_any r.update_id b.update_ids ≡ false) ⊎ (r.done_at ≡ some now))

module _ {W : Type 0} (lease_duration : ℕ)
    (runner : String → String → String → ChatWorld W → Bool × ChatWorld W)
    (submit : Effect → W → Option W) where
  -- `complete`, whose LeaseLost is only logged.
  unfoldable pub completed : Batch → ℕ → ChatWorld W → ChatWorld W
  completed b now w = record w {
    tables = or_default (complete lease_duration b now w.tables) w.tables;
  }

  -- `_notify_failure`, and what follows it.
  unfoldable pub notified : Batch → ℕ → ChatWorld W → Option W → Option Bool × ChatWorld W
  unfolding completed
  notified b now w none = (none, w)
  notified b now w (some o) = (some true, completed b now (record w { outside = o }))

  unfoldable pub after_run : Batch → ℕ → Bool × ChatWorld W → Option Bool × ChatWorld W
  unfolding completed notified
  after_run b now (true, w) = (some true, completed b now w)
  after_run b now (false, w) =
      if ltb b.attempts max_attempts
      then (some true, w)
      else notified b now w (submit (notice_effect b) w.outside)

  unfoldable pub run_claimed : ℕ → Option Batch × Database → ChatWorld W → Option Bool × ChatWorld W
  run_claimed later (none, db) w = (some false, record w { tables = db })
  run_claimed later (some b, db) w =
      after_run b later (runner b.user_id (thread_id b) b.text (record w { tables = db }))

  unfoldable pub run_once : String → ℕ → ℕ → ChatWorld W → Option Bool × ChatWorld W
  unfolding run_claimed
  run_once worker_id now later w = run_claimed later (claim lease_duration worker_id now w.tables) w

  close_row-IsClosed :
      (b : Batch) (now : ℕ) (inbox : List InboxRow)
      → IsClosed b now (map (close_row now b.update_ids) inbox)
  close_row-IsClosed b now [] = tt
  close_row-IsClosed b now (r ∷ inbox) = elim (Bool-cases (is_any r.update_id b.update_ids)) [
    | inl e ↦ rw e (inr refl, close_row-IsClosed b now inbox)
    | inr e ↦ rw e (inl e, close_row-IsClosed b now inbox)
  ]

  completed-IsClosed :
      (b : Batch) (now : ℕ) (w : ChatWorld W)
      → is_held b (get b.user_id w.tables.chat_user_leases) ≡ true
      → IsClosed b now (completed b now w).tables.chat_inbox
  unfolding completed complete
  completed-IsClosed b now w held = rw held (close_row-IsClosed b now w.tables.chat_inbox)

  -- The rows of the batch are done, or the notice could not be submitted.
  abbrev pub IsThrough : Batch → ℕ → Bool → ChatWorld W → Option Bool → ChatWorld W → Type 0
  IsThrough b now ok w result w' =
      ((result ≡ some true) × IsClosed b now w'.tables.chat_inbox)
      ⊎ ((result ≡ none) × (ok ≡ false) × (submit (notice_effect b) w.outside ≡ none) × (w' ≡ w))

  notified-IsThrough :
      (b : Batch) (now : ℕ) (w : ChatWorld W) (o : Option W)
      → is_held b (get b.user_id w.tables.chat_user_leases) ≡ true
      → submit (notice_effect b) w.outside ≡ o
      → IsThrough b now false w (notified b now w o).0 (notified b now w o).1
  unfolding notified
  notified-IsThrough b now w none held e = inr (refl, refl, e, refl)
  notified-IsThrough b now w (some o) held e =
      inl (refl, completed-IsClosed b now (record w { outside = o }) held)

  -- Once the runner is through with a batch, successfully or at the last attempt, every row of the
  -- batch is done, if the worker still holds the lease. The only exception: after a failure the notice is
  -- submitted first, and where that raises, the exception leaves the worker's run and nothing has changed.
  pub after_run-IsClosed :
      (b : Batch) (now : ℕ) (ok : Bool) (w : ChatWorld W)
      → is_held b (get b.user_id w.tables.chat_user_leases) ≡ true
      → (ok ≡ true) ⊎ (max_attempts ≤ b.attempts)
      → IsThrough b now ok w (after_run b now (ok, w)).0 (after_run b now (ok, w)).1
  unfolding after_run
  after_run-IsClosed b now true w held through = inl (refl, completed-IsClosed b now w held)
  after_run-IsClosed b now false w held (inl ok) = absurd cc
  after_run-IsClosed b now false w held (inr last) =
      elim (Bool-cases (ltb b.attempts max_attempts)) [
        | inl more ↦ absurd (ground (arith, more, last))
        | inr done ↦
            rw done (notified-IsThrough b now w (submit (notice_effect b) w.outside) held refl)
      ]
