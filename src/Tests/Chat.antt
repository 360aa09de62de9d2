-- ===== src/Tests/Chat.antt =====
-- Runs of the chat inbox: course_discovery/chat.
use course_discovery_agent.Prelude.{
  Bool, ℕ, ltb, length, if◌then◌else◌, List, Option, String, false, none, some, [], ◌∷◌, ◌≡◌, refl,
  inl, inr, arith, filter, sort_on, join,
}
use course_discovery_agent.Prelude.Dict.{get}
use course_discovery_agent.Chat.Store.{
  Batch, InboxRow, Database, claim_user, take_rows, next_rows, or_waiting, rows_of, is_batched,
  is_pending,
}
use course_discovery_agent.Chat.Batches.{IsSingle, claim_user-IsSingle, claim_user-is_exclusive}
use course_discovery_agent.Chat.Transport.{Post, deliver}
use course_discovery_agent.Chat.Delivery.{Ends, deliver-Ends}
use course_discovery_agent.Effects.Models.{Effect, text}
use course_discovery_agent.Effects.Handlers.{send_chat_notice}
use course_discovery_agent.Chat.Worker.{ChatWorld, after_run, IsThrough, after_run-IsClosed}

abbrev first_row : InboxRow
first_row = record {
  update_id = 5;
  user_id = "u1";
  text = "free python course";
  batch_id = some 5;
  attempts = 1;
  done_at = none;
}

abbrev inbox : Database
inbox = record {
  chat_updates = 6 ∷ 5 ∷ [];
  chat_identities = (77, "u1") ∷ [];
  chat_inbox =
      first_row
      ∷ record first_row { update_id = 6; text = "cheaper"; batch_id = none; attempts = 0 }
      ∷ [];
  chat_user_leases = [];
}

abbrev first_batch : Batch
first_batch = record {
  user_id = "u1";
  batch_id = 5;
  update_ids = 5 ∷ [];
  text = "free python course";
  attempts = 2;
  owner = "w1";
}

claim_user-IsSingle_example : IsSingle "u1" (claim_user 120 "u1" "w1" 10 inbox).1.chat_inbox
unfolding is_batched is_pending
claim_user-IsSingle_example =
    claim_user-IsSingle 120 "u1" "w1" 10 inbox (5, (inr refl, (inl refl, tt)))

claim_user-is_exclusive_example :
    claim_user 120 "u1" "w2" 130 (claim_user 120 "u1" "w1" 10 inbox).1
    ≡ (none, (claim_user 120 "u1" "w1" 10 inbox).1)
unfolding claim_user get take_rows next_rows or_waiting rows_of sort_on filter is_batched is_pending
    join
claim_user-is_exclusive_example =
    claim_user-is_exclusive 120 "u1" "w1" "w2" 10 130 inbox first_batch refl (omega arith)

abbrev running : ChatWorld ℕ
running = record {
  outside = 0;
  tables = record inbox {
    chat_user_leases = ("u1", record { owner = "w1"; locked_until = 130 }) ∷ [];
  };
}

abbrev after : Option Bool × ChatWorld ℕ
after =
    after_run 120 (λ u t x w. (false, w)) (λ e w. some w) (record first_batch { attempts = 3 }) 50
      (false, running)

after_run-IsClosed_example :
    IsThrough 120
      (λ u t x w. (false, w))
      (λ e w. some w)
      (record first_batch { attempts = 3 })
      50
      false
      running
      after.0
      after.1
unfolding get
after_run-IsClosed_example =
    after_run-IsClosed 120 (λ u t x w. (false, w)) (λ e w. some w)
      (record first_batch { attempts = 3 }) 50 false running refl (inr (omega arith))

-- The API takes three requests, and then no more.
abbrev post : List Post → Post → Option (String × String)
post made p = if ltb (length made) 3 then none else some ("HTTPError", "429")

abbrev notice : Effect
notice = record {
  key = "notice:5";
  kind = send_chat_notice;
  payload = ("text", text "Working on it.") ∷ ("user_id", text "u1") ∷ [];
}

deliver-Ends_example : Ends inbox notice [] (deliver post inbox notice [])
deliver-Ends_example = deliver-Ends post inbox notice []
