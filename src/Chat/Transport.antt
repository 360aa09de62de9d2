-- ===== src/Chat/Transport.antt =====
-- course_discovery/chat/transport.py and chat/handlers.py: a message is sent in parts to the chat of its
-- user. `post` is the HTTP request, which answers by the requests made before: `none` where it returns,
-- and else the type and the text of the exception.
use course_discovery_agent.Prelude.{
  ℕ, zero, suc, ◌+◌, ◌<>◌, String, Option, none, some, List, [], ◌∷◌, ◌++◌, ltb, drop_chars,
  take_chars, text_length, if◌then◌else◌,
}
use course_discovery_agent.Prelude.Dict.{get}
use course_discovery_agent.Effects.Models.{Effect, Value, text}
use course_discovery_agent.Effects.Worker.{Outcome, returns, permanent, raises}
use course_discovery_agent.Effects.Handlers.{is_empty}
use course_discovery_agent.Chat.Store.{Database, chat_id_for}

abbrev pub max_message_chars : ℕ
max_message_chars = 4096

-- `range(start, stop, step)`; fuel for the distance is enough for a step of 1 at least.
unfoldable pub range_from : ℕ → ℕ → ℕ → ℕ → List ℕ
range_from zero start stop step = []
range_from (suc fuel) start stop step =
    let rest = range_from fuel (start + step) stop step in
    if ltb start stop then start ∷ rest else []

-- `parts or [""]`
abbrev pub or_blank : List String → List String
or_blank [] = "" ∷ []
or_blank (p ∷ ps) = p ∷ ps

-- `[text[i : i + limit] for i in ...]`
unfoldable pub slices : String → ℕ → List ℕ → List String
slices message limit [] = []
slices message limit (i ∷ is) = take_chars limit (drop_chars i message) ∷ slices message limit is

-- `none` is the ValueError of a range with a step of 0.
unfoldable pub split_message : String → ℕ → Option (List String)
split_message message zero = none
split_message message (suc n) =
    let size = text_length message in
    some (or_blank (slices message (suc n) (range_from size 0 size (suc n))))

-- A request: the chat and the text.
abbrev pub Post : Type 0
Post = ℕ × String

-- `payload.get("user_id") or ""`
abbrev pub user_of : Option Value → Option String
user_of (some (text user)) = some user
user_of other = if is_empty other then some "" else none

module _ (post : List Post → Post → Option (String × String)) where
  -- The loop of `TelegramTransport.send`; the second part is every request made so far.
  unfoldable pub send_parts : ℕ → List String → List Post → Outcome × List Post
  send_parts chat [] made = (returns, made)
  send_parts chat (p ∷ ps) made = elim (post made (chat, p)) [
    | some (name, message) ↦ (raises name message, made ++ (chat, p) ∷ [])
    | none ↦ send_parts chat ps (made ++ (chat, p) ∷ [])
  ]

  unfoldable pub send : ℕ → String → List Post → Outcome × List Post
  send chat message made = elim (split_message message max_message_chars) [
    | none ↦ (raises "ValueError" "range() arg 3 must not be zero", made)
    | some parts ↦ send_parts chat parts made
  ]

  -- The program puts nothing but texts under "text" and "user_id"; another value is taken to raise.
  unfoldable pub send_value : Option ℕ → Effect → Option Value → List Post → Outcome × List Post
  send_value none effect value made = (permanent (effect.kind <> " has no chat for its user"), made)
  send_value (some chat) effect (some (text message)) made = send chat message made
  send_value (some chat) effect _ made = (raises "TypeError" "not a text", made)

  unfoldable pub send_to : Database → Effect → Option String → List Post → Outcome × List Post
  send_to db effect none made = (raises "TypeError" "not a text", made)
  send_to db effect (some user) made =
      send_value (chat_id_for user db.chat_identities) effect (get "text" effect.payload) made

  unfoldable pub deliver : Database → Effect → List Post → Outcome × List Post
  deliver db effect made =
      if is_empty (get "text" effect.payload)
      then (permanent (effect.kind <> " payload has no text"), made)
      else send_to db effect (user_of (get "user_id" effect.payload)) made
