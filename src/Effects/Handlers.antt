-- ===== src/Effects/Handlers.antt =====
-- course_discovery/effects/handlers.py: the handlers without a database. Printing always succeeds.
use course_discovery_agent.Prelude.{
  ◌<>◌, String, Bool, true, false, ◌||◌, Option, none, some, [], ◌∷◌, ◌==◌, if◌then◌else◌,
}
use course_discovery_agent.Prelude.Dict.{get}
use course_discovery_agent.Effects.Models.{Value, null, text, number, texts, carrier}
use course_discovery_agent.Effects.Worker.{returns, permanent, Handler}
use course_discovery_agent.Prelude.{eqb}

abbrev pub publish_digest : String
publish_digest = "publish_digest"

abbrev pub send_digest_message : String
send_digest_message = "send_digest_message"

abbrev pub send_feedback_prompt : String
send_feedback_prompt = "send_feedback_prompt"

abbrev pub send_chat_notice : String
send_chat_notice = "send_chat_notice"

-- `not value`, for what `payload.get` returns.
unfoldable pub is_empty : Option Value → Bool
is_empty none = true
is_empty (some null) = true
is_empty (some (text s)) = s == ""
is_empty (some (number n)) = eqb n 0
is_empty (some (texts [])) = true
is_empty (some (texts (x ∷ xs))) = false
is_empty (some (carrier [])) = true
is_empty (some (carrier (x ∷ xs))) = false

unfoldable pub deliver_digest : Handler
deliver_digest calls effect =
    if is_empty (get "digest" effect.payload)
    then permanent "publish_digest payload has no digest"
    else returns

unfoldable pub deliver_chat_message : Handler
deliver_chat_message calls effect =
    if is_empty (get "text" effect.payload)
    then permanent (effect.kind <> " payload has no text")
    else returns

-- `_stub_handlers`
unfoldable pub stub_handlers : String → Option Handler
stub_handlers kind =
    if kind == publish_digest
    then some deliver_digest
    else if kind == send_digest_message
        || (kind == send_feedback_prompt || kind == send_chat_notice)
    then some deliver_chat_message
    else none
