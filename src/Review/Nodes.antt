-- ===== src/Review/Nodes.antt =====
-- course_discovery/review/nodes.py.
use course_discovery_agent.Prelude.{
  ◌<>◌, String, Option, none, some, [], ◌∷◌, map, or_default, show, if◌then◌else◌,
}
use course_discovery_agent.Domain.Models.{DeliveryStatus}
use course_discovery_agent.Domain.State.{AgentState}
use course_discovery_agent.Domain.RunConfig.{Configurable}
use course_discovery_agent.Effects.Models.{Effect, text, texts, number}
use course_discovery_agent.Effects.Handlers.{send_digest_message, send_feedback_prompt}
use course_discovery_agent.Review.Router.{json_text, or_empty}

abbrev pub feedback_prompt : String
feedback_prompt = "Tell me what to change, or just ask for something new."

unfoldable pub review_gate_node : AgentState → AgentState
review_gate_node s = s

unfoldable pub digest_effect : Configurable → AgentState → Effect
digest_effect config s = record {
  key = "digest:" <> (config.thread_id <> (":" <> show (or_default s.research_pass 0)));
  kind = send_digest_message;
  payload =
      ("run_id", text config.thread_id)
      ∷ ("user_id", json_text s.user_id)
      ∷ ("research_pass", number (or_default s.research_pass 0))
      ∷ ("text", text (or_empty s.digest))
      ∷ ("course_urls", texts (map (λ c. c.url) s.valid_courses))
      ∷ [];
}

unfoldable pub prompt_effect : Configurable → AgentState → Effect
prompt_effect config s = record {
  key = "feedback_prompt:" <> config.thread_id;
  kind = send_feedback_prompt;
  payload =
      ("run_id", text config.thread_id)
      ∷ ("user_id", json_text s.user_id)
      ∷ ("text", text feedback_prompt)
      ∷ [];
}

module _ {W : Type 0} (submit : Effect → W → Option (DeliveryStatus × W)) where
  submit_second : Effect → Option (DeliveryStatus × W) → Option (DeliveryStatus × W)
  submit_second effect none = none
  submit_second effect (some (_, w)) = submit effect w

  sent : AgentState → Option (DeliveryStatus × W) → Option (AgentState × W)
  sent s none = none
  sent s (some (_, w)) = some (s, w)

  unfoldable pub send_review_digest_node : Configurable → AgentState → W → Option (AgentState × W)
  unfolding submit_second sent
  send_review_digest_node config s w =
      if config.chat_mode
      then sent s (submit_second (prompt_effect config s) (submit (digest_effect config s) w))
      else some (s, w)
