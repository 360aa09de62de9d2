-- ===== src/Review/Router.antt =====
-- course_discovery/review/router.py. A node's update is written into the state at once; logging and
-- metrics have no part in it. `none` is an exception that leaves the node.
use course_discovery_agent.Prelude.{
  ◌+◌, ◌<>◌, String, ◌||◌, Option, none, some, List, [], ◌∷◌, ◌++◌, map, ltb, length, is_in, strip,
  lower, contains, starts_with, ◌==◌, if◌then◌else◌,
}
use course_discovery_agent.Domain.Models.{
  RoutingAction, publish, rewrite, augment, reset, discard, DeliveryStatus,
}
use course_discovery_agent.Domain.State.{AgentState}
use course_discovery_agent.Domain.RunConfig.{Configurable, max_review_rounds}
use course_discovery_agent.Effects.Models.{Effect, Value, null, text, texts}
use course_discovery_agent.Effects.Handlers.{publish_digest}
use course_discovery_agent.Guardrails.Pii.{redact_pii}

abbrev pub approval_phrases : List String
approval_phrases = "approve" ∷ "publish" ∷ "approved" ∷ "looks good" ∷ []

-- What the router model answers: an action, or an exception with its type's name.
pub data Classified : Type 0 where
  answered : RoutingAction → Classified
  failed : String → Classified

-- The router model, where one is configured (`llm_enabled`).
abbrev pub RouterModel : Type 0
RouterModel = Option (String → Classified)

-- `(text or "")`
abbrev pub or_empty : Option String → String
or_empty none = ""
or_empty (some s) = s

-- The reply's text without the spaces around it.
unfoldable pub feedback_of : AgentState → String
feedback_of s = strip (or_empty s.manager_feedback)

abbrev pub discarded : String → AgentState → AgentState
discarded reason s = record s { routing_decision = some discard; discard_reason = some reason }

-- The action that the keywords stand for.
unfoldable pub keyword_action : String → RoutingAction
keyword_action lower_feedback =
    if starts_with lower_feedback "rewrite"
    then rewrite
    else if starts_with lower_feedback "augment" || contains "more" lower_feedback
    then augment
    else if starts_with lower_feedback "reset"
    then reset
    else discard

abbrev pub instructions_for : RoutingAction → String → Option String
instructions_for rewrite feedback = some feedback
instructions_for _ feedback = none

abbrev pub keyword_reason : RoutingAction → Option String
keyword_reason discard = some "Discarded by manager"
keyword_reason _ = none

unfoldable pub route_by_keywords : String → AgentState → AgentState
unfolding keyword_action
route_by_keywords feedback s =
    let action = keyword_action (lower feedback) in
    record s {
      routing_decision = some action;
      rewrite_instructions = instructions_for action feedback;
      discard_reason = keyword_reason action;
    }

unfoldable pub route_by_model : Classified → String → AgentState → AgentState
route_by_model (answered action) feedback s = record s {
  routing_decision = some action;
  rewrite_instructions = instructions_for action feedback;
}
route_by_model (failed kind) feedback s =
    discarded ("Router classification failed (" <> (kind <> "). Check logs.")) s

unfoldable pub classify : RouterModel → String → AgentState → AgentState
unfolding route_by_keywords route_by_model
classify none feedback s = route_by_keywords feedback s
classify (some model) feedback s = route_by_model (model feedback) feedback s

-- `_route`
unfoldable pub route : Configurable → RouterModel → AgentState → AgentState
unfolding classify
route config model s =
    if ltb (max_review_rounds config) (length s.feedback_history + 1)
    then discarded "max_iterations reached" s
    else if feedback_of s == ""
    then discarded "No manager feedback provided" s
    else if is_in (lower (feedback_of s)) approval_phrases
    then record s { routing_decision = some publish; rewrite_instructions = none }
    else classify model (feedback_of s) s

-- `if feedback: update["feedback_history"] = [feedback]`, under the list's `operator.add`
abbrev pub add_feedback : String → List String → List String
add_feedback feedback history = if feedback == "" then history else history ++ feedback ∷ []

abbrev pub remember : AgentState → Option String → Option AgentState
remember s none = none
remember s (some feedback) = some (record s {
  manager_feedback = none;
  feedback_history = add_feedback feedback s.feedback_history;
})

unfoldable pub router_node :
    (String → Option String) → Configurable → RouterModel → AgentState → Option AgentState
router_node redactor config model s =
    remember (route config model s) (redact_pii redactor (feedback_of s))

-- A text or None, as JSON.
abbrev pub json_text : Option String → Value
json_text none = null
json_text (some s) = text s

unfoldable pub publish_effect : Configurable → AgentState → Effect
publish_effect config s = record {
  key = "publish:" <> config.thread_id;
  kind = publish_digest;
  payload =
      ("run_id", text config.thread_id)
      ∷ ("user_id", json_text s.user_id)
      ∷ ("query", text s.user_query)
      ∷ ("digest", text (or_empty s.digest))
      ∷ ("course_urls", texts (map (λ c. c.url) s.valid_courses))
      ∷ [];
}

module _ {W : Type 0} (submit : Effect → W → Option (DeliveryStatus × W)) where
  published : AgentState → Option (DeliveryStatus × W) → Option (AgentState × W)
  published s none = none
  published s (some (status, w)) = some (record s { publish_status = some status }, w)

  unfoldable pub publish_node : Configurable → AgentState → W → Option (AgentState × W)
  unfolding published
  publish_node config s w = published s (submit (publish_effect config s) w)

-- `discard_node` prints the reason and changes nothing.
unfoldable pub discard_node : AgentState → AgentState
discard_node s = s
