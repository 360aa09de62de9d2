-- ===== src/Review/Decisions.antt =====
-- What the decisions of course_discovery/review/router.py depend on.
use course_discovery_agent.Prelude.{
  ◌+◌, ◌<◌, String, true, false, Option, none, some, ◌≡◌, ◌≢◌, refl, ◌⊎◌, inl, inr, ◌==◌, arith,
  ltb, length, is_in, lower, Bool-cases,
}
use course_discovery_agent.Domain.Models.{publish}
use course_discovery_agent.Domain.State.{AgentState}
use course_discovery_agent.Domain.RunConfig.{Configurable, max_review_rounds}
use course_discovery_agent.Review.Router.{
  Classified, answered, RouterModel, approval_phrases, feedback_of, keyword_action, classify, route,
  route_by_keywords, route_by_model,
}

-- The model's answer, where there is one.
abbrev pub answer : RouterModel → String → Option Classified
answer none feedback = none
answer (some model) feedback = some (model feedback)

-- The reviewer approved: by a phrase, or in words that the model read as an approval.
abbrev pub Approves : RouterModel → String → Type 0
Approves model feedback =
    (is_in (lower feedback) approval_phrases ≡ true)
    ⊎ (answer model feedback ≡ some (answered publish))

keywords_never_publish : (text : String) → keyword_action text ≢ publish
unfolding keyword_action
keywords_never_publish text = ground arith

classified-Approves :
    (model : RouterModel) (feedback : String) (s : AgentState)
    → (classify model feedback s).routing_decision ≡ some publish
    → answer model feedback ≡ some (answered publish)
unfolding classify route_by_keywords
classified-Approves none feedback s h =
    absurd (ground (arith, keywords_never_publish (lower feedback)))
classified-Approves (some model) feedback s h = unfold route_by_model in ground arith

-- The router decides PUBLISH only while review rounds are left, on a reply that is not empty, and
-- only if the reply is an approval phrase or the router model itself answered PUBLISH.
pub route-Approves :
    (config : Configurable) (model : RouterModel) (s : AgentState)
    → (route config model s).routing_decision ≡ some publish
    → (length s.feedback_history < max_review_rounds config)
      × ((feedback_of s == "") ≡ false)
      × Approves model (feedback_of s)
unfolding route
route-Approves config model s =
    elim (Bool-cases (ltb (max_review_rounds config) (length s.feedback_history + 1))) [
      | inl over ↦ rw over (λ h. cc)
      | inr left ↦ elim (Bool-cases (feedback_of s == "")) [
        | inl blank ↦ rw (left, blank) (λ h. cc)
        | inr reply ↦ elim (Bool-cases (is_in (lower (feedback_of s)) approval_phrases)) [
          | inl phrase ↦ λ h. (ground arith, reply, inl phrase)
          | inr other ↦
              rw (left, reply, other)
                (λ h. (ground arith, refl, inr (classified-Approves model (feedback_of s) s h)))
        ]
      ]
    ]
