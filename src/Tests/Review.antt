-- ===== src/Tests/Review.antt =====
-- Runs of the review router: course_discovery/review/router.py.
use course_discovery_agent.Prelude.{◌<◌, false, none, some, ◌≡◌, refl, ◌==◌, strip, lower, is_in}
use course_discovery_agent.Domain.State.{AgentState}
use course_discovery_agent.Domain.RunConfig.{max_review_rounds}
use course_discovery_agent.Review.Router.{feedback_of, route}
use course_discovery_agent.Review.Decisions.{Approves, route-Approves}
use course_discovery_agent.Tests.Samples.{config, request}

abbrev approving : AgentState
approving = record request { manager_feedback = some " Looks good " }

route-Approves_example :
    (0 < max_review_rounds config)
    × ((feedback_of approving == "") ≡ false)
    × Approves none (feedback_of approving)
unfolding route max_review_rounds feedback_of strip lower is_in
route-Approves_example = route-Approves config none approving refl
