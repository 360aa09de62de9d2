-- ===== src/Research/Checked.antt =====
-- The nodes from `merge_known_and_found_courses` to `verify_course_claims`, taken together:
-- course_discovery/workflows/research_graph.py.
use course_discovery_agent.Prelude.{◌≡◌, some, All}
use course_discovery_agent.Domain.State.{ResearchState}
use course_discovery_agent.Domain.RunConfig.{Configurable}
use course_discovery_agent.Research.Services.{ResearchServices}
use course_discovery_agent.Research.Dedup.{dedup_node}
use course_discovery_agent.Research.Distinct.{dedup_node-IsDistinct}
use course_discovery_agent.Research.Validation.{aggregate_node}
use course_discovery_agent.Research.Suitable.{IsSuitable}
use course_discovery_agent.Research.Verdicts.{evidence_validator_node-IsSuitable}
use course_discovery_agent.Research.Graph.{check_step, checked_after}

module _ {P W : Type 0} (services : ResearchServices P W) (config : Configurable) where
  open services use {urls, sha256, ratio_90, float_text}

  -- A check ends without an exception if the deduplication does, and then every valid course is
  -- suitable, by the state that went into the validation.
  pub check_step-IsSuitable :
      (s s' : ResearchState)
      → dedup_node urls sha256 ratio_90 (aggregate_node s) ≡ some s'
      → (s'' : ResearchState) × (check_step services config s ≡ some s'')
        × All (IsSuitable s') s''.valid_courses
  unfolding check_step
  check_step-IsSuitable s s' e =
      let checked =
        evidence_validator_node-IsSuitable float_text s'
          (dedup_node-IsDistinct urls sha256 ratio_90 (aggregate_node s) s' e) in
      (checked.0, rw (e, checked_after) checked.1, checked.5)
