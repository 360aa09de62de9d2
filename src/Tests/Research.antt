-- ===== src/Tests/Research.antt =====
-- Runs of the research subgraph: course_discovery/workflows/research_graph.py and its nodes.
use course_discovery_agent.Prelude.{
  ◌+◌, false, some, List, [], ◌∷◌, ◌≡◌, refl, length, All, IsDistinct, is_in, any, strip, lower,
  rstrip_char,
}
use course_discovery_agent.Domain.Models.{rewrite, CourseCandidate}
use course_discovery_agent.Domain.State.{ResearchState}
use course_discovery_agent.Domain.RunConfig.{max_research_iterations}
use course_discovery_agent.Research.Dedup.{
  dedup_node, dedup_from, keys_of, consider, normalize_url, fingerprint,
}
use course_discovery_agent.Research.Distinct.{dedup_node-IsDistinct}
use course_discovery_agent.Research.Validation.{evidence_validator_node, aggregate_node}
use course_discovery_agent.Research.Suitable.{IsSuitable}
use course_discovery_agent.Domain.Models.{valid, rejected, uncertain}
use course_discovery_agent.Research.Verdicts.{
  with_status, IsRejected, IsUncertain, evidence_validator_node-IsSuitable,
}
use course_discovery_agent.Research.Checked.{check_step-IsSuitable}
use course_discovery_agent.Research.Graph.{run_pass, check_step}
use course_discovery_agent.Research.Loops.{Ends}
use course_discovery_agent.Research.Passes.{fresh_pass-Ends, resumed_pass-Ends}
use course_discovery_agent.Tests.Samples.{config, research_services, urls, pass_start, course}

fresh_pass-Ends_example : Ends 4 2 (run_pass research_services config 3 pass_start 0)
unfolding max_research_iterations
fresh_pass-Ends_example = fresh_pass-Ends research_services config pass_start 0 refl

resumed_pass-Ends_example :
    Ends 4 3 (
      run_pass research_services config 3 (record pass_start { routing_decision = some rewrite }) 0)
unfolding max_research_iterations
resumed_pass-Ends_example =
    resumed_pass-Ends research_services config
      (record pass_start { routing_decision = some rewrite }) 0 rewrite refl

dedup_node-IsDistinct_example : IsDistinct ("https://a.org/1" ∷ "https://a.org/2" ∷ [])
unfolding dedup_node dedup_from keys_of consider normalize_url fingerprint rstrip_char lower strip
    is_in any
dedup_node-IsDistinct_example =
    dedup_node-IsDistinct urls (λ t. t) (λ a b. false) pass_start pass_start refl

evidence_validator_node-IsSuitable_example :
    (s' : ResearchState) × (evidence_validator_node (λ n. "4.0") pass_start ≡ some s')
    × (s'.valid_courses ≡ with_status (λ n. "4.0") pass_start valid)
    × (s'.rejected_courses ≡ with_status (λ n. "4.0") pass_start rejected)
    × (s'.uncertain_courses ≡ with_status (λ n. "4.0") pass_start uncertain)
    × All (IsSuitable pass_start) s'.valid_courses
    × All (IsRejected (λ n. "4.0") pass_start) s'.rejected_courses
    × All (IsUncertain (λ n. "4.0") pass_start) s'.uncertain_courses
    × (length s'.valid_courses + length s'.rejected_courses + length s'.uncertain_courses ≡ 2)
unfolding is_in
evidence_validator_node-IsSuitable_example =
    evidence_validator_node-IsSuitable (λ n. "4.0") pass_start (refl, (refl, tt))

abbrev extracted : List CourseCandidate
extracted = course "https://a.org/1/" ∷ course "https://a.org/2" ∷ course "https://a.org/1" ∷ []

abbrev merged : ResearchState
merged = record pass_start {
  extracted_candidates = extracted;
  scraped_courses = extracted;
  deduplicated_courses = course "https://a.org/1/" ∷ course "https://a.org/2" ∷ [];
}

check_step-IsSuitable_example :
    (s'' : ResearchState) × (check_step research_services config
        (record pass_start { extracted_candidates = extracted })
      ≡ some s'')
    × All (IsSuitable merged) s''.valid_courses
unfolding dedup_node dedup_from aggregate_node keys_of consider normalize_url fingerprint
    rstrip_char lower strip is_in any
check_step-IsSuitable_example =
    check_step-IsSuitable research_services config
      (record pass_start { extracted_candidates = extracted }) merged refl
