-- ===== src/Privacy/Specs.antt =====
-- course_discovery/privacy/flow_specs.py: what each node reads, writes and sends.
pub mod Sinks
pub mod Outer
pub mod Research
pub mod Curator
use course_discovery_agent.Prelude.{List, ◌++◌}
use course_discovery_agent.Privacy.Flow.{Flows}
use course_discovery_agent.Privacy.Specs.Outer.{outer}
use course_discovery_agent.Privacy.Specs.Research.{research}
use course_discovery_agent.Privacy.Specs.Curator.{curator}

unfoldable pub flows : Flows
unfolding outer research curator
flows = outer ++ (research ++ curator)
