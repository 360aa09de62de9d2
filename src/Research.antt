-- ===== src/Research.antt =====
-- The research subgraph: course_discovery/research_agent and course_discovery/workflows/research_graph.py.
pub mod Urls
pub mod Planning
pub mod Search
pub mod Extraction
pub mod Dedup
pub mod Validation
pub mod Distinct
pub mod Suitable
pub mod Verdicts
pub mod Highlights
pub mod Services
pub mod Checked
pub mod Graph
pub mod Costs
pub mod Loops
pub mod Passes
