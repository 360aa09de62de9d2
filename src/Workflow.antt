-- ===== src/Workflow.antt =====
-- course_discovery/workflows: the outer review graph and the research graph.
pub mod Services
pub mod Outer
pub mod Steps
pub mod Pauses
pub mod Rounds
pub mod Close
