-- ===== src/Tagging.antt =====
-- course_discovery/jobs and course_discovery/research_agent/tagging: which topics courses get.
pub mod Vocabulary
pub mod Tagger
pub mod Graph
pub mod Schedule
pub mod Guarded
pub mod Cleaned
pub mod Repeated
