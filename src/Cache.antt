-- ===== src/Cache.antt =====
-- course_discovery/research_agent/cache: the courses that a run has found and that wait for approval.
pub mod Staging
pub mod Promotion
