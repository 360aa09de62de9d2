-- ===== src/Memory.antt =====
-- course_discovery/research_agent/memory: what the program keeps of a user.
pub mod Nodes
pub mod Patches
pub mod Merging
pub mod Repository
