-- ===== src/Curator.antt =====
-- course_discovery/memory_curator: the session in which a model proposes changes of a profile.
pub mod Tools
pub mod Graph
pub mod Proposals
pub mod Calls
pub mod Session
