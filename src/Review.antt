-- ===== src/Review.antt =====
-- course_discovery/review: the human review gate, its router and the closing of a chat thread.
pub mod Router
pub mod Nodes
pub mod Decisions
