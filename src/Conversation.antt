-- ===== src/Conversation.antt =====
-- course_discovery/conversation: whether a message continues a parked thread.
pub mod Selector
