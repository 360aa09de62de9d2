-- ===== src/Chat.antt =====
-- course_discovery/chat: the inbox of chat messages and its worker.
pub mod Store
pub mod Worker
pub mod Batches
pub mod Transport
pub mod Parts
pub mod Delivery
