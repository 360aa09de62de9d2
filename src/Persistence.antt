-- ===== src/Persistence.antt =====
-- course_discovery/persistence: how the values of checkpoints are sealed.
pub mod Encryption
pub mod KeyRing
pub mod Sealing
pub mod Checkpoints
pub mod RoundTrip
