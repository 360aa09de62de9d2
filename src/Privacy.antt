-- ===== src/Privacy.antt =====
-- course_discovery/privacy: where personal data flows, who owns a thread, and erasure.
pub mod Flow
pub mod Specs
pub mod Spread
pub mod Writes
pub mod Rounds
pub mod Fixpoint
pub mod Checks
pub mod Origins
pub mod Seeding
pub mod Traces
pub mod Coverage
pub mod Compliance
pub mod Registry
pub mod Access
pub mod Sources
pub mod Erasure
pub mod Deletion
pub mod Erased
