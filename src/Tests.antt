-- ===== src/Tests.antt =====
-- Concrete runs of the models, by the part of the program that they exercise.
pub mod Samples
pub mod Codec
pub mod Privacy
pub mod Persistence
pub mod Stores
pub mod Access
pub mod Effects
pub mod Review
pub mod Workflow
pub mod Research
pub mod Chat
pub mod Cache
pub mod Memory
pub mod Guardrails
pub mod Tagging
