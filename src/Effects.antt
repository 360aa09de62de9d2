-- ===== src/Effects.antt =====
-- course_discovery/effects: the outbox of external effects, its worker and its gateways.
pub mod Models
pub mod MemoryStore
pub mod PostgresStore
pub mod Simulation
pub mod Worker
pub mod Gateway
pub mod Handlers
pub mod Backoff
pub mod Leases
pub mod Settled
pub mod Submission
pub mod Records
pub mod Claims
pub mod Refinement
pub mod Stores
pub mod Budget
pub mod Rounds
pub mod Runs
