-- ===== src/Domain.antt =====
-- course_discovery/domain: the data that the workflow's nodes exchange.
pub mod Models
pub mod State
pub mod RunConfig
