-- ===== src/Guardrails.antt =====
-- course_discovery/guardrails: redaction of personal data and the injection screen.
pub mod Pii
pub mod Injection
