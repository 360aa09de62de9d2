-- ===== src/Guardrails/Pii.antt =====
-- course_discovery/guardrails/pii.py. The redactor (Presidio, or the pass-through when the guardrail
-- is off) is a parameter; `none` is the `PiiGuardrailError` that any failure of it becomes.
use course_discovery_agent.Prelude.{String, Option, some, ◌==◌, if◌then◌else◌}

module _ (redactor : String → Option String) where
  unfoldable pub redact_pii : String → Option String
  redact_pii text = if text == "" then some text else redactor text
