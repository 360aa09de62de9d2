-- ===== src/Effects/Models.antt =====
-- course_discovery/effects/models.py. Instants and durations are natural numbers of microseconds.
use course_discovery_agent.Prelude.{ℕ, String, Bool, true, false, Option, List}
use course_discovery_agent.Prelude.Dict.{Dict}

pub data RecordStatus : Type 0 where
  queued in_progress delivered dead : RecordStatus

-- A value of a JSON payload, in the forms that the program puts there.
pub data Value : Type 0 where
  null : Value
  text : String → Value
  number : ℕ → Value
  texts : List String → Value
  carrier : List (String × String) → Value

pub record Effect : Type 0 where
  pub key : String
  pub kind : String
  pub payload : Dict Value

pub record OutboxRecord : Type 0 where
  pub effect : Effect
  pub status : RecordStatus
  pub attempts : ℕ
  pub next_attempt_at : ℕ
  pub locked_until : Option ℕ
  pub last_error : Option String
  pub delivered_at : Option ℕ
  pub created_at : Option ℕ

pub record OutboxStats : Type 0 where
  pub pending : ℕ
  pub dead_count : ℕ
  pub oldest_pending_age : ℕ

-- `record.status == status`
abbrev pub is_queued : RecordStatus → Bool
is_queued queued = true
is_queued _ = false

abbrev pub is_in_progress : RecordStatus → Bool
is_in_progress in_progress = true
is_in_progress _ = false

abbrev pub is_delivered : RecordStatus → Bool
is_delivered delivered = true
is_delivered _ = false

abbrev pub is_dead : RecordStatus → Bool
is_dead dead = true
is_dead _ = false
