-- ===== src/Jobs.antt =====
-- Background jobs: packages/jobs/src. This file has the data that the producer, the worker and
-- the storage share (job.ts, storage.ts, dead-letter.ts).
pub mod Storage
pub mod Outbox
pub mod Client
pub mod Work
pub mod Worker
mod Tests
use relayit.Prelude.{ℕ, ◌+◌, ◌-◌, ◌*◌, ◌^◌, min, String, Option, List}

pub record JobBackoffPolicy : Type 0 where
  pub base_delay_ms : ℕ
  pub max_delay_ms : ℕ

pub record JobRetryPolicy : Type 0 where
  pub backoff : JobBackoffPolicy
  pub max_attempts : ℕ

pub record WorkExecution : Type 0 where
  pub attempt : ℕ
  pub enqueued_at : ℕ
  pub id : String

-- jobEnvelopeSchema; `body` is the field "data".
pub record JobEnvelope : Type 0 where
  pub attempts : ℕ
  pub body : String
  pub first_enqueued_at : ℕ
  pub wire_version : ℕ

-- StreamReadEntry: field names and values alternate in `fields`.
pub record StreamEntry : Type 0 where
  pub fields : List String
  pub id : String

pub record DeadLetterFailure : Type 0 where
  pub code : Option String
  pub details : List (String × String)
  pub message : String
  pub name : String

pub record DeadLetterInput : Type 0 where
  pub attempts : ℕ
  pub failed_at : ℕ
  pub failure : DeadLetterFailure
  pub first_enqueued_at : ℕ
  pub job_name : String
  pub original_stream_id : String
  pub payload : String
  pub wire_version : ℕ

pub data Disposition : Type 0 where
  retryable terminal : Disposition

-- A value that a handler fails with, as describeFailure inspects it: the string fields "_tag",
-- "message" and "code", the name and message of an `Error`, and the other fields.
pub record Failure : Type 0 where
  pub tag : Option String
  pub error : Option (String × String)
  pub message : Option String
  pub code : Option String
  pub context : String → Option String

-- JobProcessingError.stage
pub data Stage : Type 0 where
  acknowledge dead_letter dead_letter_cleanup encode_retry schedule_retry : Stage
