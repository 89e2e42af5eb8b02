-- ===== src/Jobs/Work.antt =====
-- The surroundings of processJob (packages/jobs/src/worker.ts) and the calls that it makes of them.
use relayit.Prelude.{ℕ, String, Bool, Option, List}
use relayit.Effects
use relayit.Jobs.{
  JobRetryPolicy, WorkExecution, JobEnvelope, DeadLetterInput, Disposition, Failure, Stage,
}

pub data Act (P : Type 0) : Type 0 where
  -- the handler, and what it failed with
  handled : P → WorkExecution → Option Failure → Act P
  -- onDeadLetter, and whether it succeeded
  cleaned : P → WorkExecution → Failure → Bool → Act P
  -- DeadLetterStore.record
  recorded : DeadLetterInput → Bool → Act P
  -- ZADD to the delayed set
  delayed : String → ℕ → Bool → Act P
  -- XACK on the ready stream
  acknowledged : String → Bool → Act P

-- The handler with its contract, the codecs of Effect's Schema, the clock, Redis and the
-- dead-letter store.
pub record Surroundings (P : Type 0) : Type 0 where
  pub job_name : String
  pub retry : JobRetryPolicy
  pub decode_payload : String → Option P
  pub decode_envelope : String → Option JobEnvelope
  pub encode_envelope : JobEnvelope → Option String
  pub handle : List (Act P) → P → WorkExecution → Option Failure
  pub classify_failure : Failure → Disposition
  pub on_dead_letter : Option (List (Act P) → P → WorkExecution → Failure → Bool)
  pub now : List (Act P) → ℕ
  pub record_ok : List (Act P) → DeadLetterInput → Bool
  pub add_ok : List (Act P) → String → ℕ → Bool
  pub ack_ok : List (Act P) → String → Bool

abbrev pub Work : Type 0 → Type 0 → Type 0
Work P A = Effects.Work (Act P) Stage A
