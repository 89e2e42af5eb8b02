-- ===== src/Jobs/Client.antt =====
-- The producer of packages/jobs: client.ts, with encodeJob of storage.ts. A job goes to the outbox of
-- the caller's transaction or straight to Redis, by the dispatch of its contract.
mod Tests
pub mod Dispatches
use relayit.Prelude.{
  ℕ, String, Bool, true, false, Option, none, some, List, [], ◌∷◌, ◌++◌, Result, ok, err,
  if◌then◌else◌,
}
use relayit.Redis.Queues.{Queues}
use relayit.Jobs.{JobEnvelope}
use relayit.Jobs.Storage.{JobKeys, job_keys, schedule_script, cancel_script}
use relayit.Jobs.Outbox.{OutboxRow, pending}

pub data JobDispatch : Type 0 where
  immediate transactional : JobDispatch

-- JobEnqueueError.stage
pub data EnqueueStage : Type 0 where
  encode outbox schedule append cancel : EnqueueStage

-- The codecs of Effect's Schema, and what Redis, the database and the clock answer.
pub record Contract (P : Type 0) : Type 0 where
  pub name : String
  pub dispatch : JobDispatch
  pub identity : P → String
  pub encode_payload : P → Option String
  pub encode_envelope : JobEnvelope → Option String

pub record ClientAnswers : Type 0 where
  pub now : ℕ
  pub outbox_id : String
  pub insert_ok : Bool
  pub redis_ok : Bool

module _ {P : Type 0} (contract : Contract P) where
  open contract use {name, encode_payload, encode_envelope}

  unfoldable pub encode_job : P → ℕ → Option String
  encode_job payload first_enqueued_at = elim (encode_payload payload) [
    | none ↦ none
    | some data_text ↦ encode_envelope record {
      attempts = 0;
      body = data_text;
      first_enqueued_at = first_enqueued_at;
      wire_version = 1;
    }
  ]

  -- The values of the insert into the outbox.
  abbrev pub outbox_row : ClientAnswers → String → Option ℕ → OutboxRow
  outbox_row a encoded delay_until = record {
    id = a.outbox_id;
    job_name = name;
    payload = encoded;
    delay_until = delay_until;
    status = pending;
    attempts = 0;
    claim_token = none;
    claim_expires_at = none;
    last_error = none;
  }

module _ (q : Queues) where
  open q use {State, xadd, zadd}

  -- The queues and the table of the outbox.
  pub record Stores : Type 0 where
    pub queues : State
    pub rows : List OutboxRow

  module _ {P : Type 0} (contract : Contract P) where
    open contract use {name, dispatch, identity}

    unfoldable pub enqueue_encoded :
        ClientAnswers → String → Bool → Option ℕ → JobDispatch → Stores → Result EnqueueStage Stores
    enqueue_encoded a encoded in_transaction delay_until transactional s =
        if in_transaction
        then if a.insert_ok
          then ok record s { rows = s.rows ++ outbox_row contract a encoded delay_until ∷ [] }
          else err outbox
        else err outbox
    enqueue_encoded a encoded in_transaction none immediate s =
        if a.redis_ok
        then ok record s { queues = xadd (job_keys name).ready encoded s.queues }
        else err append
    enqueue_encoded a encoded in_transaction (some at) immediate s =
        if a.redis_ok
        then ok record s { queues = zadd (job_keys name).delayed at encoded s.queues }
        else err schedule

    -- enqueueImpl; an argument says whether a transaction is given.
    unfoldable pub enqueue :
        ClientAnswers → P → Bool → Option ℕ → Stores → Result EnqueueStage Stores
    enqueue a payload in_transaction delay_until s = elim (encode_job contract payload a.now) [
      | none ↦ err encode
      | some encoded ↦ enqueue_encoded a encoded in_transaction delay_until dispatch s
    ]

    -- scheduleImpl
    unfoldable pub schedule_job : ClientAnswers → P → ℕ → Stores → Result EnqueueStage Stores
    schedule_job a payload run_at s = elim (encode_job contract payload a.now) [
      | none ↦ err encode
      | some encoded ↦
          if a.redis_ok
          then ok record s {
            queues =
                (schedule_script q (job_keys name) run_at (identity payload) encoded s.queues).1;
          }
          else err schedule
    ]

    -- cancelImpl
    unfoldable pub cancel_job : ClientAnswers → P → Stores → Result EnqueueStage Stores
    cancel_job a payload s =
        if a.redis_ok
        then ok
            record s { queues = (cancel_script q (job_keys name) (identity payload) s.queues).1 }
        else err cancel
