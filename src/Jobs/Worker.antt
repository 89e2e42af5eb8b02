-- ===== src/Jobs/Worker.antt =====
-- processJob of packages/jobs/src/worker.ts. Its log calls are left out.
pub mod Safety
pub mod Retries
pub mod Attempts
use relayit.Prelude.{
  ℕ, ◌+◌, ◌-◌, ◌*◌, ◌^◌, min, String, Bool, true, false, ◌&&◌, Option, none, some, List, [], ◌∷◌,
  Result, ok, err, or_else, if◌then◌else◌, str_eq, ltb,
}
use relayit.Jobs.{
  JobBackoffPolicy, JobRetryPolicy, WorkExecution, JobEnvelope, StreamEntry, DeadLetterFailure,
  DeadLetterInput, Disposition, retryable, terminal, Failure, Stage, acknowledge, dead_letter,
  dead_letter_cleanup, encode_retry, schedule_retry,
}
use relayit.Jobs.Work.{Act, handled, cleaned, recorded, delayed, acknowledged, Surroundings, Work}
use relayit.Effects.{◌>>=◌, ◌>>◌, perform, after-All}

-- The worker calls it with attempts from 1 on.
unfoldable pub retry_delay : ℕ → JobBackoffPolicy → ℕ
retry_delay attempt backoff = min (backoff.base_delay_ms * 2 ^ (attempt - 1)) backoff.max_delay_ms

-- The value behind the first even position that holds the name.
unfoldable pub read_field : List String → String → Option String
read_field [] name = none
read_field (key ∷ []) name = none
read_field (key ∷ value ∷ rest) name = if str_eq key name then some value else read_field rest name

abbrev pub safe_failure_context : List String
safe_failure_context = "filename" ∷ "providerId" ∷ "reason" ∷ "retryAfterMs" ∷ "typeId" ∷ []

unfoldable pub pick_context : (String → Option String) → List String → List (String × String)
pick_context context [] = []
pick_context context (key ∷ keys) = elim (context key) [
  | none ↦ pick_context context keys
  | some value ↦ (key, value) ∷ pick_context context keys
]

unfoldable pub describe_failure : Failure → DeadLetterFailure
describe_failure f =
    let name =
      or_else f.tag (elim f.error [ none ↦ "JobFailure" | some (error_name, _) ↦ error_name ]) in
    let fallback = or_else f.message name in
    record {
      code = f.code;
      details = pick_context f.context safe_failure_context;
      message = elim f.error [
        | none ↦ fallback
        | some (_, text) ↦ if str_eq text "" then fallback else text
      ];
      name = name;
    }

abbrev pub decode_failure : String → String → DeadLetterFailure
decode_failure code message = record {
  code = some code;
  details = [];
  message = message;
  name = "JobDecodeFailure";
}

module _ {P : Type 0} (w : Surroundings P) where
  open w use {
    job_name, retry, decode_payload, decode_envelope, encode_envelope, handle, classify_failure,
    on_dead_letter, now, record_ok, add_ok, ack_ok,
  }

  current_time : Work P ℕ
  current_time h = (ok (now h), h)

  record_dead_letter : DeadLetterInput → Work P (Unit {0})
  record_dead_letter input = perform (λ h. record_ok h input) (recorded input) dead_letter

  acknowledge_entry : StreamEntry → Work P (Unit {0})
  acknowledge_entry entry = perform (λ h. ack_ok h entry.id) (acknowledged entry.id) acknowledge

  -- The envelope could not be decoded.
  reject_envelope : StreamEntry → String → Work P (Unit {0})
  unfolding current_time record_dead_letter
  reject_envelope entry encoded = do
    failed_at ← current_time
    record_dead_letter (record {
      attempts = 1;
      failed_at = failed_at;
      failure = decode_failure "JOB_ENVELOPE_INVALID" "Job envelope could not be decoded";
      first_enqueued_at = failed_at;
      job_name = job_name;
      original_stream_id = entry.id;
      payload = encoded;
      wire_version = 0;
    })

  -- The dead letter of a decoded envelope.
  abbrev pub dead_letter_of : StreamEntry → JobEnvelope → DeadLetterFailure → ℕ → DeadLetterInput
  dead_letter_of entry envelope failure failed_at = record {
    attempts = envelope.attempts + 1;
    failed_at = failed_at;
    failure = failure;
    first_enqueued_at = envelope.first_enqueued_at;
    job_name = job_name;
    original_stream_id = entry.id;
    payload = envelope.body;
    wire_version = envelope.wire_version;
  }

  -- The payload could not be decoded.
  reject_payload : StreamEntry → JobEnvelope → Work P (Unit {0})
  unfolding current_time record_dead_letter
  reject_payload entry envelope = do
    failed_at ← current_time
    record_dead_letter (
        dead_letter_of entry envelope
          (decode_failure "JOB_PAYLOAD_INVALID" "Job payload could not be decoded") failed_at)

  run_handler : P → WorkExecution → Work P (Option Failure)
  run_handler payload execution h =
      let outcome = handle h payload execution in
      (ok outcome, handled payload execution outcome ∷ h)

  encode : JobEnvelope → Work P String
  encode envelope h = elim (encode_envelope envelope) [
    | none ↦ (err encode_retry, h)
    | some text ↦ (ok text, h)
  ]

  schedule : JobEnvelope → ℕ → Work P (Unit {0})
  unfolding current_time encode
  schedule envelope attempt = do
    at ← current_time
    member ← encode (record envelope { attempts = attempt })
    let score = at + retry_delay attempt retry.backoff
    perform (λ h. add_ok h member score) (delayed member score) schedule_retry

  clean_up : P → WorkExecution → Failure → Work P (Unit {0})
  clean_up payload execution failure h = elim on_dead_letter [
    | none ↦ (ok tt, h)
    | some run ↦
        perform (λ h'. run h' payload execution failure) (cleaned payload execution failure)
          dead_letter_cleanup h
  ]

  give_up : StreamEntry → JobEnvelope → P → WorkExecution → Failure → Work P (Unit {0})
  unfolding current_time clean_up record_dead_letter
  give_up entry envelope payload execution failure = do
    clean_up payload execution failure
    failed_at ← current_time
    record_dead_letter (dead_letter_of entry envelope (describe_failure failure) failed_at)

  -- `disposition === "retryable" && attempt < maxAttempts`
  abbrev pub will_retry : Failure → ℕ → Bool
  will_retry failure attempt = elim (classify_failure failure) [
    | retryable ↦ ltb attempt retry.max_attempts
    | terminal ↦ false
  ]

  -- What follows the handler.
  settle : StreamEntry → JobEnvelope → P → WorkExecution → Option Failure → Work P (Unit {0})
  unfolding schedule give_up
  settle entry envelope payload execution none h = (ok tt, h)
  settle entry envelope payload execution (some failure) h =
      if will_retry failure execution.attempt
      then schedule envelope execution.attempt h
      else give_up entry envelope payload execution failure h

  abbrev pub execution_of : StreamEntry → JobEnvelope → WorkExecution
  execution_of entry envelope = record {
    attempt = envelope.attempts + 1;
    enqueued_at = envelope.first_enqueued_at;
    id = entry.id;
  }

  execute : StreamEntry → JobEnvelope → P → Work P (Unit {0})
  unfolding run_handler settle
  execute entry envelope payload = do
    outcome ← run_handler payload (execution_of entry envelope)
    settle entry envelope payload (execution_of entry envelope) outcome

  abbrev pub encoded_of : StreamEntry → String
  encoded_of entry = or_else (read_field entry.fields "payload") ""

  -- All that happens to an entry before it is acknowledged.
  dispose : StreamEntry → Work P (Unit {0})
  unfolding reject_envelope reject_payload execute
  dispose entry h = elim (decode_envelope (encoded_of entry)) [
    | none ↦ reject_envelope entry (encoded_of entry) h
    | some envelope ↦ elim (decode_payload envelope.body) [
      | none ↦ reject_payload entry envelope h
      | some payload ↦ execute entry envelope payload h
    ]
  ]

  unfoldable pub process_job : StreamEntry → Work P (Unit {0})
  unfolding dispose acknowledge_entry
  process_job entry = do dispose entry; acknowledge_entry entry
