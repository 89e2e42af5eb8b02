-- ===== src/Jobs/Tests.antt =====
-- Runs and instances of the theorems on packages/jobs.
use relayit.Prelude.{
  ℕ, zero, suc, ◌≤◌, ◌<◌, String, ◌≡◌, refl, true, false, Option, none, some, List, [], ◌∷◌, arith,
  ok, total, All, if◌then◌else◌, str_eq, ◌==◌,
}
use relayit.Jobs.{JobBackoffPolicy, JobEnvelope, StreamEntry, retryable, Failure, acknowledge}
use relayit.Jobs.Work.{Act, handled, delayed, acknowledged, Surroundings}
use relayit.Jobs.Worker.{process_job, retry_delay, read_field, describe_failure, pick_context}
use relayit.Jobs.Worker.Safety.{
  settles, acks, runs, process_job_settled, process_job_pending, process_job-runs, runs_on, measure,
  decoded,
}
use relayit.Jobs.Worker.Retries.{IsSound, process_job-IsSound}
use relayit.Jobs.Worker.Attempts.{
  dead_letters, next_entry, drive, AlwaysFails, after_attempts, drive-attempts,
}

abbrev backoff : JobBackoffPolicy
backoff = record { base_delay_ms = 1000; max_delay_ms = 60_000 }

abbrev job : JobEnvelope
job = record { attempts = 0; body = "{}"; first_enqueued_at = 7; wire_version = 1 }

abbrev rate_limited : Failure
rate_limited = record {
  tag = some "ProviderRateLimited";
  error = some ("Error", "");
  message = some "";
  code = none;
  context = λ key. if str_eq key "retryAfterMs" then some "250" else none;
}

-- Three attempts; the envelope's text is its number of attempts.
abbrev decode_text : String → Option JobEnvelope
decode_text text =
    if str_eq text "0"
    then some (record job { attempts = 0 })
    else if str_eq text "1"
    then some (record job { attempts = 1 })
    else if str_eq text "2"
    then some (record job { attempts = 2 })
    else none

abbrev encode_text : JobEnvelope → Option String
encode_text e = if e.attempts == 0 then some "0" else if e.attempts == 1 then some "1" else some "2"

abbrev failing : Surroundings String
failing = record {
  job_name = "email.deliver";
  retry = record { backoff = backoff; max_attempts = 3 };
  decode_payload = λ body. some body;
  decode_envelope = decode_text;
  encode_envelope = encode_text;
  handle = λ h payload execution. some rate_limited;
  classify_failure = λ failure. retryable;
  on_dead_letter = none;
  now = λ h. 100;
  record_ok = λ h input. true;
  add_ok = λ h member score. true;
  ack_ok = λ h id. true;
}

abbrev entry : StreamEntry
entry = record { fields = "payload" ∷ "0" ∷ []; id = "1-0" }

schedules_retry : process_job failing entry [] ≡ (
  ok tt,
  acknowledged "1-0" true
      ∷ delayed "1" 1100 true
      ∷ handled "{}" (record { attempt = 1; enqueued_at = 7; id = "1-0" }) (some rate_limited)
      ∷ [],
)
unfolding process_job read_field retry_delay
schedules_retry = refl

-- The message of an `Error` with no text is that of its record, and only the safe fields are kept.
describes_rate_limit : describe_failure rate_limited ≡ record {
  code = none;
  details = ("retryAfterMs", "250") ∷ [];
  message = "";
  name = "ProviderRateLimited";
}
unfolding describe_failure pick_context
describes_rate_limit = refl

process_job_settled_example :
    (before : List (Act String)) × ((process_job failing entry []).1
      ≡ acknowledged "1-0" true ∷ before)
    × (total settles before ≡ 1)
    × (total acks before ≡ 0)
unfolding process_job read_field
process_job_settled_example = process_job_settled failing entry [] refl

abbrev deaf : Surroundings String
deaf = record failing { ack_ok = λ h id. false }

process_job_pending_example :
    (total acks (process_job deaf entry []).1 ≡ 0)
    × (total settles (process_job deaf entry []).1 ≤ 1)
unfolding process_job read_field
process_job_pending_example = process_job_pending deaf entry [] acknowledge refl

process_job-runs_example :
    total (runs_on failing (λ payload. 1)) (process_job failing entry []).1
    ≡ measure failing (λ payload. 1) (decoded failing entry)
unfolding read_field
process_job-runs_example = process_job-runs failing (λ payload. 1) entry []

process_job-IsSound_example : All (IsSound failing entry) (process_job failing entry []).1
process_job-IsSound_example = process_job-IsSound failing entry [] tt

encodes_text :
    (n : ℕ)
    → n < 3
    → (m : String) × (encode_text (after_attempts failing (λ h. "2-0") job n) ≡ some m)
      × (decode_text m ≡ some (after_attempts failing (λ h. "2-0") job n))
encodes_text zero h = ("0", refl, refl)
encodes_text (suc zero) h = ("1", refl, refl)
encodes_text (suc (suc zero)) h = ("2", refl, refl)
encodes_text (suc (suc (suc n))) h = absurd (omega arith)

abbrev always_fails : AlwaysFails failing (λ h. "2-0") job
always_fails = record {
  encodes = encodes_text;
  decodes = ("{}", refl);
  fails = λ h p x. (rate_limited, refl, refl);
  adds = λ h m score. refl;
  acks = λ h id. refl;
  records = λ h input. refl;
  cleans = refl;
}

drive-attempts_example :
    (total runs (drive failing (λ h. "2-0") 3 entry []) ≡ 3)
    × (total dead_letters (drive failing (λ h. "2-0") 3 entry []) ≡ 1)
    × (next_entry (λ h. "2-0") (drive failing (λ h. "2-0") 3 entry []) ≡ none)
unfolding read_field
drive-attempts_example = drive-attempts failing (λ h. "2-0") job always_fails 2 0 entry [] refl refl
