-- ===== src/Jobs/Worker/Retries.antt =====
-- How often and when processJob of worker.ts tries a job again.
use relayit.Prelude.Powers.{pow-le, scaled-le}
use relayit.Prelude.{
  ℕ, ◌+◌, ◌-◌, ◌^◌, ◌≤◌, ◌<◌, String, ◌≡◌, refl, inl, inr, Option, none, some, List, ◌∷◌, arith, ok,
  All, Option-cases, Bool-cases,
}
use relayit.Jobs.{
  JobBackoffPolicy, WorkExecution, JobEnvelope, StreamEntry, Failure, schedule_retry,
}
use relayit.Jobs.Work.{Act, handled, recorded, delayed, Surroundings}
use relayit.Effects.{perform, after-All}
use relayit.Jobs.Worker.{
  retry_delay, describe_failure, record_dead_letter, dead_letter_of, execution_of, encode, dispose,
  acknowledge_entry, process_job, encoded_of, execute, settle, schedule, give_up, clean_up,
  will_retry,
}

module _ {P : Type 0} (w : Surroundings P) where
  open w use {
    job_name, retry, decode_payload, decode_envelope, encode_envelope, handle, classify_failure,
    on_dead_letter, now, record_ok, add_ok, ack_ok,
  }

  -- An act that stores a retry stores the envelope of the entry with one more attempt, under the
  -- limit on attempts, and is due no later than the longest delay after some reading of the clock.
  abbrev pub IsSound : StreamEntry → Act P → Type 0
  IsSound entry (delayed member score done) =
      (envelope : JobEnvelope) × (at : List (Act P)) × (decode_envelope (encoded_of w entry)
        ≡ some envelope)
      × (encode_envelope (record envelope { attempts = envelope.attempts + 1 }) ≡ some member)
      × (envelope.attempts + 1 < retry.max_attempts)
      × (score ≡ now at + retry_delay (envelope.attempts + 1) retry.backoff)
  IsSound entry (recorded input done) = input.original_stream_id ≡ entry.id
  IsSound entry _ = Unit {0}

  encode_parts :
      (envelope : JobEnvelope) (h : List (Act P))
      → ((encode w envelope h).1 ≡ h)
        × ((member : String)
            → (encode w envelope h).0 ≡ ok member
            → encode_envelope envelope ≡ some member)
  unfolding encode
  encode_parts envelope h = (ground arith, λ member e. ground arith)

  schedule-IsSound :
      (entry : StreamEntry) (envelope : JobEnvelope) (h : List (Act P))
      → decode_envelope (encoded_of w entry) ≡ some envelope
      → envelope.attempts + 1 < retry.max_attempts
      → All (IsSound entry) h
      → All (IsSound entry) (schedule w envelope (envelope.attempts + 1) h).1
  unfolding schedule
  schedule-IsSound entry envelope h e lt a =
      after-All (IsSound entry) (encode w next h).0 (encode w next h).1
        (λ member h'.
          perform (λ h''. add_ok h'' member score) (delayed member score) schedule_retry h')
        (rw same a)
        (λ member done.
          rw same ((envelope, h, e, (encode_parts next h).1 member done, lt, refl), a))
    where
      next : JobEnvelope
      next = record envelope { attempts = envelope.attempts + 1 }

      score : ℕ
      score = now h + retry_delay (envelope.attempts + 1) retry.backoff

      same : (encode w next h).1 ≡ h
      same = (encode_parts next h).0

  clean_up-IsSound :
      (entry : StreamEntry) (payload : P) (execution : WorkExecution) (failure : Failure)
      (h : List (Act P))
      → All (IsSound entry) h
      → All (IsSound entry) (clean_up w payload execution failure h).1
  unfolding clean_up
  clean_up-IsSound entry payload execution failure h a = elim (Option-cases on_dead_letter) [
    | inl e ↦ rw (e, clean_up) a
    | inr (run, e) ↦ rw (e, clean_up) (tt, a)
  ]

  give_up-IsSound :
      (entry : StreamEntry) (envelope : JobEnvelope) (payload : P) (execution : WorkExecution)
      (failure : Failure) (h : List (Act P))
      → All (IsSound entry) h
      → All (IsSound entry) (give_up w entry envelope payload execution failure h).1
  unfolding give_up
  give_up-IsSound entry envelope payload execution failure h a =
      let clean = clean_up-IsSound entry payload execution failure h a in
      after-All (IsSound entry) (clean_up w payload execution failure h).0 _
        (λ _ h'.
          record_dead_letter w (dead_letter_of w entry envelope (describe_failure failure) (now h'))
            h')
        clean (λ x e. (refl, clean))

  settle-IsSound :
      (entry : StreamEntry) (envelope : JobEnvelope) (payload : P) (outcome : Option Failure)
      (h : List (Act P))
      → decode_envelope (encoded_of w entry) ≡ some envelope
      → All (IsSound entry) h
      → All
          (IsSound entry)
          (settle w entry envelope payload (execution_of w entry envelope) outcome h).1
  unfolding settle
  settle-IsSound entry envelope payload none h e a = a
  settle-IsSound entry envelope payload (some failure) h e a =
      elim (Bool-cases (will_retry w failure (envelope.attempts + 1))) [
        | inl again ↦ rw again (schedule-IsSound entry envelope h e (ground (arith, again)) a)
        | inr never ↦
            rw never
              (give_up-IsSound entry envelope payload (execution_of w entry envelope) failure h a)
      ]

  dispose-IsSound :
      (entry : StreamEntry) (h : List (Act P))
      → All (IsSound entry) h
      → All (IsSound entry) (dispose w entry h).1
  unfolding dispose
  dispose-IsSound entry h a = elim (Option-cases (decode_envelope (encoded_of w entry))) [
    | inl e ↦ rw (e, dispose) (refl, a)
    | inr (envelope, e) ↦ elim (Option-cases (decode_payload envelope.body)) [
      | inl p ↦ rw (e, dispose) (rw (p, dispose) (refl, a))
      | inr (payload, p) ↦
          rw (e, dispose)
            (rw (p, dispose)
              (unfold execute in
                settle-IsSound entry envelope payload
                  (handle h payload (execution_of w entry envelope))
                  (handled payload (execution_of w entry envelope)
                      (handle h payload (execution_of w entry envelope))
                    ∷ h)
                  e (tt, a)))
    ]
  ]

  -- Whatever the surroundings answer, every retry that processJob stores is the envelope of the
  -- entry with one more attempt and otherwise unchanged, that number of attempts is below
  -- maxAttempts, and it is due the retry delay after a reading of the clock; every dead letter
  -- names the entry.
  pub process_job-IsSound :
      (entry : StreamEntry) (h : List (Act P))
      → All (IsSound entry) h
      → All (IsSound entry) (process_job w entry h).1
  unfolding process_job
  process_job-IsSound entry h a =
      let disposed = dispose-IsSound entry h a in
      after-All (IsSound entry) (dispose w entry h).0 _ (λ _. acknowledge_entry w entry) disposed
        (λ x e. (tt, disposed))

-- A later attempt waits at least as long as an earlier one, and never longer than `maxDelayMs`.
pub retry_delay_mono :
    (attempt attempt' : ℕ) (backoff : JobBackoffPolicy)
    → attempt ≤ attempt'
    → (retry_delay attempt backoff ≤ retry_delay attempt' backoff)
      × (retry_delay attempt' backoff ≤ backoff.max_delay_ms)
unfolding retry_delay
retry_delay_mono attempt attempt' backoff h = omega (
  arith,
  scaled-le backoff.base_delay_ms (2 ^ (attempt - 1)) (2 ^ (attempt' - 1))
      (pow-le (attempt - 1) (attempt' - 1) (omega arith)),
)
