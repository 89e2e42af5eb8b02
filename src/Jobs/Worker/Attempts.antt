-- ===== src/Jobs/Worker/Attempts.antt =====
-- A job that always fails: processJob of worker.ts together with the delayed set, from the first
-- attempt to the dead letter.
use relayit.Prelude.{
  ℕ, zero, suc, ◌+◌, ◌<◌, String, ◌≡◌, refl, ap, true, Option, none, some, List, [], ◌∷◌, arith,
  total,
}
use relayit.Jobs.{WorkExecution, JobEnvelope, StreamEntry, DeadLetterInput, retryable, Failure}
use relayit.Jobs.Work.{Act, handled, recorded, delayed, acknowledged, Surroundings}
use relayit.Jobs.Worker.{
  retry_delay, read_field, describe_failure, dead_letter_of, execution_of, process_job, encoded_of,
}
use relayit.Jobs.Worker.Safety.{runs}

abbrev pub dead_letters : {P : Type 0} → Act P → ℕ
dead_letters (recorded input true) = 1
dead_letters _ = 0

-- The entry that promotion appends to the ready stream for a retry that was just stored.
abbrev pub next_entry : {P : Type 0} → (List (Act P) → String) → List (Act P) → Option StreamEntry
next_entry ids (acknowledged id true ∷ delayed member score true ∷ h) =
    some (record { fields = "payload" ∷ member ∷ []; id = ids h })
next_entry ids h = none

module _ {P : Type 0} (w : Surroundings P) (ids : List (Act P) → String) where
  open w use {
    job_name, retry, decode_payload, decode_envelope, encode_envelope, handle, classify_failure,
    on_dead_letter, now, record_ok, add_ok, ack_ok,
  }

  -- processJob on an entry and then on each retry that it stored, for at most `n` entries.
  pub drive : ℕ → StreamEntry → List (Act P) → List (Act P)
  drive zero entry h = h
  drive (suc n) entry h = elim (next_entry ids (process_job w entry h).1) [
    | none ↦ (process_job w entry h).1
    | some entry' ↦ drive n entry' (process_job w entry h).1
  ]

  drive_stop :
      (n : ℕ) (entry : StreamEntry) (h h' : List (Act P))
      → (process_job w entry h).1 ≡ h'
      → next_entry ids h' ≡ none
      → drive (suc n) entry h ≡ h'
  unfolding drive
  drive_stop n entry h h' e s =
      let stop : next_entry ids (process_job w entry h).1 ≡ none = rw e s in rw (stop, drive) e

  drive_next :
      (n : ℕ) (entry entry' : StreamEntry) (h h' : List (Act P))
      → (process_job w entry h).1 ≡ h'
      → next_entry ids h' ≡ some entry'
      → drive (suc n) entry h ≡ drive n entry' h'
  unfolding drive
  drive_next n entry entry' h h' e s =
      let next : next_entry ids (process_job w entry h).1 ≡ some entry' = rw e s in
      rw (next, drive) (ap (drive n entry') e)

  -- The envelope of the job `e` after `n` attempts.
  abbrev pub after_attempts : JobEnvelope → ℕ → JobEnvelope
  after_attempts e n = record e { attempts = n }

  -- Redis and the store answer, the job's envelopes and payload decode to what was encoded, there
  -- is no onDeadLetter, and the handler always fails with a failure classified as retryable.
  pub record AlwaysFails (job : JobEnvelope) : Type 0 where
    pub encodes :
        (n : ℕ)
        → n < retry.max_attempts
        → (m : String) × (encode_envelope (after_attempts job n) ≡ some m)
          × (decode_envelope m ≡ some (after_attempts job n))
    pub decodes : (p : P) × (decode_payload job.body ≡ some p)
    pub fails :
        (h : List (Act P)) (p : P) (x : WorkExecution)
        → (f : Failure) × (handle h p x ≡ some f) × (classify_failure f ≡ retryable)
    pub adds : (h : List (Act P)) (m : String) (score : ℕ) → add_ok h m score ≡ true
    pub acks : (h : List (Act P)) (id : String) → ack_ok h id ≡ true
    pub records : (h : List (Act P)) (input : DeadLetterInput) → record_ok h input ≡ true
    pub cleans : on_dead_letter ≡ none

  module _ (job : JobEnvelope) (a : AlwaysFails job) where
    step_retry :
        (entry : StreamEntry) (n : ℕ) (h : List (Act P))
        → decode_envelope (encoded_of w entry) ≡ some (after_attempts job n)
        → n + 1 < retry.max_attempts
        → (m : String) × (score : ℕ) × (p : P) × (x : WorkExecution) × (f : Failure) × ((process_job
              w entry h).1
            ≡ acknowledged entry.id true ∷ delayed m score true ∷ handled p x (some f) ∷ h)
          × (decode_envelope m ≡ some (after_attempts job (n + 1)))
    unfolding process_job
    step_retry entry n h e lt =
        let x = execution_of w entry (after_attempts job n) in
        let (p, dp) = a.decodes in
        let (f, hf, cf) = a.fails h p x in
        let h1 : List (Act P) = handled p x (some f) ∷ h in
        let (m, em, dm) = a.encodes (n + 1) lt in
        let score = now h1 + retry_delay (n + 1) retry.backoff in
        (
          m,
          score,
          p,
          x,
          f,
          ground (
            arith,
            e,
            dp,
            hf,
            cf,
            em,
            lt,
            a.adds h1 m score,
            a.acks (delayed m score true ∷ h1) entry.id,
          ),
          dm,
        )

    step_last :
        (entry : StreamEntry) (n : ℕ) (h : List (Act P))
        → decode_envelope (encoded_of w entry) ≡ some (after_attempts job n)
        → n + 1 ≡ retry.max_attempts
        → (input : DeadLetterInput) × (p : P) × (x : WorkExecution) × (f : Failure) × ((process_job
              w entry h).1
            ≡ acknowledged entry.id true ∷ recorded input true ∷ handled p x (some f) ∷ h)
    unfolding process_job
    step_last entry n h e last =
        let x = execution_of w entry (after_attempts job n) in
        let (p, dp) = a.decodes in
        let (f, hf, cf) = a.fails h p x in
        let h1 : List (Act P) = handled p x (some f) ∷ h in
        let input = dead_letter_of w entry (after_attempts job n) (describe_failure f) (now h1) in
        (
          input,
          p,
          x,
          f,
          ground (
            arith,
            e,
            dp,
            hf,
            cf,
            last,
            a.cleans,
            a.records h1 input,
            a.acks (recorded input true ∷ h1) entry.id,
          ),
        )

    -- A job whose handler always fails retryably, and that has `suc k` attempts left, runs its
    -- handler exactly that often and then leaves exactly one dead letter and no further retry,
    -- provided that Redis and the store answer, its envelopes and payload decode to what was
    -- encoded, and there is no onDeadLetter.
    pub drive-attempts :
        (k n : ℕ) (entry : StreamEntry) (h : List (Act P))
        → decode_envelope (encoded_of w entry) ≡ some (after_attempts job n)
        → n + suc k ≡ retry.max_attempts
        → (total runs (drive (suc k) entry h) ≡ total runs h + suc k)
          × (total dead_letters (drive (suc k) entry h) ≡ total dead_letters h + 1)
          × (next_entry ids (drive (suc k) entry h) ≡ none)
    unfolding read_field
    drive-attempts zero n entry h e left =
        let (input, p, x, f, s) = step_last entry n h e (omega arith) in
        rw (drive_stop zero entry h _ s refl) (omega arith, omega arith, refl)
    drive-attempts (suc k) n entry h e left =
        let (m, score, p, x, f, s, d) = step_retry entry n h e (omega arith) in
        let h1 : List (Act P) = handled p x (some f) ∷ h in
        let h' : List (Act P) = acknowledged entry.id true ∷ delayed m score true ∷ h1 in
        let entry' : StreamEntry = record { fields = "payload" ∷ m ∷ []; id = ids h1 } in
        let (rs, ds, last) = drive-attempts k (n + 1) entry' h' d (omega arith) in
        rw (drive_next (suc k) entry entry' h h' s refl)
          (omega (arith, rs), omega (arith, ds), last)
