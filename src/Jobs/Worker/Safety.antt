-- ===== src/Jobs/Worker/Safety.antt =====
-- No job is lost: what processJob of worker.ts has done when it acknowledges an entry.
use relayit.Prelude.{
  Option, some, or_else, ℕ, ◌+◌, ◌≤◌, ◌≡◌, true, none, List, ◌∷◌, arith, ok, err, total,
}
use relayit.Jobs.{StreamEntry, Stage}
use relayit.Jobs.Work.{Act, handled, recorded, delayed, acknowledged, Surroundings}
use relayit.Jobs.Worker.{read_field, dispose, process_job}

module _ {P : Type 0} where
  -- The acts that settle an entry: the handler succeeds, a retry is stored, a dead letter is stored.
  abbrev pub settles : Act P → ℕ
  settles (handled payload execution none) = 1
  settles (delayed member score true) = 1
  settles (recorded input true) = 1
  settles _ = 0

  abbrev pub acks : Act P → ℕ
  acks (acknowledged id true) = 1
  acks _ = 0

  abbrev pub runs : Act P → ℕ
  runs (handled payload execution outcome) = 1
  runs _ = 0

module _ {P : Type 0} (w : Surroundings P) where
  open w use {
    job_name, retry, decode_payload, decode_envelope, encode_envelope, handle, classify_failure,
    on_dead_letter, now, record_ok, add_ok, ack_ok,
  }

  -- Before the acknowledgement an entry is settled once, and nothing is acknowledged.
  dispose_once :
      (entry : StreamEntry) (h : List (Act P))
      → let (x, h') = dispose w entry h in
        (x ≡ ok tt → total settles h' ≡ total settles h + 1)
        × (total settles h' ≤ total settles h + 1)
        × (total acks h' ≡ total acks h)
        × (total runs h' ≤ total runs h + 1)
  unfolding dispose
  dispose_once entry h = ground arith

  -- When processJob succeeds, the last thing that it did was to acknowledge the entry, and before
  -- that exactly one of these happened: the handler succeeded, a retry was stored in the delayed
  -- set, or a dead letter was stored. Nothing was acknowledged before.
  pub process_job_settled :
      (entry : StreamEntry) (h : List (Act P))
      → (process_job w entry h).0 ≡ ok tt
      → (before : List (Act P)) × ((process_job w entry h).1 ≡ acknowledged entry.id true ∷ before)
        × (total settles before ≡ total settles h + 1)
        × (total acks before ≡ total acks h)
  unfolding process_job
  process_job_settled entry h e = (
    (dispose w entry h).1,
    ground (arith, dispose_once entry h),
    ground (arith, dispose_once entry h),
    ground (arith, dispose_once entry h),
  )

  -- When processJob fails, at whatever stage, the entry has not been acknowledged, so that it stays
  -- pending on the stream; it has been settled at most once.
  pub process_job_pending :
      (entry : StreamEntry) (h : List (Act P)) (stage : Stage)
      → (process_job w entry h).0 ≡ err stage
      → (total acks (process_job w entry h).1 ≡ total acks h)
        × (total settles (process_job w entry h).1 ≤ total settles h + 1)
  unfolding process_job
  process_job_pending entry h stage e = ground (arith, dispose_once entry h)

  -- The payload of an entry, where the entry, its envelope and the payload in it can be read.
  abbrev pub decoded : StreamEntry → Option P
  decoded entry = elim (decode_envelope (or_else (read_field entry.fields "payload") "")) [
    | none ↦ none
    | some envelope ↦ decode_payload envelope.body
  ]

  -- How often an act runs the handler on a payload.
  abbrev pub runs_on : (P → ℕ) → Act P → ℕ
  runs_on f (handled payload execution outcome) = f payload
  runs_on f _ = 0

  abbrev pub measure : (P → ℕ) → Option P → ℕ
  measure f none = 0
  measure f (some payload) = f payload

  dispose-runs :
      (f : P → ℕ) (entry : StreamEntry) (h : List (Act P))
      → total (runs_on f) (dispose w entry h).1 ≡ total (runs_on f) h + measure f (decoded entry)
  unfolding dispose
  dispose-runs f entry h = ground arith

  -- One call of processJob, whether it succeeds or fails, runs the handler exactly once, on the
  -- payload of the entry, when the envelope and the payload can be decoded, and not at all
  -- otherwise: every measure of payloads grows over the runs by that of the decoded one.
  pub process_job-runs :
      (f : P → ℕ) (entry : StreamEntry) (h : List (Act P))
      → total (runs_on f) (process_job w entry h).1
        ≡ total (runs_on f) h + measure f (decoded entry)
  unfolding process_job
  process_job-runs f entry h = ground (arith, dispose-runs f entry h)
