-- ===== src/Jobs/Outbox/Publishing.antt =====
-- Any number of publishers at work on the outbox (publishOutboxBatch of outbox.ts), as steps between
-- states: a publisher may stop at any point, and a claim may expire while its job is being sent.
pub mod Safety
use relayit.Prelude.{
  ℕ, ◌+◌, ◌≤◌, ◌<◌, ◌≡◌, refl, String, Bool, true, false, List, [], ◌∷◌, ◌++◌, arith, ok, err,
  str_eq, eq_refl, eq_iff, if◌then◌else◌, Bool-cases, inl, inr, All,
}
use relayit.Prelude.Counts.{count}
use relayit.Jobs.Outbox.{
  OutboxRow, pending, published, Claim, is_claim_of, claimed, claim_jobs, update_where,
  release_claim, mark_published, after_publish,
}

-- What publishOutboxJob knows of its job: nothing yet, that Redis has it, or an error.
pub data Phase : Type 0 where
  holding sent : Phase
  refused : String → Phase

pub record Flight : Type 0 where
  pub job : OutboxRow
  pub token : String
  pub phase : Phase

-- The table, the jobs that publishers work on, and the ids of the jobs that Redis has taken.
pub record World : Type 0 where
  pub rows : List OutboxRow
  pub flights : List Flight
  pub log : List String

abbrev pub holds : String → List OutboxRow → List Flight
holds token [] = []
holds token (job ∷ jobs) = record { job = job; token = token; phase = holding } ∷ holds token jobs

pub data Step : World → World → Type 0 where
  -- a transaction inserts a job
  insert :
      (w : World) (row : OutboxRow)
      → row.status ≡ pending
      → Step w (record w { rows = w.rows ++ row ∷ [] })
  claim :
      (w : World) (c : Claim) (locked : OutboxRow → Bool) (budget : ℕ)
      → Step w (record w {
        rows = (claim_jobs c locked budget w.rows).1;
        flights = holds c.token (claim_jobs c locked budget w.rows).0 ++ w.flights;
      })
  publish :
      (w : World) (before after : List Flight) (f : Flight)
      → w.flights ≡ before ++ f ∷ after
      → f.phase ≡ holding
      → Step w (record w {
        flights = before ++ record f { phase = sent } ∷ after;
        log = f.job.id ∷ w.log;
      })
  refuse :
      (w : World) (before after : List Flight) (f : Flight) (cause : String)
      → w.flights ≡ before ++ f ∷ after
      → f.phase ≡ holding
      → Step w (record w { flights = before ++ record f { phase = refused cause } ∷ after })
  mark :
      (w : World) (before after : List Flight) (f : Flight)
      → w.flights ≡ before ++ f ∷ after
      → f.phase ≡ sent
      → Step w (record w {
        rows = after_publish f.job f.token (ok tt) w.rows;
        flights = before ++ after;
      })
  release :
      (w : World) (before after : List Flight) (f : Flight) (cause : String)
      → w.flights ≡ before ++ f ∷ after
      → f.phase ≡ refused cause
      → Step w (record w {
        rows = after_publish f.job f.token (err cause) w.rows;
        flights = before ++ after;
      })
  crash :
      (w : World) (before after : List Flight) (f : Flight)
      → w.flights ≡ before ++ f ∷ after
      → Step w (record w { flights = before ++ after })

pub data Reach (w : World) : World → Type 0 where
  here : Reach w w
  next : {u v : World} → Reach w u → Step u v → Reach w v
