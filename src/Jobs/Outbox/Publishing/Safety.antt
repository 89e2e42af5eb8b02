-- ===== src/Jobs/Outbox/Publishing/Safety.antt =====
-- A published job is never lost: what holds in every state that the publishers of outbox.ts reach.
use relayit.Prelude.{
  ℕ, zero, suc, ◌<◌, ◌≡◌, String, Bool, not, ◌&&◌, List, [], ◌∷◌, ◌++◌, arith, ok, err, eq_refl,
  eq_iff, Bool-cases, inl, inr, All, All-map, All-append, All-append_left, All-append_right,
}
use relayit.Prelude.Counts.{count}
use relayit.Prelude.Tables.{All-update_where}
use relayit.Jobs.Outbox.{
  OutboxRow, published, Claim, is_claim_of, is_available, claim_jobs, release_claim, mark_published,
  after_publish,
}
use relayit.Jobs.Outbox.Publishing.{
  sent, refused, Flight, World, holds, Step, insert, claim, publish, refuse, mark, release, crash,
  Reach, here, next,
}

-- Redis has taken the job at least once.
abbrev pub IsLogged : List String → String → Type 0
IsLogged log id = 0 < count id log

abbrev pub RowIsSafe : List String → OutboxRow → Type 0
RowIsSafe log row = row.status ≡ published → IsLogged log row.id

abbrev pub FlightIsSafe : List String → Flight → Type 0
FlightIsSafe log f = f.phase ≡ sent → IsLogged log f.job.id

pub record IsSafe (w : World) : Type 0 where
  pub rows_logged : All (RowIsSafe w.log) w.rows
  pub flights_logged : All (FlightIsSafe w.log) w.flights

-- The flights around one of them, and that one.
around :
    (log : List String) (flights before after : List Flight) (f : Flight)
    → flights ≡ before ++ f ∷ after
    → All (FlightIsSafe log) flights
    → All (FlightIsSafe log) before × FlightIsSafe log f × All (FlightIsSafe log) after
around log flights before after f e a =
    let b : All (FlightIsSafe log) (before ++ f ∷ after) = rw (← e) a in
    let (p, c) = All-append_right (FlightIsSafe log) before (f ∷ after) b in
    (All-append_left (FlightIsSafe log) before (f ∷ after) b, p, c)

IsLogged-cons : (log : List String) (id i : String) → IsLogged log i → IsLogged (id ∷ log) i
IsLogged-cons log id i h = omega (arith, h)

claim-RowIsSafe :
    (log : List String) (c : Claim) (locked : OutboxRow → Bool) (budget : ℕ) (rows : List OutboxRow)
    → All (RowIsSafe log) rows
    → All (RowIsSafe log) (claim_jobs c locked budget rows).1
unfolding claim_jobs
claim-RowIsSafe log c locked zero rows a = a
claim-RowIsSafe log c locked (suc left) [] a = tt
claim-RowIsSafe log c locked (suc left) (row ∷ rows) (p, a) =
    elim (Bool-cases (is_available c.now row && not (locked row))) [
      | inl e ↦ rw e (p, claim-RowIsSafe log c locked left rows a)
      | inr e ↦ rw e (p, claim-RowIsSafe log c locked (suc left) rows a)
    ]

holds-FlightIsSafe :
    (log : List String) (token : String) (jobs : List OutboxRow)
    → All (FlightIsSafe log) (holds token jobs)
holds-FlightIsSafe log token [] = tt
holds-FlightIsSafe log token (job ∷ jobs) = ((λ e. cc), holds-FlightIsSafe log token jobs)

mark-RowIsSafe :
    (log : List String) (job : OutboxRow) (token : String) (rows : List OutboxRow)
    → IsLogged log job.id
    → All (RowIsSafe log) rows
    → All (RowIsSafe log) (after_publish job token (ok tt) rows)
unfolding after_publish mark_published
mark-RowIsSafe log job token rows h a =
    All-update_where (RowIsSafe log) (is_claim_of job.id token) _ rows
      (λ row t p e.
        (let same : row.id ≡ job.id = ground (arith, t, eq_iff row.id job.id) in rw same h))
      a

release-RowIsSafe :
    (log : List String) (job : OutboxRow) (token cause : String) (rows : List OutboxRow)
    → All (RowIsSafe log) rows
    → All (RowIsSafe log) (after_publish job token (err cause) rows)
unfolding after_publish release_claim
release-RowIsSafe log job token cause rows a =
    All-update_where (RowIsSafe log) (is_claim_of job.id token) _ rows (λ row t p. p) a

Step-IsSafe : {w v : World} → Step w v → IsSafe w → IsSafe v
Step-IsSafe (insert w row new) s = record {
  rows_logged = All-append (RowIsSafe w.log) w.rows (row ∷ []) s.rows_logged ((λ e. cc), tt);
  flights_logged = s.flights_logged;
}
Step-IsSafe (claim w c locked budget) s = record {
  rows_logged = claim-RowIsSafe w.log c locked budget w.rows s.rows_logged;
  flights_logged =
      All-append (FlightIsSafe w.log) (holds c.token (claim_jobs c locked budget w.rows).0)
        w.flights (holds-FlightIsSafe w.log c.token (claim_jobs c locked budget w.rows).0)
        s.flights_logged;
}
Step-IsSafe (publish w before after f e holds_it) s =
    let (b, p, a) = around w.log w.flights before after f e s.flights_logged in
    let more = λ (g : Flight) (k : FlightIsSafe w.log g) (x : g.phase ≡ sent).
      IsLogged-cons w.log f.job.id g.job.id (k x) in
    record {
      rows_logged =
          All-map (λ row k x. IsLogged-cons w.log f.job.id row.id (k x)) w.rows s.rows_logged;
      flights_logged =
          All-append (FlightIsSafe (f.job.id ∷ w.log)) before (record f { phase = sent } ∷ after)
            (All-map more before b) ((λ _. ground (arith, eq_refl f.job.id)), All-map more after a);
    }
Step-IsSafe (refuse w before after f cause e holds_it) s =
    let (b, p, a) = around w.log w.flights before after f e s.flights_logged in
    record {
      rows_logged = s.rows_logged;
      flights_logged =
          All-append (FlightIsSafe w.log) before (record f { phase = refused cause } ∷ after) b
            ((λ x. cc), a);
    }
Step-IsSafe (mark w before after f e was_sent) s =
    let (b, p, a) = around w.log w.flights before after f e s.flights_logged in
    record {
      rows_logged = mark-RowIsSafe w.log f.job f.token w.rows (p was_sent) s.rows_logged;
      flights_logged = All-append (FlightIsSafe w.log) before after b a;
    }
Step-IsSafe (release w before after f cause e was_refused) s =
    let (b, p, a) = around w.log w.flights before after f e s.flights_logged in
    record {
      rows_logged = release-RowIsSafe w.log f.job f.token cause w.rows s.rows_logged;
      flights_logged = All-append (FlightIsSafe w.log) before after b a;
    }
Step-IsSafe (crash w before after f e) s =
    let (b, p, a) = around w.log w.flights before after f e s.flights_logged in
    record {
      rows_logged = s.rows_logged;
      flights_logged = All-append (FlightIsSafe w.log) before after b a;
    }

-- However many publishers claim, publish, fail, stop and mark, in whatever order, and whatever claims
-- expire meanwhile: a row that is marked as published stands for a job that Redis has taken.
pub Reach-IsSafe : {w v : World} → IsSafe w → Reach w v → IsSafe v
Reach-IsSafe s here = s
Reach-IsSafe s (next r st) = Step-IsSafe st (Reach-IsSafe s r)
