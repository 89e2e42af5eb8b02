-- ===== src/Jobs/Outbox/Claims.antt =====
-- Claims exclude each other: claimOutboxJobs of outbox.ts.
use relayit.Prelude.{
  ℕ, zero, suc, ◌+◌, ◌≤◌, ◌≡◌, refl, String, Bool, not, ◌&&◌, List, [], ◌∷◌, arith, Bool-cases, inl,
  inr,
}
use relayit.Prelude.Counts.{count}
use relayit.Jobs.Outbox.{OutboxRow, Claim, is_available, claimed, claim_jobs}

abbrev pub ids : List OutboxRow → List String
ids [] = []
ids (row ∷ rows) = row.id ∷ ids rows

abbrev pub jobs_of : List OutboxRow × List OutboxRow → List String
jobs_of r = ids r.0

ids-claim_jobs :
    (c : Claim) (locked : OutboxRow → Bool) (budget : ℕ) (rows : List OutboxRow)
    → ids (claim_jobs c locked budget rows).1 ≡ ids rows
unfolding claim_jobs
ids-claim_jobs c locked zero rows = refl
ids-claim_jobs c locked (suc left) [] = refl
ids-claim_jobs c locked (suc left) (row ∷ rows) =
    ground (arith, ids-claim_jobs c locked left rows, ids-claim_jobs c locked (suc left) rows)

count-claim_jobs :
    (c : Claim) (locked : OutboxRow → Bool) (budget : ℕ) (rows : List OutboxRow) (id : String)
    → count id (ids (claim_jobs c locked budget rows).0) ≤ count id (ids rows)
unfolding claim_jobs
count-claim_jobs c locked zero rows id = omega arith
count-claim_jobs c locked (suc left) [] id = omega arith
count-claim_jobs c locked (suc left) (row ∷ rows) id =
    ground
      (arith, count-claim_jobs c locked left rows id, count-claim_jobs c locked (suc left) rows id)

module _ (c d : Claim) (locked locked' : OutboxRow → Bool) (live : d.now ≤ c.now + c.claim_ttl_ms)
    (id : String) where
  -- The second claim passes over what the first has taken.
  passes :
      (row : OutboxRow) (left : ℕ) (rows : List OutboxRow)
      → ids (claim_jobs d locked' (suc left) (claimed c row ∷ rows)).0
        ≡ ids (claim_jobs d locked' (suc left) rows).0
  unfolding claim_jobs
  passes row left rows = ground arith

  -- As long as a claim has not expired, a second publisher that claims jobs gets none of its rows:
  -- with distinct ids, no row is in both batches, whatever rows are locked and whatever the two
  -- batch sizes are.
  pub claim_jobs-claim_jobs :
      (budget budget' : ℕ) (rows : List OutboxRow)
      → count id (ids rows) ≤ 1
      → count id (ids (claim_jobs c locked budget rows).0)
          + count id (ids (claim_jobs d locked' budget' (claim_jobs c locked budget rows).1).0)
        ≤ 1
  unfolding claim_jobs
  claim_jobs-claim_jobs zero budget' rows h =
      omega (arith, count-claim_jobs d locked' budget' rows id)
  claim_jobs-claim_jobs (suc left) zero rows h =
      ground (arith, count-claim_jobs c locked (suc left) rows id)
  claim_jobs-claim_jobs (suc left) (suc left') [] h = omega arith
  claim_jobs-claim_jobs (suc left) (suc left') (row ∷ rows) h =
      let passed = (claim_jobs c locked (suc left) rows).1 in
      let first = count-claim_jobs c locked (suc left) rows id in
      let table = ids-claim_jobs c locked (suc left) rows in
      elim (Bool-cases (is_available c.now row && not (locked row))) [
        | inl taken ↦
            rw (taken, passes row left' (claim_jobs c locked left rows).1)
              (ground (
                arith,
                claim_jobs-claim_jobs left (suc left') rows,
                count-claim_jobs c locked left rows id,
                count-claim_jobs d locked' (suc left') (claim_jobs c locked left rows).1 id,
                ids-claim_jobs c locked left rows,
              ))
        | inr kept ↦ rw kept (
            ground (
              arith,
              first,
              table,
              count-claim_jobs d locked' left' passed id,
              count-claim_jobs d locked' (suc left') passed id,
              claim_jobs-claim_jobs (suc left) left' rows,
              claim_jobs-claim_jobs (suc left) (suc left') rows,
            ))
      ]
