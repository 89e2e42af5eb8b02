-- ===== src/Jobs/Outbox/Tests.antt =====
-- Runs and instances of the theorems on outbox.ts.
use relayit.Prelude.{◌+◌, ◌≤◌, String, ◌≡◌, refl, Bool, false, none, some, List, [], ◌∷◌, arith}
use relayit.Prelude.Counts.{count}
use relayit.Prelude.Tables.{update_where}
use relayit.Jobs.Outbox.{
  OutboxRow, pending, published, Claim, claim_jobs, after_publish, mark_published,
}
use relayit.Jobs.Outbox.Claims.{ids, claim_jobs-claim_jobs}
use relayit.Jobs.Outbox.Publishing.{
  World, Flight, here, next, claim, publish, mark, holding, sent, Step,
}
use relayit.Jobs.Outbox.Publishing.Safety.{IsSafe, Reach-IsSafe}

abbrev row : String → OutboxRow
row id = record {
  id = id;
  job_name = "email.deliver";
  payload = "{}";
  delay_until = none;
  status = pending;
  attempts = 0;
  claim_token = none;
  claim_expires_at = none;
  last_error = none;
}

abbrev table : List OutboxRow
table = row "a" ∷ row "b" ∷ []

abbrev first : Claim
first = record { now = 100; claim_ttl_ms = 60_000; token = "obclm_1" }

abbrev second : Claim
second = record { now = 130; claim_ttl_ms = 60_000; token = "obclm_2" }

abbrev unlocked : OutboxRow → Bool
unlocked r = false

-- The first claim takes one row of two, the second the other.
both_batches :
    ids (claim_jobs second unlocked 25 (claim_jobs first unlocked 1 table).1).0 ≡ "b" ∷ []
unfolding claim_jobs
both_batches = refl

claim_jobs-claim_jobs_example :
    count "a" (ids (claim_jobs first unlocked 1 table).0)
      + count "a" (ids (claim_jobs second unlocked 25 (claim_jobs first unlocked 1 table).1).0)
    ≤ 1
claim_jobs-claim_jobs_example =
    claim_jobs-claim_jobs first second unlocked unlocked (omega arith) "a" 1 25 table (omega arith)

abbrev job : OutboxRow
job = record (row "a") { claim_token = some "obclm_1"; claim_expires_at = some 60_100 }

abbrev flight : Flight
flight = record { job = job; token = "obclm_1"; phase = holding }

abbrev start : World
start = record { rows = row "a" ∷ []; flights = []; log = [] }

abbrev taken : World
taken = record { rows = job ∷ []; flights = flight ∷ []; log = [] }

abbrev delivered : World
delivered = record {
  rows = job ∷ [];
  flights = record flight { phase = sent } ∷ [];
  log = "a" ∷ [];
}

abbrev done : World
done = record { rows = record (row "a") { status = published } ∷ []; flights = []; log = "a" ∷ [] }

take : Step start taken
unfolding claim_jobs
take = claim start first unlocked 25

deliver : Step taken delivered
deliver = publish taken [] [] flight refl refl

finish : Step delivered done
unfolding after_publish mark_published update_where
finish = mark delivered [] [] (record flight { phase = sent }) refl refl

start-IsSafe : IsSafe start
start-IsSafe = record { rows_logged = ((λ e. cc), tt); flights_logged = tt }

Reach-IsSafe_example : IsSafe done
Reach-IsSafe_example = Reach-IsSafe start-IsSafe (next (next (next here take) deliver) finish)
