-- ===== src/Jobs/Outbox.antt =====
-- The transactional outbox of packages/jobs/src/outbox.ts: jobs that a transaction has inserted are
-- claimed in batches, published to Redis and marked. The table is the list of its rows, in the order
-- of their creation, and an UPDATE of Postgres is a map over the rows that its condition selects.
pub mod Claims
pub mod Publishing
mod Tests
use relayit.Prelude.{
  ℕ, zero, suc, ◌+◌, String, Bool, true, false, not, ◌&&◌, ◌||◌, Option, none, some, List, [], ◌∷◌,
  Result, ok, err, str_eq, ltb, if◌then◌else◌,
}
use relayit.Prelude.Tables.{update_where}
use relayit.Jobs.Storage.Promotion.{Command, append, delay}

pub data OutboxStatus : Type 0 where
  pending published : OutboxStatus

pub record OutboxRow : Type 0 where
  pub id : String
  pub job_name : String
  pub payload : String
  pub delay_until : Option ℕ
  pub status : OutboxStatus
  pub attempts : ℕ
  pub claim_token : Option String
  pub claim_expires_at : Option ℕ
  pub last_error : Option String

-- A claim with the time of the claim, its expiry and its new token.
pub record Claim : Type 0 where
  pub now : ℕ
  pub claim_ttl_ms : ℕ
  pub token : String

abbrev pub is_pending : OutboxRow → Bool
is_pending row = elim row.status [ pending ↦ true | published ↦ false ]

-- `isNull(claimExpiresAt) or claimExpiresAt < now`
abbrev pub is_free : ℕ → OutboxRow → Bool
is_free now row = elim row.claim_expires_at [ none ↦ true | some at ↦ ltb at now ]

abbrev pub is_available : ℕ → OutboxRow → Bool
is_available now row = is_pending row && is_free now row

abbrev pub claimed : Claim → OutboxRow → OutboxRow
claimed c row = record row {
  claim_token = some c.token;
  claim_expires_at = some (c.now + c.claim_ttl_ms);
}

-- claimOutboxJobs: at most `budget` available rows that no other transaction has locked (skipLocked)
-- are returned and updated; the table follows.
unfoldable pub claim_jobs :
    Claim → (OutboxRow → Bool) → ℕ → List OutboxRow → List OutboxRow × List OutboxRow
claim_jobs c locked zero rows = ([], rows)
claim_jobs c locked (suc left) [] = ([], [])
claim_jobs c locked (suc left) (row ∷ rows) =
    let taken = claim_jobs c locked left rows in
    let passed = claim_jobs c locked (suc left) rows in
    if is_available c.now row && not (locked row)
    then (claimed c row ∷ taken.0, claimed c row ∷ taken.1)
    else (passed.0, row ∷ passed.1)

-- `id = job.id and claimToken = job.claimToken`
abbrev pub is_claim_of : String → String → OutboxRow → Bool
is_claim_of id token row =
    str_eq row.id id && elim row.claim_token [ none ↦ false | some t ↦ str_eq t token ]

unfoldable pub release_claim : OutboxRow → String → String → List OutboxRow → List OutboxRow
release_claim job token cause = update_where (is_claim_of job.id token) (λ row. record row {
  attempts = job.attempts + 1;
  claim_token = none;
  claim_expires_at = none;
  last_error = some cause;
})

unfoldable pub mark_published : OutboxRow → String → List OutboxRow → List OutboxRow
mark_published job token = update_where (is_claim_of job.id token) (λ row. record row {
  claim_token = none;
  claim_expires_at = none;
  last_error = none;
  status = published;
})

-- What publishOutboxJob asks of Redis.
abbrev pub publish_command : OutboxRow → Command
publish_command job = elim job.delay_until [
  | none ↦ append job.payload
  | some at ↦ delay job.payload at
]

-- publishOutboxJob, by the answer of Redis: the statement that follows it.
unfoldable pub after_publish :
    OutboxRow → String → Result String (Unit {0}) → List OutboxRow → List OutboxRow
after_publish job token (ok _) = mark_published job token
after_publish job token (err cause) = release_claim job token cause
