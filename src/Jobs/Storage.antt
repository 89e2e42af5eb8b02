-- ===== src/Jobs/Storage.antt =====
-- packages/jobs/src/storage.ts: the names of a job's keys and the four Lua scripts that move jobs
-- between the delayed set, the recurring schedule and the ready stream.
pub mod Promotion
pub mod Recurrence
mod Tests
use Prim.Native.String.{◌++◌}
use relayit.Prelude.{ℕ, suc, ◌+◌, String, Option, none, some, List, [], ◌∷◌, length}
use relayit.Redis.Queues.{Queues}

pub record JobKeys : Type 0 where
  pub delayed : String
  pub payloads : String
  pub ready : String
  pub scheduled : String
  pub workers : String

abbrev pub job_worker_group : String
job_worker_group = "relayit:jobs:workers"

unfoldable pub job_keys : String → JobKeys
job_keys name = record {
  delayed = "relayit:jobs:" ++ name ++ ":delayed";
  payloads = "relayit:jobs:" ++ name ++ ":payloads";
  ready = "relayit:jobs:" ++ name ++ ":ready";
  scheduled = "relayit:jobs:" ++ name ++ ":scheduled";
  workers = job_worker_group;
}

module _ (q : Queues) where
  open q use {State, xadd, score, zadd, zrem, due, field, hset, hdel}

  -- SCHEDULE_RECURRING_JOB_SCRIPT; ZADD answers with the number of new members.
  unfoldable pub schedule_script : JobKeys → ℕ → String → String → State → ℕ × State
  schedule_script keys run_at identity envelope s =
      let s' = hset keys.payloads identity envelope s in
      (
        elim (score s' keys.scheduled identity) [ none ↦ 1 | some _ ↦ 0 ],
        zadd keys.scheduled run_at identity s',
      )

  -- CANCEL_RECURRING_JOB_SCRIPT; ZREM answers with the number of removed members.
  unfoldable pub cancel_script : JobKeys → String → State → ℕ × State
  cancel_script keys identity s = (
    elim (score s keys.scheduled identity) [ none ↦ 0 | some _ ↦ 1 ],
    hdel keys.payloads identity (zrem keys.scheduled identity s),
  )

  -- The loop of PROMOTE_DELAYED_JOBS_SCRIPT.
  unfoldable pub promote_each : JobKeys → List String → State → State
  promote_each keys [] s = s
  promote_each keys (payload ∷ rest) s =
      promote_each keys rest (zrem keys.delayed payload (xadd keys.ready payload s))

  unfoldable pub promote_delayed_script : JobKeys → ℕ → ℕ → State → ℕ × State
  promote_delayed_script keys now limit s =
      let members = due s keys.delayed now limit in (length members, promote_each keys members s)

  -- One turn of the loop of PROMOTE_SCHEDULED_JOBS_SCRIPT, with the payload that HGET found.
  unfoldable pub promote_identity : JobKeys → String → Option String → ℕ → State → ℕ × State
  promote_identity keys identity none promoted s =
      (promoted, hdel keys.payloads identity (zrem keys.scheduled identity s))
  promote_identity keys identity (some payload) promoted s = (
    promoted + 1,
    hdel keys.payloads identity (zrem keys.scheduled identity (xadd keys.ready payload s)),
  )

  unfoldable pub promote_identities : JobKeys → List String → ℕ → State → ℕ × State
  promote_identities keys [] promoted s = (promoted, s)
  promote_identities keys (identity ∷ rest) promoted s =
      let (promoted', s') =
        promote_identity keys identity (field s keys.payloads identity) promoted s in
      promote_identities keys rest promoted' s'

  unfoldable pub promote_scheduled_script : JobKeys → ℕ → ℕ → State → ℕ × State
  promote_scheduled_script keys now limit s =
      promote_identities keys (due s keys.scheduled now limit) 0 s
