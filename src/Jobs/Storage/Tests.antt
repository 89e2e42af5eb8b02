-- ===== src/Jobs/Storage/Tests.antt =====
-- Runs and instances of the theorems on the scripts of storage.ts, over the model of the commands.
use relayit.Prelude.{◌+◌, ◌<◌, String, ◌≡◌, refl, none, List, [], ◌∷◌, arith, length}
use relayit.Prelude.Counts.{count}
use relayit.Redis.Queues.Model.{Memory, empty, model}
use relayit.Jobs.Storage.{
  JobKeys, job_keys, promote_each, promote_delayed_script, promote_scheduled_script,
}
use relayit.Jobs.Storage.Promotion
use relayit.Jobs.Storage.Recurrence
use relayit.Jobs.Storage.Promotion.{held, added, held-run, promote_delayed_due}
use relayit.Jobs.Storage.Recurrence.{IsPaired, run-IsPaired, payloads_of, promote_scheduled_due}

abbrev keys : JobKeys
keys = record {
  delayed = "relayit:jobs:email.deliver:delayed";
  payloads = "relayit:jobs:email.deliver:payloads";
  ready = "relayit:jobs:email.deliver:ready";
  scheduled = "relayit:jobs:email.deliver:scheduled";
  workers = "relayit:jobs:workers";
}

keys_email : keys ≡ job_keys "email.deliver"
unfolding job_keys
keys_email = refl

abbrev busy : List Promotion.Command
busy =
    Promotion.delay "a" 50
    ∷ Promotion.append "b"
    ∷ Promotion.promote 40 25
    ∷ Promotion.promote 60 25
    ∷ Promotion.promote 60 25
    ∷ []

-- The delayed job is moved once, when it is due.
busy_ready : (Promotion.run model keys busy empty).streams keys.ready ≡ "b" ∷ "a" ∷ []
unfolding Promotion.run Promotion.execute promote_delayed_script promote_each
busy_ready = refl

held-run_example :
    held model keys (Promotion.run model keys busy empty) "a"
    ≡ held model keys empty "a" + added "a" busy
held-run_example = held-run model keys busy empty "a" (omega arith)

abbrev waiting : Memory
waiting = model.zadd keys.delayed 50 "a" (model.zadd keys.delayed 90 "c" empty)

waiting_short : (promote_delayed_script model keys 60 25 waiting).0 < 25
unfolding promote_delayed_script
waiting_short = omega arith

abbrev plan : List Recurrence.Command
plan =
    Recurrence.schedule "nightly" "x" 30
    ∷ Recurrence.schedule "hourly" "y" 10
    ∷ Recurrence.cancel "hourly"
    ∷ Recurrence.promote 60 25
    ∷ []

run-IsPaired_example : IsPaired model keys (Recurrence.run model keys plan empty) "nightly"
run-IsPaired_example = run-IsPaired model keys plan empty "nightly" refl

abbrev planned : Memory
planned = model.zadd keys.scheduled 30 "nightly" (model.hset keys.payloads "nightly" "x" empty)

planned-IsPaired : (i : String) → IsPaired model keys planned i
planned-IsPaired i = ground arith

promote_scheduled_due_example :
    ((promote_scheduled_script model keys 60 25 planned).0
      ≡ length (model.due planned keys.scheduled 60 25))
    × ((m : String)
        → count m (model.stream (promote_scheduled_script model keys 60 25 planned).1 keys.ready)
          ≡ count m (model.stream planned keys.ready)
            + payloads_of model keys planned m (model.due planned keys.scheduled 60 25))
    × ((i : String)
        → 0 < count i (model.due planned keys.scheduled 60 25)
        → model.score (promote_scheduled_script model keys 60 25 planned).1 keys.scheduled i ≡ none)
promote_scheduled_due_example = promote_scheduled_due model keys 60 25 planned planned-IsPaired
