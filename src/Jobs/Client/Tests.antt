-- ===== src/Jobs/Client/Tests.antt =====
-- A run and an instance of the theorem on client.ts, over the model of the commands.
use relayit.Prelude.{
  String, ◌≡◌, refl, true, false, none, some, [], ◌∷◌, ◌++◌, ok, err, ◌==◌, if◌then◌else◌,
}
use relayit.Redis.Queues.Model.{empty, model}
use relayit.Jobs.Storage.{job_keys, schedule_script, cancel_script}
use relayit.Jobs.Storage.Promotion
use relayit.Jobs.Outbox.{OutboxRow, pending, publish_command}
use relayit.Jobs.Client.{
  immediate, transactional, Contract, ClientAnswers, encode_job, outbox, Stores, enqueue_encoded,
  enqueue,
}
use relayit.Jobs.Client.Dispatches.{enqueue-publish_command}

abbrev contract : Contract String
contract = record {
  name = "email.deliver";
  dispatch = transactional;
  identity = λ payload. payload;
  encode_payload = λ payload. some payload;
  encode_envelope = λ e. if e.first_enqueued_at == 7 then some e.body else none;
}

abbrev answers : ClientAnswers
answers = record { now = 7; outbox_id = "o1"; insert_ok = true; redis_ok = true }

abbrev stores : Stores model
stores = record { queues = empty; rows = [] }

encodes_text : encode_job contract "a" 7 ≡ some "a"
unfolding encode_job
encodes_text = refl

-- A transactional job without a transaction is refused.
enqueue_outside : enqueue model contract answers "a" false none stores ≡ err outbox
unfolding enqueue enqueue_encoded encode_job
enqueue_outside = refl

-- A cancelled recurrence has no score.
cancels_schedule :
    model.score
      (cancel_script model
        (job_keys "email.deliver")
        "a"
        (schedule_script model (job_keys "email.deliver") 50 "a" "a" empty).1).1
      (job_keys "email.deliver").scheduled
      "a"
    ≡ none
unfolding cancel_script schedule_script job_keys
cancels_schedule = refl

enqueue-publish_command_example :
    (row : OutboxRow) × (row.status ≡ pending)
    × (row.claim_token ≡ none)
    × (enqueue model
          (record contract { dispatch = transactional })
          answers
          "a"
          true
          (some 50)
          stores
        ≡ ok record stores { rows = stores.rows ++ row ∷ [] })
    × (enqueue model (record contract { dispatch = immediate }) answers "a" false (some 50) stores
        ≡ ok record stores {
          queues =
              Promotion.execute model (job_keys row.job_name) (publish_command row) stores.queues;
        })
enqueue-publish_command_example =
    enqueue-publish_command model contract answers answers "a" "a" (some 50) false stores stores
      encodes_text refl refl refl
