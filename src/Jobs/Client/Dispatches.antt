-- ===== src/Jobs/Client/Dispatches.antt =====
-- The two dispatches of client.ts reach the queues alike.
use relayit.Prelude.{
  ℕ, ◌≡◌, refl, sym, ap, ◌∙◌, String, Bool, true, Option, none, some, [], ◌∷◌, ◌++◌, ok,
}
use relayit.Redis.Queues.{Queues}
use relayit.Jobs.Storage.{job_keys}
use relayit.Jobs.Storage.Promotion
use relayit.Jobs.Outbox.{OutboxRow, pending, publish_command}
use relayit.Jobs.Client.{
  immediate, transactional, Contract, ClientAnswers, encode_job, outbox_row, Stores,
  enqueue_encoded, enqueue,
}

module _ (q : Queues) {P : Type 0} (contract : Contract P) where
  enqueue-encoded :
      (a : ClientAnswers) (payload : P) (encoded : String) (in_transaction : Bool)
      (delay_until : Option ℕ) (s : Stores q)
      → encode_job contract payload a.now ≡ some encoded
      → enqueue q contract a payload in_transaction delay_until s
        ≡ enqueue_encoded q contract a encoded in_transaction delay_until contract.dispatch s
  unfolding enqueue
  enqueue-encoded a payload encoded in_transaction delay_until s e = rw (enqueue, e) refl

  adds_row :
      (a : ClientAnswers) (encoded : String) (delay_until : Option ℕ) (s : Stores q)
      → a.insert_ok ≡ true
      → enqueue_encoded q contract a encoded true delay_until transactional s
        ≡ ok record s { rows = s.rows ++ outbox_row contract a encoded delay_until ∷ [] }
  unfolding enqueue_encoded
  adds_row a encoded delay_until s stored = rw stored refl

  sends :
      (a b : ClientAnswers) (encoded : String) (in_transaction : Bool) (delay_until : Option ℕ)
      (s : Stores q)
      → b.redis_ok ≡ true
      → enqueue_encoded q contract b encoded in_transaction delay_until immediate s
        ≡ ok record s {
          queues =
              Promotion.execute q
                (job_keys contract.name)
                (publish_command (outbox_row contract a encoded delay_until))
                s.queues;
        }
  unfolding enqueue_encoded Promotion.execute
  sends a b encoded in_transaction none s sent = rw sent refl
  sends a b encoded in_transaction (some at) s sent = rw sent refl

module _ (q : Queues) {P : Type 0} (contract : Contract P) where
  -- A transactional job and an immediate one come to the same. When the payload encodes and the
  -- database and Redis answer, both enqueues succeed: the transactional one adds one row to the
  -- outbox, pending and not claimed, and leaves the queues alone, and the immediate one, at the
  -- same time, leaves the outbox alone and does to any queues exactly what a publisher does when it
  -- sends that row under the keys of the job that the row names.
  pub enqueue-publish_command :
      (a b : ClientAnswers) (payload : P) (encoded : String) (delay_until : Option ℕ)
      (in_transaction : Bool) (s u : Stores q)
      → encode_job contract payload a.now ≡ some encoded
      → a.now ≡ b.now
      → a.insert_ok ≡ true
      → b.redis_ok ≡ true
      → (row : OutboxRow) × (row.status ≡ pending)
        × (row.claim_token ≡ none)
        × (enqueue q (record contract { dispatch = transactional }) a payload true delay_until s
            ≡ ok record s { rows = s.rows ++ row ∷ [] })
        × (enqueue q
              (record contract { dispatch = immediate })
              b
              payload
              in_transaction
              delay_until
              u
            ≡ ok record u {
              queues = Promotion.execute q (job_keys row.job_name) (publish_command row) u.queues;
            })
  unfolding encode_job
  enqueue-publish_command a b payload encoded delay_until in_transaction s u e same stored sent = (
    outbox_row contract a encoded delay_until,
    refl,
    refl,
    enqueue-encoded q (record contract { dispatch = transactional }) a payload encoded true
          delay_until s e
        ∙ adds_row q (record contract { dispatch = transactional }) a encoded delay_until s stored,
    enqueue-encoded q (record contract { dispatch = immediate }) b payload encoded in_transaction
          delay_until u (ap (encode_job contract payload) (sym same) ∙ e)
        ∙ sends q (record contract { dispatch = immediate }) a b encoded in_transaction delay_until
            u sent,
  )
