-- ===== src/Accept/Email/Transaction.antt =====
-- The transaction of acceptTransactionalEmail (email/accept/accept.ts): the rows that it adds when it
-- succeeds.
use relayit.Webhooks
use relayit.Prelude.{
  ℕ, ◌≡◌, refl, ap, ◌∙◌, ◌⊎◌, inl, inr, String, Option, none, some, List, [], ◌∷◌, ◌++◌, ok, arith,
  Result-cases,
}
use relayit.Prelude.Fallible.{bind-ok, check}
use relayit.Webhooks.Emit.{EmitInput, emit_webhook_event}
use relayit.Accept.{MessageContact}
use relayit.Accept.Contacts.{merge_message_contacts}
use relayit.Accept.Idempotency.{RecordResult, recorded, replay, record_message_idempotency}
use relayit.Accept.Email.{
  AcceptInput, Tables, Surroundings, present, enqueue, commit, insert_message,
  insert_email_delivery,
}
use relayit.Accept.Email.Reads.{Prepared, recipients}
use relayit.Accept.Email.Effects.{
  Upserts, Emits, contacts_of, events_of, upsert_message_contacts-Upserts, emissions-Emits,
}
use relayit.Accept.Email.Pipeline.{
  delivery_row, message_row, job_of, insert_rows, upsert_message_contacts, record_key, emit,
  emit_scheduled, emit_contacts, contact_event, finish, transact,
}

-- Tables that differ in the webhooks alone.
pub record SameRows (t t' : Tables) : Type 0 where
  pub same_messages : t'.messages ≡ t.messages
  pub same_deliveries : t'.deliveries ≡ t.deliveries
  pub same_contacts : t'.contacts ≡ t.contacts
  pub same_idempotency : t'.idempotency ≡ t.idempotency
  pub same_jobs : t'.jobs ≡ t.jobs

SameRows-refl : (t : Tables) → SameRows t t
SameRows-refl t = record {
  same_messages = refl;
  same_deliveries = refl;
  same_contacts = refl;
  same_idempotency = refl;
  same_jobs = refl;
}

SameRows-webhooks : (t : Tables) (v : Webhooks.Tables) → SameRows t (record t { webhooks = v })
SameRows-webhooks t v = record {
  same_messages = refl;
  same_deliveries = refl;
  same_contacts = refl;
  same_idempotency = refl;
  same_jobs = refl;
}

SameRows-trans : (t u v : Tables) → SameRows t u → SameRows u v → SameRows t v
SameRows-trans t u v a b = record {
  same_messages = b.same_messages ∙ a.same_messages;
  same_deliveries = b.same_deliveries ∙ a.same_deliveries;
  same_contacts = b.same_contacts ∙ a.same_contacts;
  same_idempotency = b.same_idempotency ∙ a.same_idempotency;
  same_jobs = b.same_jobs ∙ a.same_jobs;
}

RecordResult-cases : (r : RecordResult) → (r ≡ recorded) ⊎ ((id : String) × (r ≡ replay id))
RecordResult-cases recorded = inl refl
RecordResult-cases (replay id) = inr (id, refl)

module _ (w : Surroundings) where
  emit-SameRows : (event : EmitInput) (t t' : Tables) → emit w event t ≡ ok t' → SameRows t t'
  unfolding emit
  emit-SameRows event t t' h =
      elim (Result-cases (emit_webhook_event (w.emit_answers event) event t.webhooks)) [
        | inr (stage, failed) ↦ ground (arith, failed, h)
        | inl ((e, webhooks'), done) ↦
            let same : record t { webhooks = webhooks' } ≡ t' = ground (arith, done, h) in
            rw (← same) (SameRows-webhooks t webhooks')
      ]

  emit_scheduled-SameRows :
      (input : AcceptInput) (at : Option ℕ) (t t' : Tables)
      → emit_scheduled w input at t ≡ ok t'
      → SameRows t t'
  unfolding emit_scheduled
  emit_scheduled-SameRows input none t t' h =
      let same : t ≡ t' = cc in rw (← same) (SameRows-refl t)
  emit_scheduled-SameRows input (some at) t t' h = emit-SameRows _ t t' h

  emit_contacts-SameRows :
      (input : AcceptInput) (contacts : List MessageContact) (t t' : Tables)
      → emit_contacts w input contacts t ≡ ok t'
      → SameRows t t'
  unfolding emit_contacts
  emit_contacts-SameRows input [] t t' h = let same : t ≡ t' = cc in rw (← same) (SameRows-refl t)
  emit_contacts-SameRows input (c ∷ contacts) t t' h =
      elim (Result-cases (emit w (contact_event w input c) t)) [
        | inr (e, failed) ↦ ground (arith, failed, h)
        | inl (u, done) ↦
            SameRows-trans t u t' (emit-SameRows (contact_event w input c) t u done)
              (emit_contacts-SameRows input contacts u t' (ground (arith, done, h)))
      ]

  -- What recording the key leaves.
  pub record_key-ok :
      (input : AcceptInput) (key : String) (t t' : Tables)
      → record_key w input (some key) t ≡ ok t'
      → (record_message_idempotency w.record_insert_ok w.record_query_ok w.record_others w.record_id
            w.now input.organization_id key w.message_id t.idempotency
          ≡ (ok recorded, t'.idempotency))
        × (t' ≡ record t { idempotency = t'.idempotency })
  unfolding record_key
  record_key-ok input key t t' h =
      let answer =
        record_message_idempotency w.record_insert_ok w.record_query_ok w.record_others w.record_id
          w.now input.organization_id key w.message_id t.idempotency in
      elim (Result-cases answer.0) [
        | inr (e, failed) ↦ ground (arith, failed, h)
        | inl (result, done) ↦ elim (RecordResult-cases result) [
          | inr (id, replayed) ↦ ground (arith, done, replayed, h)
          | inl new ↦
              let same : record t { idempotency = answer.1 } ≡ t' = ground (arith, done, new, h) in
              rw (← same) (ground (arith, done, new), refl)
        ]
      ]

  pub record_key-rows :
      (input : AcceptInput) (key : Option String) (t t' : Tables)
      → record_key w input key t ≡ ok t'
      → t' ≡ record t { idempotency = t'.idempotency }
  unfolding record_key
  record_key-rows input none t t' h = let same : t ≡ t' = cc in rw (← same) refl
  record_key-rows input (some key) t t' h = let (_, same) = record_key-ok input key t t' h in same

  -- The rows that the end of the transaction adds.
  pub record IsFinished (input : AcceptInput) (p : Prepared) (billing : String) (t t' : Tables)
      : Type 0 where
    pub contacts : List MessageContact
    pub keyed : Tables
    pub was_recorded :
        record_key w input (present input.idempotency_key) (record t { contacts = contacts })
        ≡ ok keyed
    pub were_upserted : Upserts w (contacts_of w p) t.contacts contacts
    pub were_emitted : Emits w (events_of w input p) t.webhooks t'.webhooks
    pub same_rows :
        SameRows (record keyed { jobs = keyed.jobs ++ job_of w input p billing ∷ [] }) t'

  pub finish-ok :
      (input : AcceptInput) (p : Prepared) (billing : String) (t t' : Tables)
      → finish w input p billing t ≡ ok t'
      → IsFinished input p billing t t'
  unfolding finish
  finish-ok input p billing t t' h =
      let (contacts, upserted, h1) =
        bind-ok
          (upsert_message_contacts w (merge_message_contacts w.normalize (recipients p)) t.contacts)
          _ t' h in
      let (t1, keyed, h2) =
        bind-ok
          (record_key w input (present input.idempotency_key) (record t { contacts = contacts })) _
          t' h1 in
      let (_, enqueued, h3) = bind-ok (check w.enqueue_ok enqueue) _ t' h2 in
      let t1' : Tables = record t1 { jobs = t1.jobs ++ job_of w input p billing ∷ [] } in
      let (t2, scheduled, h4) = bind-ok (emit_scheduled w input input.scheduled_at t1') _ t' h3 in
      let (t3, told, h5) =
        bind-ok (emit_contacts w input (merge_message_contacts w.normalize (recipients p)) t2) _ t'
          h4 in
      let (_, committed, h6) = bind-ok (check w.commit_ok commit) _ t' h5 in
      let same : t3 ≡ t' = cc in
      record {
        contacts = contacts;
        keyed = t1;
        was_recorded = keyed;
        were_upserted =
            upsert_message_contacts-Upserts w (merge_message_contacts w.normalize (recipients p))
              t.contacts contacts upserted;
        were_emitted =
            (let rows =
                record_key-rows input (present input.idempotency_key)
                  (record t { contacts = contacts }) t1 keyed in
              let start : t1.webhooks ≡ t.webhooks = ap (λ (x : Tables). x.webhooks) rows in
              rw (← start, ← same) (emissions-Emits w input p t1' t2 t3 scheduled told));
        same_rows = rw (← same) (
            SameRows-trans t1' t2 t3
              (emit_scheduled-SameRows input input.scheduled_at t1' t2 scheduled)
              (emit_contacts-SameRows input (merge_message_contacts w.normalize (recipients p)) t2
                t3 told));
      }

  unfoldable pub inserted : AcceptInput → Prepared → Tables → Tables
  inserted input p t = record t {
    messages = t.messages ++ message_row w input p ∷ [];
    deliveries = t.deliveries ++ delivery_row w input p ∷ [];
  }

  insert_rows-ok :
      (input : AcceptInput) (p : Prepared) (t t' : Tables)
      → insert_rows w input p t ≡ ok t'
      → inserted input p t ≡ t'
  unfolding insert_rows inserted
  insert_rows-ok input p t t' h =
      let (_, first, h1) = bind-ok (check w.insert_message_ok insert_message) _ t' h in
      let (_, second, h2) = bind-ok (check w.insert_delivery_ok insert_email_delivery) _ t' h1 in cc

  pub transact-ok :
      (input : AcceptInput) (p : Prepared) (billing : String) (t t' : Tables)
      → (transact w input p billing t).0 ≡ ok t'
      → finish w input p billing (inserted input p t) ≡ ok t'
  unfolding transact
  transact-ok input p billing t t' h = elim (Result-cases (insert_rows w input p t)) [
    | inr (e, failed) ↦ ground (arith, failed, h)
    | inl (t1, rows) ↦ elim (Result-cases (w.stage_attachments p.attachments)) [
      | inr (e, failed) ↦ ground (arith, rows, failed, h)
      | inl (staged, done) ↦
          let same = insert_rows-ok input p t t1 rows in
          let end : finish w input p billing t1 ≡ ok t' = ground (arith, rows, done, h) in
          rw same end
    ]
  ]

  pub transact-staged :
      (input : AcceptInput) (p : Prepared) (billing : String) (t t' : Tables)
      → (transact w input p billing t).0 ≡ ok t'
      → w.stage_attachments p.attachments ≡ ok (transact w input p billing t).1
  unfolding transact
  transact-staged input p billing t t' h = elim (Result-cases (insert_rows w input p t)) [
    | inr (e, failed) ↦ ground (arith, failed, h)
    | inl (t1, rows) ↦ elim (Result-cases (w.stage_attachments p.attachments)) [
      | inr (e, failed) ↦ ground (arith, rows, failed, h)
      | inl (staged, done) ↦ ground (arith, rows, done)
    ]
  ]
