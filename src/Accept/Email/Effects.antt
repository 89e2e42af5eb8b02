-- ===== src/Accept/Email/Effects.antt =====
-- What the loops of the transaction of email/accept/accept.ts do to the contacts and to the webhooks,
-- described without the code: a chain of upserts, and a chain of emissions.
use relayit.Webhooks
use relayit.Prelude.{
  ℕ, ◌≡◌, refl, Option, none, some, List, [], ◌∷◌, ◌++◌, map, ok, arith, Option-cases, Result-cases,
  inl, inr,
}
use relayit.Webhooks.Emit.{EmitInput, EmittedWebhookEvent, emit_webhook_event}
use relayit.Accept.{MessageContact}
use relayit.Accept.Contacts.{merge_message_contacts}
use relayit.Accept.Email.{AcceptInput, Tables, Surroundings}
use relayit.Accept.Email.Reads.{Prepared, recipients}
use relayit.Accept.Email.Pipeline.{
  upsert_all, upsert_message_contacts, emit, emit_scheduled, emit_contacts, scheduled_event,
  contact_event,
}

-- Contacts upserted one after the other.
pub data Upserts (w : Surroundings)
    : List MessageContact → List MessageContact → List MessageContact → Type 0 where
  none_left : {rows : List MessageContact} → Upserts w [] rows rows
  upserted :
      {c : MessageContact} {contacts rows between after : List MessageContact}
      → w.upsert c rows ≡ some between
      → Upserts w contacts between after
      → Upserts w (c ∷ contacts) rows after

-- Events emitted one after the other.
pub data Emits (w : Surroundings)
    : List EmitInput → Webhooks.Tables → Webhooks.Tables → Type 0 where
  no_event : {t : Webhooks.Tables} → Emits w [] t t
  emitted :
      {event : EmitInput} {events : List EmitInput} {t u v : Webhooks.Tables}
      {result : Option EmittedWebhookEvent}
      → emit_webhook_event (w.emit_answers event) event t ≡ ok (result, u)
      → Emits w events u v
      → Emits w (event ∷ events) t v

module _ (w : Surroundings) where
  -- The contacts that an acceptance upserts: merged by the caller and once more by the upsert.
  abbrev pub contacts_of : Prepared → List MessageContact
  contacts_of p =
      merge_message_contacts w.normalize (merge_message_contacts w.normalize (recipients p))

  -- The events of an acceptance: message.scheduled for a scheduled one, and then contact.updated for
  -- each contact.
  abbrev pub events_of : AcceptInput → Prepared → List EmitInput
  events_of input p =
      (elim input.scheduled_at [ none ↦ [] | some at ↦ scheduled_event w input at ∷ [] ])
      ++ map (contact_event w input) (merge_message_contacts w.normalize (recipients p))

  upsert_all-Upserts :
      (contacts rows after : List MessageContact)
      → upsert_all w contacts rows ≡ ok after
      → Upserts w contacts rows after
  unfolding upsert_all
  upsert_all-Upserts [] rows after h = let same : rows ≡ after = cc in rw (← same) none_left
  upsert_all-Upserts (c ∷ contacts) rows after h = elim (Option-cases (w.upsert c rows)) [
    | inl failed ↦ ground (arith, failed, h)
    | inr (between, done) ↦
        upserted done (upsert_all-Upserts contacts between after (ground (arith, done, h)))
  ]

  pub upsert_message_contacts-Upserts :
      (contacts rows after : List MessageContact)
      → upsert_message_contacts w contacts rows ≡ ok after
      → Upserts w (merge_message_contacts w.normalize contacts) rows after
  unfolding upsert_message_contacts
  upsert_message_contacts-Upserts contacts rows after h =
      upsert_all-Upserts (merge_message_contacts w.normalize contacts) rows after h

  Emits-append :
      (es fs : List EmitInput) (t u v : Webhooks.Tables)
      → Emits w es t u
      → Emits w fs u v
      → Emits w (es ++ fs) t v
  Emits-append es fs t u v no_event b = b
  Emits-append (event ∷ es) fs t u v (emitted {u = mid} first rest) b =
      emitted first (Emits-append es fs mid u v rest b)

  emit-Emits :
      (event : EmitInput) (events : List EmitInput) (t t' : Tables) (v : Webhooks.Tables)
      → emit w event t ≡ ok t'
      → Emits w events t'.webhooks v
      → Emits w (event ∷ events) t.webhooks v
  unfolding emit
  emit-Emits event events t t' v h rest =
      elim (Result-cases (emit_webhook_event (w.emit_answers event) event t.webhooks)) [
        | inr (stage, failed) ↦ ground (arith, failed, h)
        | inl ((e, webhooks'), done) ↦
            let same : record t { webhooks = webhooks' } ≡ t' = ground (arith, done, h) in
            let moved : t'.webhooks ≡ webhooks' = rw (← same) refl in
            emitted done (rw (← moved) rest)
      ]

  emit_scheduled-Emits :
      (input : AcceptInput) (at : Option ℕ) (t t' : Tables)
      → emit_scheduled w input at t ≡ ok t'
      → Emits w
          (elim at [ none ↦ [] | some time ↦ scheduled_event w input time ∷ [] ])
          t.webhooks
          t'.webhooks
  unfolding emit_scheduled
  emit_scheduled-Emits input none t t' h = let same : t ≡ t' = cc in rw (← same) no_event
  emit_scheduled-Emits input (some at) t t' h = emit-Emits _ [] t t' t'.webhooks h no_event

  emit_contacts-Emits :
      (input : AcceptInput) (contacts : List MessageContact) (t t' : Tables)
      → emit_contacts w input contacts t ≡ ok t'
      → Emits w (map (contact_event w input) contacts) t.webhooks t'.webhooks
  unfolding emit_contacts
  emit_contacts-Emits input [] t t' h = let same : t ≡ t' = cc in rw (← same) no_event
  emit_contacts-Emits input (c ∷ contacts) t t' h =
      elim (Result-cases (emit w (contact_event w input c) t)) [
        | inr (e, failed) ↦ ground (arith, failed, h)
        | inl (u, done) ↦
            emit-Emits (contact_event w input c) (map (contact_event w input) contacts) t u
              t'.webhooks done (emit_contacts-Emits input contacts u t' (ground (arith, done, h)))
      ]

  -- The two loops of emissions, one after the other.
  pub emissions-Emits :
      (input : AcceptInput) (p : Prepared) (t u v : Tables)
      → emit_scheduled w input input.scheduled_at t ≡ ok u
      → emit_contacts w input (merge_message_contacts w.normalize (recipients p)) u ≡ ok v
      → Emits w (events_of input p) t.webhooks v.webhooks
  emissions-Emits input p t u v first second =
      Emits-append _ _ t.webhooks u.webhooks v.webhooks
        (emit_scheduled-Emits input input.scheduled_at t u first)
        (emit_contacts-Emits input (merge_message_contacts w.normalize (recipients p)) u v second)
