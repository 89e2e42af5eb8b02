-- ===== src/Accept/Email/Promises.antt =====
-- What acceptTransactionalEmail of email/accept/accept.ts promises of the state that it leaves.
use relayit.Prelude.{◌≡◌, ◌⊎◌, String, true, false, some, List, [], ◌∷◌, ◌++◌, Result, ok, err}
use relayit.Accept.Idempotency.{IdempotencyRow, recorded, record_message_idempotency}
use relayit.Accept.Email.{
  AcceptInput, AcceptedEmail, AcceptError, ProviderKind, uploaded, removed, reserved, released,
  State, Surroundings, present,
}
use relayit.Delivery.Email.{queued}
use relayit.Accept.Contacts.Merging.{emails}
use relayit.Accept.Email.Effects.{Upserts, Emits, contacts_of, events_of}
use relayit.Accept.Email.Reads.{Prepared, stripped, prepare}
use relayit.Accept.Email.Pipeline.{retry}

abbrev pub Fails : Result AcceptError AcceptedEmail → Type 0
Fails result =
    ((e : AcceptError) × (result ≡ err e))
    ⊎ ((a : AcceptedEmail) × (result ≡ ok a) × (a.replayed ≡ true))

module _ (w : Surroundings) where
  abbrev pub accepted : Prepared → AcceptedEmail
  accepted p = record {
    delivery_id = w.delivery_id;
    message_id = w.message_id;
    replayed = false;
    stripped = stripped p;
  }

  -- An acceptance that is not a replay, with all that it leaves: the usage is reserved and not
  -- released, the attachments are uploaded and not removed, one message, one queued delivery with the
  -- recipients who are kept, and one job for it are added, the contacts are upserted and the events
  -- emitted, and the key, where there is one, is recorded for the message.
  pub record IsAccepted (input : AcceptInput) (s s' : State) (a : AcceptedEmail) : Type 0 where
    pub prepared : Prepared
    pub billing : String
    pub staged : List String
    pub was_prepared : prepare w input ≡ ok prepared
    pub was_charged : w.reserve prepared.provider_kind ≡ ok billing
    pub charged : s'.usage ≡ reserved w.delivery_id ∷ s.usage
    pub was_staged : w.stage_attachments prepared.attachments ≡ ok staged
    pub attached : s'.attachments ≡ uploaded staged ∷ s.attachments
    pub one_message :
        s'.tables.messages
        ≡ s.tables.messages
          ++ record {
            id = w.message_id;
            environment_id = prepared.environment;
            scheduled_at = input.scheduled_at;
            tags = input.tags;
            template_id = prepared.content.template_id;
          }
            ∷ []
    pub one_delivery :
        s'.tables.deliveries
        ≡ s.tables.deliveries
          ++ record {
            id = w.delivery_id;
            message_id = w.message_id;
            to = emails prepared.to.kept;
            cc = emails prepared.cc.kept;
            bcc = emails prepared.bcc.kept;
            from_address = input.from_address;
            headers = input.headers;
            reply_to = input.reply_to;
            content = prepared.content;
            sender = prepared.sender;
            status = queued;
          }
            ∷ []
    pub one_job :
        s'.tables.jobs
        ≡ s.tables.jobs
          ++ record {
            billing_user_id = billing;
            delivery_id = w.delivery_id;
            provider_kind = prepared.provider_kind;
            start = w.now;
            delay_until = input.scheduled_at;
          }
            ∷ []
    pub were_upserted : Upserts w (contacts_of w prepared) s.tables.contacts s'.tables.contacts
    pub were_emitted : Emits w (events_of w input prepared) s.tables.webhooks s'.tables.webhooks
    pub named :
        (a.delivery_id ≡ w.delivery_id) × (a.message_id ≡ w.message_id) × (a.replayed ≡ false)
    pub keyed :
        (key : String)
        → present input.idempotency_key ≡ some key
        → (rows : List IdempotencyRow) × (record_message_idempotency w.record_insert_ok
              w.record_query_ok w.record_others w.record_id w.now input.organization_id key
              w.message_id rows
            ≡ (ok recorded, s'.tables.idempotency))

  -- An acceptance that fails or is a replay: the tables are as before but for recorded keys. No
  -- usage is reserved, or it is released again, or all tries to release it have failed, or the
  -- reserve failed although it had run. No attachment is uploaded, or the uploaded ones are removed
  -- again, or all tries to remove them have failed.
  pub record IsUntouched (s s' : State) : Type 0 where
    pub tables : s'.tables ≡ record (s.tables) { idempotency = s'.tables.idempotency }
    pub settled :
        (s'.usage ≡ s.usage)
        ⊎ (s'.usage ≡ released w.delivery_id ∷ reserved w.delivery_id ∷ s.usage)
        ⊎ ((s'.usage ≡ reserved w.delivery_id ∷ s.usage) × (retry 3 w.release_ok ≡ false))
        ⊎ ((s'.usage ≡ reserved w.delivery_id ∷ s.usage)
            × (kind : ProviderKind) × (e : String) × (w.reserve kind ≡ err e)
            × (w.reserve_lost kind ≡ true))
    pub cleaned :
        (s'.attachments ≡ s.attachments)
        ⊎ ((staged : List String) × (s'.attachments
              ≡ removed staged ∷ uploaded staged ∷ s.attachments))
        ⊎ ((staged : List String) × (s'.attachments ≡ uploaded staged ∷ s.attachments)
            × (retry 3 w.delete_staged_ok ≡ false))

  abbrev pub Outcome : AcceptInput → State → Result AcceptError AcceptedEmail × State → Type 0
  Outcome input s r =
      ((a : AcceptedEmail) × (r.0 ≡ ok a) × IsAccepted input s r.1 a)
      ⊎ (Fails r.0 × IsUntouched s r.1)
