-- ===== src/Accept/Email/Pipeline.antt =====
-- acceptTransactionalEmail of email/accept/accept.ts, step by step.
use relayit.Prelude.{
  ℕ, zero, suc, String, Bool, true, false, not, Option, none, some, List, [], ◌∷◌, ◌++◌, Result, ok,
  err, str_eq, if◌then◌else◌,
}
use relayit.Prelude.Fallible.{◌>>=◌, check}
use relayit.Prelude.Tables.{find_where}
use relayit.Webhooks.Emit.{EmitInput, emit_webhook_event}
use relayit.Delivery.Email.{queued}
use relayit.Accept.{MessageContact}
use relayit.Accept.Contacts.{merge_message_contacts}
use relayit.Accept.Contacts.Merging.{emails}
use relayit.Accept.Idempotency
use relayit.Accept.Idempotency.{
  RecordResult, recorded, replay, find_message_replay, record_message_idempotency,
}
use relayit.Accept.Email.Reads.{Prepared, recipients, stripped, prepare}
use relayit.Accept.Email.{
  AcceptInput, MessageRow, EmailDelivery, DeliverJob, AcceptedEmail, AcceptError, no_recipients,
  invalid_attachment, find_email_delivery, insert_message, insert_email_delivery, find_idempotency,
  expire_idempotency, record_idempotency, upsert_contact, enqueue, emission, commit,
  concurrent_replay, other, uploaded, removed, Tables, reserved, released, State, Surroundings,
  present,
}

abbrev pub of_idempotency : Idempotency.Operation → AcceptError
of_idempotency Idempotency.find_idempotency = find_idempotency
of_idempotency Idempotency.expire_idempotency = expire_idempotency
of_idempotency Idempotency.record_idempotency = record_idempotency

abbrev pub is_of_message : String → EmailDelivery → Bool
is_of_message message_id row = str_eq row.message_id message_id

unfoldable pub accepted_of : String → List EmailDelivery → Option AcceptedEmail
accepted_of message_id rows = elim (find_where (is_of_message message_id) rows) [
  | none ↦ none
  | some row ↦
      some record { delivery_id = row.id; message_id = message_id; replayed = true; stripped = [] }
]

-- Whether one of at most `n` tries succeeds.
unfoldable pub retry : ℕ → (ℕ → Bool) → Bool
retry zero attempt = false
retry (suc n) attempt = let rest = retry n attempt in if attempt n then true else rest

unfoldable pub find_with_retry :
    ℕ → (ℕ → Option (List EmailDelivery)) → String → Option AcceptedEmail
find_with_retry zero attempt message_id = none
find_with_retry (suc n) attempt message_id =
    let rest = find_with_retry n attempt message_id in
    elim (attempt n) [
      | none ↦ rest
      | some rows ↦ elim (accepted_of message_id rows) [ none ↦ rest | some email ↦ some email ]
    ]

module _ (w : Surroundings) where
  open w use {
    normalize, lower, is_blocked_attachment_filename, now, replay_query_ok, replay_delete_ok,
    delivery_query_ok, prepare_email_content, resolve_email_sender, resolve_app_environment,
    to_rows, cc_rows, bcc_rows, assert_members, resolve_provider_kind, resolve_attachments,
    delivery_id, message_id, reserve, reserve_lost, insert_message_ok, insert_delivery_ok,
    stage_attachments, upsert, record_insert_ok, record_query_ok, record_others, record_id,
    enqueue_ok, emit_answers, event_data, iso_string, commit_ok, release_ok, delete_staged_ok,
    deliveries_later,
  }

  abbrev pub delivery_row : AcceptInput → Prepared → EmailDelivery
  delivery_row input p = record {
    id = delivery_id;
    message_id = message_id;
    to = emails p.to.kept;
    cc = emails p.cc.kept;
    bcc = emails p.bcc.kept;
    from_address = input.from_address;
    headers = input.headers;
    reply_to = input.reply_to;
    content = p.content;
    sender = p.sender;
    status = queued;
  }

  abbrev pub message_row : AcceptInput → Prepared → MessageRow
  message_row input p = record {
    id = message_id;
    environment_id = p.environment;
    scheduled_at = input.scheduled_at;
    tags = input.tags;
    template_id = p.content.template_id;
  }

  abbrev pub job_of : AcceptInput → Prepared → String → DeliverJob
  job_of input p billing_user_id = record {
    billing_user_id = billing_user_id;
    delivery_id = delivery_id;
    provider_kind = p.provider_kind;
    start = now;
    delay_until = input.scheduled_at;
  }

  -- The two inserts that the transaction begins with.
  unfoldable pub insert_rows : AcceptInput → Prepared → Tables → Result AcceptError Tables
  insert_rows input p t = do
    _ ← check insert_message_ok insert_message
    _ ← check insert_delivery_ok insert_email_delivery
    ok record t {
      messages = t.messages ++ message_row input p ∷ [];
      deliveries = t.deliveries ++ delivery_row input p ∷ [];
    }

  -- The loop of upsertMessageContacts.
  unfoldable pub upsert_all :
      List MessageContact → List MessageContact → Result AcceptError (List MessageContact)
  upsert_all [] stored = ok stored
  upsert_all (c ∷ contacts) stored = elim (upsert c stored) [
    | none ↦ err upsert_contact
    | some stored' ↦ upsert_all contacts stored'
  ]

  unfoldable pub upsert_message_contacts :
      List MessageContact → List MessageContact → Result AcceptError (List MessageContact)
  upsert_message_contacts contacts stored =
      upsert_all (merge_message_contacts normalize contacts) stored

  unfoldable pub record_key : AcceptInput → Option String → Tables → Result AcceptError Tables
  record_key input none t = ok t
  record_key input (some key) t =
      let (result, rows) =
        record_message_idempotency record_insert_ok record_query_ok record_others record_id now
          input.organization_id key message_id t.idempotency in
      elim result [
        | err e ↦ err (of_idempotency e)
        | ok (replay other_id) ↦ err (concurrent_replay other_id)
        | ok recorded ↦ ok record t { idempotency = rows }
      ]

  unfoldable pub emit : EmitInput → Tables → Result AcceptError Tables
  emit event t = elim (emit_webhook_event (emit_answers event) event t.webhooks) [
    | err _ ↦ err emission
    | ok (_, webhooks') ↦ ok record t { webhooks = webhooks' }
  ]

  abbrev pub scheduled_event : AcceptInput → ℕ → EmitInput
  scheduled_event input at = record {
    event_type = "message.scheduled";
    data_text = event_data (
        ("delivery_id", delivery_id)
        ∷ ("message_id", message_id)
        ∷ ("scheduled_at", iso_string at)
        ∷ []);
    idempotency_id = none;
    message_tags = input.tags;
    organization_id = input.organization_id;
  }

  abbrev pub contact_event : AcceptInput → MessageContact → EmitInput
  contact_event input c = record {
    event_type = "contact.updated";
    data_text =
        event_data
          (("email", c.email) ∷ ("message_id", message_id) ∷ ("source", "message.accept") ∷ []);
    idempotency_id = none;
    message_tags = none;
    organization_id = input.organization_id;
  }

  unfoldable pub emit_scheduled : AcceptInput → Option ℕ → Tables → Result AcceptError Tables
  emit_scheduled input none t = ok t
  emit_scheduled input (some at) t = emit (scheduled_event input at) t

  unfoldable pub emit_contacts :
      AcceptInput → List MessageContact → Tables → Result AcceptError Tables
  emit_contacts input [] t = ok t
  emit_contacts input (c ∷ contacts) t = elim (emit (contact_event input c) t) [
    | err e ↦ err e
    | ok t' ↦ emit_contacts input contacts t'
  ]

  -- The transaction from the upsert of the contacts on.
  unfoldable pub finish : AcceptInput → Prepared → String → Tables → Result AcceptError Tables
  finish input p billing_user_id t = do
    contacts ← upsert_message_contacts (merge_message_contacts normalize (recipients p)) t.contacts
    t1 ← record_key input (present input.idempotency_key) (record t { contacts = contacts })
    _ ← check enqueue_ok enqueue
    t2 ←
        emit_scheduled input input.scheduled_at
          (record t1 { jobs = t1.jobs ++ job_of input p billing_user_id ∷ [] })
    t3 ← emit_contacts input (merge_message_contacts normalize (recipients p)) t2
    _ ← check commit_ok commit
    ok t3

  -- The transaction, with the attachments that it has staged.
  unfoldable pub transact :
      AcceptInput → Prepared → String → Tables → Result AcceptError Tables × List String
  transact input p billing_user_id t = elim (insert_rows input p t) [
    | err e ↦ (err e, [])
    | ok t1 ↦ elim (stage_attachments p.attachments) [
      | err e ↦ (err (other e), [])
      | ok staged ↦ (finish input p billing_user_id t1, staged)
    ]
  ]

  -- The usage is released and the staged attachments are deleted, each with two more tries; what
  -- still fails is ignored.
  unfoldable pub compensate : List String → State → State
  compensate staged s = record s {
    usage = if retry 3 release_ok then released delivery_id ∷ s.usage else s.usage;
    attachments =
        if retry 3 delete_staged_ok then removed staged ∷ s.attachments else s.attachments;
  }

  -- After a transaction that failed.
  unfoldable pub after_failure : AcceptError → Result AcceptError AcceptedEmail
  after_failure (concurrent_replay other_id) = elim (find_with_retry 3 deliveries_later other_id) [
    | some email ↦ ok email
    | none ↦ err (concurrent_replay other_id)
  ]
  after_failure e = err e

  -- After a reserve that failed: nothing gives its usage back.
  abbrev pub after_refusal : Bool → State → State
  after_refusal lost s = record s {
    usage = if lost then reserved delivery_id ∷ s.usage else s.usage;
  }

  -- From the reservation on. The attachments that the transaction has staged are uploaded, the
  -- empty list when it fails before.
  unfoldable pub commit_email :
      AcceptInput → Prepared → State → Result AcceptError AcceptedEmail × State
  commit_email input p s = elim (reserve p.provider_kind) [
    | err e ↦ (err (other e), after_refusal (reserve_lost p.provider_kind) s)
    | ok billing_user_id ↦
        let (result, staged) = transact input p billing_user_id s.tables in
        let s1 : State = record s {
          usage = reserved delivery_id ∷ s.usage;
          attachments = uploaded staged ∷ s.attachments;
        } in
        elim result [
          | err e ↦ (after_failure e, compensate staged s1)
          | ok t' ↦ (
            ok record {
              delivery_id = delivery_id;
              message_id = message_id;
              replayed = false;
              stripped = stripped p;
            },
            record s1 { tables = t' },
          )
        ]
  ]

  abbrev pub continue : AcceptInput → State → Result AcceptError AcceptedEmail × State
  continue input s = elim (prepare w input) [ err e ↦ (err e, s) | ok p ↦ commit_email input p s ]

  -- The replay of a key that is recorded for a message.
  unfoldable pub replay_message :
      AcceptInput → Option String → State → Result AcceptError AcceptedEmail × State
  replay_message input none s = continue input s
  replay_message input (some id) s =
      if delivery_query_ok
      then elim (accepted_of id s.tables.deliveries) [
        | some email ↦ (ok email, s)
        | none ↦ continue input s
      ]
      else (err find_email_delivery, s)

  unfoldable pub accept_keyed :
      AcceptInput → Option String → State → Result AcceptError AcceptedEmail × State
  accept_keyed input none s = continue input s
  accept_keyed input (some key) s =
      let (found, rows) =
        find_message_replay replay_query_ok replay_delete_ok now input.organization_id key
          s.tables.idempotency in
      let s' : State = record s { tables = record (s.tables) { idempotency = rows } } in
      elim found [
        | err e ↦ (err (of_idempotency e), s')
        | ok id ↦ replay_message input (present id) s'
      ]

  unfoldable pub has_blocked : List String → Bool
  has_blocked [] = false
  has_blocked (filename ∷ rest) =
      let more = has_blocked rest in if is_blocked_attachment_filename filename then true else more

  abbrev pub has_recipient : AcceptInput → Bool
  has_recipient input = elim (input.to ++ (input.cc ++ input.bcc)) [ [] ↦ false | _ ∷ _ ↦ true ]

  unfoldable pub accept_transactional_email :
      AcceptInput → State → Result AcceptError AcceptedEmail × State
  accept_transactional_email input s =
      if not (has_recipient input)
      then (err no_recipients, s)
      else if has_blocked input.attachments
      then (err invalid_attachment, s)
      else accept_keyed input (present input.idempotency_key) s
