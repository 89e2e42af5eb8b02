-- ===== src/Delivery/Email/Handler.antt =====
-- makeEmailDeliverHandler of packages/channels/src/email/delivery/handler.ts.
pub mod Steps
pub mod Results
use relayit.Prelude.{
  not, or_else, str_eq, ℕ, String, ◌≡◌, Bool, true, false, not, ◌&&◌, ◌||◌, Option, none, some,
  List, [], ◌∷◌, length, Result, ok, err, if◌then◌else◌, or_else, ◌==◌,
}
use relayit.Effects.{◌>>=◌, ◌>>◌, succeed, fail}
use relayit.Jobs.{Disposition, retryable, terminal}
use relayit.Delivery.Email.{
  Identity, Payload, marketing, transactional, Loaded, Message, DeliveryStatus, queued, sending,
  sent, failed, skipped, canceled, Sender, custom_domain, sandbox_domain, ProviderEmail, Headers,
  Failure, message_retryable, message_terminal, infrastructure, persistence, other, load_delivery,
  load_identities, load, domain, suppressions, identities, send, runtime,
}
use relayit.Delivery.Email.Identities.{list_failover}
use relayit.Delivery.Email.Work.{
  to_sending, to_failed, to_skipped, message_failed, delivery_skipped, Act, released, HeaderInput,
  Surroundings, Work,
}
use relayit.Delivery.Email.Send.{
  Attempt, accepted, refused, update_delivery, transact_event, allow, try_send, mark_sent,
}
use relayit.Delivery.Email.Failures.{map_failure}
use relayit.Delivery.Email.Failover.{send_all}

-- A query whose failure is mapped to an error.
unfoldable pub found : {A : Type 0} → Option A → Failure → Result Failure A
found none e = err e
found (some a) e = ok a

-- `loaded.status` is "sent", "skipped" or "canceled".
unfoldable pub is_final : DeliveryStatus → Bool
is_final sent = true
is_final skipped = true
is_final canceled = true
is_final _ = false

unfoldable pub is_marketing : Payload → Bool
is_marketing p = elim p.purpose [ marketing ↦ true | transactional ↦ false ]

-- Whether an optional text is there and not empty, as a condition of the source reads it.
unfoldable pub truthy : Option String → Bool
truthy none = false
truthy (some text) = not (str_eq text "")

unfoldable pub sender_of : Loaded → Option Sender
sender_of l =
    if truthy l.custom_domain_id
    then some (custom_domain (or_else l.custom_domain_id ""))
    else if truthy l.sandbox_domain_id
    then some (sandbox_domain (or_else l.sandbox_domain_id ""))
    else none

-- The addresses that filterSuppressedContacts has kept.
pub record Kept : Type 0 where
  pub recipients : List String
  pub cc : List String
  pub bcc : List String

unfoldable pub none_kept : Kept → Bool
none_kept k = length k.recipients == 0 && length k.cc == 0 && length k.bcc == 0

module _ (w : Surroundings) where
  query : {A : Type 0} → (List Act → Option A) → Failure → Work A
  query ask e h = (found (ask h) e, h)

  -- What mergeListUnsubscribeHeadersForSend is given for a marketing message to one recipient.
  unfoldable pub unsubscribe_ids :
      Payload → Loaded → Message → String → Kept → Work (Option String × Option String)
  unfolding query
  unsubscribe_ids payload l message organization_id kept =
      if is_marketing payload
        && truthy payload.topic_id
        && length kept.recipients == 1
        && length kept.cc == 0
        && length kept.bcc == 0
      then (query (λ h. w.find_slug h organization_id) (persistence load_delivery) >>= λ slug.
          elim kept.recipients [
            | [] ↦ succeed (none, slug)
            | recipient ∷ _ ↦
                if str_eq recipient ""
                then succeed (none, slug)
                else (query (λ h. w.find_contact h message.app_environment_id recipient)
                      (persistence load_delivery)
                    >>= λ contact. succeed (contact, slug))
          ])
      else succeed (none, none)

  unfoldable pub headers_of :
      Payload → Loaded → Kept → Option String → Option String → Option Headers
  headers_of payload l kept contact_id slug =
      let merged = w.merge_headers (record {
        bcc_count = length kept.bcc;
        cc_count = length kept.cc;
        contact_id = contact_id;
        existing = l.headers;
        message_id = l.message_id;
        org_slug = slug;
        purpose = payload.purpose;
        to_count = length kept.recipients;
        topic_id = payload.topic_id;
      }) in
      elim merged [ none ↦ l.headers | some headers ↦ some headers ]

  abbrev pub email_of :
      Payload → Loaded → Kept → List String → Option String × Option String → ProviderEmail
  email_of payload l kept attachments (contact_id, slug) = record {
    attachments = attachments;
    bcc = kept.bcc;
    cc = kept.cc;
    headers = headers_of payload l kept contact_id slug;
    content = l.content;
    recipients = kept.recipients;
  }

  unfoldable pub send_attached :
      Payload → Loaded → Message → String → Kept → List Identity → List String → Work (Unit {0})
  send_attached payload l message organization_id kept routes attachments = do
    update_delivery w l.id to_sending
    ids ← unsubscribe_ids payload l message organization_id kept
    send_all w l (email_of payload l kept attachments ids) routes

  -- From the attachments on, unless there is no identity.
  unfoldable pub send_through :
      Payload → Loaded → Message → String → Kept → List Identity → Work (Unit {0})
  send_through payload l message organization_id kept [] =
      fail (message_terminal identities "No routable provider identity")
  send_through payload l message organization_id kept (i ∷ rest) = do
    attachments ← λ h. (w.load_attachments h l.id, h)
    send_attached payload l message organization_id kept (i ∷ rest) attachments

  unfoldable pub route :
      Payload → Loaded → Message → String → Kept → Option Sender → Work (Unit {0})
  unfolding query
  route payload l message organization_id kept none =
      fail (message_terminal identities "Email Delivery has no sender domain")
  route payload l message organization_id kept (some sender) = do
    rows ← query (λ h. w.find_identities h sender) (persistence load_identities)
    send_through payload l message organization_id kept (list_failover rows)

  -- filterSuppressedContacts, for one of the three lists.
  unfoldable pub keep : Message → String → List String → Work (List String)
  unfolding query
  keep message organization_id addresses =
      query (λ h. w.filter_suppressed h message.app_environment_id organization_id addresses)
        (message_retryable suppressions "Suppression lookup failed")

  unfoldable pub filter_recipients : Loaded → Message → String → Work Kept
  filter_recipients l message organization_id = do
    recipients ← keep message organization_id l.recipients
    cc ← keep message organization_id l.cc
    bcc ← keep message organization_id l.bcc
    succeed (record { recipients = recipients; cc = cc; bcc = bcc })

  unfoldable pub skip : Loaded → Work (Unit {0})
  skip l = do
    transact_event w l.id (to_skipped "suppression") (delivery_skipped "suppression")
        "Failed to emit delivery.skipped"
    fail (message_terminal suppressions "No deliverable recipients after suppression")

  unfoldable pub address_kept : Payload → Loaded → Message → String → Kept → Work (Unit {0})
  address_kept payload l message organization_id kept =
      if none_kept kept then skip l else route payload l message organization_id kept (sender_of l)

  unfoldable pub address_in : Payload → Loaded → Message → Option String → Work (Unit {0})
  address_in payload l message none =
      fail (message_terminal load "App Environment missing for Email Delivery")
  address_in payload l message (some organization_id) = do
    kept ← filter_recipients l message organization_id
    address_kept payload l message organization_id kept

  unfoldable pub address : Payload → Loaded → Message → Work (Unit {0})
  unfolding query
  address payload l message = do
    environment ←
        query (λ h. w.find_organization_id h message.app_environment_id) (persistence load_delivery)
    address_in payload l message environment

  unfoldable pub pause : Loaded → Work (Unit {0})
  pause l = do
    update_delivery w l.id (to_failed "Domain is paused" false)
    fail (message_terminal domain "Domain is paused")

  -- A delivery that was found with its message.
  unfoldable pub deliver : Payload → Loaded → Message → Work (Unit {0})
  deliver payload l message =
      if is_final l.status
      then succeed tt
      else if l.custom_domain_paused
      then pause l
      else address payload l message

  unfoldable pub deliver_message : Payload → Loaded → Option Message → Work (Unit {0})
  deliver_message payload l none = fail (message_terminal load "Email Delivery not found")
  deliver_message payload l (some message) = deliver payload l message

  unfoldable pub deliver_found : Payload → Option Loaded → Work (Unit {0})
  deliver_found payload none = fail (message_terminal load "Email Delivery not found")
  deliver_found payload (some l) = deliver_message payload l l.message

  -- `handle` up to its last `mapError`.
  unfoldable pub attempt_delivery : Payload → Work (Unit {0})
  unfolding query
  attempt_delivery payload = do
    row ← query (λ h. w.find_delivery h payload.delivery_id) (persistence load_delivery)
    deliver_found payload row

  unfoldable pub handle : Payload → Work (Unit {0})
  handle payload h =
      let (x, h') = attempt_delivery payload h in
      (elim x [ ok _ ↦ ok tt | err e ↦ err (map_failure e) ], h')

  -- onDeadLetter: the reservation is released, and an error is ignored.
  unfoldable pub on_dead_letter : Payload → Work (Unit {0})
  on_dead_letter payload h =
      (ok tt, released payload.delivery_id (w.release h payload.delivery_id) ∷ h)
