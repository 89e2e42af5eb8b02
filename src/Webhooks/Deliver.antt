-- ===== src/Webhooks/Deliver.antt =====
-- deliver.ts: the handler of the job "webhook.deliver". A transaction of the database succeeds as a
-- whole or changes nothing; the calls of the handler answer as a `Run` says.
pub mod Claims
pub mod Outcomes
use Prim.Native.String.{◌++◌}
use relayit.Prelude.{
  ℕ, ◌+◌, ◌-◌, ◌*◌, ◌/◌, ◌^◌, min, String, Bool, true, false, not, ◌&&◌, ◌||◌, Option, none, some,
  List, [], ◌∷◌, Result, ok, err, str_eq, ltb, leb, if◌then◌else◌,
}
use relayit.Prelude.Decimal.{decimal}
use relayit.Prelude.Tables.{find_where, update_where}
use relayit.Jobs.{JobBackoffPolicy, JobRetryPolicy, WorkExecution, Disposition, retryable, terminal}
use relayit.Webhooks.{
  WebhookDeliveryStatus, pending, held, delivered, dead_letter, WebhookEndpoint, WebhookEvent,
  WebhookEventDelivery, Tables, is_delivery, is_event, is_endpoint, find_delivery,
  WebhookDeliveryError, retryable_error, terminal_error,
}

abbrev pub claim_ttl_ms : ℕ
claim_ttl_ms = 60_000

abbrev pub webhook_deliver_retry : JobRetryPolicy
webhook_deliver_retry = record {
  backoff = record { base_delay_ms = 30_000; max_delay_ms = 60 * 60_000 };
  max_attempts = 8;
}

pub record ClaimedDelivery : Type 0 where
  pub attempts : ℕ
  pub body : String
  pub claim_token : String
  pub delivery_id : String
  pub idempotency_id : String
  pub signing_secret : String
  pub url : String

pub record WebhookRequest : Type 0 where
  pub url : String
  pub webhook_id : String
  pub webhook_signature : String
  pub webhook_timestamp : String
  pub body : String

-- What the calls of one run of the handler answer: the clock at each reading, the database, the
-- encoding of the body, the new token, the HTTP request (the status of its response, or the message
-- of its failure), and what other runs do to the tables while the request is under way.
pub record Run : Type 0 where
  pub claimed_at : ℕ
  pub select_ok : Bool
  pub join_ok : Bool
  pub update_ok : Bool
  pub commit_ok : Bool
  pub encode_body : WebhookEvent → Option String
  pub token : String
  pub sent_at : ℕ
  pub response : WebhookRequest → Result String ℕ
  pub others : Tables → Tables
  pub marked_at : ℕ
  pub mark_ok : Bool

unfoldable pub retry_delay : WorkExecution → ℕ
retry_delay execution =
    min (webhook_deliver_retry.backoff.base_delay_ms * 2 ^ (execution.attempt - 1))
      webhook_deliver_retry.backoff.max_delay_ms

abbrev pub is_final : WebhookEventDelivery → Bool
is_final row = elim row.status [
  | delivered ↦ true
  | dead_letter ↦ true
  | pending ↦ false
  | held ↦ false
]

abbrev pub is_claimed : ℕ → WebhookEventDelivery → Bool
is_claimed now row = elim row.claim_expires_at [ none ↦ false | some at ↦ ltb now at ]

-- The inner joins of a delivery with its endpoint and its event.
abbrev pub joined : Tables → WebhookEventDelivery → Option (WebhookEndpoint × WebhookEvent)
joined t row = elim (find_where (is_endpoint row.webhook_endpoint_id) t.endpoints) [
  | none ↦ none
  | some endpoint ↦ elim (find_where (is_event row.webhook_event_id) t.events) [
    | none ↦ none
    | some event ↦ some (endpoint, event)
  ]
]

-- The values of the UPDATE in claimDelivery.
abbrev pub claim_row : Run → WebhookEventDelivery → WebhookEventDelivery → WebhookEventDelivery
claim_row r read row = record row {
  attempts = read.attempts + 1;
  attempts_in_run = read.attempts_in_run + 1;
  claim_expires_at = some (r.claimed_at + claim_ttl_ms);
  claim_token = some r.token;
  last_attempt_at = some r.claimed_at;
  next_attempt_at = none;
  status = pending;
}

abbrev pub update_delivery :
    (WebhookEventDelivery → Bool) → (WebhookEventDelivery → WebhookEventDelivery) → Tables → Tables
update_delivery test change t = record t { deliveries = update_where test change t.deliveries }

abbrev pub claim_error : String → WebhookDeliveryError
claim_error id = retryable_error id "Webhook delivery could not be claimed"

-- What claimDelivery returns.
abbrev pub claimed_delivery :
    Run → String → WebhookEventDelivery → WebhookEndpoint → WebhookEvent → String → ClaimedDelivery
claimed_delivery r id row endpoint event body = record {
  attempts = row.attempts + 1;
  body = body;
  claim_token = r.token;
  delivery_id = id;
  idempotency_id = event.idempotency_id;
  signing_secret = endpoint.signing_secret;
  url = endpoint.url;
}

-- The transaction of claimDelivery from the second query on.
unfoldable pub take_claim :
    Run
    → String
    → WebhookEventDelivery
    → Tables
    → Result WebhookDeliveryError (Option ClaimedDelivery) × Tables
take_claim r id row t =
    if r.join_ok
    then elim (joined t row) [
      | none ↦ (err (terminal_error id ("Webhook Event Delivery " ++ id ++ " is incomplete")), t)
      | some (endpoint, event) ↦ elim (r.encode_body event) [
        | none ↦ (err (claim_error id), t)
        | some body ↦
            if r.update_ok && r.commit_ok
            then (
              ok (some (claimed_delivery r id row endpoint event body)),
              update_delivery (is_delivery id) (claim_row r row) t,
            )
            else (err (claim_error id), t)
      ]
    ]
    else (err (claim_error id), t)

unfoldable pub claim_delivery :
    Run → String → Tables → Result WebhookDeliveryError (Option ClaimedDelivery) × Tables
claim_delivery r id t =
    if r.select_ok
    then elim (find_delivery id t) [
      | none ↦ (err (terminal_error id ("Webhook Event Delivery " ++ id ++ " not found")), t)
      | some row ↦
          if is_final row || is_claimed r.claimed_at row
          then (if r.commit_ok then ok none else err (claim_error id), t)
          else take_claim r id row t
    ]
    else (err (claim_error id), t)

-- `id = deliveryId and claimToken = claimToken`
abbrev pub is_claim_of : ClaimedDelivery → WebhookEventDelivery → Bool
is_claim_of d row =
    str_eq row.id d.delivery_id
    && elim row.claim_token [ none ↦ false | some token ↦ str_eq token d.claim_token ]

abbrev pub delivered_row : ℕ → WebhookEventDelivery → WebhookEventDelivery
delivered_row now row = record row {
  claim_expires_at = none;
  claim_token = none;
  delivered_at = some now;
  last_error = none;
  next_attempt_at = none;
  status = delivered;
}

unfoldable pub mark_delivered :
    Run → ClaimedDelivery → Tables → Result WebhookDeliveryError (Unit {0}) × Tables
mark_delivered r d t =
    if r.mark_ok
    then (ok tt, update_delivery (is_claim_of d) (delivered_row r.marked_at) t)
    else (err (retryable_error d.delivery_id "Webhook success could not be persisted"), t)

abbrev pub failed_row : ℕ → String → WebhookEventDelivery → WebhookEventDelivery
failed_row next_at message row = record row {
  claim_expires_at = none;
  claim_token = none;
  last_error = some message;
  next_attempt_at = some next_at;
}

-- markFailed, and then the failure `e` that the handler ends with.
unfoldable pub mark_failed :
    Run
    → ClaimedDelivery
    → WorkExecution
    → String
    → WebhookDeliveryError
    → Tables
    → Result WebhookDeliveryError (Unit {0}) × Tables
mark_failed r d execution message e t =
    if r.mark_ok
    then (
      err e,
      update_delivery (is_claim_of d) (failed_row (r.marked_at + retry_delay execution) message) t,
    )
    else (err (retryable_error d.delivery_id "Webhook failure could not be persisted"), t)

-- signWebhookPayload of signing.ts, over the hexadecimal HMAC-SHA256.
unfoldable pub sign_webhook_payload :
    (String → String → String) → String → String → ℕ → String → String
sign_webhook_payload hmac secret idempotency_id timestamp body =
    "v1=" ++ hmac secret (idempotency_id ++ "." ++ decimal timestamp ++ "." ++ body)

module _ (hmac : String → String → String) where
  abbrev pub request_of : ClaimedDelivery → ℕ → WebhookRequest
  request_of d timestamp = record {
    url = d.url;
    webhook_id = d.idempotency_id;
    webhook_signature =
        sign_webhook_payload hmac d.signing_secret d.idempotency_id timestamp d.body;
    webhook_timestamp = decimal timestamp;
    body = d.body;
  }

  -- The rest of the handler by the answer to the request.
  unfoldable pub conclude :
      Run
      → ClaimedDelivery
      → WorkExecution
      → Result String ℕ
      → Tables
      → Result WebhookDeliveryError (Unit {0}) × Tables
  conclude r d execution (err cause) t =
      mark_failed r d execution "Webhook HTTP request failed"
        (retryable_error d.delivery_id "Webhook HTTP request failed") t
  conclude r d execution (ok status) t =
      if ltb status 200 || leb 300 status
      then mark_failed r d execution ("HTTP " ++ decimal status)
          (retryable_error d.delivery_id ("HTTP " ++ decimal status)) t
      else mark_delivered r d t

  -- The handler: its result, the tables, and the requests that it sends.
  unfoldable pub handle :
      Run
      → String
      → WorkExecution
      → Tables
      → Result WebhookDeliveryError (Unit {0}) × Tables × List WebhookRequest
  handle r id execution t =
      let (claim, t1) = claim_delivery r id t in
      elim claim [
        | err e ↦ (err e, t1, [])
        | ok none ↦ (ok tt, t1, [])
        | ok (some d) ↦
            let request = request_of d (r.sent_at / 1000) in
            let (result, t2) = conclude r d execution (r.response request) (r.others t1) in
            (result, t2, request ∷ [])
      ]

unfoldable pub classify_failure : WebhookDeliveryError → Disposition
classify_failure (terminal_error _ _) = terminal
classify_failure (retryable_error _ _) = retryable

unfoldable pub on_dead_letter :
    Bool → String → Tables → Result WebhookDeliveryError (Unit {0}) × Tables
on_dead_letter update_ok id t =
    if update_ok
    then (
      ok tt,
      update_delivery (is_delivery id)
          (λ row. record row {
            claim_expires_at = none;
            claim_token = none;
            next_attempt_at = none;
            status = dead_letter;
          })
          t,
    )
    else (err (retryable_error id "Webhook dead-letter status could not be persisted"), t)
