-- ===== src/Webhooks/Emit.antt =====
-- emit.ts: an event becomes one delivery, and one job, for each endpoint that listens to it. The
-- statements run inside the transaction of the caller, so that a failure leaves nothing behind.
pub mod Matching
pub mod Fanout
use relayit.Prelude.{
  ℕ, suc, String, Bool, true, false, not, ◌&&◌, Option, none, some, List, [], ◌∷◌, ◌++◌, Result, ok,
  err, str_eq, if◌then◌else◌, or_else, length,
}
use relayit.Prelude.Tables.{select_where}
use relayit.Webhooks.{
  WebhookDeliveryStatus, pending, WebhookEndpoint, WebhookEvent, WebhookEventDelivery, Tables,
}

-- `eventTypes.includes(type)`
unfoldable pub includes : String → List String → Bool
includes x [] = false
includes x (y ∷ ys) = let rest = includes x ys in if str_eq y x then true else rest

-- `tags[key]`
unfoldable pub tag : List (String × String) → String → Option String
tag [] key = none
tag ((k, v) ∷ tags) key = let rest = tag tags key in if str_eq k key then some v else rest

abbrev pub has_tag : List (String × String) → String × String → Bool
has_tag tags (key, value) = elim (tag tags key) [ none ↦ false | some v ↦ str_eq v value ]

-- `Object.entries(tagFilter).every(…)`
unfoldable pub every_tag : List (String × String) → List (String × String) → Bool
every_tag tags [] = true
every_tag tags (entry ∷ entries) = has_tag tags entry && every_tag tags entries

unfoldable pub endpoint_matches :
    Bool
    → List String
    → Option (List (String × String))
    → Option (List (String × String))
    → String
    → Bool
endpoint_matches enabled event_types message_tags tag_filter type =
    if not enabled
    then false
    else if not (includes type event_types)
    then false
    else elim tag_filter [
      | none ↦ true
      | some [] ↦ true
      | some (entry ∷ entries) ↦ every_tag (or_else message_tags []) (entry ∷ entries)
    ]

pub record EmitInput : Type 0 where
  pub event_type : String
  pub data_text : String
  pub idempotency_id : Option String
  pub message_tags : Option (List (String × String))
  pub organization_id : String

pub record EmittedWebhookEvent : Type 0 where
  pub delivery_count : ℕ
  pub event_id : String

-- WebhookEmissionError.stage
pub data Stage : Type 0 where
  deliveries endpoints event jobs : Stage

-- What the calls answer: the clock, the new ids, and whether each statement succeeds; a statement
-- on a delivery is given the id of its endpoint.
pub record Answers : Type 0 where
  pub now : ℕ
  pub event_id : String
  pub new_idempotency_id : String
  pub delivery_id : String → String
  pub select_ok : Bool
  pub event_ok : Bool
  pub delivery_ok : String → Bool
  pub enqueue_ok : String → Bool

abbrev pub matches : EmitInput → WebhookEndpoint → Bool
matches input endpoint =
    endpoint_matches endpoint.enabled endpoint.event_types input.message_tags endpoint.tag_filter
      input.event_type

-- The endpoints of the query, then the filter over them.
unfoldable pub matching : EmitInput → Tables → List WebhookEndpoint
matching input t =
    select_where (matches input)
      (select_where (λ e. str_eq e.organization_id input.organization_id && e.enabled) t.endpoints)

abbrev pub new_delivery : Answers → WebhookEndpoint → WebhookEventDelivery
new_delivery a endpoint = record {
  id = a.delivery_id endpoint.id;
  webhook_event_id = a.event_id;
  webhook_endpoint_id = endpoint.id;
  status = pending;
  attempts = 0;
  attempts_in_run = 0;
  replay_count = 0;
  claim_token = none;
  claim_expires_at = none;
  last_attempt_at = none;
  next_attempt_at = some a.now;
  last_error = none;
  delivered_at = none;
}

-- One turn of the loop.
unfoldable pub emit_delivery : Answers → WebhookEndpoint → Tables → Result Stage Tables
emit_delivery a endpoint t =
    if a.delivery_ok endpoint.id
    then if a.enqueue_ok endpoint.id
      then ok record t {
        deliveries = t.deliveries ++ new_delivery a endpoint ∷ [];
        jobs = t.jobs ++ a.delivery_id endpoint.id ∷ [];
      }
      else err jobs
    else err deliveries

unfoldable pub emit_deliveries : Answers → List WebhookEndpoint → Tables → Result Stage Tables
emit_deliveries a [] t = ok t
emit_deliveries a (endpoint ∷ rest) t = elim (emit_delivery a endpoint t) [
  | err stage ↦ err stage
  | ok t' ↦ emit_deliveries a rest t'
]

abbrev pub new_event : Answers → EmitInput → WebhookEvent
new_event a input = record {
  id = a.event_id;
  organization_id = input.organization_id;
  event_type = input.event_type;
  idempotency_id = or_else input.idempotency_id a.new_idempotency_id;
  payload = input.data_text;
  created_at = a.now;
}

unfoldable pub emit_webhook_event :
    Answers → EmitInput → Tables → Result Stage (Option EmittedWebhookEvent × Tables)
emit_webhook_event a input t =
    if a.select_ok
    then elim (matching input t) [
      | [] ↦ ok (none, t)
      | endpoint ∷ rest ↦
          if a.event_ok
          then elim (emit_deliveries a (endpoint ∷ rest)
              (record t { events = t.events ++ new_event a input ∷ [] })) [
                | err stage ↦ err stage
                | ok t' ↦ ok (
                  some record { delivery_count = length (endpoint ∷ rest); event_id = a.event_id },
                  t',
                )
              ]
          else err event
    ]
    else err endpoints
