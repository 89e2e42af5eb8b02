-- ===== src/Webhooks.antt =====
-- Outgoing webhooks: packages/webhooks/src. This file has the three tables
-- (packages/persistence/src/db/schema/webhook.ts) and the errors; a time is its milliseconds.
pub mod Deliver
pub mod Emit
pub mod Endpoints
pub mod Replay
pub mod Deliveries
mod Tests
use relayit.Prelude.{ℕ, String, Bool, true, false, Option, none, some, List, [], ◌∷◌, str_eq}
use relayit.Prelude.Tables.{find_where}

pub data WebhookDeliveryStatus : Type 0 where
  pending held delivered dead_letter : WebhookDeliveryStatus

pub record WebhookEndpoint : Type 0 where
  pub id : String
  pub organization_id : String
  pub url : String
  pub event_types : List String
  pub tag_filter : Option (List (String × String))
  pub enabled : Bool
  pub signing_secret : String
  pub previous_signing_secret : Option String
  pub previous_secret_expires_at : Option ℕ

pub record WebhookEvent : Type 0 where
  pub id : String
  pub organization_id : String
  pub event_type : String
  pub idempotency_id : String
  pub payload : String
  pub created_at : ℕ

pub record WebhookEventDelivery : Type 0 where
  pub id : String
  pub webhook_event_id : String
  pub webhook_endpoint_id : String
  pub status : WebhookDeliveryStatus
  pub attempts : ℕ
  pub attempts_in_run : ℕ
  pub replay_count : ℕ
  pub claim_token : Option String
  pub claim_expires_at : Option ℕ
  pub last_attempt_at : Option ℕ
  pub next_attempt_at : Option ℕ
  pub last_error : Option String
  pub delivered_at : Option ℕ

-- The tables, and the payloads of the webhook jobs that stand in the outbox.
pub record Tables : Type 0 where
  pub endpoints : List WebhookEndpoint
  pub events : List WebhookEvent
  pub deliveries : List WebhookEventDelivery
  pub jobs : List String

abbrev pub is_delivery : String → WebhookEventDelivery → Bool
is_delivery id row = str_eq row.id id

abbrev pub is_event : String → WebhookEvent → Bool
is_event id row = str_eq row.id id

abbrev pub is_endpoint : String → WebhookEndpoint → Bool
is_endpoint id row = str_eq row.id id

-- `eq(webhookEventDelivery.id, deliveryId)`
abbrev pub find_delivery : String → Tables → Option WebhookEventDelivery
find_delivery id t = find_where (is_delivery id) t.deliveries

pub data WebhookDeliveryError : Type 0 where
  retryable_error terminal_error : String → String → WebhookDeliveryError
