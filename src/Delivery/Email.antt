-- ===== src/Delivery/Email.antt =====
-- The delivery job of the email channel: packages/channels/src/email/delivery. This file has the
-- data that its modules share.
pub mod Identities
pub mod Work
pub mod Send
pub mod Failures
pub mod Failover
pub mod Handler
mod Tests
use relayit.Prelude.{ℕ, String, Bool, true, false, Option, List}
use relayit.Usage.{ProviderKind}

pub data Scope : Type 0 where
  platform organization : Scope

pub record Provider : Type 0 where
  pub id : String
  pub scope : Scope
  pub vendor_id : String
  pub product_id : String
  pub credentials : String

-- RoutableEmailProviderIdentity; `verified` stands for `verificationStatus === "verified"`.
pub record Identity : Type 0 where
  pub failover_eligible : Bool
  pub failover_priority : ℕ
  pub id : String
  pub is_active : Bool
  pub provider : Provider
  pub verified : Bool

pub data Purpose : Type 0 where
  transactional marketing : Purpose

-- EmailDeliverPayload, with the fields that the handler reads.
pub record Payload : Type 0 where
  pub delivery_id : String
  pub purpose : Purpose
  pub topic_id : Option String

pub data DeliveryStatus : Type 0 where
  queued sending sent failed skipped canceled : DeliveryStatus

abbrev pub Headers : Type 0
Headers = List (String × String)

pub record Content : Type 0 where
  pub sender : String
  pub html : Option String
  pub reply_to : List String
  pub subject : String
  pub text : Option String

pub record Message : Type 0 where
  pub app_environment_id : String
  pub tags : List (String × String)

-- The row of the delivery that the handler loads, with its domain and message.
pub record Loaded : Type 0 where
  pub id : String
  pub message_id : String
  pub message : Option Message
  pub status : DeliveryStatus
  pub custom_domain_paused : Bool
  pub custom_domain_id : Option String
  pub sandbox_domain_id : Option String
  pub recipients : List String
  pub cc : List String
  pub bcc : List String
  pub headers : Option Headers
  pub content : Content

-- The domain whose identities are routed to.
pub data Sender : Type 0 where
  custom_domain sandbox_domain : String → Sender

-- What an adapter is asked to send; an empty list stands for the source's undefined or null.
pub record ProviderEmail : Type 0 where
  pub attachments : List String
  pub bcc : List String
  pub cc : List String
  pub headers : Option Headers
  pub content : Content
  pub recipients : List String

pub data Operation : Type 0 where
  load_attachments load_delivery load_identities update_status : Operation

pub data Stage : Type 0 where
  load domain suppressions webhooks identities send runtime : Stage

-- The errors of the handler, by their tags, without their causes; `other` stands for every tag that
-- the handler's last `mapError` does not name.
pub data Failure : Type 0 where
  message_retryable : Stage → String → Failure
  message_terminal : Stage → String → Failure
  infrastructure : Failure
  persistence : Operation → Failure
  other : Failure
