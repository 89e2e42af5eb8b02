-- ===== src/Accept/Email.antt =====
-- The data of acceptTransactionalEmail (email/accept/accept.ts): its input, the rows that it writes,
-- and what it asks of its surroundings.
pub mod Reads
pub mod Pipeline
pub mod Effects
pub mod Transaction
pub mod Promises
pub mod Outcomes
pub mod Replays
use relayit.Prelude.{ℕ, String, Bool, Option, none, some, List, Result, str_eq, if◌then◌else◌}
use relayit.Webhooks
use relayit.Webhooks.Emit.{EmitInput, Answers}
use relayit.Delivery.Email.{DeliveryStatus}
use relayit.Accept.{MessageContact}
use relayit.Accept.Idempotency.{IdempotencyRow}
use relayit.Accept.Suppressions.{ContactRow}

pub data Sender : Type 0 where
  custom sandbox : String → Sender

pub data ProviderKind : Type 0 where
  managed byo : ProviderKind

-- What prepareEmailContent returns.
pub record Content : Type 0 where
  pub template_id : Option String
  pub subject : String
  pub html : Option String
  pub text : Option String

-- AcceptTransactionalEmailInput; an attachment is its filename here.
pub record AcceptInput : Type 0 where
  pub organization_id : String
  pub idempotency_key : Option String
  pub scheduled_at : Option ℕ
  pub tags : Option (List (String × String))
  pub attachments : List String
  pub to : List MessageContact
  pub cc : List MessageContact
  pub bcc : List MessageContact
  pub from_address : String
  pub headers : List (String × String)
  pub reply_to : List String

pub record MessageRow : Type 0 where
  pub id : String
  pub environment_id : String
  pub scheduled_at : Option ℕ
  pub tags : Option (List (String × String))
  pub template_id : Option String

-- A row of email deliveries.
pub record EmailDelivery : Type 0 where
  pub id : String
  pub message_id : String
  pub to : List String
  pub cc : List String
  pub bcc : List String
  pub from_address : String
  pub headers : List (String × String)
  pub reply_to : List String
  pub content : Content
  pub sender : Sender
  pub status : DeliveryStatus

-- A job of emailDeliverJob in the outbox; `start` is the time that startDate writes.
pub record DeliverJob : Type 0 where
  pub billing_user_id : String
  pub delivery_id : String
  pub provider_kind : ProviderKind
  pub start : ℕ
  pub delay_until : Option ℕ

pub record AcceptedEmail : Type 0 where
  pub delivery_id : String
  pub message_id : String
  pub replayed : Bool
  pub stripped : List String

pub data AcceptError : Type 0 where
  -- EmailAcceptRejected, by its code
  no_recipients invalid_attachment all_recipients_suppressed : AcceptError
  -- EmailAcceptPersistenceError, by its operation
  find_email_delivery insert_message insert_email_delivery : AcceptError
  -- MessageAcceptPersistenceError of the idempotency and of the contacts
  find_idempotency expire_idempotency record_idempotency upsert_contact : AcceptError
  -- EmailAcceptInfrastructureError with the operation "suppressions"
  suppressions : AcceptError
  -- JobEnqueueError, WebhookEmissionError, and a commit that fails
  enqueue emission commit : AcceptError
  -- ConcurrentEmailAcceptReplay
  concurrent_replay : String → AcceptError
  -- an error of a step that is a parameter
  other : String → AcceptError

-- The tables, in which the contacts are what the upserts have left.
pub record Tables : Type 0 where
  pub messages : List MessageRow
  pub deliveries : List EmailDelivery
  pub contacts : List MessageContact
  pub idempotency : List IdempotencyRow
  pub jobs : List DeliverJob
  pub webhooks : Webhooks.Tables

-- What happened to the usage of deliveries.
pub data UsageAct : Type 0 where
  reserved released : String → UsageAct

-- What happened to the attachments that transactions have staged.
pub data AttachmentAct : Type 0 where
  uploaded removed : List String → AttachmentAct

pub record State : Type 0 where
  pub tables : Tables
  pub usage : List UsageAct
  pub attachments : List AttachmentAct

-- How the calls of one acceptance answer. A query of the suppressions says whether it succeeds and
-- which rows there are; a call that is tried again is given the number of tries that are left. A
-- reserve that fails may have run all the same, when only its answer is lost.
pub record Surroundings : Type 0 where
  pub normalize : String → String
  pub lower : String → String
  pub is_blocked_attachment_filename : String → Bool
  pub now : ℕ
  pub replay_query_ok : Bool
  pub replay_delete_ok : Bool
  pub delivery_query_ok : Bool
  pub prepare_email_content : Result String Content
  pub resolve_email_sender : Result String Sender
  pub resolve_app_environment : Result String String
  pub to_rows : Bool × List ContactRow
  pub cc_rows : Bool × List ContactRow
  pub bcc_rows : Bool × List ContactRow
  pub assert_members : List MessageContact → Result String (Unit {0})
  pub resolve_provider_kind : Sender → Result String ProviderKind
  pub resolve_attachments : Result String (List String)
  pub delivery_id : String
  pub message_id : String
  pub reserve : ProviderKind → Result String String
  pub reserve_lost : ProviderKind → Bool
  pub insert_message_ok : Bool
  pub insert_delivery_ok : Bool
  pub stage_attachments : List String → Result String (List String)
  pub upsert : MessageContact → List MessageContact → Option (List MessageContact)
  pub record_insert_ok : Bool
  pub record_query_ok : Bool
  pub record_others : List IdempotencyRow → List IdempotencyRow
  pub record_id : String
  pub enqueue_ok : Bool
  pub emit_answers : EmitInput → Answers
  pub event_data : List (String × String) → String
  pub iso_string : ℕ → String
  pub commit_ok : Bool
  pub release_ok : ℕ → Bool
  pub delete_staged_ok : ℕ → Bool
  pub deliveries_later : ℕ → Option (List EmailDelivery)

-- A text that JavaScript takes for true.
abbrev pub present : Option String → Option String
present none = none
present (some text) = if str_eq text "" then none else some text
