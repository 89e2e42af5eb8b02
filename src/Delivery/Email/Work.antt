-- ===== src/Delivery/Email/Work.antt =====
-- The surroundings of the delivery job (packages/channels/src/email/delivery/handler.ts) and the
-- calls that it makes of them.
use relayit.Prelude.{ℕ, String, Bool, Option, List, Result}
use relayit.Effects
use relayit.Usage.{ProviderKind}
use relayit.Usage.Service.{UsageError}
use relayit.Delivery.Email.{
  Headers, Identity, Provider, Purpose, Loaded, Sender, ProviderEmail, Failure,
}

-- The columns that the handler writes, without the time stamps: `status` with what goes with it.
pub data Change : Type 0 where
  to_sending : Change
  to_sent : String → String → Change
  to_failed : String → Bool → Change
  to_skipped : String → Change

-- message.sent with the provider's message id, message.failed with the error, delivery.skipped
-- with the reason.
pub data Event : Type 0 where
  message_sent message_failed delivery_skipped : String → Event

-- How a transaction that writes a row and emits an event ends; only `committed` changes anything.
pub data Outcome : Type 0 where
  committed update_failed emit_failed commit_failed : Outcome

pub data Act : Type 0 where
  updated : String → Change → Bool → Act
  transacted : String → Change → Event → Outcome → Act
  allowed : String → Option Bool → Act
  remetered : String → ProviderKind → Result UsageError (Unit {0}) → Act
  -- the adapter's answer: the provider's id of an accepted message
  sent_by : Provider → ProviderEmail → Option String → Act
  failure_recorded success_recorded : String → Bool → Act
  confirmed : String → Result UsageError (Unit {0}) → Act
  released : String → Result UsageError (Unit {0}) → Act

-- The input of mergeListUnsubscribeHeadersForSend, less what the handler's options fix.
pub record HeaderInput : Type 0 where
  pub bcc_count : ℕ
  pub cc_count : ℕ
  pub contact_id : Option String
  pub existing : Option Headers
  pub message_id : String
  pub org_slug : Option String
  pub purpose : Purpose
  pub to_count : ℕ
  pub topic_id : Option String

-- Queries answer with `none` when the database fails; a query for one row answers with an option.
pub record Surroundings : Type 0 where
  pub find_delivery : List Act → String → Option (Option Loaded)
  pub find_organization_id : List Act → String → Option (Option String)
  pub find_slug : List Act → String → Option (Option String)
  pub find_contact : List Act → String → String → Option (Option String)
  pub find_identities : List Act → Sender → Option (List Identity)
  -- filterSuppressedContacts: the addresses that are kept
  pub filter_suppressed : List Act → String → String → List String → Option (List String)
  pub load_attachments : List Act → String → Result Failure (List String)
  pub merge_headers : HeaderInput → Option Headers
  pub update : List Act → String → Change → Bool
  pub transact : List Act → String → Change → Event → Outcome
  pub circuit_allow : List Act → String → Option Bool
  pub circuit_failure : List Act → String → Bool
  pub circuit_success : List Act → String → Bool
  pub remeter : List Act → String → ProviderKind → Result UsageError (Unit {0})
  pub confirm : List Act → String → Result UsageError (Unit {0})
  pub release : List Act → String → Result UsageError (Unit {0})
  -- the registry, the credentials' vault and the adapter's factory
  pub open_adapter : List Act → Provider → Bool
  pub adapter_send : List Act → Provider → ProviderEmail → Option String

abbrev pub Work : Type 0 → Type 0
Work A = Effects.Work Act Failure A
