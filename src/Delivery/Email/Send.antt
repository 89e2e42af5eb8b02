-- ===== src/Delivery/Email/Send.antt =====
-- The helpers of packages/channels/src/email/delivery/handler.ts: one write to the delivery, a
-- transaction, a send through one identity, and the mark that a message was sent.
use relayit.Prelude.{
  String, Bool, true, false, not, Option, none, some, ◌∷◌, Result, ok, err, if◌then◌else◌,
}
use relayit.Effects.{◌>>=◌, ◌>>◌, succeed, ask, perform}
use relayit.Usage.{ProviderKind}
use relayit.Usage.Service.{UsageError, limit_exceeded}
use relayit.Delivery.Email.{
  Identity, Provider, ProviderEmail, Failure, message_retryable, infrastructure, persistence, other,
  webhooks, update_status,
}
use relayit.Delivery.Email.Identities.{provider_kind_for}
use relayit.Delivery.Email.Work.{
  Change, to_sent, Event, message_sent, Outcome, committed, update_failed, emit_failed,
  commit_failed, updated, transacted, allowed, remetered, sent_by, failure_recorded,
  success_recorded, confirmed, Surroundings, Work,
}

-- The result of trySendWithIdentity; its error is an EmailDeliveryProviderError, of which the
-- message and `leaveActive` are read.
pub data Attempt : Type 0 where
  accepted : String → String → Attempt
  refused : String → Bool → Attempt

-- The remeter's `catchIf`: whether the bucket is exhausted, or the error that is left.
unfoldable pub bucket_exhausted : Result UsageError (Unit {0}) → Result Failure Bool
bucket_exhausted (ok _) = ok false
bucket_exhausted (err (limit_exceeded _ _ _ _)) = ok true
bucket_exhausted (err _) = err other

unfoldable pub transaction_result : Outcome → String → Result Failure (Unit {0})
transaction_result committed emit_message = ok tt
transaction_result update_failed emit_message = err (persistence update_status)
transaction_result emit_failed emit_message = err (message_retryable webhooks emit_message)
transaction_result commit_failed emit_message = err other

-- A call of usage in the job, whose errors are none that the handler's `mapError` names.
unfoldable pub usage_result : Result UsageError (Unit {0}) → Result Failure (Unit {0})
usage_result (ok _) = ok tt
usage_result (err _) = err other

-- A failure of the breaker's script is mapped to an infrastructure error.
unfoldable pub allow_result : Option Bool → Result Failure Bool
allow_result none = err infrastructure
allow_result (some b) = ok b

module _ (w : Surroundings) where
  unfoldable pub update_delivery : String → Change → Work (Unit {0})
  update_delivery id change =
      perform (λ h. w.update h id change) (updated id change) (persistence update_status)

  unfoldable pub transact_event : String → Change → Event → String → Work (Unit {0})
  transact_event id change event emit_message h =
      let outcome = w.transact h id change event in
      (transaction_result outcome emit_message, transacted id change event outcome ∷ h)

  -- providerCircuitAllow
  unfoldable pub allow : String → Work Bool
  allow provider_id h =
      let answer = w.circuit_allow h provider_id in
      (allow_result answer, allowed provider_id answer ∷ h)

  unfoldable pub record_failure : String → Work (Unit {0})
  record_failure provider_id =
      perform (λ h. w.circuit_failure h provider_id) (failure_recorded provider_id) infrastructure

  unfoldable pub record_success : String → Work (Unit {0})
  record_success provider_id =
      perform (λ h. w.circuit_success h provider_id) (success_recorded provider_id) infrastructure

  unfoldable pub remeter : String → ProviderKind → Work Bool
  remeter id kind h =
      let answer = w.remeter h id kind in (bucket_exhausted answer, remetered id kind answer ∷ h)

  -- The registry, the vault and the factory are asked first; an error of any step is caught.
  unfoldable pub send_email : Provider → ProviderEmail → Work (Option String)
  send_email provider email h =
      if w.open_adapter h provider
      then ask (λ h'. w.adapter_send h' provider email) (sent_by provider email) h
      else (ok none, h)

  -- What follows the adapter's answer.
  unfoldable pub conclude : Provider → Option String → Work Attempt
  conclude provider none = do
    record_failure provider.id
    still_allowed ← allow provider.id
    succeed (refused "Provider send failed" (not still_allowed))
  conclude provider (some provider_message_id) = do
    record_success provider.id
    succeed (accepted provider.id provider_message_id)

  -- What follows the remeter, which has told whether the bucket is exhausted.
  unfoldable pub send_unless : Identity → ProviderEmail → Bool → Work Attempt
  send_unless identity email true = succeed (refused "Usage bucket exhausted" true)
  send_unless identity email false =
      send_email identity.provider email >>= conclude identity.provider

  unfoldable pub try_send : String → Identity → ProviderEmail → Work Attempt
  try_send id identity email =
      remeter id (provider_kind_for identity.provider) >>= send_unless identity email

  unfoldable pub confirm_usage : String → Work (Unit {0})
  confirm_usage id h = let answer = w.confirm h id in (usage_result answer, confirmed id answer ∷ h)

  unfoldable pub mark_sent : String → String → String → Work (Unit {0})
  mark_sent id provider_id provider_message_id = do
    confirm_usage id
    transact_event id (to_sent provider_id provider_message_id) (message_sent provider_message_id)
        "Failed to emit message.sent"
