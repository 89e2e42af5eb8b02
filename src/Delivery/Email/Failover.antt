-- ===== src/Delivery/Email/Failover.antt =====
-- The sending part of `handle` in packages/channels/src/email/delivery/handler.ts: the primary
-- identity, the loop over the standby identities, and the end when all have failed.
pub mod Sends
pub mod Runs
use relayit.Prelude.{
  ℕ, String, ◌≡◌, Bool, true, false, not, ◌&&◌, ◌||◌, Option, none, some, List, [], ◌∷◌, length,
  Result, ok, err, if◌then◌else◌, or_else, ◌==◌,
}
use relayit.Effects.{◌>>=◌, ◌>>◌, succeed, fail}
use relayit.Jobs.{Disposition, retryable, terminal}
use relayit.Delivery.Email.{
  Identity, Payload, marketing, transactional, Loaded, Message, DeliveryStatus, queued, sending,
  sent, failed, skipped, canceled, Sender, custom_domain, sandbox_domain, ProviderEmail, Headers,
  Failure, message_retryable, message_terminal, infrastructure, persistence, other, load_delivery,
  load_identities, load, domain, suppressions, identities, send, runtime,
}
use relayit.Delivery.Email.Identities.{list_failover}
use relayit.Delivery.Email.Work.{
  to_sending, to_failed, to_skipped, message_failed, delivery_skipped, Act, released, HeaderInput,
  Surroundings, Work,
}
use relayit.Delivery.Email.Send.{
  Attempt, accepted, refused, update_delivery, transact_event, allow, try_send, mark_sent,
}

module _ (w : Surroundings) where
  -- One turn of the loop over the standby identities, which goes on with the last error's message.
  unfoldable pub next_standby :
      Loaded
      → (Option String → Work (Option (Option String)))
      → Attempt
      → Work (Option (Option String))
  next_standby l continue (accepted provider_id sent_id) =
      mark_sent w l.id provider_id sent_id >> succeed none
  next_standby l continue (refused text leave_active) = continue (some text)

  unfoldable pub try_standby :
      Loaded
      → ProviderEmail
      → Identity
      → (Option String → Work (Option (Option String)))
      → Option String
      → Bool
      → Work (Option (Option String))
  try_standby l email i continue last false = continue last
  try_standby l email i continue last true = try_send w l.id i email >>= next_standby l continue

  -- The loop ends with `none` when the email was sent.
  unfoldable pub send_standby :
      Loaded → ProviderEmail → List Identity → Option String → Work (Option (Option String))
  send_standby l email [] last = succeed (some last)
  send_standby l email (i ∷ rest) last =
      let continue = send_standby l email rest in
      allow w i.provider.id >>= try_standby l email i continue last

  -- Every identity was skipped or has failed.
  unfoldable pub fail_all : Loaded → Option String → Work (Unit {0})
  fail_all l last = do
    let text = or_else last "All providers failed"
    transact_event w l.id (to_failed text true) (message_failed text)
        "Failed to emit message.failed"
    fail (message_retryable send text)

  unfoldable pub end_standby : Loaded → Option (Option String) → Work (Unit {0})
  end_standby l none = succeed tt
  end_standby l (some last) = fail_all l last

  unfoldable pub send_rest : Loaded → ProviderEmail → List Identity → Work (Unit {0})
  send_rest l email standby = send_standby l email standby none >>= end_standby l

  -- What follows the attempt through the first identity.
  unfoldable pub end_primary : Loaded → ProviderEmail → List Identity → Attempt → Work (Unit {0})
  end_primary l email standby (accepted provider_id sent_id) = mark_sent w l.id provider_id sent_id
  end_primary l email standby (refused text leave_active) =
      if leave_active then send_rest l email standby else fail (message_retryable send text)

  unfoldable pub try_primary :
      Loaded → ProviderEmail → Identity → List Identity → Bool → Work (Unit {0})
  try_primary l email primary standby false = send_rest l email standby
  try_primary l email primary standby true =
      try_send w l.id primary email >>= end_primary l email standby

  -- The first identity, and the others where it is skipped or leaves the breaker open.
  unfoldable pub send_all : Loaded → ProviderEmail → List Identity → Work (Unit {0})
  send_all l email [] = send_rest l email []
  send_all l email (primary ∷ standby) =
      allow w primary.provider.id >>= try_primary l email primary standby
