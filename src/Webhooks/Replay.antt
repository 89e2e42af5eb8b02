-- ===== src/Webhooks/Replay.antt =====
-- replayWebhookDelivery of endpoint-lifecycle.ts. It runs inside the transaction of the caller, so
-- that a failure leaves nothing behind.
pub mod Again
use relayit.Prelude.{
  ℕ, ◌+◌, ◌*◌, String, Bool, true, false, not, ◌&&◌, Option, none, some, List, [], ◌∷◌, ◌++◌, map,
  Result, ok, err, str_eq, if◌then◌else◌, or_else,
}
use relayit.Prelude.Tables.{find_where, update_where, select_where}
use relayit.Webhooks.{
  WebhookDeliveryStatus, pending, held, delivered, dead_letter, WebhookEndpoint,
  WebhookEventDelivery, Tables, is_delivery, is_endpoint, find_delivery,
}
use relayit.Webhooks.Deliver.{update_delivery}
use relayit.Webhooks.Endpoints.{
  ManagementError, delivery_not_found, endpoint_paused, invalid_replay_state, operation_failed,
  find_own,
}

abbrev pub is_dead_letter : WebhookEventDelivery → Bool
is_dead_letter row = elim row.status [
  | dead_letter ↦ true
  | delivered ↦ false
  | pending ↦ false
  | held ↦ false
]

-- The endpoint of the delivery, where it is the named one and belongs to the organization.
abbrev pub replay_endpoint :
    String → String → WebhookEventDelivery → Tables → Option WebhookEndpoint
replay_endpoint organization_id endpoint_id row t =
    if str_eq row.webhook_endpoint_id endpoint_id
    then find_own organization_id endpoint_id t
    else none

abbrev pub replayed_row : WebhookEventDelivery → WebhookEventDelivery → WebhookEventDelivery
replayed_row read row = record row {
  attempts_in_run = 0;
  claim_expires_at = none;
  claim_token = none;
  last_error = none;
  next_attempt_at = none;
  replay_count = read.replay_count + 1;
  status = pending;
}

abbrev pub replayed : WebhookEventDelivery → Tables → Tables
replayed row t = record t {
  deliveries = update_where (is_delivery row.id) (replayed_row row) t.deliveries;
  jobs = t.jobs ++ row.id ∷ [];
}

unfoldable pub replay_webhook_delivery :
    Bool → Bool → Bool → String → String → String → Tables → Result ManagementError Tables
replay_webhook_delivery select_ok update_ok enqueue_ok organization_id endpoint_id id t =
    if select_ok
    then elim (find_delivery id t) [
      | none ↦ err delivery_not_found
      | some row ↦ elim (replay_endpoint organization_id endpoint_id row t) [
        | none ↦ err delivery_not_found
        | some endpoint ↦
            if not (is_dead_letter row)
            then err invalid_replay_state
            else if not endpoint.enabled
            then err endpoint_paused
            else if update_ok && enqueue_ok
            then ok (replayed row t)
            else err operation_failed
      ]
    ]
    else err operation_failed
