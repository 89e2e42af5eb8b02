-- ===== src/Webhooks/Replay/Again.antt =====
-- Replays and attempts of a webhook delivery: replayWebhookDelivery of endpoint-lifecycle.ts with the
-- handler and onDeadLetter of deliver.ts.
use relayit.Prelude.{
  ◌/◌, ◌≡◌, refl, sym, String, Bool, true, false, not, ◌&&◌, some, [], ◌∷◌, Result, ok, err, arith,
  eq_iff, eq_refl, if◌then◌else◌, Bool-cases, Option-cases, inl, inr,
}
use relayit.Jobs.{WorkExecution}
use relayit.Webhooks.{
  dead_letter, WebhookEndpoint, WebhookEvent, WebhookEventDelivery, Tables, is_delivery,
  find_delivery,
}
use relayit.Webhooks.Deliver.{
  Run, ClaimedDelivery, WebhookRequest, joined, claim_delivery, take_claim, handle,
  claimed_delivery, request_of,
}
use relayit.Webhooks.Deliver.Claims.{find_delivery-update}
use relayit.Webhooks.Deliver.Outcomes.{handle-claimed}
use relayit.Webhooks.Replay.{
  is_dead_letter, replay_endpoint, replayed_row, replayed, replay_webhook_delivery,
}
use relayit.Webhooks.Endpoints.{
  ManagementError, invalid_replay_state, endpoint_paused, operation_failed, find_own,
}

-- A replay that succeeds.
pub record IsReplayed (organization_id endpoint_id id : String) (t t' : Tables) : Type 0 where
  pub row : WebhookEventDelivery
  pub endpoint : WebhookEndpoint
  pub was_found : find_delivery id t ≡ some row
  pub was_dead : row.status ≡ dead_letter
  pub owned : find_own organization_id row.webhook_endpoint_id t ≡ some endpoint
  pub was_enabled : endpoint.enabled ≡ true
  pub tables : t' ≡ replayed row t

dead-status : (row : WebhookEventDelivery) → is_dead_letter row ≡ true → row.status ≡ dead_letter
dead-status row h = ground (arith, h)

replay_endpoint-own :
    (o endpoint_id : String) (row : WebhookEventDelivery) (endpoint : WebhookEndpoint) (t : Tables)
    → replay_endpoint o endpoint_id row t ≡ some endpoint
    → find_own o row.webhook_endpoint_id t ≡ some endpoint
replay_endpoint-own o endpoint_id row endpoint t h =
    let same : row.webhook_endpoint_id ≡ endpoint_id =
      ground (arith, h, eq_iff row.webhook_endpoint_id endpoint_id) in
    let at : find_own o endpoint_id t ≡ some endpoint = ground (arith, h) in simp same at

-- The last tests of a replay.
abbrev granted :
    WebhookEventDelivery → WebhookEndpoint → Bool → Tables → Result ManagementError Tables
granted row endpoint stored t =
    if not (is_dead_letter row)
    then err invalid_replay_state
    else if not endpoint.enabled
    then err endpoint_paused
    else if stored
    then ok (replayed row t)
    else err operation_failed

granted-facts :
    (row : WebhookEventDelivery) (endpoint : WebhookEndpoint) (stored : Bool) (t t' : Tables)
    → granted row endpoint stored t ≡ ok t'
    → (is_dead_letter row ≡ true) × (endpoint.enabled ≡ true) × (replayed row t ≡ t')
granted-facts row endpoint true t t' h = (ground (arith, h), ground (arith, h), ground (arith, h))
granted-facts row endpoint false t t' h = ground (arith, h)

pub replay_webhook_delivery-ok :
    (select_ok update_ok enqueue_ok : Bool) (organization_id endpoint_id id : String)
    (t t' : Tables)
    → replay_webhook_delivery select_ok update_ok enqueue_ok organization_id endpoint_id id t
      ≡ ok t'
    → IsReplayed organization_id endpoint_id id t t'
unfolding replay_webhook_delivery
replay_webhook_delivery-ok select_ok update_ok enqueue_ok o endpoint_id id t t' h =
    elim (Bool-cases select_ok) [
      | inr refused ↦ ground (arith, refused, h)
      | inl selected ↦ elim (Option-cases (find_delivery id t)) [
        | inl missing ↦ ground (arith, selected, missing, h)
        | inr (row, found) ↦ elim (Option-cases (replay_endpoint o endpoint_id row t)) [
          | inl missing ↦ ground (arith, selected, found, missing, h)
          | inr (endpoint, owned) ↦
              let facts : (is_dead_letter row ≡ true)
                  × (endpoint.enabled ≡ true)
                  × (replayed row t ≡ t') =
                granted-facts row endpoint (update_ok && enqueue_ok) t t'
                  (ground (arith, selected, found, owned, h)) in
              record {
                row = row;
                endpoint = endpoint;
                was_found = found;
                was_dead = dead-status row facts.0;
                owned = replay_endpoint-own o endpoint_id row endpoint t owned;
                was_enabled = facts.1;
                tables = sym facts.2;
              }
        ]
      ]
    ]

-- The rows of a replayed delivery, and a claim of it.
replayed-claim :
    (r : Run) (id : String) (t : Tables) (row : WebhookEventDelivery) (endpoint : WebhookEndpoint)
    (event : WebhookEvent) (body : String)
    → find_delivery id t ≡ some row
    → joined t row ≡ some (endpoint, event)
    → r.encode_body event ≡ some body
    → r.select_ok ≡ true
    → r.join_ok ≡ true
    → r.update_ok && r.commit_ok ≡ true
    → (d : ClaimedDelivery) × ((claim_delivery r id (replayed row t)).0 ≡ ok (some d))
unfolding claim_delivery take_claim
replayed-claim r id t row endpoint event body found there encoded selected done stored =
    let after =
      find_delivery-update id (is_delivery row.id) (replayed_row row) t row (λ x. refl) found in
    let at : find_delivery id (replayed row t) ≡ some (replayed_row row row) =
      ground (arith, after, eq_refl row.id) in
    let there' : joined (replayed row t) (replayed_row row row) ≡ some (endpoint, event) = there in
    (
      claimed_delivery r id (replayed_row row row) endpoint event body,
      ground (arith, selected, at, done, there', encoded, stored),
    )

-- A delivery that was replayed is sent again: the next run of the handler whose calls of the
-- database succeed, whose body can be encoded, and whose endpoint and event are there, sends one
-- request, at whatever time it comes.
pub handle-replay_webhook_delivery :
    (hmac : String → String → String) (r : Run) (execution : WorkExecution)
    (select_ok update_ok enqueue_ok : Bool) (o endpoint_id id : String) (t t' : Tables)
    → replay_webhook_delivery select_ok update_ok enqueue_ok o endpoint_id id t ≡ ok t'
    → r.select_ok ≡ true
    → r.join_ok ≡ true
    → r.update_ok && r.commit_ok ≡ true
    → ((e : WebhookEvent) → (body : String) × (r.encode_body e ≡ some body))
    → ((row : WebhookEventDelivery)
        → find_delivery id t ≡ some row
        → (found : WebhookEndpoint × WebhookEvent) × (joined t row ≡ some found))
    → (q : WebhookRequest) × ((handle hmac r id execution t').2 ≡ q ∷ [])
handle-replay_webhook_delivery hmac r execution select_ok update_ok enqueue_ok o endpoint_id id t t'
      h selected done stored encodes joins =
    let p = replay_webhook_delivery-ok select_ok update_ok enqueue_ok o endpoint_id id t t' h in
    let ((endpoint, event), there) = joins p.row p.was_found in
    let (body, encoded) = encodes event in
    let (d, claimed) =
      replayed-claim r id t p.row endpoint event body p.was_found there encoded selected done
        stored in
    let all = handle-claimed hmac r id execution (replayed p.row t) d claimed in
    (request_of hmac d (r.sent_at / 1000), simp (p.tables, all) refl)
