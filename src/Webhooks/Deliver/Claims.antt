-- ===== src/Webhooks/Deliver/Claims.antt =====
-- Claims of a webhook delivery: claimDelivery of deliver.ts, and what a live claim does to the runs
-- that come while it lasts.
use relayit.Prelude.{
  ◌+◌, ◌<◌, ◌≡◌, refl, String, Bool, true, false, ◌||◌, some, [], ok, arith, Bool-cases,
  Option-cases, inl, inr,
}
use relayit.Prelude.Tables.{updated, find-update_where, find_where-holds}
use relayit.Jobs.{WorkExecution}
use relayit.Webhooks.{WebhookEventDelivery, Tables, is_delivery, find_delivery}
use relayit.Webhooks.Deliver.{
  claim_ttl_ms, ClaimedDelivery, Run, is_final, is_claimed, claim_row, update_delivery, take_claim,
  claim_delivery, handle,
}

-- The row of a delivery after an update that keeps the ids of rows.
pub find_delivery-update :
    (id : String) (test : WebhookEventDelivery → Bool)
    (change : WebhookEventDelivery → WebhookEventDelivery) (t : Tables) (row : WebhookEventDelivery)
    → ((x : WebhookEventDelivery) → (change x).id ≡ x.id)
    → find_delivery id t ≡ some row
    → find_delivery id (update_delivery test change t) ≡ some (updated test change row)
find_delivery-update id test change t row keeps e =
    let found =
      find-update_where (is_delivery id) test change t.deliveries (λ x. rw (keeps x) refl) in
    rw (found, e) refl

-- What a successful claim says of the delivery and does to the tables.
pub record WasClaimed (r : Run) (id : String) (t : Tables) (d : ClaimedDelivery) : Type 0 where
  pub row : WebhookEventDelivery
  pub was_found : find_delivery id t ≡ some row
  pub was_open : is_final row ≡ false
  pub was_free : is_claimed r.claimed_at row ≡ false
  pub tables : (claim_delivery r id t).1 ≡ update_delivery (is_delivery id) (claim_row r row) t
  pub same_id : d.delivery_id ≡ id
  pub same_token : d.claim_token ≡ r.token

pub take_claim-some :
    (r : Run) (id : String) (row : WebhookEventDelivery) (t : Tables) (d : ClaimedDelivery)
    → (take_claim r id row t).0 ≡ ok (some d)
    → ((take_claim r id row t).1 ≡ update_delivery (is_delivery id) (claim_row r row) t)
      × (d.delivery_id ≡ id)
      × (d.claim_token ≡ r.token)
unfolding take_claim
take_claim-some r id row t d h = ground (arith, h)

pub claim_delivery-some :
    (r : Run) (id : String) (t : Tables) (d : ClaimedDelivery)
    → (claim_delivery r id t).0 ≡ ok (some d)
    → WasClaimed r id t d
unfolding claim_delivery
claim_delivery-some r id t d h = elim (Bool-cases r.select_ok) [
  | inr refused ↦ ground (arith, refused, h)
  | inl selected ↦ elim (Option-cases (find_delivery id t)) [
    | inl missing ↦ ground (arith, selected, missing, h)
    | inr (row, found) ↦ elim (Bool-cases (is_final row || is_claimed r.claimed_at row)) [
      | inl passed ↦ ground (arith, selected, found, passed, h)
      | inr taken ↦
          let same : claim_delivery r id t ≡ take_claim r id row t =
            ground (arith, selected, found, taken) in
          let (tables, same_id, same_token) = take_claim-some r id row t d (rw (← same) h) in
          record {
            row = row;
            was_found = found;
            was_open = ground (arith, taken);
            was_free = ground (arith, taken);
            tables = rw same tables;
            same_id = same_id;
            same_token = same_token;
          }
    ]
  ]
]

-- A delivery that is final, or that another run holds, is passed over: the run succeeds, sends
-- nothing and changes nothing.
pub handle_passes :
    (hmac : String → String → String) (r : Run) (id : String) (execution : WorkExecution)
    (t : Tables) (row : WebhookEventDelivery)
    → r.select_ok ≡ true
    → r.commit_ok ≡ true
    → find_delivery id t ≡ some row
    → (is_final row || is_claimed r.claimed_at row) ≡ true
    → handle hmac r id execution t ≡ (ok tt, t, [])
unfolding handle claim_delivery
handle_passes hmac r id execution t row selected committed found passed =
    ground (arith, selected, found, passed, committed)

-- The row after a claim.
pub find_delivery-claimed :
    (r : Run) (id : String) (t : Tables) (d : ClaimedDelivery) (c : WasClaimed r id t d)
    → find_delivery id (claim_delivery r id t).1 ≡ some (claim_row r c.row c.row)
find_delivery-claimed r id t d c =
    let mine = find_where-holds (is_delivery id) t.deliveries c.row c.was_found in
    rw c.tables (
      rw
        (find_delivery-update id (is_delivery id) (claim_row r c.row) t c.row (λ x. refl)
          c.was_found)
        (rw mine refl))

-- While the request of a claimed delivery is under way, and until its claim expires, another run of
-- the handler for that delivery sends nothing: provided that the database answers it, it succeeds
-- and leaves the tables as they are.
pub handle-claim_delivery :
    (hmac : String → String → String) (r r' : Run) (id : String) (execution : WorkExecution)
    (t : Tables) (d : ClaimedDelivery)
    → (claim_delivery r id t).0 ≡ ok (some d)
    → r'.claimed_at < r.claimed_at + claim_ttl_ms
    → r'.select_ok ≡ true
    → r'.commit_ok ≡ true
    → handle hmac r' id execution (claim_delivery r id t).1 ≡ (ok tt, (claim_delivery r id t).1, [])
handle-claim_delivery hmac r r' id execution t d h live selected committed =
    let c = claim_delivery-some r id t d h in
    handle_passes hmac r' id execution (claim_delivery r id t).1 (claim_row r c.row c.row) selected
      committed (find_delivery-claimed r id t d c) (ground (arith, live))
