-- ===== src/Webhooks/Deliver/Outcomes.antt =====
-- What a run of the webhook handler leaves behind: handle of deliver.ts.
use Prim.Native.String.{◌++◌}
use relayit.Prelude.Decimal.{decimal}
use relayit.Prelude.{
  ℕ, ◌+◌, ◌/◌, ◌<◌, ◌≤◌, ◌≡◌, refl, ◌∙◌, String, true, false, ◌||◌, none, some, [], ◌∷◌, Result, ok,
  err, arith, eq_refl, ltb, leb, Bool-cases, Option-cases, Result-cases, inl, inr, ◌⊎◌,
}
use relayit.Prelude.Tables.{find_where-holds}
use relayit.Jobs.{WorkExecution, retryable}
use relayit.Webhooks.{
  pending, delivered, WebhookEventDelivery, Tables, is_delivery, find_delivery,
  WebhookDeliveryError, retryable_error,
}
use relayit.Webhooks.Deliver.{
  claim_ttl_ms, ClaimedDelivery, WebhookRequest, Run, retry_delay, claim_row, delivered_row,
  failed_row, claim_delivery, is_claim_of, mark_delivered, mark_failed, request_of, conclude,
  handle, classify_failure,
}
use relayit.Webhooks.Deliver.Claims.{
  find_delivery-update, WasClaimed, claim_delivery-some, find_delivery-claimed, handle_passes,
}

-- No response, or one outside the 2xx range.
abbrev pub Refused : Result String ℕ → Type 0
Refused (err _) = Unit
Refused (ok status) = (status < 200) ⊎ (300 ≤ status)

outside_2xx : (status : ℕ) → (ltb status 200 || leb 300 status) ≡ true → Refused (ok status)
outside_2xx status h = elim (Bool-cases (ltb status 200)) [
  | inl low ↦ inl (ground (arith, low))
  | inr high ↦ inr (ground (arith, high, h))
]

-- The row of a delivery after its request has been answered and the answer persisted.
pub record IsConcluded (r : Run) (execution : WorkExecution) (before : WebhookEventDelivery)
    (response : Result String ℕ) (result : Result WebhookDeliveryError (Unit {0}))
    (row : WebhookEventDelivery) : Type 0 where
  pub unclaimed : (row.claim_token ≡ none) × (row.claim_expires_at ≡ none)
  pub counted : row.attempts ≡ before.attempts
  pub answered :
      ((status : ℕ) × (response ≡ ok status)
        × (200 ≤ status)
        × (status < 300)
        × (result ≡ ok tt)
        × (row.status ≡ delivered))
      ⊎ ((e : WebhookDeliveryError) × Refused response
          × (result ≡ err e)
          × (classify_failure e ≡ retryable)
          × (row.status ≡ before.status)
          × (row.next_attempt_at ≡ some (r.marked_at + retry_delay execution)))

module _ (hmac : String → String → String) (r : Run) (id : String) (execution : WorkExecution) where
  mark_failed-IsConcluded :
      (d : ClaimedDelivery) (response : Result String ℕ) (message reason : String) (t : Tables)
      (row : WebhookEventDelivery)
      → Refused response
      → r.mark_ok ≡ true
      → find_delivery id t ≡ some row
      → is_claim_of d row ≡ true
      → (row' : WebhookEventDelivery) × (find_delivery id
            (mark_failed r d execution message (retryable_error d.delivery_id reason) t).1
          ≡ some row')
        × IsConcluded r execution row response
            (mark_failed r d execution message (retryable_error d.delivery_id reason) t).0
            row'
  unfolding mark_failed classify_failure
  mark_failed-IsConcluded d response message reason t row refused marked found mine =
      let change = failed_row (r.marked_at + retry_delay execution) message in
      let after = find_delivery-update id (is_claim_of d) change t row (λ x. refl) found in
      (
        change row,
        ground (arith, marked, after, mine),
        record {
          unclaimed = (refl, refl);
          counted = refl;
          answered = inr (
            retryable_error d.delivery_id reason,
            refused,
            ground (arith, marked),
            refl,
            refl,
            refl,
          );
        },
      )

  conclude-IsConcluded :
      (d : ClaimedDelivery) (response : Result String ℕ) (t : Tables) (row : WebhookEventDelivery)
      → r.mark_ok ≡ true
      → find_delivery id t ≡ some row
      → is_claim_of d row ≡ true
      → (row' : WebhookEventDelivery) × (find_delivery id (conclude hmac r d execution response t).1
          ≡ some row')
        × IsConcluded r execution row response (conclude hmac r d execution response t).0 row'
  unfolding conclude mark_delivered
  conclude-IsConcluded d (err cause) t row marked found mine =
      mark_failed-IsConcluded d (err cause) "Webhook HTTP request failed"
        "Webhook HTTP request failed" t row tt marked found mine
  conclude-IsConcluded d (ok status) t row marked found mine =
      elim (Bool-cases (ltb status 200 || leb 300 status)) [
        | inl refused ↦ rw refused (
            mark_failed-IsConcluded d (ok status) ("HTTP " ++ decimal status)
              ("HTTP " ++ decimal status) t row (outside_2xx status refused) marked found mine)
        | inr accepted ↦
            let after =
              find_delivery-update id (is_claim_of d) (delivered_row r.marked_at) t row (λ x. refl)
                found in
            (
              delivered_row r.marked_at row,
              ground (arith, accepted, marked, after, mine),
              record {
                unclaimed = (refl, refl);
                counted = refl;
                answered = inl (
                  status,
                  refl,
                  ground (arith, accepted),
                  ground (arith, accepted),
                  ground (arith, accepted, marked),
                  refl,
                );
              },
            )
      ]

  -- A run that sends a request has claimed the delivery.
  handle-request :
      (t : Tables) (q : WebhookRequest)
      → (handle hmac r id execution t).2 ≡ q ∷ []
      → (d : ClaimedDelivery) × ((claim_delivery r id t).0 ≡ ok (some d))
  unfolding handle
  handle-request t q h = elim (Result-cases (claim_delivery r id t).0) [
    | inr (e, failed) ↦ ground (arith, failed, h)
    | inl (claim, claimed) ↦ elim (Option-cases claim) [
      | inl passed ↦ ground (arith, claimed, passed, h)
      | inr (d, taken) ↦ (d, ground (arith, claimed, taken))
    ]
  ]

  pub handle-claimed :
      (t : Tables) (d : ClaimedDelivery)
      → (claim_delivery r id t).0 ≡ ok (some d)
      → let request = request_of hmac d (r.sent_at / 1000) in
        let after =
          conclude hmac r d execution (r.response request) (r.others (claim_delivery r id t).1) in
        handle hmac r id execution t ≡ (after.0, after.1, request ∷ [])
  unfolding handle
  handle-claimed t d h = ground (arith, h)

  claimed-is_claim_of :
      (t : Tables) (d : ClaimedDelivery) (c : WasClaimed r id t d)
      → is_claim_of d (claim_row r c.row c.row) ≡ true
  claimed-is_claim_of t d c = ground (
    arith,
    find_where-holds (is_delivery id) t.deliveries c.row c.was_found,
    c.same_id,
    c.same_token,
    eq_refl r.token,
  )

  -- What an outcome that cannot be persisted leaves.
  conclude-unmarked :
      (d : ClaimedDelivery) (response : Result String ℕ) (t : Tables)
      → r.mark_ok ≡ false
      → (e : WebhookDeliveryError) × (conclude hmac r d execution response t ≡ (err e, t))
        × (classify_failure e ≡ retryable)
  unfolding conclude mark_failed mark_delivered classify_failure
  conclude-unmarked d (err cause) t unmarked = (
    retryable_error d.delivery_id "Webhook failure could not be persisted",
    ground (arith, unmarked),
    refl,
  )
  conclude-unmarked d (ok status) t unmarked =
      elim (Bool-cases (ltb status 200 || leb 300 status)) [
        | inl refused ↦ (
          retryable_error d.delivery_id "Webhook failure could not be persisted",
          ground (arith, refused, unmarked),
          refl,
        )
        | inr accepted ↦ (
          retryable_error d.delivery_id "Webhook success could not be persisted",
          ground (arith, accepted, unmarked),
          refl,
        )
      ]

  -- A run that sends a request, that no other run disturbs and whose outcome can be persisted,
  -- releases its claim and counts one attempt: either the response was of the 2xx range, the run
  -- succeeds and the delivery is delivered, or there was no response or one outside that range,
  -- the run fails with a retryable error, and the delivery is pending and due for its next attempt
  -- after the delay of this one.
  pub handle-IsConcluded :
      (t : Tables) (row : WebhookEventDelivery) (q : WebhookRequest)
      → find_delivery id t ≡ some row
      → (handle hmac r id execution t).2 ≡ q ∷ []
      → r.mark_ok ≡ true
      → ((u : Tables) → find_delivery id (r.others u) ≡ find_delivery id u)
      → (row' : WebhookEventDelivery) × (find_delivery id (handle hmac r id execution t).1
          ≡ some row')
        × IsConcluded r execution
            (claim_row r row row)
            (r.response q)
            (handle hmac r id execution t).0
            row'
  handle-IsConcluded t row q found sent marked quiet =
      let (d, claimed) = handle-request t q sent in
      let c = claim_delivery-some r id t d claimed in
      let request = request_of hmac d (r.sent_at / 1000) in
      let u = r.others (claim_delivery r id t).1 in
      let all = handle-claimed t d claimed in
      let same_row : c.row ≡ row = ground (arith, c.was_found, found) in
      let same_q : request ≡ q = ground (arith, all, sent) in
      let row_at : find_delivery id u ≡ some (claim_row r c.row c.row) =
        quiet (claim_delivery r id t).1 ∙ find_delivery-claimed r id t d c in
      let mine = claimed-is_claim_of t d c in
      let (row', at, concluded) =
        conclude-IsConcluded d (r.response request) u (claim_row r c.row c.row) marked row_at
          mine in
      rw (all, ← same_row, ← same_q) (row', at, concluded)

  -- When the outcome of a request cannot be persisted, the run fails, but a retry that comes while
  -- the claim lasts succeeds, sends nothing and changes nothing: the delivery stays pending,
  -- although its job is done.
  pub handle_unmarked :
      (r' : Run) (execution' : WorkExecution) (t : Tables) (q : WebhookRequest)
      → (handle hmac r id execution t).2 ≡ q ∷ []
      → r.mark_ok ≡ false
      → ((u : Tables) → find_delivery id (r.others u) ≡ find_delivery id u)
      → r'.claimed_at < r.claimed_at + claim_ttl_ms
      → r'.select_ok ≡ true
      → r'.commit_ok ≡ true
      → (e : WebhookDeliveryError) × ((handle hmac r id execution t).0 ≡ err e)
        × (classify_failure e ≡ retryable)
        × (handle hmac r' id execution' (handle hmac r id execution t).1
            ≡ (ok tt, (handle hmac r id execution t).1, []))
        × (row' : WebhookEventDelivery) × (find_delivery id (handle hmac r id execution t).1
            ≡ some row')
        × (row'.status ≡ pending)
  handle_unmarked r' execution' t q sent unmarked quiet live selected committed =
      let (d, claimed) = handle-request t q sent in
      let c = claim_delivery-some r id t d claimed in
      let request = request_of hmac d (r.sent_at / 1000) in
      let u = r.others (claim_delivery r id t).1 in
      let all = handle-claimed t d claimed in
      let row_at : find_delivery id u ≡ some (claim_row r c.row c.row) =
        quiet (claim_delivery r id t).1 ∙ find_delivery-claimed r id t d c in
      let (e, failed, again) = conclude-unmarked d (r.response request) u unmarked in
      let left : (handle hmac r id execution t).1 ≡ u = rw all (ground (arith, failed)) in
      rw left (
        e,
        ground (arith, all, failed),
        again,
        handle_passes hmac r' id execution' u (claim_row r c.row c.row) selected committed row_at
            (ground (arith, live)),
        claim_row r c.row c.row,
        row_at,
        refl,
      )
