-- ===== src/Webhooks/Deliveries.antt =====
-- The rows of the table of webhook deliveries under all operations that write them: deliver.ts and
-- replayWebhookDelivery of endpoint-lifecycle.ts.
use relayit.Prelude.{
  ℕ, ◌+◌, ◌≤◌, ltb, leb, ◌≡◌, refl, ◌⊎◌, String, Bool, true, false, ◌&&◌, ◌||◌, none, List, [], ◌∷◌,
  Result, ok, err, arith, Bool-cases, Option-cases, Result-cases, inl, inr, All,
}
use relayit.Prelude.Tables.{All-update_where, All-find_where}
use relayit.Jobs.{WorkExecution}
use relayit.Webhooks.{
  WebhookEventDelivery, Tables, is_delivery, find_delivery, WebhookDeliveryError,
}
use relayit.Webhooks.Deliver.{
  Run, ClaimedDelivery, retry_delay, is_claimed, is_final, joined, claim_row, update_delivery,
  claim_delivery, take_claim, is_claim_of, delivered_row, mark_delivered, failed_row, mark_failed,
  conclude, on_dead_letter,
}
use relayit.Webhooks.Replay.Again.{replay_webhook_delivery-ok}
use relayit.Webhooks.Replay.{replayed_row, replay_webhook_delivery}

-- What every operation keeps of a row: a delivery that is delivered or dead has no claim, and a run
-- of attempts is part of all attempts.
pub record IsValid (row : WebhookEventDelivery) : Type 0 where
  pub unclaimed : is_final row ≡ true → (row.claim_token ≡ none) × (row.claim_expires_at ≡ none)
  pub counted : row.attempts_in_run ≤ row.attempts

pub data Command : Type 0 where
  claim : Run → String → Command
  finish : Run → ClaimedDelivery → WorkExecution → Result String ℕ → Command
  give_up : Bool → String → Command
  replay : Bool → Bool → Bool → String → String → String → Command

module _ (hmac : String → String → String) where
  unfoldable pub execute : Command → Tables → Tables
  execute (claim r id) t = (claim_delivery r id t).1
  execute (finish r d execution response) t = (conclude hmac r d execution response t).1
  execute (give_up update_ok id) t = (on_dead_letter update_ok id t).1
  execute (replay select_ok update_ok enqueue_ok o endpoint_id id) t =
      elim (replay_webhook_delivery select_ok update_ok enqueue_ok o endpoint_id id t) [
        | ok t' ↦ t'
        | err _ ↦ t
      ]

  unfoldable pub run : List Command → Tables → Tables
  run [] t = t
  run (c ∷ cs) t = run cs (execute c t)

abbrev pub AllValid : Tables → Type 0
AllValid t = All IsValid t.deliveries

claim_row-IsValid :
    (r : Run) (read row : WebhookEventDelivery) → IsValid read → IsValid (claim_row r read row)
claim_row-IsValid r read row v = record { unclaimed = λ h. cc; counted = omega (arith, v.counted) }

take_claim-tables :
    (r : Run) (id : String) (row : WebhookEventDelivery) (t : Tables)
    → ((take_claim r id row t).1 ≡ t)
      ⊎ ((take_claim r id row t).1 ≡ update_delivery (is_delivery id) (claim_row r row) t)
unfolding take_claim
take_claim-tables r id row t = elim (Bool-cases r.join_ok) [
  | inr refused ↦ inl (ground (arith, refused))
  | inl done ↦ elim (Option-cases (joined t row)) [
    | inl missing ↦ inl (ground (arith, done, missing))
    | inr ((endpoint, event), there) ↦ elim (Option-cases (r.encode_body event)) [
      | inl missing ↦ inl (ground (arith, done, there, missing))
      | inr (body, encoded) ↦ elim (Bool-cases (r.update_ok && r.commit_ok)) [
        | inr refused ↦ inl (ground (arith, done, there, encoded, refused))
        | inl stored ↦ inr (ground (arith, done, there, encoded, stored))
      ]
    ]
  ]
]

take_claim-AllValid :
    (r : Run) (id : String) (row : WebhookEventDelivery) (t : Tables)
    → IsValid row
    → AllValid t
    → AllValid (take_claim r id row t).1
take_claim-AllValid r id row t v a = elim (take_claim-tables r id row t) [
  | inl same ↦ rw same a
  | inr changed ↦ rw changed (
      All-update_where IsValid (is_delivery id) (claim_row r row) t.deliveries
        (λ x _ _. claim_row-IsValid r row x v) a)
]

claim_delivery-AllValid :
    (r : Run) (id : String) (t : Tables) → AllValid t → AllValid (claim_delivery r id t).1
unfolding claim_delivery
claim_delivery-AllValid r id t a = elim (Bool-cases r.select_ok) [
  | inr refused ↦ rw refused a
  | inl selected ↦ elim (Option-cases (find_delivery id t)) [
    | inl missing ↦ simp (selected, missing) a
    | inr (row, found) ↦ elim (Bool-cases (is_final row || is_claimed r.claimed_at row)) [
      | inl passed ↦ simp (selected, found, passed) a
      | inr taken ↦
          simp (selected, found, taken)
            (take_claim-AllValid r id row t
              (All-find_where IsValid (is_delivery id) t.deliveries row a found) a)
    ]
  ]
]

released-IsValid :
    (at : ℕ) (message : String) (row : WebhookEventDelivery)
    → IsValid row
    → IsValid (failed_row at message row)
released-IsValid at message row v = record { unclaimed = λ _. (refl, refl); counted = v.counted }

mark_failed-AllValid :
    (r : Run) (d : ClaimedDelivery) (execution : WorkExecution) (message : String)
    (e : WebhookDeliveryError) (t : Tables)
    → AllValid t
    → AllValid (mark_failed r d execution message e t).1
unfolding mark_failed
mark_failed-AllValid r d execution message e t a = elim (Bool-cases r.mark_ok) [
  | inr refused ↦ simp refused a
  | inl marked ↦ simp marked (
      All-update_where IsValid (is_claim_of d)
        (failed_row (r.marked_at + retry_delay execution) message) t.deliveries
        (λ x _ v. released-IsValid (r.marked_at + retry_delay execution) message x v) a)
]

mark_delivered-AllValid :
    (r : Run) (d : ClaimedDelivery) (t : Tables) → AllValid t → AllValid (mark_delivered r d t).1
unfolding mark_delivered
mark_delivered-AllValid r d t a = elim (Bool-cases r.mark_ok) [
  | inr refused ↦ simp refused a
  | inl marked ↦ simp marked (
      All-update_where IsValid (is_claim_of d) (delivered_row r.marked_at) t.deliveries
        (λ x _ v. record { unclaimed = λ _. (refl, refl); counted = v.counted }) a)
]

conclude-AllValid :
    (hmac : String → String → String) (r : Run) (d : ClaimedDelivery) (execution : WorkExecution)
    (response : Result String ℕ) (t : Tables)
    → AllValid t
    → AllValid (conclude hmac r d execution response t).1
unfolding conclude
conclude-AllValid hmac r d execution (err cause) t a = mark_failed-AllValid r d execution _ _ t a
conclude-AllValid hmac r d execution (ok status) t a =
    elim (Bool-cases (ltb status 200 || leb 300 status)) [
      | inl refused ↦ rw refused (mark_failed-AllValid r d execution _ _ t a)
      | inr accepted ↦ rw accepted (mark_delivered-AllValid r d t a)
    ]

on_dead_letter-AllValid :
    (update_ok : Bool) (id : String) (t : Tables)
    → AllValid t
    → AllValid (on_dead_letter update_ok id t).1
unfolding on_dead_letter
on_dead_letter-AllValid false id t a = a
on_dead_letter-AllValid true id t a =
    All-update_where IsValid (is_delivery id) _ t.deliveries
      (λ x _ v. record { unclaimed = λ _. (refl, refl); counted = v.counted }) a

replay-AllValid :
    (select_ok update_ok enqueue_ok : Bool) (o endpoint_id id : String) (t t' : Tables)
    → replay_webhook_delivery select_ok update_ok enqueue_ok o endpoint_id id t ≡ ok t'
    → AllValid t
    → AllValid t'
replay-AllValid select_ok update_ok enqueue_ok o endpoint_id id t t' h a =
    let p = replay_webhook_delivery-ok select_ok update_ok enqueue_ok o endpoint_id id t t' h in
    rw p.tables (
      All-update_where IsValid (is_delivery p.row.id) (replayed_row p.row) t.deliveries
        (λ x _ v. record { unclaimed = λ _. (refl, refl); counted = omega arith }) a)

module _ (hmac : String → String → String) where
  execute-AllValid : (c : Command) (t : Tables) → AllValid t → AllValid (execute hmac c t)
  unfolding execute
  execute-AllValid (claim r id) t a = claim_delivery-AllValid r id t a
  execute-AllValid (finish r d execution response) t a =
      conclude-AllValid hmac r d execution response t a
  execute-AllValid (give_up update_ok id) t a = on_dead_letter-AllValid update_ok id t a
  execute-AllValid (replay select_ok update_ok enqueue_ok o endpoint_id id) t a =
      elim (Result-cases
        (replay_webhook_delivery select_ok update_ok enqueue_ok o endpoint_id id t)) [
          | inl (t', done) ↦
              rw (execute, done)
                (replay-AllValid select_ok update_ok enqueue_ok o endpoint_id id t t' done a)
          | inr (e, failed) ↦ rw (execute, failed) a
        ]

  -- Under any interleaving of claims, outcomes, dead letters and replays, whatever they are about
  -- and whatever the database answers: a delivery that is delivered or dead is not claimed, and the
  -- attempts of its run are among all its attempts.
  pub run-AllValid : (cs : List Command) (t : Tables) → AllValid t → AllValid (run hmac cs t)
  unfolding run
  run-AllValid [] t a = a
  run-AllValid (c ∷ cs) t a = run-AllValid cs (execute hmac c t) (execute-AllValid c t a)
