-- ===== src/Webhooks/Tests.antt =====
-- Runs and instances of the theorems on packages/webhooks.
use relayit.Prelude.{
  ◌≡◌, ◌↔◌, ◌⊎◌, inl, inr, refl, String, true, false, none, some, List, [], ◌∷◌, ok, err, arith,
  str_eq, eq_iff, Bool-cases, if◌then◌else◌,
}
use relayit.Prelude.Tables.{find_where, update_where, select_where}
use relayit.Jobs.{WorkExecution, retryable}
use relayit.Webhooks.{
  pending, dead_letter, WebhookEndpoint, WebhookEvent, WebhookEventDelivery, Tables, find_delivery,
  WebhookDeliveryError,
}
use relayit.Webhooks.Deliver.{
  joined, Run, ClaimedDelivery, WebhookRequest, claim_row, claim_delivery, take_claim, handle,
  claimed_delivery, classify_failure, sign_webhook_payload,
}
use relayit.Webhooks.Deliver.Claims.{handle-claim_delivery}
use relayit.Webhooks.Deliver.Outcomes.{IsConcluded, handle-IsConcluded, handle_unmarked}
use relayit.Webhooks.Emit.{
  endpoint_matches, includes, tag, every_tag, EmitInput, EmittedWebhookEvent, Answers, matching,
  emit_webhook_event, emit_deliveries, emit_delivery,
}
use relayit.Webhooks.Emit.Matching.{Listens, endpoint_matches-Listens}
use relayit.Webhooks.Emit.Fanout.{Targets, IsEmitted, emit_webhook_event-ok}
use relayit.Webhooks.Replay.{replay_webhook_delivery}
use relayit.Webhooks.Endpoints.{rotate_webhook_signing_secret}
use relayit.Webhooks.Endpoints.Isolation.{IsKeyed, foreign, Operation, run-foreign, ids}
use relayit.Webhooks.Endpoints.Isolation
use relayit.Webhooks.Replay.Again.{handle-replay_webhook_delivery}
use relayit.Webhooks.Deliveries.{IsValid, AllValid, run-AllValid}
use relayit.Webhooks.Deliveries

abbrev shop : WebhookEndpoint
shop = record {
  id = "whkep_1";
  organization_id = "org_a";
  url = "https://shop.example/hooks";
  event_types = "email.sent" ∷ "email.failed" ∷ [];
  tag_filter = some (("stage", "live") ∷ []);
  enabled = true;
  signing_secret = "whsec_1";
  previous_signing_secret = none;
  previous_secret_expires_at = none;
}

abbrev bank : WebhookEndpoint
bank = record shop { id = "whkep_2"; organization_id = "org_b"; tag_filter = none }

abbrev sent_event : WebhookEvent
sent_event = record {
  id = "whevt_1";
  organization_id = "org_a";
  event_type = "email.sent";
  idempotency_id = "whid_1";
  payload = "{}";
  created_at = 5;
}

abbrev waiting : WebhookEventDelivery
waiting = record {
  id = "whdlv_1";
  webhook_event_id = "whevt_1";
  webhook_endpoint_id = "whkep_1";
  status = pending;
  attempts = 0;
  attempts_in_run = 0;
  replay_count = 0;
  claim_token = none;
  claim_expires_at = none;
  last_attempt_at = none;
  next_attempt_at = some 5;
  last_error = none;
  delivered_at = none;
}

abbrev tables : Tables
tables = record {
  endpoints = shop ∷ bank ∷ [];
  events = sent_event ∷ [];
  deliveries = waiting ∷ [];
  jobs = [];
}

abbrev execution : WorkExecution
execution = record { attempt = 1; enqueued_at = 5; id = "1-0" }

-- The request is answered with status 200 and the outcome persisted.
abbrev good : Run
good = record {
  claimed_at = 1000;
  select_ok = true;
  join_ok = true;
  update_ok = true;
  commit_ok = true;
  encode_body = λ e. some e.payload;
  token = "whclm_1";
  sent_at = 2000;
  response = λ q. ok 200;
  others = λ t. t;
  marked_at = 3000;
  mark_ok = true;
}

-- The outcome cannot be persisted.
abbrev unmarked : Run
unmarked = record good { mark_ok = false }

-- The retry after the first delay of 30 seconds.
abbrev late : Run
late = record good { claimed_at = 33_000; token = "whclm_2" }

abbrev hmac : String → String → String
hmac secret text = text

abbrev claimed : ClaimedDelivery
claimed = claimed_delivery good "whdlv_1" waiting shop sent_event "{}"

claim_good : (claim_delivery good "whdlv_1" tables).0 ≡ ok (some claimed)
unfolding claim_delivery take_claim find_where
claim_good = refl

handle-claim_delivery_example :
    handle hmac late "whdlv_1" execution (claim_delivery good "whdlv_1" tables).1
    ≡ (ok tt, (claim_delivery good "whdlv_1" tables).1, [])
handle-claim_delivery_example =
    handle-claim_delivery hmac good late "whdlv_1" execution tables claimed claim_good (omega arith)
      refl refl

abbrev request : WebhookRequest
request = record {
  url = "https://shop.example/hooks";
  webhook_id = "whid_1";
  webhook_signature = "v1=whid_1.2.{}";
  webhook_timestamp = "2";
  body = "{}";
}

waiting_found : find_delivery "whdlv_1" tables ≡ some waiting
unfolding find_where
waiting_found = refl

good_sends : (handle hmac good "whdlv_1" execution tables).2 ≡ request ∷ []
unfolding handle claim_delivery take_claim find_where sign_webhook_payload
good_sends = refl

unmarked_sends : (handle hmac unmarked "whdlv_1" execution tables).2 ≡ request ∷ []
unfolding handle claim_delivery take_claim find_where sign_webhook_payload
unmarked_sends = refl

handle-IsConcluded_example :
    (row' : WebhookEventDelivery) × (find_delivery "whdlv_1"
        (handle hmac good "whdlv_1" execution tables).1
      ≡ some row')
    × IsConcluded good execution
        (claim_row good waiting waiting)
        (good.response request)
        (handle hmac good "whdlv_1" execution tables).0
        row'
handle-IsConcluded_example =
    handle-IsConcluded hmac good "whdlv_1" execution tables waiting request waiting_found good_sends
      refl (λ u. refl)

handle_unmarked_example :
    (e : WebhookDeliveryError) × ((handle hmac unmarked "whdlv_1" execution tables).0 ≡ err e)
    × (classify_failure e ≡ retryable)
    × (handle hmac late "whdlv_1"
          (record execution { attempt = 2 })
          (handle hmac unmarked "whdlv_1" execution tables).1
        ≡ (ok tt, (handle hmac unmarked "whdlv_1" execution tables).1, []))
    × (row' : WebhookEventDelivery) × (find_delivery "whdlv_1"
          (handle hmac unmarked "whdlv_1" execution tables).1
        ≡ some row')
    × (row'.status ≡ pending)
handle_unmarked_example =
    handle_unmarked hmac unmarked "whdlv_1" execution late (record execution { attempt = 2 }) tables
      request unmarked_sends refl (λ u. refl) (omega arith) refl refl

endpoint_matches-Listens_example :
    (endpoint_matches true shop.event_types
        (some (("stage", "live") ∷ []))
        shop.tag_filter
        "email.sent"
      ≡ true)
    ↔ Listens true shop.event_types (("stage", "live") ∷ []) (("stage", "live") ∷ []) "email.sent"
endpoint_matches-Listens_example =
    endpoint_matches-Listens true shop.event_types (some (("stage", "live") ∷ [])) shop.tag_filter
      "email.sent"

abbrev input : EmitInput
input = record {
  event_type = "email.sent";
  data_text = "{}";
  idempotency_id = some "whid_2";
  message_tags = some (("stage", "live") ∷ []);
  organization_id = "org_a";
}

abbrev answers : Answers
answers = record {
  now = 9;
  event_id = "whevt_2";
  new_idempotency_id = "whid_9";
  delivery_id = λ id. if str_eq id "whkep_1" then "whdlv_2" else "whdlv_3";
  select_ok = true;
  event_ok = true;
  delivery_ok = λ id. true;
  enqueue_ok = λ id. true;
}

abbrev emitted : EmittedWebhookEvent
emitted = record { delivery_count = 1; event_id = "whevt_2" }

abbrev tables_after : Tables
tables_after = record tables {
  events =
      sent_event
      ∷ record sent_event { id = "whevt_2"; idempotency_id = "whid_2"; created_at = 9 }
      ∷ [];
  deliveries =
      waiting
      ∷ record waiting { id = "whdlv_2"; webhook_event_id = "whevt_2"; next_attempt_at = some 9 }
      ∷ [];
  jobs = "whdlv_2" ∷ [];
}

emits : emit_webhook_event answers input tables ≡ ok (some emitted, tables_after)
unfolding emit_webhook_event emit_deliveries emit_delivery matching endpoint_matches includes
    every_tag tag select_where
emits = refl

emit_webhook_event-ok_example :
    ((some emitted ≡ none) × Targets input tables.endpoints [] × (tables_after ≡ tables))
    ⊎ ((e : EmittedWebhookEvent) × (some emitted ≡ some e)
        × IsEmitted answers input tables tables_after e)
emit_webhook_event-ok_example =
    emit_webhook_event-ok answers input tables tables_after (some emitted) emits

same_text : (x y : String) → str_eq x y ≡ true → x ≡ y
same_text x y h = ground (arith, h, eq_iff x y)

tables-IsKeyed : IsKeyed tables.endpoints
tables-IsKeyed id = elim (Bool-cases (str_eq "whkep_1" id)) [
  | inl same ↦ rw (← same_text "whkep_1" id same) (omega arith)
  | inr other ↦ ground (arith, other)
]

abbrev rotated : Tables
rotated = record tables {
  endpoints =
      record shop {
        signing_secret = "whsec_2";
        previous_signing_secret = some "whsec_1";
        previous_secret_expires_at = some 86_400_007;
      }
      ∷ bank
      ∷ [];
}

rotates :
    Isolation.run "org_a" (Isolation.rotate true true 7 "whsec_2" "whkep_1") tables ≡ ok rotated
unfolding rotate_webhook_signing_secret find_where update_where
rotates = refl

run-foreign_example : foreign "org_a" rotated.endpoints ≡ foreign "org_a" tables.endpoints
run-foreign_example =
    run-foreign "org_a" (Isolation.rotate true true 7 "whsec_2" "whkep_1") tables rotated
      tables-IsKeyed rotates

abbrev dead : Tables
dead = record tables {
  deliveries = record waiting { status = dead_letter; attempts = 8; attempts_in_run = 8 } ∷ [];
}

abbrev revived : Tables
revived = record tables {
  deliveries = record waiting { attempts = 8; replay_count = 1; next_attempt_at = none } ∷ [];
  jobs = "whdlv_1" ∷ [];
}

replays : replay_webhook_delivery true true true "org_a" "whkep_1" "whdlv_1" dead ≡ ok revived
unfolding replay_webhook_delivery find_where update_where
replays = refl

dead_joins :
    (row : WebhookEventDelivery)
    → find_delivery "whdlv_1" dead ≡ some row
    → (found : WebhookEndpoint × WebhookEvent) × (joined dead row ≡ some found)
unfolding find_where
dead_joins row h =
    let same : record waiting { status = dead_letter; attempts = 8; attempts_in_run = 8 } ≡ row =
      cc in
    rw (← same) ((shop, sent_event), refl)

handle-replay_webhook_delivery_example :
    (q : WebhookRequest) × ((handle hmac good "whdlv_1" execution revived).2 ≡ q ∷ [])
handle-replay_webhook_delivery_example =
    handle-replay_webhook_delivery hmac good execution true true true "org_a" "whkep_1" "whdlv_1"
      dead revived replays refl refl refl (λ e. (e.payload, refl)) dead_joins

-- A first attempt that fails, and the dead letter.
abbrev history : List Deliveries.Command
history =
    Deliveries.claim good "whdlv_1"
    ∷ Deliveries.finish good claimed execution (ok 503)
    ∷ Deliveries.give_up true "whdlv_1"
    ∷ Deliveries.replay true true true "org_a" "whkep_1" "whdlv_1"
    ∷ []

run-AllValid_example : AllValid (Deliveries.run hmac history tables)
run-AllValid_example =
    run-AllValid hmac history tables
      (record { unclaimed = λ h. (refl, refl); counted = omega arith }, tt)
