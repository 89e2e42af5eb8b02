-- ===== src/Webhooks/Emit/Fanout.antt =====
-- What emitWebhookEvent of emit.ts adds to the tables.
use relayit.Prelude.{
  ◌≡◌, refl, sym, ap, String, true, ◌&&◌, Option, none, some, List, [], ◌∷◌, ◌++◌, map, ok, arith,
  str_eq, eq_iff, eq_refl, or_else, length, Bool-cases, List-cases, ◌⊎◌, Result-cases, inl, inr,
}
use relayit.Prelude.Tables.{select_where}
use relayit.Webhooks.{pending, WebhookEndpoint, Tables}
use relayit.Webhooks.Emit.Matching.{Listens, endpoint_matches-Listens}
use relayit.Webhooks.Emit.{
  EmitInput, EmittedWebhookEvent, Answers, matches, matching, new_delivery, new_event,
  emit_delivery, emit_deliveries, emit_webhook_event,
}

assoc : {A : Type 0} (xs : List A) (y : A) (ys : List A) → (xs ++ y ∷ []) ++ ys ≡ xs ++ y ∷ ys
assoc [] y ys = refl
assoc (x ∷ xs) y ys = ap (λ l. x ∷ l) (assoc xs y ys)

none_added : {A : Type 0} (xs : List A) → xs ++ [] ≡ xs
none_added [] = refl
none_added (x ∷ xs) = ap (λ l. x ∷ l) (none_added xs)

abbrev pub ids_for : Answers → List WebhookEndpoint → List String
ids_for a es = map (λ (e : WebhookEndpoint). a.delivery_id e.id) es

emit_deliveries-ok :
    (a : Answers) (es : List WebhookEndpoint) (t t' : Tables)
    → emit_deliveries a es t ≡ ok t'
    → t' ≡ record t {
      deliveries = t.deliveries ++ map (new_delivery a) es;
      jobs = t.jobs ++ ids_for a es;
    }
unfolding emit_deliveries emit_delivery
emit_deliveries-ok a [] t t' h =
    let same : t ≡ t' = cc in rw (none_added t.deliveries, none_added t.jobs) (sym same)
emit_deliveries-ok a (e ∷ es) t t' h = elim (Bool-cases (a.delivery_ok e.id)) [
  | inr refused ↦ ground (arith, refused, h)
  | inl inserted ↦ elim (Bool-cases (a.enqueue_ok e.id)) [
    | inr refused ↦ ground (arith, inserted, refused, h)
    | inl enqueued ↦
        let t1 : Tables = record t {
          deliveries = t.deliveries ++ new_delivery a e ∷ [];
          jobs = t.jobs ++ a.delivery_id e.id ∷ [];
        } in
        let rest : emit_deliveries a es t1 ≡ ok t' = ground (arith, inserted, enqueued, h) in
        rw
          (
            ← assoc t.deliveries (new_delivery a e) (map (new_delivery a) es),
            ← assoc t.jobs (a.delivery_id e.id) (ids_for a es),
          )
          (emit_deliveries-ok a es t1 t' rest)
  ]
]

-- An endpoint of the organization that listens to the event.
pub record Hears (input : EmitInput) (e : WebhookEndpoint) : Type 0 where
  pub same_organization : e.organization_id ≡ input.organization_id
  pub listens :
      Listens e.enabled e.event_types
        (or_else input.message_tags [])
        (or_else e.tag_filter [])
        input.event_type

-- The endpoints that hear the event, all of them and no others, each as often as in the table and
-- in the table's order.
pub data Targets (input : EmitInput) : List WebhookEndpoint → List WebhookEndpoint → Type 0 where
  none_left : Targets input [] []
  taken :
      {e : WebhookEndpoint} {es chosen : List WebhookEndpoint}
      → Hears input e
      → Targets input es chosen
      → Targets input (e ∷ es) (e ∷ chosen)
  passed :
      {e : WebhookEndpoint} {es chosen : List WebhookEndpoint}
      → ¬ Hears input e
      → Targets input es chosen
      → Targets input (e ∷ es) chosen

matches-Hears :
    (input : EmitInput) (e : WebhookEndpoint)
    → e.organization_id ≡ input.organization_id
    → matches input e ≡ true
    → Hears input e
matches-Hears input e own hears = record {
  same_organization = own;
  listens =
      (endpoint_matches-Listens e.enabled e.event_types input.message_tags e.tag_filter
          input.event_type).0
        hears;
}

Hears-matches : (input : EmitInput) (e : WebhookEndpoint) → Hears input e → matches input e ≡ true
Hears-matches input e h =
    (endpoint_matches-Listens e.enabled e.event_types input.message_tags e.tag_filter
        input.event_type).1
      h.listens

-- The two selections of the code choose these endpoints.
select-Targets :
    (input : EmitInput) (es : List WebhookEndpoint)
    → Targets input es (
        select_where
          (matches input)
          (select_where (λ e. str_eq e.organization_id input.organization_id && e.enabled) es))
unfolding select_where
select-Targets input [] = none_left
select-Targets input (e ∷ es) =
    elim (Bool-cases (str_eq e.organization_id input.organization_id && e.enabled)) [
      | inr other ↦ rw other (
          passed
            (λ h. ground (
              arith,
              other,
              h.same_organization,
              h.listens.is_enabled,
              eq_refl input.organization_id,
            ))
            (select-Targets input es))
      | inl own ↦ rw own (elim (Bool-cases (matches input e)) [
        | inr deaf ↦
            rw deaf (
              passed (λ h. ground (arith, deaf, Hears-matches input e h)) (select-Targets input es))
        | inl hears ↦ rw hears (
            taken
              (matches-Hears input e
                (ground (arith, own, eq_iff e.organization_id input.organization_id)) hears)
              (select-Targets input es))
      ])
    ]

matching-Targets : (input : EmitInput) (t : Tables) → Targets input t.endpoints (matching input t)
unfolding matching
matching-Targets input t = select-Targets input t.endpoints

-- What an emission that succeeds has added.
pub record IsEmitted (a : Answers) (input : EmitInput) (t t' : Tables) (e : EmittedWebhookEvent)
    : Type 0 where
  pub targets : List WebhookEndpoint
  pub are_targets : Targets input t.endpoints targets
  pub some_target : ¬ (targets ≡ [])
  pub one_event :
      t'.events
      ≡ t.events
        ++ record {
          id = a.event_id;
          organization_id = input.organization_id;
          event_type = input.event_type;
          idempotency_id = or_else input.idempotency_id a.new_idempotency_id;
          payload = input.data_text;
          created_at = a.now;
        }
          ∷ []
  pub one_each :
      t'.deliveries
      ≡ t.deliveries
        ++ map
            (λ (x : WebhookEndpoint). record {
              id = a.delivery_id x.id;
              webhook_event_id = a.event_id;
              webhook_endpoint_id = x.id;
              status = pending;
              attempts = 0;
              attempts_in_run = 0;
              replay_count = 0;
              claim_token = none;
              claim_expires_at = none;
              last_attempt_at = none;
              next_attempt_at = some a.now;
              last_error = none;
              delivered_at = none;
            })
            targets
  pub one_job_each : t'.jobs ≡ t.jobs ++ ids_for a targets
  pub numbered : e.delivery_count ≡ length targets
  pub same_endpoints : t'.endpoints ≡ t.endpoints

emit_rest-IsEmitted :
    (a : Answers) (input : EmitInput) (t t' : Tables) (e : EmittedWebhookEvent)
    → e.delivery_count ≡ length (matching input t)
    → ¬ (matching input t ≡ [])
    → emit_deliveries a
        (matching input t)
        (record t { events = t.events ++ new_event a input ∷ [] })
      ≡ ok t'
    → IsEmitted a input t t' e
emit_rest-IsEmitted a input t t' e n nonempty h =
    let t1 : Tables = record t { events = t.events ++ new_event a input ∷ [] } in
    let all = emit_deliveries-ok a (matching input t) t1 t' h in
    record {
      targets = matching input t;
      are_targets = matching-Targets input t;
      some_target = nonempty;
      one_event = rw all refl;
      one_each = rw all refl;
      one_job_each = rw all refl;
      numbered = n;
      same_endpoints = rw all refl;
    }

-- An emission that succeeds either has no endpoint that hears the event and changes nothing, or adds
-- the event, and for each endpoint of the organization that is enabled, names the event's type and
-- whose tag filter the message satisfies, in the table's order, one pending delivery and one job that
-- carries the delivery's id. In particular an event that only disabled endpoints would match is not
-- stored.
pub emit_webhook_event-ok :
    (a : Answers) (input : EmitInput) (t t' : Tables) (result : Option EmittedWebhookEvent)
    → emit_webhook_event a input t ≡ ok (result, t')
    → ((result ≡ none) × Targets input t.endpoints [] × (t' ≡ t))
      ⊎ ((e : EmittedWebhookEvent) × (result ≡ some e) × IsEmitted a input t t' e)
unfolding emit_webhook_event
emit_webhook_event-ok a input t t' result h = elim (Bool-cases a.select_ok) [
  | inr refused ↦ ground (arith, refused, h)
  | inl selected ↦ elim (List-cases (matching input t)) [
    | inl nobody ↦ inl (
      ground (arith, selected, nobody, h),
      rw (← nobody) (matching-Targets input t),
      ground (arith, selected, nobody, h),
    )
    | inr (x, xs, some_listen) ↦ elim (Bool-cases a.event_ok) [
      | inr refused ↦ ground (arith, selected, some_listen, refused, h)
      | inl inserted ↦
          let t1 : Tables = record t { events = t.events ++ new_event a input ∷ [] } in
          elim (Result-cases (emit_deliveries a (x ∷ xs) t1)) [
            | inr (stage, failed) ↦ ground (arith, selected, some_listen, inserted, failed, h)
            | inl (u, done) ↦
                let e : EmittedWebhookEvent = record {
                  delivery_count = length (x ∷ xs);
                  event_id = a.event_id;
                } in
                let same : u ≡ t' = ground (arith, selected, some_listen, inserted, done, h) in
                inr (
                  e,
                  ground (arith, selected, some_listen, inserted, done, h),
                  emit_rest-IsEmitted a input t t' e (rw some_listen refl)
                      (λ nobody. ground (arith, some_listen, nobody))
                      (rw (some_listen, ← same) done),
                )
          ]
    ]
  ]
]
