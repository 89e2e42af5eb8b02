-- ===== src/Webhooks/Endpoints/Isolation.antt =====
-- What the operations of one organization do to the endpoints of the others: endpoint-lifecycle.ts
-- and endpoints.ts.
use relayit.Prelude.{
  ℕ, ◌+◌, ◌≤◌, ◌<◌, ◌≡◌, refl, ◌∙◌, String, Bool, true, false, not, none, some, List, [], ◌∷◌, ◌++◌,
  map, Result, ok, err, arith, str_eq, eq_iff, eq_refl, Option-cases, Result-cases, inl, inr,
}
use relayit.Prelude.Counts.{count}
use relayit.Prelude.Tables.{find_where, find_where-holds, update_where, select_where}
use relayit.Webhooks.{WebhookEndpoint, Tables, is_endpoint}
use relayit.Webhooks.Endpoints.{
  dual_secret_window_ms, ManagementError, is_own, find_own, update_endpoint, CreateInput, created,
  create_webhook_endpoint, set_webhook_endpoint_enabled, UpdateInput, patched, apply_update,
  update_webhook_endpoint, delete_webhook_endpoint, rotate_webhook_signing_secret,
  clear_previous_webhook_signing_secret, switches,
}

abbrev pub ids : List WebhookEndpoint → List String
ids rows = map (λ (e : WebhookEndpoint). e.id) rows

-- The id is the primary key of the table.
abbrev pub IsKeyed : List WebhookEndpoint → Type 0
IsKeyed rows = (id : String) → count id (ids rows) ≤ 1

abbrev pub is_foreign : String → WebhookEndpoint → Bool
is_foreign organization_id row = not (str_eq row.organization_id organization_id)

-- The endpoints of all other organizations.
abbrev pub foreign : String → List WebhookEndpoint → List WebhookEndpoint
foreign organization_id rows = select_where (is_foreign organization_id) rows

module _ (organization_id : String) where
  -- An UPDATE of rows of this organization alone.
  foreign-update_own :
      (test : WebhookEndpoint → Bool) (change : WebhookEndpoint → WebhookEndpoint)
      (rows : List WebhookEndpoint)
      → ((row : WebhookEndpoint) → test row ≡ true → is_foreign organization_id row ≡ false)
      → ((row : WebhookEndpoint) → (change row).organization_id ≡ row.organization_id)
      → foreign organization_id (update_where test change rows) ≡ foreign organization_id rows
  unfolding update_where select_where
  foreign-update_own test change [] own keeps = refl
  foreign-update_own test change (row ∷ rows) own keeps =
      ground (arith, own row, keeps row, foreign-update_own test change rows own keeps)

  found-count :
      (id : String) (rows : List WebhookEndpoint) (e : WebhookEndpoint)
      → find_where (is_own organization_id id) rows ≡ some e
      → 0 < count id (ids rows)
  unfolding find_where
  found-count id [] e h = cc
  found-count id (row ∷ rows) e h = ground (arith, h, found-count id rows e)

  update-absent :
      (id : String) (change : WebhookEndpoint → WebhookEndpoint) (rows : List WebhookEndpoint)
      → count id (ids rows) ≡ 0
      → update_where (is_endpoint id) change rows ≡ rows
  unfolding update_where
  update-absent id change [] h = refl
  update-absent id change (row ∷ rows) h = ground (arith, h, update-absent id change rows)

  -- An UPDATE by the id of a row that belongs to the organization.
  foreign-update_found :
      (id : String) (change : WebhookEndpoint → WebhookEndpoint) (rows : List WebhookEndpoint)
      (e : WebhookEndpoint)
      → count id (ids rows) ≤ 1
      → find_where (is_own organization_id id) rows ≡ some e
      → ((row : WebhookEndpoint) → (change row).organization_id ≡ row.organization_id)
      → foreign organization_id (update_where (is_endpoint id) change rows)
        ≡ foreign organization_id rows
  unfolding find_where update_where select_where
  foreign-update_found id change [] e keyed found keeps = cc
  foreign-update_found id change (row ∷ rows) e keyed found keeps = ground (
    arith,
    keyed,
    found,
    keeps row,
    found-count id rows e,
    update-absent id change rows,
    foreign-update_found id change rows e,
  )

  foreign-delete :
      (test : WebhookEndpoint → Bool) (rows : List WebhookEndpoint)
      → ((row : WebhookEndpoint) → test row ≡ true → is_foreign organization_id row ≡ false)
      → foreign organization_id (select_where (λ row. not (test row)) rows)
        ≡ foreign organization_id rows
  unfolding select_where
  foreign-delete test [] own = refl
  foreign-delete test (row ∷ rows) own = ground (arith, own row, foreign-delete test rows own)

  foreign-insert :
      (rows : List WebhookEndpoint) (e : WebhookEndpoint)
      → e.organization_id ≡ organization_id
      → foreign organization_id (rows ++ e ∷ []) ≡ foreign organization_id rows
  unfolding select_where
  foreign-insert [] e own = ground (arith, own, eq_refl organization_id)
  foreign-insert (row ∷ rows) e own = ground (arith, foreign-insert rows e own)

-- The operations that write endpoints, with the answers of the database and the generated values.
pub data Operation : Type 0 where
  create : Bool → String → String → CreateInput → Operation
  update : Bool → Bool → Bool → String → UpdateInput → Operation
  enable : Bool → String → Bool → Operation
  delete : Bool → String → Operation
  rotate : Bool → Bool → ℕ → String → String → Operation
  clear : Bool → String → Operation

abbrev pub tables_of :
    {A : Type 0} → Result ManagementError (A × Tables) → Result ManagementError Tables
tables_of (ok (a, t)) = ok t
tables_of (err e) = err e

abbrev pub run : String → Operation → Tables → Result ManagementError Tables
run o (create insert_ok id secret input) t =
    tables_of (create_webhook_endpoint insert_ok o id secret input t)
run o (update select_ok update_ok enable_ok id input) t =
    tables_of (update_webhook_endpoint select_ok update_ok enable_ok o id input t)
run o (enable update_ok id enabled) t = set_webhook_endpoint_enabled update_ok o id enabled t
run o (delete delete_ok id) t = tables_of (delete_webhook_endpoint delete_ok o id t)
run o (rotate select_ok update_ok now secret id) t =
    tables_of (rotate_webhook_signing_secret select_ok update_ok now secret o id t)
run o (clear update_ok id) t = clear_previous_webhook_signing_secret update_ok o id t

own-foreign :
    (o id : String) (row : WebhookEndpoint) → is_own o id row ≡ true → is_foreign o row ≡ false
own-foreign o id row h = ground (arith, h)

enable-foreign :
    (o : String) (update_ok : Bool) (id : String) (enabled : Bool) (t t' : Tables)
    → set_webhook_endpoint_enabled update_ok o id enabled t ≡ ok t'
    → foreign o t'.endpoints ≡ foreign o t.endpoints
unfolding set_webhook_endpoint_enabled
enable-foreign o true id enabled t t' h = elim (Option-cases (find_own o id t)) [
  | inl missing ↦ ground (arith, missing, h)
  | inr (e, found) ↦
      let change = λ (row : WebhookEndpoint). record row { enabled = enabled } in
      let same : update_endpoint (is_own o id) change t ≡ t' = ground (arith, found, h) in
      rw (← same)
        (foreign-update_own o (is_own o id) change t.endpoints (own-foreign o id) (λ row. refl))
]
enable-foreign o false id enabled t t' h = ground (arith, h)

clear-foreign :
    (o : String) (update_ok : Bool) (id : String) (t t' : Tables)
    → clear_previous_webhook_signing_secret update_ok o id t ≡ ok t'
    → foreign o t'.endpoints ≡ foreign o t.endpoints
unfolding clear_previous_webhook_signing_secret
clear-foreign o true id t t' h = elim (Option-cases (find_own o id t)) [
  | inl missing ↦ ground (arith, missing, h)
  | inr (e, found) ↦
      let change : WebhookEndpoint → WebhookEndpoint =
        λ row. record row { previous_secret_expires_at = none; previous_signing_secret = none } in
      let same : update_endpoint (is_own o id) change t ≡ t' = ground (arith, found, h) in
      rw (← same)
        (foreign-update_own o (is_own o id) change t.endpoints (own-foreign o id) (λ row. refl))
]
clear-foreign o false id t t' h = ground (arith, h)

rotate-foreign :
    (o : String) (select_ok update_ok : Bool) (now : ℕ) (secret id : String) (t t' : Tables)
    → IsKeyed t.endpoints
    → tables_of (rotate_webhook_signing_secret select_ok update_ok now secret o id t) ≡ ok t'
    → foreign o t'.endpoints ≡ foreign o t.endpoints
unfolding rotate_webhook_signing_secret
rotate-foreign o true true now secret id t t' keyed h = elim (Option-cases (find_own o id t)) [
  | inl missing ↦ ground (arith, missing, h)
  | inr (e, found) ↦
      let change : WebhookEndpoint → WebhookEndpoint = λ row. record row {
        previous_secret_expires_at = some (now + dual_secret_window_ms);
        previous_signing_secret = some e.signing_secret;
        signing_secret = secret;
      } in
      let same : update_endpoint (is_endpoint id) change t ≡ t' = ground (arith, found, h) in
      rw (← same) (foreign-update_found o id change t.endpoints e (keyed id) found (λ row. refl))
]
rotate-foreign o true false now secret id t t' keyed h = elim (Option-cases (find_own o id t)) [
  | inl missing ↦ ground (arith, missing, h)
  | inr (e, found) ↦ ground (arith, found, h)
]
rotate-foreign o false update_ok now secret id t t' keyed h = ground (arith, h)

delete-foreign :
    (o : String) (delete_ok : Bool) (id : String) (t t' : Tables)
    → tables_of (delete_webhook_endpoint delete_ok o id t) ≡ ok t'
    → foreign o t'.endpoints ≡ foreign o t.endpoints
unfolding delete_webhook_endpoint
delete-foreign o true id t t' h = elim (Option-cases (find_own o id t)) [
  | inl missing ↦ ground (arith, missing, h)
  | inr (e, found) ↦
      let left = select_where (λ row. not (is_own o id row)) t.endpoints in
      let same : t'.endpoints ≡ left = ground (arith, found, h) in
      rw same (foreign-delete o (is_own o id) t.endpoints (own-foreign o id))
]
delete-foreign o false id t t' h = ground (arith, h)

create-foreign :
    (o : String) (insert_ok : Bool) (id secret : String) (input : CreateInput) (t t' : Tables)
    → tables_of (create_webhook_endpoint insert_ok o id secret input t) ≡ ok t'
    → foreign o t'.endpoints ≡ foreign o t.endpoints
unfolding create_webhook_endpoint
create-foreign o true id secret input t t' h =
    let same : t'.endpoints ≡ t.endpoints ++ created o id secret input ∷ [] = ground (arith, h) in
    rw same (foreign-insert o t.endpoints (created o id secret input) refl)
create-foreign o false id secret input t t' h = ground (arith, h)

apply-foreign :
    (o : String) (enable_ok : Bool) (id : String) (input : UpdateInput) (e : WebhookEndpoint)
    (t t' : Tables)
    → IsKeyed t.endpoints
    → find_own o id t ≡ some e
    → tables_of (apply_update enable_ok o input e t) ≡ ok t'
    → foreign o t'.endpoints ≡ foreign o t.endpoints
unfolding apply_update
apply-foreign o enable_ok id input e t t' keyed found h =
    let mine = find_where-holds (is_own o id) t.endpoints e found in
    let same_id : id ≡ e.id = ground (arith, mine, eq_iff e.id id) in
    let found' : find_own o e.id t ≡ some e = simp (← same_id) found in
    let t1 = update_endpoint (is_endpoint e.id) (patched input) t in
    let first : foreign o t1.endpoints ≡ foreign o t.endpoints =
      foreign-update_found o e.id (patched input) t.endpoints e (keyed e.id) found' (λ row. refl) in
    elim (Option-cases (switches input e)) [
      | inl stays ↦ (let same : t1 ≡ t' = ground (arith, stays, h) in rw (← same) first)
      | inr (enabled, turned) ↦
          elim (Result-cases (set_webhook_endpoint_enabled enable_ok o e.id enabled t1)) [
            | inr (cause, failed) ↦ ground (arith, turned, failed, h)
            | inl (t2, done) ↦
                let same : t2 ≡ t' = ground (arith, turned, done, h) in
                rw (← same) (enable-foreign o enable_ok e.id enabled t1 t2 done ∙ first)
          ]
    ]

update-foreign :
    (o : String) (select_ok update_ok enable_ok : Bool) (id : String) (input : UpdateInput)
    (t t' : Tables)
    → IsKeyed t.endpoints
    → tables_of (update_webhook_endpoint select_ok update_ok enable_ok o id input t) ≡ ok t'
    → foreign o t'.endpoints ≡ foreign o t.endpoints
unfolding update_webhook_endpoint
update-foreign o true true enable_ok id input t t' keyed h = elim (Option-cases (find_own o id t)) [
  | inl missing ↦ ground (arith, missing, h)
  | inr (e, found) ↦
      apply-foreign o enable_ok id input e t t' keyed found (ground (arith, found, h))
]
update-foreign o true false enable_ok id input t t' keyed h =
    elim (Option-cases (find_own o id t)) [
      | inl missing ↦ ground (arith, missing, h)
      | inr (e, found) ↦ ground (arith, found, h)
    ]
update-foreign o false update_ok enable_ok id input t t' keyed h = ground (arith, h)

-- Creating, updating, enabling, deleting an endpoint and rotating or clearing its secrets for one
-- organization leaves the endpoints of all other organizations as they are, also when the endpoint
-- named is theirs, provided that ids are unique.
pub run-foreign :
    (o : String) (op : Operation) (t t' : Tables)
    → IsKeyed t.endpoints
    → run o op t ≡ ok t'
    → foreign o t'.endpoints ≡ foreign o t.endpoints
run-foreign o (create insert_ok id secret input) t t' keyed h =
    create-foreign o insert_ok id secret input t t' h
run-foreign o (update select_ok update_ok enable_ok id input) t t' keyed h =
    update-foreign o select_ok update_ok enable_ok id input t t' keyed h
run-foreign o (enable update_ok id enabled) t t' keyed h =
    enable-foreign o update_ok id enabled t t' h
run-foreign o (delete delete_ok id) t t' keyed h = delete-foreign o delete_ok id t t' h
run-foreign o (rotate select_ok update_ok now secret id) t t' keyed h =
    rotate-foreign o select_ok update_ok now secret id t t' keyed h
run-foreign o (clear update_ok id) t t' keyed h = clear-foreign o update_ok id t t' h
