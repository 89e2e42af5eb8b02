-- ===== src/Webhooks/Endpoints.antt =====
-- endpoint-lifecycle.ts and endpoints.ts: the operations by which an organization manages its
-- endpoints. They run inside the transaction of the caller, so that a failure
-- leaves nothing behind. The columns createdAt and updatedAt are left out.
pub mod Isolation
use relayit.Prelude.{
  ℕ, ◌+◌, ◌*◌, String, Bool, true, false, not, ◌&&◌, Option, none, some, List, [], ◌∷◌, ◌++◌, map,
  Result, ok, err, str_eq, if◌then◌else◌, or_else,
}
use relayit.Prelude.Tables.{find_where, update_where, select_where}
use relayit.Webhooks.{
  WebhookDeliveryStatus, pending, held, delivered, dead_letter, WebhookEndpoint,
  WebhookEventDelivery, Tables, is_delivery, is_endpoint, find_delivery,
}
use relayit.Webhooks.Deliver.{update_delivery}

abbrev pub dual_secret_window_ms : ℕ
dual_secret_window_ms = 24 * 60 * 60 * 1000

-- WebhookManagementError.code
pub data ManagementError : Type 0 where
  delivery_not_found endpoint_paused endpoint_not_found invalid_replay_state : ManagementError
  operation_failed : ManagementError

pub record PublicWebhookEndpoint : Type 0 where
  pub enabled : Bool
  pub event_types : List String
  pub has_previous_secret : Bool
  pub id : String
  pub organization_id : String
  pub previous_secret_expires_at : Option ℕ
  pub tag_filter : Option (List (String × String))
  pub url : String

unfoldable pub public_endpoint : WebhookEndpoint → PublicWebhookEndpoint
public_endpoint endpoint = record {
  enabled = endpoint.enabled;
  event_types = endpoint.event_types;
  has_previous_secret = elim endpoint.previous_signing_secret [ none ↦ false | some _ ↦ true ];
  id = endpoint.id;
  organization_id = endpoint.organization_id;
  previous_secret_expires_at = endpoint.previous_secret_expires_at;
  tag_filter = endpoint.tag_filter;
  url = endpoint.url;
}

-- `id = endpointId and organizationId = organizationId`
abbrev pub is_own : String → String → WebhookEndpoint → Bool
is_own organization_id id row = is_endpoint id row && str_eq row.organization_id organization_id

abbrev pub find_own : String → String → Tables → Option WebhookEndpoint
find_own organization_id id t = find_where (is_own organization_id id) t.endpoints

abbrev pub update_endpoint :
    (WebhookEndpoint → Bool) → (WebhookEndpoint → WebhookEndpoint) → Tables → Tables
update_endpoint test change t = record t { endpoints = update_where test change t.endpoints }

-- The rows that the query returns, in the order of their creation.
unfoldable pub list_webhook_endpoints :
    Bool → String → Tables → Result ManagementError (List PublicWebhookEndpoint)
list_webhook_endpoints select_ok organization_id t =
    if select_ok
    then ok (
        map public_endpoint
          (select_where (λ row. str_eq row.organization_id organization_id) t.endpoints))
    else err operation_failed

unfoldable pub get_webhook_endpoint :
    Bool → String → String → Tables → Result ManagementError PublicWebhookEndpoint
get_webhook_endpoint select_ok organization_id id t =
    if select_ok
    then elim (find_own organization_id id t) [
      | none ↦ err endpoint_not_found
      | some endpoint ↦ ok (public_endpoint endpoint)
    ]
    else err operation_failed

pub record CreateInput : Type 0 where
  pub enabled : Bool
  pub event_types : List String
  pub tag_filter : Option (List (String × String))
  pub url : String

-- With the id and the secret that are generated for it.
abbrev pub created : String → String → String → CreateInput → WebhookEndpoint
created organization_id id signing_secret input = record {
  id = id;
  organization_id = organization_id;
  url = input.url;
  event_types = input.event_types;
  tag_filter = input.tag_filter;
  enabled = input.enabled;
  signing_secret = signing_secret;
  previous_signing_secret = none;
  previous_secret_expires_at = none;
}

unfoldable pub create_webhook_endpoint :
    Bool
    → String
    → String
    → String
    → CreateInput
    → Tables
    → Result ManagementError ((PublicWebhookEndpoint × String) × Tables)
create_webhook_endpoint insert_ok organization_id id signing_secret input t =
    let endpoint = created organization_id id signing_secret input in
    if insert_ok
    then ok (
      (public_endpoint endpoint, signing_secret),
      record t { endpoints = t.endpoints ++ endpoint ∷ [] },
    )
    else err operation_failed

unfoldable pub set_webhook_endpoint_enabled :
    Bool → String → String → Bool → Tables → Result ManagementError Tables
set_webhook_endpoint_enabled update_ok organization_id id enabled t =
    if update_ok
    then elim (find_own organization_id id t) [
      | none ↦ err endpoint_not_found
      | some _ ↦
          ok (
            update_endpoint (is_own organization_id id) (λ row. record row { enabled = enabled }) t)
    ]
    else err operation_failed

pub record UpdateInput : Type 0 where
  pub enabled : Option Bool
  pub event_types : Option (List String)
  pub tag_filter : Option (Option (List (String × String)))
  pub url : Option String

abbrev pub patched : UpdateInput → WebhookEndpoint → WebhookEndpoint
patched input row = record row {
  event_types = or_else input.event_types row.event_types;
  tag_filter = or_else input.tag_filter row.tag_filter;
  url = or_else input.url row.url;
}

abbrev pub bool_eq : Bool → Bool → Bool
bool_eq true b = b
bool_eq false b = not b

-- `input.enabled !== undefined && input.enabled !== existing.enabled`
abbrev pub switches : UpdateInput → WebhookEndpoint → Option Bool
switches input existing = elim input.enabled [
  | none ↦ none
  | some enabled ↦ if bool_eq enabled existing.enabled then none else some enabled
]

-- updateWebhookEndpoint from its UPDATE on.
unfoldable pub apply_update :
    Bool
    → String
    → UpdateInput
    → WebhookEndpoint
    → Tables
    → Result ManagementError (PublicWebhookEndpoint × Tables)
apply_update enable_ok organization_id input existing t =
    let t1 = update_endpoint (is_endpoint existing.id) (patched input) t in
    let updated = or_else (find_where (is_endpoint existing.id) t1.endpoints) existing in
    let shown =
      public_endpoint (record updated { enabled = or_else input.enabled existing.enabled }) in
    elim (switches input existing) [
      | none ↦ ok (shown, t1)
      | some enabled ↦
          elim (set_webhook_endpoint_enabled enable_ok organization_id existing.id enabled t1) [
            | err e ↦ err e
            | ok t2 ↦ ok (shown, t2)
          ]
    ]

unfoldable pub update_webhook_endpoint :
    Bool
    → Bool
    → Bool
    → String
    → String
    → UpdateInput
    → Tables
    → Result ManagementError (PublicWebhookEndpoint × Tables)
update_webhook_endpoint select_ok update_ok enable_ok organization_id id input t =
    if select_ok
    then elim (find_own organization_id id t) [
      | none ↦ err endpoint_not_found
      | some existing ↦
          if update_ok
          then apply_update enable_ok organization_id input existing t
          else err operation_failed
    ]
    else err operation_failed

-- The deliveries of a deleted endpoint are deleted with it.
unfoldable pub delete_webhook_endpoint :
    Bool → String → String → Tables → Result ManagementError (String × Tables)
delete_webhook_endpoint delete_ok organization_id id t =
    if delete_ok
    then elim (find_own organization_id id t) [
      | none ↦ err endpoint_not_found
      | some deleted ↦ ok (
        deleted.id,
        record t {
          endpoints = select_where (λ row. not (is_own organization_id id row)) t.endpoints;
          deliveries =
              select_where (λ row. not (str_eq row.webhook_endpoint_id deleted.id)) t.deliveries;
        },
      )
    ]
    else err operation_failed

unfoldable pub rotate_webhook_signing_secret :
    Bool → Bool → ℕ → String → String → String → Tables → Result ManagementError (String × Tables)
rotate_webhook_signing_secret select_ok update_ok now signing_secret organization_id id t =
    if select_ok
    then elim (find_own organization_id id t) [
      | none ↦ err endpoint_not_found
      | some endpoint ↦
          if update_ok
          then ok (
            signing_secret,
            update_endpoint (is_endpoint id)
                (λ row. record row {
                  previous_secret_expires_at = some (now + dual_secret_window_ms);
                  previous_signing_secret = some endpoint.signing_secret;
                  signing_secret = signing_secret;
                })
                t,
          )
          else err operation_failed
    ]
    else err operation_failed

unfoldable pub clear_previous_webhook_signing_secret :
    Bool → String → String → Tables → Result ManagementError Tables
clear_previous_webhook_signing_secret update_ok organization_id id t =
    if update_ok
    then elim (find_own organization_id id t) [
      | none ↦ err endpoint_not_found
      | some _ ↦ ok (
          update_endpoint (is_own organization_id id)
            (λ row. record row {
              previous_secret_expires_at = none;
              previous_signing_secret = none;
            })
            t)
    ]
    else err operation_failed
