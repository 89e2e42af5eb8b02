-- ===== src/Accept/Policy.antt =====
-- Who may send, and to whom: email/accept/policy.ts, over the rows that its queries read. Trimming and
-- lowering an address are parameters.
pub mod Senders
use Prim.Native.String.{◌++◌}
use relayit.Prelude.{
  String, Bool, true, false, not, ◌&&◌, Option, none, some, List, [], ◌∷◌, map, Result, ok, err,
  str_eq, if◌then◌else◌,
}
use relayit.Prelude.Tables.{find_where}
use relayit.Verification.Cadence.{
  DomainVerificationStatus, verified, partially_verified, not_verified,
}
use relayit.Delivery.Email.{Scope, platform, organization}
use relayit.Accept.{MessageContact}
use relayit.Accept.Email.{Sender, custom, sandbox, ProviderKind, managed, byo}
use relayit.Accept.Suppressions.{has}

abbrev pub sandbox_from_local_part : String
sandbox_from_local_part = "sandbox"

-- An organization, by its id and the sandbox domain that it names.
pub record OrganizationRow : Type 0 where
  pub id : String
  pub sandbox_domain_id : Option String

-- A sandbox domain.
pub record SandboxDomain : Type 0 where
  pub id : String
  pub is_active : Bool
  pub is_paused : Bool
  pub root_domain : String
  pub verification_status : DomainVerificationStatus

-- A custom domain with an organization that uses it.
pub record OrganizationDomain : Type 0 where
  pub organization_id : String
  pub custom_domain_id : String
  pub fqdn : String
  pub verification_status : DomainVerificationStatus
  pub is_paused : Bool

-- The identity of a custom domain at a provider.
pub record DomainIdentity : Type 0 where
  pub custom_domain_id : String
  pub is_active : Bool
  pub verification_status : DomainVerificationStatus
  pub scope : Scope

-- The query of the sandbox: the organization's row, joined with the sandbox domain it names.
unfoldable pub sandbox_of :
    String → List OrganizationRow → List SandboxDomain → Option SandboxDomain
sandbox_of organization_id organizations sandboxes =
    elim (find_where (λ (o : OrganizationRow). str_eq o.id organization_id) organizations) [
      | none ↦ none
      | some o ↦ elim o.sandbox_domain_id [
        | none ↦ none
        | some id ↦ find_where (λ (s : SandboxDomain). str_eq s.id id) sandboxes
      ]
    ]

-- A user who is a member of an organization.
pub record Member : Type 0 where
  pub organization_id : String
  pub email : String

pub data PolicyError : Type 0 where
  invalid_from_address sandbox_recipient_not_member : PolicyError
  -- EmailAcceptInfrastructureError with the operation "sender"
  sender_unknown : PolicyError

abbrev pub is_verified : DomainVerificationStatus → Bool
is_verified status = elim status [
  | verified ↦ true
  | partially_verified ↦ false
  | not_verified ↦ false
]

module _ (normalize_contact_email lower : String → String)
    (domain_of : String → Option String) where
  abbrev pub may_send_sandbox : String → SandboxDomain → Bool
  may_send_sandbox from s =
      not (str_eq s.id "")
      && (str_eq from (normalize_contact_email (sandbox_from_local_part ++ "@" ++ s.root_domain))
          && (s.is_active && (not s.is_paused && is_verified s.verification_status)))

  abbrev pub may_send_custom : String → String → OrganizationDomain → Bool
  may_send_custom organization_id domain d =
      str_eq d.organization_id organization_id
      && (str_eq (lower d.fqdn) domain && (is_verified d.verification_status && not d.is_paused))

  -- The query of custom domains, and what follows it.
  unfoldable pub resolve_custom :
      Bool → String → String → List OrganizationDomain → Result PolicyError Sender
  resolve_custom query_ok organization_id domain domains =
      if query_ok
      then elim (find_where (may_send_custom organization_id domain) domains) [
        | none ↦ err invalid_from_address
        | some d ↦ ok (custom d.custom_domain_id)
      ]
      else err sender_unknown

  -- From the query of the sandbox on.
  unfoldable pub resolve_from :
      Bool
      → Bool
      → String
      → String
      → String
      → Option SandboxDomain
      → List OrganizationDomain
      → Result PolicyError Sender
  resolve_from sandbox_ok custom_ok organization_id from domain found domains =
      if sandbox_ok
      then elim found [
        | none ↦ resolve_custom custom_ok organization_id domain domains
        | some s ↦
            if may_send_sandbox from s
            then ok (sandbox s.id)
            else resolve_custom custom_ok organization_id domain domains
      ]
      else err sender_unknown

  -- `domain_of` is the text between the first "@" and the next.
  unfoldable pub resolve_email_sender :
      Bool
      → Bool
      → String
      → String
      → List OrganizationRow
      → List SandboxDomain
      → List OrganizationDomain
      → Result PolicyError Sender
  resolve_email_sender sandbox_ok custom_ok organization_id from_address organizations sandboxes
        domains =
      let from = normalize_contact_email from_address in
      elim (domain_of from) [
        | none ↦ err invalid_from_address
        | some domain ↦
            if str_eq domain ""
            then err invalid_from_address
            else resolve_from sandbox_ok custom_ok organization_id from domain
                (sandbox_of organization_id organizations sandboxes) domains
      ]

  unfoldable pub all_members : List String → List MessageContact → Bool
  all_members members [] = true
  all_members members (r ∷ recipients) =
      has (normalize_contact_email r.email) members && all_members members recipients

  unfoldable pub member_emails : String → List Member → List String
  member_emails organization_id [] = []
  member_emails organization_id (m ∷ members) =
      let rest = member_emails organization_id members in
      if str_eq m.organization_id organization_id
      then normalize_contact_email m.email ∷ rest
      else rest

  unfoldable pub assert_sandbox_recipients_are_members :
      Bool → String → List Member → List MessageContact → Result PolicyError (Unit {0})
  assert_sandbox_recipients_are_members query_ok organization_id members recipients =
      if query_ok
      then if all_members (member_emails organization_id members) recipients
        then ok tt
        else err sandbox_recipient_not_member
      else err sender_unknown

abbrev pub is_live_identity : String → DomainIdentity → Bool
is_live_identity custom_domain_id i =
    str_eq i.custom_domain_id custom_domain_id && (i.is_active && is_verified i.verification_status)

abbrev pub kind_of : Scope → ProviderKind
kind_of scope = elim scope [ platform ↦ managed | organization ↦ byo ]

unfoldable pub resolve_email_provider_kind :
    Bool → Sender → List DomainIdentity → Result PolicyError ProviderKind
resolve_email_provider_kind query_ok (sandbox _) identities = ok managed
resolve_email_provider_kind query_ok (custom id) identities =
    if query_ok
    then elim (find_where (is_live_identity id) identities) [
      | none ↦ ok byo
      | some i ↦ ok (kind_of i.scope)
    ]
    else err sender_unknown
