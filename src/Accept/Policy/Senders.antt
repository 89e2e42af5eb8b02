-- ===== src/Accept/Policy/Senders.antt =====
-- The senders and recipients that the policy of email/accept/policy.ts lets through.
use Prim.Native.String.{◌++◌}
use mathlib.Core.List.{Memᴰ}
use relayit.Prelude.{
  ap, ◌∙◌, ◌≡◌, refl, sym, ◌⊎◌, inl, inr, String, Bool, true, false, Option, none, some, List, [],
  ◌∷◌, ok, arith, str_eq, eq_iff, All, Bool-cases, Option-cases,
}
use relayit.Prelude.Tables.{find_where, find_where-holds, find_where-Memᴰ}
use relayit.Verification.Cadence.{
  DomainVerificationStatus, verified, partially_verified, not_verified,
}
use relayit.Accept.{MessageContact}
use relayit.Accept.Suppressions.{has}
use relayit.Accept.Email.{Sender, custom, sandbox}
use relayit.Accept.Policy.{
  is_verified, OrganizationRow, SandboxDomain, sandbox_of, OrganizationDomain, may_send_sandbox,
  may_send_custom, resolve_custom, resolve_from, resolve_email_sender, all_members,
  sandbox_from_local_part,
}

status-verified :
    (status : DomainVerificationStatus) → is_verified status ≡ true → status ≡ verified
status-verified verified h = refl
status-verified partially_verified h = cc
status-verified not_verified h = cc

module _ (normalize lower : String → String) (domain_of : String → Option String) where
  -- A sender for an address, by the sandbox that the query finds.
  record IsSender (organization_id from : String) (found : Option SandboxDomain)
      (domains : List OrganizationDomain) (sender : Sender) : Type 0 where
    pub own :
        ((s : SandboxDomain) × (found ≡ some s)
          × (sender ≡ sandbox s.id)
          × (from ≡ normalize (sandbox_from_local_part ++ "@" ++ s.root_domain))
          × (s.is_active ≡ true)
          × (s.is_paused ≡ false)
          × (s.verification_status ≡ verified))
        ⊎ ((d : OrganizationDomain) × Memᴰ d domains
            × (sender ≡ custom d.custom_domain_id)
            × (d.organization_id ≡ organization_id)
            × (domain_of from ≡ some (lower d.fqdn))
            × (d.is_paused ≡ false)
            × (d.verification_status ≡ verified))

  custom-IsSender :
      (query_ok : Bool) (organization_id from domain : String) (found : Option SandboxDomain)
      (domains : List OrganizationDomain) (sender : Sender)
      → domain_of from ≡ some domain
      → resolve_custom normalize lower domain_of query_ok organization_id domain domains ≡ ok sender
      → IsSender organization_id from found domains sender
  unfolding resolve_custom
  custom-IsSender query_ok o from domain found domains sender at h = elim (Bool-cases query_ok) [
    | inr refused ↦ ground (arith, refused, h)
    | inl asked ↦
        elim (Option-cases
          (find_where (may_send_custom normalize lower domain_of o domain) domains)) [
            | inl missing ↦ ground (arith, asked, missing, h)
            | inr (d, there) ↦
                let holds =
                  find_where-holds (may_send_custom normalize lower domain_of o domain) domains d
                    there in
                let name : lower d.fqdn ≡ domain =
                  ground (arith, holds, eq_iff (lower d.fqdn) domain) in
                record {
                  own = inr (
                    d,
                    find_where-Memᴰ (may_send_custom normalize lower domain_of o domain) domains d
                        there,
                    sym (ground (arith, asked, there, h)),
                    ground (arith, holds, eq_iff d.organization_id o),
                    rw name at,
                    ground (arith, holds),
                    status-verified d.verification_status (ground (arith, holds)),
                  );
                }
          ]
  ]

  from-IsSender :
      (sandbox_ok custom_ok : Bool) (organization_id from domain : String)
      (found : Option SandboxDomain) (domains : List OrganizationDomain) (sender : Sender)
      → domain_of from ≡ some domain
      → resolve_from normalize lower domain_of sandbox_ok custom_ok organization_id from domain
          found domains
        ≡ ok sender
      → IsSender organization_id from found domains sender
  unfolding resolve_from
  from-IsSender false custom_ok o from domain found domains sender at h = cc
  from-IsSender true custom_ok o from domain none domains sender at h =
      custom-IsSender custom_ok o from domain none domains sender at h
  from-IsSender true custom_ok o from domain (some s) domains sender at h =
      elim (Bool-cases (may_send_sandbox normalize lower domain_of from s)) [
        | inl may ↦ record {
          own = inl (
            s,
            refl,
            sym (ground (arith, may, h)),
            ground (
              arith,
              may,
              eq_iff from (normalize (sandbox_from_local_part ++ "@" ++ s.root_domain)),
            ),
            ground (arith, may),
            ground (arith, may),
            status-verified s.verification_status (ground (arith, may)),
          );
        }
        | inr not_now ↦
            custom-IsSender custom_ok o from domain (some s) domains sender at
              (ground (arith, not_now, h))
      ]

  -- The sandbox that the query finds is the one that the organization's row names.
  sandbox_of-row :
      (organization_id : String) (organizations : List OrganizationRow)
      (sandboxes : List SandboxDomain) (s : SandboxDomain)
      → sandbox_of organization_id organizations sandboxes ≡ some s
      → (o : OrganizationRow) × Memᴰ o organizations
        × (o.id ≡ organization_id)
        × Memᴰ s sandboxes
        × (o.sandbox_domain_id ≡ some s.id)
  unfolding sandbox_of
  sandbox_of-row id organizations sandboxes s h =
      let is_org : OrganizationRow → Bool = λ o. str_eq o.id id in
      elim (Option-cases (find_where is_org organizations)) [
        | inl missing ↦ ground (arith, missing, h)
        | inr (o, found) ↦ elim (Option-cases o.sandbox_domain_id) [
          | inl nothing ↦ ground (arith, found, nothing, h)
          | inr (sid, named) ↦
              let is_named : SandboxDomain → Bool = λ d. str_eq d.id sid in
              let there : find_where is_named sandboxes ≡ some s =
                ground (arith, found, named, h) in
              (
                o,
                find_where-Memᴰ is_org organizations o found,
                ground (arith, find_where-holds is_org organizations o found, eq_iff o.id id),
                find_where-Memᴰ is_named sandboxes s there,
                named
                    ∙ ap some (
                        sym (
                          ground
                            (arith, find_where-holds is_named sandboxes s there, eq_iff s.id sid))),
              )
        ]
      ]

  -- A sender that an organization may use for an address.
  pub record IsOwnSender (organization_id from : String) (organizations : List OrganizationRow)
      (sandboxes : List SandboxDomain) (domains : List OrganizationDomain) (sender : Sender)
      : Type 0 where
    pub own :
        ((o : OrganizationRow) × (s : SandboxDomain) × Memᴰ o organizations
          × (o.id ≡ organization_id)
          × Memᴰ s sandboxes
          × (o.sandbox_domain_id ≡ some s.id)
          × (sender ≡ sandbox s.id)
          × (from ≡ normalize (sandbox_from_local_part ++ "@" ++ s.root_domain))
          × (s.is_active ≡ true)
          × (s.is_paused ≡ false)
          × (s.verification_status ≡ verified))
        ⊎ ((d : OrganizationDomain) × Memᴰ d domains
            × (sender ≡ custom d.custom_domain_id)
            × (d.organization_id ≡ organization_id)
            × (domain_of from ≡ some (lower d.fqdn))
            × (d.is_paused ≡ false)
            × (d.verification_status ≡ verified))

  IsSender-IsOwnSender :
      (organization_id from : String) (organizations : List OrganizationRow)
      (sandboxes : List SandboxDomain) (domains : List OrganizationDomain) (sender : Sender)
      → IsSender organization_id from
          (sandbox_of organization_id organizations sandboxes)
          domains
          sender
      → IsOwnSender organization_id from organizations sandboxes domains sender
  IsSender-IsOwnSender id from organizations sandboxes domains sender a = elim a.own [
    | inr by_domain ↦ record { own = inr by_domain }
    | inl (s, found, kind, address, active, going, checked) ↦
        let (o, among, same, there, named) = sandbox_of-row id organizations sandboxes s found in
        record {
          own = inl (o, s, among, same, there, named, kind, address, active, going, checked);
        }
  ]

  -- A sender that is resolved is the organization's own: the sandbox that the row of the organization
  -- names, active, verified and not paused, from the address that the sandbox sends from, or one of
  -- the custom domains of the organization, verified and not paused, whose name is the domain of the
  -- address.
  pub resolve_email_sender-IsOwnSender :
      (sandbox_ok custom_ok : Bool) (organization_id from_address : String)
      (organizations : List OrganizationRow) (sandboxes : List SandboxDomain)
      (domains : List OrganizationDomain) (sender : Sender)
      → resolve_email_sender normalize lower domain_of sandbox_ok custom_ok organization_id
          from_address organizations sandboxes domains
        ≡ ok sender
      → IsOwnSender organization_id (normalize from_address) organizations sandboxes domains sender
  unfolding resolve_email_sender
  resolve_email_sender-IsOwnSender sandbox_ok custom_ok id address organizations sandboxes domains
        sender h =
      let from = normalize address in
      elim (Option-cases (domain_of from)) [
        | inl nowhere ↦ ground (arith, nowhere, h)
        | inr (domain, at) ↦ elim (Bool-cases (str_eq domain "")) [
          | inl empty ↦ ground (arith, at, empty, h)
          | inr named ↦ IsSender-IsOwnSender id from organizations sandboxes domains sender (
              from-IsSender sandbox_ok custom_ok id from domain
                (sandbox_of id organizations sandboxes) domains sender at
                (ground (arith, at, named, h)))
        ]
      ]

  -- A recipient of a sandbox that is let through is a member of the organization.
  recipients-All :
      (members : List String) (recipients : List MessageContact)
      → all_members normalize lower domain_of members recipients ≡ true
      → All (λ (r : MessageContact). has (normalize r.email) members ≡ true) recipients
  unfolding all_members
  recipients-All members [] h = tt
  recipients-All members (r ∷ recipients) h =
      (ground (arith, h), recipients-All members recipients (ground (arith, h)))
