-- ===== src/Delivery/Email/Identities.antt =====
-- packages/channels/src/email/delivery/identities.ts: which provider identities a delivery is
-- routed to, and in which order. The rows are those that the query answers with.
pub mod Order
pub mod Choice
use relayit.Prelude.{
  ℕ, String, Bool, true, false, not, ◌&&◌, Option, none, some, List, [], ◌∷◌, leb, if◌then◌else◌,
  str_eq,
}
use relayit.Usage.{ProviderKind, managed, byo}
use relayit.Delivery.Email.{Scope, platform, organization, Provider, Identity}

unfoldable pub provider_kind_for : Provider → ProviderKind
provider_kind_for p = elim p.scope [ platform ↦ managed | organization ↦ byo ]

-- `rows.find((identity) => identity.isActive)`
unfoldable pub find_active : List Identity → Option Identity
find_active [] = none
find_active (i ∷ rows) = if i.is_active then some i else find_active rows

-- `!identity.isActive && identity.failoverEligible && identity.verificationStatus === "verified"`
abbrev pub can_fail_over : Identity → Bool
can_fail_over i = not i.is_active && i.failover_eligible && i.verified

unfoldable pub filter : (Identity → Bool) → List Identity → List Identity
filter test [] = []
filter test (i ∷ rows) = let rest = filter test rows in if test i then i ∷ rest else rest

-- `toSorted` by priority keeps the order of equal priorities.
unfoldable pub insert : Identity → List Identity → List Identity
insert i [] = i ∷ []
insert i (j ∷ rest) =
    let inserted = insert i rest in
    if leb i.failover_priority j.failover_priority then i ∷ j ∷ rest else j ∷ inserted

unfoldable pub sorted : List Identity → List Identity
sorted [] = []
sorted (i ∷ rows) = insert i (sorted rows)

abbrev pub failover : List Identity → List Identity
failover rows = sorted (filter can_fail_over rows)

unfoldable pub list_failover : List Identity → List Identity
list_failover rows = elim (find_active rows) [
  | none ↦ failover rows
  | some active ↦ active ∷ filter (λ i. not (str_eq i.id active.id)) (failover rows)
]
