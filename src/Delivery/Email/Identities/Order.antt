-- ===== src/Delivery/Email/Identities/Order.antt =====
-- The routes of identities.ts: which identities they are, and their order.
use relayit.Prelude.{
  All-map, ℕ, ◌+◌, ◌&&◌, total, ◌∙◌, if◌then◌else◌, ◌≤◌, ◌≡◌, refl, Bool, true, false, not, Option,
  none, some, List, [], ◌∷◌, arith, All, leb, str_eq, inl, inr, Bool-cases,
}
use relayit.Delivery.Email.{Identity}
use relayit.Prelude.Tables.{find_where}
use relayit.Delivery.Email.Identities.Choice.{chosen, list_failover-chosen}
use relayit.Delivery.Email.Identities.{
  find_active, can_fail_over, filter, insert, sorted, failover, list_failover,
}

abbrev pub Ordered : List Identity → Type 0
Ordered [] = Unit
Ordered (i ∷ rest) = All (λ j. i.failover_priority ≤ j.failover_priority) rest × Ordered rest

-- A standby: not active, eligible for failover and verified.
abbrev pub standby : Identity → Bool
standby i = not i.is_active && i.failover_eligible && i.verified

-- The active identity is first, if there is one; the others are standbys of another id in the order
-- of their priorities.
abbrev pub Routes : Option Identity → List Identity → Type 0
Routes none routes = Ordered routes × All (λ i. standby i ≡ true) routes
Routes (some active) [] = true ≡ false
Routes (some active) (i ∷ rest) =
    (i ≡ active)
    × Ordered rest
    × All (λ j. (standby j ≡ true) × (str_eq j.id active.id ≡ false)) rest

-- What a measure sums to over the active identity and the standbys of another id among the rows.
abbrev pub wanted : (Identity → ℕ) → Option Identity → List Identity → ℕ
wanted f none rows = total (λ i. if standby i then f i else 0) rows
wanted f (some active) rows =
    f active
    + total (λ i. if standby i then (if not (str_eq i.id active.id) then f i else 0) else 0) rows

filter-All :
    (P : Identity → Type 0) (test : Identity → Bool) (rows : List Identity)
    → All P rows
    → All (λ i. P i × (test i ≡ true)) (filter test rows)
unfolding filter
filter-All P test [] a = tt
filter-All P test (i ∷ rows) (p, a) = elim (Bool-cases (test i)) [
  | inl e ↦ rw e ((p, e), filter-All P test rows a)
  | inr e ↦ rw e (filter-All P test rows a)
]

insert-All :
    (P : Identity → Type 0) (i : Identity) (rows : List Identity)
    → P i
    → All P rows
    → All P (insert i rows)
unfolding insert
insert-All P i [] p a = (p, tt)
insert-All P i (j ∷ rows) p (q, a) =
    elim (Bool-cases (leb i.failover_priority j.failover_priority)) [
      | inl e ↦ rw e (p, (q, a))
      | inr e ↦ rw e (q, insert-All P i rows p a)
    ]

sorted-All : (P : Identity → Type 0) (rows : List Identity) → All P rows → All P (sorted rows)
unfolding sorted
sorted-All P [] a = tt
sorted-All P (i ∷ rows) (p, a) = insert-All P i (sorted rows) p (sorted-All P rows a)

insert-Ordered : (i : Identity) (rows : List Identity) → Ordered rows → Ordered (insert i rows)
unfolding insert
insert-Ordered i [] o = (tt, tt)
insert-Ordered i (j ∷ rows) (a, o) =
    elim (Bool-cases (leb i.failover_priority j.failover_priority)) [
      | inl e ↦ rw e ((ground arith, All-map (λ k. λ b. ground arith) rows a), (a, o))
      | inr e ↦ rw e (insert-All _ i rows (ground arith) a, insert-Ordered i rows o)
    ]

sorted-Ordered : (rows : List Identity) → Ordered (sorted rows)
unfolding sorted
sorted-Ordered [] = tt
sorted-Ordered (i ∷ rows) = insert-Ordered i (sorted rows) (sorted-Ordered rows)

filter-Ordered :
    (test : Identity → Bool) (rows : List Identity) → Ordered rows → Ordered (filter test rows)
unfolding filter
filter-Ordered test [] o = tt
filter-Ordered test (i ∷ rows) (a, o) = elim (Bool-cases (test i)) [
  | inl e ↦ rw e (All-map (λ j. λ p. p.0) _ (filter-All _ test rows a), filter-Ordered test rows o)
  | inr e ↦ rw e (filter-Ordered test rows o)
]

All-unit : (rows : List Identity) → All (λ i. Unit {0}) rows
All-unit [] = tt
All-unit (i ∷ rows) = (tt, All-unit rows)

failover_standby : (rows : List Identity) → All (λ i. can_fail_over i ≡ true) (failover rows)
failover_standby rows =
    sorted-All _ _ (All-map (λ i. λ p. p.1) _ (filter-All _ can_fail_over rows (All-unit rows)))

list_failover-Ordered : (rows : List Identity) → Routes (find_active rows) (list_failover rows)
unfolding list_failover
list_failover-Ordered rows = go (find_active rows)
  where
    go :
        (found : Option Identity)
        → Routes found (elim found [
          | none ↦ failover rows
          | some active ↦ active ∷ filter (λ i. not (str_eq i.id active.id)) (failover rows)
        ])
    go none = (sorted-Ordered (filter can_fail_over rows), failover_standby rows)
    go (some active) = (
      refl,
      filter-Ordered _ (failover rows) (sorted-Ordered (filter can_fail_over rows)),
      All-map (λ i. λ (c, d). (c, ground arith)) _
          (filter-All _ (λ i. not (str_eq i.id active.id)) (failover rows) (failover_standby rows)),
    )

find_active-first : (rows : List Identity) → find_active rows ≡ find_where (λ i. i.is_active) rows
unfolding find_active find_where
find_active-first [] = refl
find_active-first (i ∷ rows) = ground (arith, find_active-first rows)

wanted-chosen :
    (f : Identity → ℕ) (found : Option Identity) (rows : List Identity)
    → chosen f found rows ≡ wanted f found rows
wanted-chosen f none rows = refl
wanted-chosen f (some active) rows = refl

-- The routes are the first active row, if there is one, and then exactly the rows that are not
-- active, eligible for failover, verified and of another id than it: the active one is first, the
-- others stand in the order of their priorities, and any measure of identities has over the routes
-- the sum that it has over these, so that each is a route exactly as often as it is a row.
pub list_failover-Routes :
    (rows : List Identity)
    → Routes (find_where (λ i. i.is_active) rows) (list_failover rows)
      × ((f : Identity → ℕ)
          → total f (list_failover rows) ≡ wanted f (find_where (λ i. i.is_active) rows) rows)
list_failover-Routes rows = (
  rw (← find_active-first rows) (list_failover-Ordered rows),
  λ f.
      rw (← find_active-first rows)
        (list_failover-chosen f rows ∙ wanted-chosen f (find_active rows) rows),
)
