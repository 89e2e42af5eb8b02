-- ===== src/Delivery/Email/Identities/Choice.antt =====
-- The routes of identities.ts have every identity that they should have, once.
use relayit.Prelude.{
  ℕ, ◌+◌, ◌≡◌, refl, Bool, not, Option, none, some, List, [], ◌∷◌, arith, total, if◌then◌else◌,
  str_eq, inl, inr, Bool-cases, leb, ◌∙◌,
}
use relayit.Delivery.Email.{Identity}
use relayit.Delivery.Email.Identities.{
  find_active, can_fail_over, filter, insert, sorted, failover, list_failover,
}

total-insert :
    (f : Identity → ℕ) (i : Identity) (rows : List Identity)
    → total f (insert i rows) ≡ f i + total f rows
unfolding insert
total-insert f i [] = refl
total-insert f i (j ∷ rows) = elim (Bool-cases (leb i.failover_priority j.failover_priority)) [
  | inl e ↦ rw (e, insert) refl
  | inr e ↦ rw (e, insert) (omega (arith, total-insert f i rows))
]

total-sorted : (f : Identity → ℕ) (rows : List Identity) → total f (sorted rows) ≡ total f rows
unfolding sorted
total-sorted f [] = refl
total-sorted f (i ∷ rows) = omega (arith, total-insert f i (sorted rows), total-sorted f rows)

-- A measure that counts only what passes the test.
abbrev pub where_passes : (Identity → Bool) → (Identity → ℕ) → Identity → ℕ
where_passes test f i = if test i then f i else 0

total-filter :
    (f : Identity → ℕ) (test : Identity → Bool) (rows : List Identity)
    → total f (filter test rows) ≡ total (where_passes test f) rows
unfolding filter
total-filter f test [] = refl
total-filter f test (i ∷ rows) = elim (Bool-cases (test i)) [
  | inl e ↦ rw e (omega (arith, total-filter f test rows))
  | inr e ↦ rw e (omega (arith, total-filter f test rows))
]

-- The sum over the routes, by what the rows have.
abbrev pub chosen : (Identity → ℕ) → Option Identity → List Identity → ℕ
chosen f none rows = total (where_passes can_fail_over f) rows
chosen f (some active) rows =
    f active
    + total (where_passes can_fail_over (where_passes (λ i. not (str_eq i.id active.id)) f)) rows

-- Every measure of identities sums over the routes to the measure of the active identity, if there
-- is one, and of all rows that are not active, eligible for failover, verified and of another id. So
-- each of these is a route exactly as often as it is a row, and nothing else is a route.
pub list_failover-chosen :
    (f : Identity → ℕ) (rows : List Identity)
    → total f (list_failover rows) ≡ chosen f (find_active rows) rows
unfolding list_failover
list_failover-chosen f rows = go (find_active rows)
  where
    go :
        (found : Option Identity)
        → total f (elim found [
          | none ↦ failover rows
          | some active ↦ active ∷ filter (λ i. not (str_eq i.id active.id)) (failover rows)
        ])
          ≡ chosen f found rows
    go none = total-sorted f (filter can_fail_over rows) ∙ total-filter f can_fail_over rows
    go (some active) =
        let other = λ (i : Identity). not (str_eq i.id active.id) in
        omega (
          arith,
          total-filter f other (failover rows),
          total-sorted (where_passes other f) (filter can_fail_over rows),
          total-filter (where_passes other f) can_fail_over rows,
        )
