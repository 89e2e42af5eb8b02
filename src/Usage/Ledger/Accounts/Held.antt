-- ===== src/Usage/Ledger/Accounts/Held.antt =====
-- The slots that the reservations of usage-ledger.ts hold together, and what a write changes.
use relayit.Prelude.{
  ℕ, ◌+◌, ◌≤◌, String, ◌≡◌, inl, inr, refl, Bool, true, false, Option, none, some, List, [], ◌∷◌,
  arith, All, if◌then◌else◌, str_eq, eq_iff, eq_refl, Bool-cases, ◌∙◌, sym,
}
use mathlib.Core.Path.{subst}
use relayit.Redis.{Redis}
use relayit.Usage.{Limit, Reservation, released}
use relayit.Usage.Ledger.{count, Call, reserve, remeter, confirm, release}
use relayit.Usage.Ledger.Slots.{charge}

-- The slots of the counter `k` that a reservation holds: none once it is released.
unfoldable pub holds : Option Reservation → String → ℕ
holds none k = 0
holds (some h) k = elim h.status [
  | released ↦ 0
  | _ ↦ (if str_eq h.daily_key k then 1 else 0) + (if str_eq h.monthly_key k then 1 else 0)
]

-- No name occurs twice.
abbrev pub HasNoRepeat : List String → Type 0
HasNoRepeat [] = Unit {0}
HasNoRepeat (x ∷ xs) = All (λ y. str_eq x y ≡ false) xs × HasNoRepeat xs

-- The call's reservation is one of the listed ones, and its limits are numbers.
abbrev pub contains : List String → String → Bool
contains [] x = false
contains (y ∷ ys) x = if str_eq y x then true else contains ys x

abbrev pub IsNumber : Limit → Type 0
IsNumber l = charge l ≡ 1

abbrev pub IsMetered : List String → Call → Type 0
IsMetered ids (reserve keys l d) =
    (contains ids keys.reservation ≡ true) × IsNumber l.daily_limit × IsNumber l.monthly_limit
IsMetered ids (remeter keys l target fingerprint) =
    (contains ids keys.reservation ≡ true) × IsNumber l.daily_limit × IsNumber l.monthly_limit
IsMetered ids (confirm key) = contains ids key ≡ true
IsMetered ids (release key) = contains ids key ≡ true

module _ (r : Redis Reservation) where
  open r use {State, get, hgetall}

  -- The slots of `k` that the listed reservations hold together.
  abbrev pub held : List String → State → String → ℕ
  held [] s k = 0
  held (id ∷ ids) s k = holds (hgetall s id) k + held ids s k

  -- Every counter counts the slots that are held.
  abbrev pub IsBalanced : List String → State → Type 0
  IsBalanced ids s = (k : String) → count r s k ≡ held ids s k

  -- Hashes that agree on the listed names hold the same slots.
  pub held-eq :
      (ids : List String) (s s' : State) (k : String)
      → ((id : String) → hgetall s' id ≡ hgetall s id)
      → held ids s' k ≡ held ids s k
  held-eq [] s s' k same = refl
  held-eq (id ∷ ids) s s' k same = rw (same id, held-eq ids s s' k same)

  -- A write to another hash changes nothing of what is held.
  pub held-skip :
      (ids : List String) (key : String) (h : Reservation) (s s' : State) (k : String)
      → All (λ id. str_eq key id ≡ false) ids
      → ((id : String) → hgetall s' id ≡ (if str_eq key id then some h else hgetall s id))
      → held ids s' k ≡ held ids s k
  held-skip [] key h s s' k other w = refl
  held-skip (id ∷ ids) key h s s' k (o, other) w = rw (w id, o, held-skip ids key h s s' k other w)

  -- If only the hash `key` is written, what is held changes by what that reservation holds.
  pub held-write :
      (ids : List String) (key : String) (h : Reservation) (s s' : State) (k : String)
      → HasNoRepeat ids
      → contains ids key ≡ true
      → ((id : String) → hgetall s' id ≡ (if str_eq key id then some h else hgetall s id))
      → held ids s' k + holds (hgetall s key) k ≡ held ids s k + holds (some h) k
  held-write [] key h s s' k nr c w = cc
  held-write (id ∷ ids) key h s s' k (fresh, nr) c w = elim (Bool-cases (str_eq id key)) [
    | inl same ↦
        let e : id ≡ key = (eq_iff id key).0 same in
        let away : All (λ y. str_eq key y ≡ false) ids =
          subst (λ x. All (λ y. str_eq x y ≡ false) ids) e fresh in
        let at_key : hgetall s' id ≡ some h = rw (w id, e, eq_refl key) in
        rw (at_key, held-skip ids key h s s' k away w, ← e) (omega arith)
    | inr other ↦
        let here : hgetall s' id ≡ hgetall s id =
          ground (arith, w id, eq_iff id key, eq_iff key id) in
        rw here (omega (arith, held-write ids key h s s' k nr (rw other at c) w))
  ]

  pub held-contains :
      (ids : List String) (key : String) (s : State) (k : String)
      → contains ids key ≡ true
      → holds (hgetall s key) k ≤ held ids s k
  held-contains [] key s k c = cc
  held-contains (id ∷ ids) key s k c = elim (Bool-cases (str_eq id key)) [
    | inl same ↦ rw (← (eq_iff id key).0 same) (omega arith)
    | inr other ↦ omega (arith, held-contains ids key s k (rw other at c))
  ]

  -- Where nothing is written, a count that stays keeps the balance.
  pub same-IsBalanced :
      (ids : List String) (s s' : State)
      → ((j : String) → count r s' j ≡ count r s j)
      → ((j : String) → hgetall s' j ≡ hgetall s j)
      → IsBalanced ids s
      → IsBalanced ids s'
  same-IsBalanced ids s s' counts hashes b k = counts k ∙ b k ∙ sym (held-eq ids s s' k hashes)

  -- A write that moves each count as it moves what the reservation holds keeps the balance.
  pub write-IsBalanced :
      (ids : List String) (key : String) (h : Reservation) (s s' : State)
      → HasNoRepeat ids
      → contains ids key ≡ true
      → ((id : String) → hgetall s' id ≡ (if str_eq key id then some h else hgetall s id))
      → ((k : String)
          → holds (hgetall s key) k ≤ count r s k
          → count r s' k + holds (hgetall s key) k ≡ count r s k + holds (some h) k)
      → IsBalanced ids s
      → IsBalanced ids s'
  write-IsBalanced ids key h s s' nr c w moves b k = omega (
    arith,
    held-write ids key h s s' k nr c w,
    b k,
    moves k (omega (arith, b k, held-contains ids key s k c)),
  )
