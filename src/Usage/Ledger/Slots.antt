-- ===== src/Usage/Ledger/Slots.antt =====
-- What taking and returning one slot does to every counter and every hash.
use relayit.Prelude.{
  ℕ, suc, pred, String, ◌≡◌, refl, Bool, true, ◌&&◌, ◌+◌, ◌-◌, ◌≤◌, ◌∙◌, inl, inr, some, arith, ltb,
  ◌==◌, if◌then◌else◌, str_eq, eq_iff, eq_refl, Bool-cases,
}
use relayit.Redis.{Redis}
use relayit.Usage.{Limit, at_most, unlimited, Reservation}
use relayit.Usage.Ledger.{count, count_up, take_slot, undo_slot, return_slot}

-- Whether a counter that stands at `n` has room for one more.
abbrev pub admits : Limit → ℕ → Bool
admits unlimited n = true
admits (at_most limit) n = ltb n limit

-- What a slot under this limit adds to its counter.
abbrev pub charge : Limit → ℕ
charge unlimited = 0
charge (at_most _) = 1

module _ (r : Redis Reservation) where
  open r use {
    State, get, incr, decr, hgetall, expire, get-incr, get-decr, get-expire, hgetall-incr,
    hgetall-decr, hgetall-expire,
  }

  pub get-count_up :
      (k j : String) (n : ℕ) (s : State)
      → get (count_up r k n s) j ≡ (if str_eq k j then some (suc (count r s k)) else get s j)
  unfolding count_up
  get-count_up k j n s = elim (Bool-cases (count r (incr k s) k == 1)) [
    | inl e ↦ rw e (get-expire (incr k s) k j n ∙ get-incr s k j)
    | inr e ↦ rw e (get-incr s k j)
  ]

  pub hgetall-count_up :
      (k j : String) (n : ℕ) (s : State) → hgetall (count_up r k n s) j ≡ hgetall s j
  unfolding count_up
  hgetall-count_up k j n s = elim (Bool-cases (count r (incr k s) k == 1)) [
    | inl e ↦ rw e (hgetall-expire (incr k s) k j n ∙ hgetall-incr s k j)
    | inr e ↦ rw e (hgetall-incr s k j)
  ]

  count_up_self :
      (k : String) (n : ℕ) (s : State) → get (count_up r k n s) k ≡ some (suc (count r s k))
  count_up_self k n s = simp (get-count_up, eq_refl)

  pub room-take_slot :
      (l : Limit) (k : String) (n : ℕ) (s : State)
      → (take_slot r l k n s).0 ≡ admits l (count r s k)
  unfolding take_slot
  room-take_slot unlimited k n s = refl
  room-take_slot (at_most m) k n s = ground (arith, count_up_self k n s)

  -- Only the counter `k` changes, and only where there is room.
  pub count-take_slot :
      (l : Limit) (k : String) (n : ℕ) (s : State) (j : String)
      → count r (take_slot r l k n s).1 j
        ≡ count r s j + (if str_eq k j && admits l (count r s k) then charge l else 0)
  unfolding take_slot
  count-take_slot unlimited k n s j = ground arith
  count-take_slot (at_most m) k n s j = ground (
    arith,
    count_up_self k n s,
    get-count_up k j n s,
    get-decr (count_up r k n s) k j (count r s k) (count_up_self k n s),
    eq_iff k j,
  )

  pub hgetall-take_slot :
      (l : Limit) (k : String) (n : ℕ) (s : State) (j : String)
      → hgetall (take_slot r l k n s).1 j ≡ hgetall s j
  unfolding take_slot
  hgetall-take_slot unlimited k n s j = refl
  hgetall-take_slot (at_most m) k n s j =
      ground (arith, hgetall-count_up k j n s, hgetall-decr (count_up r k n s) k j)

  -- A slot that was taken from `k` is taken back.
  pub count-undo_slot :
      (l : Limit) (k : String) (s : State) (j : String)
      → charge l ≤ count r s k
      → count r (undo_slot r l k s) j ≡ count r s j - (if str_eq k j then charge l else 0)
  unfolding undo_slot
  count-undo_slot unlimited k s j h = ground arith
  count-undo_slot (at_most m) k s j h =
      ground (arith, get-decr s k j (pred (count r s k)), eq_iff k j)

  pub hgetall-undo_slot :
      (l : Limit) (k : String) (s : State) (j : String)
      → hgetall (undo_slot r l k s) j ≡ hgetall s j
  unfolding undo_slot
  hgetall-undo_slot unlimited k s j = refl
  hgetall-undo_slot (at_most m) k s j = hgetall-decr s k j

  -- A counter is lowered by one, and never below 0.
  pub count-return_slot :
      (k : String) (s : State) (j : String)
      → count r (return_slot r k s) j ≡ count r s j - (if str_eq k j then 1 else 0)
  unfolding return_slot
  count-return_slot k s j = ground (arith, get-decr s k j (pred (count r s k)), eq_iff k j)

  pub hgetall-return_slot :
      (k : String) (s : State) (j : String) → hgetall (return_slot r k s) j ≡ hgetall s j
  unfolding return_slot
  hgetall-return_slot k s j = ground (arith, hgetall-decr s k j)
