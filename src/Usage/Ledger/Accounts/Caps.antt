-- ===== src/Usage/Ledger/Accounts/Caps.antt =====
-- The counters of usage-ledger.ts stay within the limits of the usage policy.
use relayit.Prelude.{
  ℕ, ◌+◌, ◌≤◌, String, ◌≡◌, ◌⊎◌, inl, inr, List, [], ◌∷◌, arith, All, if◌then◌else◌, ◌==◌, str_eq,
  eq_iff, eq_refl, Bool-cases,
}
use native.Mathlib.Nat.{add-zero}
use mathlib.Core.Path.{subst}
use relayit.Redis.{Redis}
use relayit.Usage.{Limit, at_most, unlimited, Reservation}
use relayit.Usage.Ledger.{
  Limits, count, take_slot, take_slots, Call, reserve, remeter, confirm, release, evaluate, run,
}
use relayit.Usage.Ledger.Effects.{count-reserve_script, count-remeter_script}
use relayit.Usage.Ledger.Settlement.{count-confirm_script, count-release_script}
use relayit.Usage.Ledger.Slots.{admits, charge, count-take_slot}
use relayit.Usage.Ledger.Accounts.{day, count-take_slots, take_slots_passed}

-- A count that the limit allows.
abbrev pub Allows : Limit → ℕ → Type 0
Allows unlimited n = Unit {0}
Allows (at_most limit) n = n ≤ limit

Allows-le : (l : Limit) (m n : ℕ) → n ≤ m → Allows l m → Allows l n
Allows-le unlimited m n h a = tt
Allows-le (at_most limit) m n h a = omega arith

Allows-charge :
    (l : Limit) (n : ℕ) → Allows l n → Allows l (n + (if admits l n then charge l else 0))
Allows-charge unlimited n a = tt
Allows-charge (at_most limit) n a = ground arith

-- The policy's limits for the counters that the call may raise are those of the table.
abbrev pub Fits : (String → Limit) → Call → Type 0
Fits limit_of (reserve keys l d) =
    (l.daily_limit ≡ limit_of keys.daily) × (l.monthly_limit ≡ limit_of keys.monthly)
Fits limit_of (remeter keys l target fingerprint) =
    (l.daily_limit ≡ limit_of keys.daily) × (l.monthly_limit ≡ limit_of keys.monthly)
Fits limit_of _ = Unit {0}

module _ (r : Redis Reservation) where
  open r use {State, get, hgetall, hset, get-hset, get-expire}

  -- No counter is past its limit.
  abbrev pub IsWithin : (String → Limit) → State → Type 0
  IsWithin limit_of s = (k : String) → Allows (limit_of k) (count r s k)

  take_slot-IsWithin :
      (limit_of : String → Limit) (l : Limit) (k : String) (n : ℕ) (s : State)
      → l ≡ limit_of k
      → IsWithin limit_of s
      → IsWithin limit_of (take_slot r l k n s).1
  take_slot-IsWithin limit_of l k n s e w j = elim (Bool-cases (str_eq k j)) [
    | inl same ↦
        subst (λ i. Allows (limit_of i) (count r (take_slot r l k n s).1 i)) ((eq_iff k j).0 same)
          (rw (count-take_slot r l k n s k, eq_refl k, ← e)
            (Allows-charge l (count r s k) (rw e (w k))))
    | inr other ↦ rw (count-take_slot r l k n s j, other, add-zero) (w j)
  ]

  -- The two blocks never leave a counter past its limit, whichever way they return.
  take_slots-IsWithin :
      (limit_of : String → Limit) (l : Limits) (daily monthly : String) (s : State)
      → l.daily_limit ≡ limit_of daily
      → l.monthly_limit ≡ limit_of monthly
      → IsWithin limit_of s
      → IsWithin limit_of (take_slots r l daily monthly s).1
  take_slots-IsWithin limit_of l daily monthly s ed em w j =
      elim (Bool-cases ((take_slots r l daily monthly s).0 == 0)) [
        | inl passed ↦ rw (take_slots_passed r l daily monthly s passed) (
            take_slot-IsWithin limit_of l.monthly_limit monthly l.monthly_ttl
              (day r l daily monthly s) em
              (take_slot-IsWithin limit_of l.daily_limit daily l.daily_ttl s ed w) j)
        | inr failed ↦ rw (count-take_slots r l daily monthly s j, failed, add-zero) (w j)
      ]

  -- A count that is at most that of a state within the limits, or at most that after the blocks.
  bounded_by :
      (limit_of : String → Limit) (l : Limits) (daily monthly : String) (s s' : State) (j : String)
      → l.daily_limit ≡ limit_of daily
      → l.monthly_limit ≡ limit_of monthly
      → IsWithin limit_of s
      → (count r s' j ≤ count r s j) ⊎ (count r s' j ≤ count r (take_slots r l daily monthly s).1 j)
      → Allows (limit_of j) (count r s' j)
  bounded_by limit_of l daily monthly s s' j ed em w (inl h) = Allows-le (limit_of j) _ _ h (w j)
  bounded_by limit_of l daily monthly s s' j ed em w (inr h) =
      Allows-le (limit_of j) _ _ h (take_slots-IsWithin limit_of l daily monthly s ed em w j)

  -- Every script keeps every counter within its limit.
  pub evaluate-IsWithin :
      (limit_of : String → Limit) (c : Call) (s : State)
      → Fits limit_of c
      → IsWithin limit_of s
      → IsWithin limit_of (evaluate r c s).1
  unfolding evaluate
  evaluate-IsWithin limit_of (reserve keys l d) s (ed, em) w j =
      bounded_by limit_of l keys.daily keys.monthly s _ j ed em w
        (count-reserve_script r keys l d s j)
  evaluate-IsWithin limit_of (remeter keys l target fingerprint) s (ed, em) w j =
      bounded_by limit_of l keys.daily keys.monthly s _ j ed em w
        (count-remeter_script r keys l target fingerprint s j)
  evaluate-IsWithin limit_of (confirm key) s f w j = rw (count-confirm_script r key s j) (w j)
  evaluate-IsWithin limit_of (release key) s f w j =
      Allows-le (limit_of j) _ _ (count-release_script r key s j) (w j)

  -- In whatever order RESERVE, REMETER, CONFIRM and RELEASE run, for whatever deliveries, no
  -- counter passes its limit, provided the calls carry the limits that a table `limit_of` gives
  -- for the counters that they raise, and no counter is past its limit at the start.
  pub run-IsWithin :
      (limit_of : String → Limit) (calls : List Call) (s : State)
      → All (Fits limit_of) calls
      → IsWithin limit_of s
      → IsWithin limit_of (run r calls s)
  unfolding run
  run-IsWithin limit_of [] s f w = w
  run-IsWithin limit_of (c ∷ calls) s (f, fs) w =
      run-IsWithin limit_of calls (evaluate r c s).1 fs (evaluate-IsWithin limit_of c s f w)
