-- ===== src/Usage/Ledger/Accounts.antt =====
-- The counters under RESERVE, REMETER, CONFIRM and RELEASE of usage-ledger.ts.
pub mod Caps
pub mod Held
pub mod Balance
use relayit.Prelude.{
  ℕ, ◌+◌, String, ◌≡◌, ◌≢◌, refl, Bool, true, false, not, ◌&&◌, arith, ◌==◌, if◌then◌else◌, str_eq,
  eq_iff, eq_refl, Bool-cases, inl, inr, ap, sym, ◌∙◌,
}
use relayit.Redis.{Redis}
use relayit.Usage.{Reservation}
use relayit.Usage.Ledger.{Limits, count, take_slot, undo_slot, take_slots}
use relayit.Usage.Ledger.Slots.{
  admits, charge, room-take_slot, count-take_slot, hgetall-take_slot, count-undo_slot,
  hgetall-undo_slot,
}

module _ (r : Redis Reservation) (l : Limits) (daily monthly : String) where
  open r use {State, hgetall}

  -- The state after the daily block.
  abbrev day : State → State
  day s = (take_slot r l.daily_limit daily l.daily_ttl s).1

  -- The state after the monthly block.
  abbrev month : State → State
  month s = (take_slot r l.monthly_limit monthly l.monthly_ttl (day s)).1

  -- The code: 1 where the day is full, 2 where the month is, 0 where both have room.
  pub code-take_slots :
      (s : State)
      → (take_slots r l daily monthly s).0 ≡ (
          if not (admits l.daily_limit (count r s daily))
          then 1
          else if not (admits l.monthly_limit (count r (day s) monthly))
          then 2
          else 0)
  unfolding take_slots
  code-take_slots s = ground (
    arith,
    room-take_slot r l.daily_limit daily l.daily_ttl s,
    room-take_slot r l.monthly_limit monthly l.monthly_ttl (day s),
  )

  pub hgetall-take_slots :
      (s : State) (j : String) → hgetall (take_slots r l daily monthly s).1 j ≡ hgetall s j
  unfolding take_slots
  hgetall-take_slots s j = ground (
    arith,
    hgetall-take_slot r l.daily_limit daily l.daily_ttl s j,
    hgetall-take_slot r l.monthly_limit monthly l.monthly_ttl (day s) j,
    hgetall-undo_slot r l.daily_limit daily
        (take_slot r l.monthly_limit monthly l.monthly_ttl (day s)).1 j,
  )

  -- Both slots are charged on code 0, and no counter has changed on any other code.
  pub count-take_slots :
      (s : State) (j : String)
      → count r (take_slots r l daily monthly s).1 j
        ≡ count r s j
          + (if (take_slots r l daily monthly s).0 == 0
              then (if str_eq daily j then charge l.daily_limit else 0)
                + (if str_eq monthly j then charge l.monthly_limit else 0)
              else 0)
  unfolding take_slots
  count-take_slots s j = ground (
    arith,
    room-take_slot r l.daily_limit daily l.daily_ttl s,
    room-take_slot r l.monthly_limit monthly l.monthly_ttl (day s),
    count-take_slot r l.daily_limit daily l.daily_ttl s j,
    count-take_slot r l.daily_limit daily l.daily_ttl s daily,
    count-take_slot r l.monthly_limit monthly l.monthly_ttl (day s) j,
    count-take_slot r l.monthly_limit monthly l.monthly_ttl (day s) daily,
    count-undo_slot r l.daily_limit daily (month s) j,
    eq_refl daily,
    eq_iff daily j,
  )

  -- On code 0 the state is the one after both blocks.
  pub take_slots_passed :
      (s : State)
      → ((take_slots r l daily monthly s).0 == 0) ≡ true
      → (take_slots r l daily monthly s).1 ≡ month s
  unfolding take_slots
  take_slots_passed s h = ground arith
