-- ===== src/Usage/Ledger/Effects.antt =====
-- What RESERVE and REMETER of usage-ledger.ts do to the counters and to the hashes.
use relayit.Prelude.{
  ◌-◌, ◌≤◌, String, ◌≡◌, ◌≢◌, ◌⊎◌, inl, inr, refl, ◌&&◌, Option, none, some, arith, if◌then◌else◌,
  ◌==◌, str_eq, Option-cases,
}
use relayit.Redis.{Redis}
use relayit.Usage.{Reservation, ProviderKind, Status, reserved, confirmed, released}
use relayit.Usage.Ledger.{
  Keys, Limits, Details, reservation_of, moved_to, count, take_slots, return_slot, reserve_script,
  move_slots, remeter_script,
}
use relayit.Usage.Ledger.Slots.{count-return_slot, hgetall-return_slot}
use relayit.Usage.Ledger.Accounts.{hgetall-take_slots}

Status-cases : (status : Status) → (status ≡ reserved) ⊎ (status ≢ reserved)
Status-cases reserved = inl refl
Status-cases confirmed = inr (λ e. cc)
Status-cases released = inr (λ e. cc)

reserved_or_not :
    (found : Option Reservation)
    → ((h : Reservation) × (found ≡ some h) × (h.status ≡ reserved))
      ⊎ ((h : Reservation) → found ≡ some h → h.status ≢ reserved)
reserved_or_not none = inr (λ h e. cc)
reserved_or_not (some h) = elim (Status-cases h.status) [
  | inl e ↦ inl (h, refl, e)
  | inr ne ↦ inr (λ h' e' s. ne (ground arith))
]

module _ (r : Redis Reservation) where
  open r use {State, get, hgetall, hset, expire, get-hset, get-expire, hgetall-hset, hgetall-expire}

  -- The state after both slots of `h` are returned.
  abbrev pub returned : Reservation → State → State
  returned h s = return_slot r h.monthly_key (return_slot r h.daily_key s)

  pub count-returned :
      (h : Reservation) (s : State) (j : String)
      → count r (returned h s) j
        ≡ count r s j
          - (if str_eq h.daily_key j then 1 else 0)
          - (if str_eq h.monthly_key j then 1 else 0)
  count-returned h s j = ground (
    arith,
    count-return_slot r h.monthly_key (return_slot r h.daily_key s) j,
    count-return_slot r h.daily_key s j,
  )

  pub hgetall-returned :
      (h : Reservation) (s : State) (j : String) → hgetall (returned h s) j ≡ hgetall s j
  hgetall-returned h s j = ground (
    arith,
    hgetall-return_slot r h.monthly_key (return_slot r h.daily_key s) j,
    hgetall-return_slot r h.daily_key s j,
  )

  -- RESERVE leaves a counter alone, or does to it what the two blocks do.
  pub count-reserve_script :
      (keys : Keys) (l : Limits) (d : Details) (s : State) (j : String)
      → (count r (reserve_script r keys l d s).1 j ≤ count r s j)
        ⊎ (count r (reserve_script r keys l d s).1 j
            ≤ count r (take_slots r l keys.daily keys.monthly s).1 j)
  unfolding reserve_script
  count-reserve_script keys l d s j = ground (
    arith,
    get-hset (take_slots r l keys.daily keys.monthly s).1 keys.reservation j
        (reservation_of keys d),
  )

  pub count-move_slots :
      (keys : Keys) (l : Limits) (target : ProviderKind) (h : Reservation) (s : State) (j : String)
      → count r (move_slots r keys l target h s).1 j
        ≤ count r (take_slots r l keys.daily keys.monthly s).1 j
  unfolding move_slots
  count-move_slots keys l target h s j = ground (
    arith,
    get-hset (returned h (take_slots r l keys.daily keys.monthly s).1) keys.reservation j
        (moved_to keys target h),
    count-returned h (take_slots r l keys.daily keys.monthly s).1 j,
  )

  pub count-remeter_script :
      (keys : Keys) (l : Limits) (target : ProviderKind) (fingerprint : String) (s : State)
      (j : String)
      → (count r (remeter_script r keys l target fingerprint s).1 j ≤ count r s j)
        ⊎ (count r (remeter_script r keys l target fingerprint s).1 j
            ≤ count r (take_slots r l keys.daily keys.monthly s).1 j)
  unfolding remeter_script
  count-remeter_script keys l target fingerprint s j =
      elim (Option-cases (hgetall s keys.reservation)) [
        | inl e ↦ rw (e, remeter_script) (inl (omega arith))
        | inr (h, e) ↦ rw (e, remeter_script) (ground (arith, count-move_slots keys l target h s j))
      ]

  -- RESERVE for a delivery that has a hash changes nothing.
  pub reserve_present :
      (keys : Keys) (l : Limits) (d : Details) (h : Reservation) (s : State)
      → hgetall s keys.reservation ≡ some h
      → (reserve_script r keys l d s).1 ≡ s
  unfolding reserve_script
  reserve_present keys l d h s e = rw (e, reserve_script) (ground arith)

  -- RESERVE for a new delivery has the code of the two blocks; on code 0 it also writes the hash.
  pub reserve_fresh :
      (keys : Keys) (l : Limits) (d : Details) (s : State) (j : String)
      → hgetall s keys.reservation ≡ none
      → ((reserve_script r keys l d s).0 ≡ (take_slots r l keys.daily keys.monthly s).0)
        × (count r (reserve_script r keys l d s).1 j
            ≡ count r (take_slots r l keys.daily keys.monthly s).1 j)
        × (hgetall (reserve_script r keys l d s).1 j ≡ (
            if str_eq keys.reservation j && ((take_slots r l keys.daily keys.monthly s).0 == 0)
            then some (reservation_of keys d)
            else hgetall s j))
  unfolding reserve_script
  reserve_fresh keys l d s j e =
      rw (e, reserve_script)
        (ground (
          arith,
          get-hset (take_slots r l keys.daily keys.monthly s).1 keys.reservation j
              (reservation_of keys d),
          hgetall-hset (take_slots r l keys.daily keys.monthly s).1 keys.reservation j
              (reservation_of keys d),
          hgetall-take_slots r l keys.daily keys.monthly s j,
        ))

  -- REMETER takes the target's slots; on code 0 it returns the old ones and rewrites the hash.
  pub move_slots_lem :
      (keys : Keys) (l : Limits) (target : ProviderKind) (h : Reservation) (s : State) (j : String)
      → ((move_slots r keys l target h s).0 ≡ (take_slots r l keys.daily keys.monthly s).0)
        × (count r (move_slots r keys l target h s).1 j ≡ (
            if (take_slots r l keys.daily keys.monthly s).0 == 0
            then count r (returned h (take_slots r l keys.daily keys.monthly s).1) j
            else count r (take_slots r l keys.daily keys.monthly s).1 j))
        × (hgetall (move_slots r keys l target h s).1 j ≡ (
            if str_eq keys.reservation j && ((take_slots r l keys.daily keys.monthly s).0 == 0)
            then some (moved_to keys target h)
            else hgetall s j))
  unfolding move_slots
  move_slots_lem keys l target h s j = ground (
    arith,
    get-hset (returned h (take_slots r l keys.daily keys.monthly s).1) keys.reservation j
        (moved_to keys target h),
    hgetall-hset (returned h (take_slots r l keys.daily keys.monthly s).1) keys.reservation j
        (moved_to keys target h),
    hgetall-returned h (take_slots r l keys.daily keys.monthly s).1 j,
    hgetall-take_slots r l keys.daily keys.monthly s j,
  )

  remeter_known :
      (keys : Keys) (l : Limits) (target : ProviderKind) (fingerprint : String) (h : Reservation)
      (s : State)
      → hgetall s keys.reservation ≡ some h
      → ((remeter_script r keys l target fingerprint s).1 ≡ s)
        ⊎ ((h.status ≡ reserved)
            × (remeter_script r keys l target fingerprint s ≡ move_slots r keys l target h s))
  unfolding remeter_script
  remeter_known keys l target fingerprint h s e = rw (e, remeter_script) (ground arith)

  -- REMETER changes nothing, or moves the slots of a reservation that is still reserved.
  pub remeter_cases :
      (keys : Keys) (l : Limits) (target : ProviderKind) (fingerprint : String) (s : State)
      → ((remeter_script r keys l target fingerprint s).1 ≡ s)
        ⊎ ((h : Reservation) × (hgetall s keys.reservation ≡ some h)
            × (h.status ≡ reserved)
            × (remeter_script r keys l target fingerprint s ≡ move_slots r keys l target h s))
  unfolding remeter_script
  remeter_cases keys l target fingerprint s = elim (Option-cases (hgetall s keys.reservation)) [
    | inl e ↦ inl (rw (e, remeter_script))
    | inr (h, e) ↦ elim (remeter_known keys l target fingerprint h s e) [
      | inl same ↦ inl same
      | inr (open_h, moved) ↦ inr (h, e, open_h, moved)
    ]
  ]

  -- Whether the hash is one that is still reserved.
  pub reserved-cases :
      (key : String) (s : State)
      → ((h : Reservation) × (hgetall s key ≡ some h) × (h.status ≡ reserved))
        ⊎ ((h : Reservation) → hgetall s key ≡ some h → h.status ≢ reserved)
  reserved-cases key s = reserved_or_not (hgetall s key)
