-- ===== src/Usage/Ledger/Settlement.antt =====
-- What CONFIRM and RELEASE of usage-ledger.ts do to the counters and to the hashes.
use relayit.Prelude.{
  ◌≤◌, String, ◌≡◌, ◌≢◌, inl, inr, refl, some, arith, if◌then◌else◌, str_eq, Option-cases,
}
use relayit.Redis.{Redis}
use relayit.Usage.{Reservation, reserved, confirmed, released}
use relayit.Usage.Ledger.{
  with_status, usage_tombstone_ttl_seconds, count, confirm_script, release_script,
}
use relayit.Usage.Ledger.Effects.{count-returned, hgetall-returned, returned}

module _ (r : Redis Reservation) where
  open r use {State, get, hgetall, hset, expire, get-hset, get-expire, hgetall-hset, hgetall-expire}

  pub count-confirm_script :
      (key : String) (s : State) (j : String) → count r (confirm_script r key s).1 j ≡ count r s j
  unfolding confirm_script
  count-confirm_script key s j = elim (Option-cases (hgetall s key)) [
    | inl e ↦ rw (e, confirm_script)
    | inr (h, e) ↦
        rw (e, confirm_script)
          (ground (
            arith,
            get-expire (hset key (with_status confirmed h) s) key j usage_tombstone_ttl_seconds,
            get-expire s key j usage_tombstone_ttl_seconds,
            get-hset s key j (with_status confirmed h),
          ))
  ]

  -- RELEASE of a reservation that is still reserved returns both slots.
  pub count-release_reserved :
      (key : String) (h : Reservation) (s : State) (j : String)
      → hgetall s key ≡ some h
      → h.status ≡ reserved
      → count r (release_script r key s).1 j ≡ count r (returned r h s) j
  unfolding release_script
  count-release_reserved key h s j e reserved_h =
      rw (e, release_script)
        (ground (
          arith,
          get-expire (hset key (with_status released h) (returned r h s)) key j
              usage_tombstone_ttl_seconds,
          get-hset (returned r h s) key j (with_status released h),
        ))

  pub hgetall-release_reserved :
      (key : String) (h : Reservation) (s : State) (j : String)
      → hgetall s key ≡ some h
      → h.status ≡ reserved
      → hgetall (release_script r key s).1 j
        ≡ (if str_eq key j then some (with_status released h) else hgetall s j)
  unfolding release_script
  hgetall-release_reserved key h s j e reserved_h =
      rw (e, release_script)
        (ground (
          arith,
          hgetall-expire (hset key (with_status released h) (returned r h s)) key j
              usage_tombstone_ttl_seconds,
          hgetall-hset (returned r h s) key j (with_status released h),
          hgetall-returned r h s j,
        ))

  -- RELEASE of any other reservation, or of none, changes no counter and no hash.
  pub release_other :
      (key : String) (s : State) (j : String)
      → ((h : Reservation) → hgetall s key ≡ some h → h.status ≢ reserved)
      → (count r (release_script r key s).1 j ≡ count r s j)
        × (hgetall (release_script r key s).1 j ≡ hgetall s j)
  unfolding release_script
  release_other key s j other = elim (Option-cases (hgetall s key)) [
    | inl e ↦ rw (e, release_script) (refl, refl)
    | inr (h, e) ↦
        rw (e, release_script)
          (ground (
            arith,
            other h e,
            get-expire s key j usage_tombstone_ttl_seconds,
            hgetall-expire s key j usage_tombstone_ttl_seconds,
          ))
  ]

  pub count-release_script :
      (key : String) (s : State) (j : String) → count r (release_script r key s).1 j ≤ count r s j
  unfolding release_script
  count-release_script key s j = elim (Option-cases (hgetall s key)) [
    | inl e ↦ rw (e, release_script) (omega arith)
    | inr (h, e) ↦
        rw (e, release_script)
          (ground (
            arith,
            get-expire s key j usage_tombstone_ttl_seconds,
            get-expire (hset key (with_status released h) (returned r h s)) key j
                usage_tombstone_ttl_seconds,
            get-hset (returned r h s) key j (with_status released h),
            count-returned r h s j,
          ))
  ]

  -- CONFIRM of a reservation that is still reserved marks it.
  pub hgetall-confirm_reserved :
      (key : String) (h : Reservation) (s : State) (j : String)
      → hgetall s key ≡ some h
      → h.status ≡ reserved
      → hgetall (confirm_script r key s).1 j
        ≡ (if str_eq key j then some (with_status confirmed h) else hgetall s j)
  unfolding confirm_script
  hgetall-confirm_reserved key h s j e reserved_h =
      rw (e, confirm_script)
        (ground (
          arith,
          hgetall-expire (hset key (with_status confirmed h) s) key j usage_tombstone_ttl_seconds,
          hgetall-hset s key j (with_status confirmed h),
        ))

  -- CONFIRM of any other reservation, or of none, changes no hash.
  pub hgetall-confirm_other :
      (key : String) (s : State) (j : String)
      → ((h : Reservation) → hgetall s key ≡ some h → h.status ≢ reserved)
      → hgetall (confirm_script r key s).1 j ≡ hgetall s j
  unfolding confirm_script
  hgetall-confirm_other key s j other = elim (Option-cases (hgetall s key)) [
    | inl e ↦ rw (e, confirm_script)
    | inr (h, e) ↦
        rw (e, confirm_script)
          (ground (arith, other h e, hgetall-expire s key j usage_tombstone_ttl_seconds))
  ]
