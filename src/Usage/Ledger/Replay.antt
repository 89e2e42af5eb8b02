-- ===== src/Usage/Ledger/Replay.antt =====
-- Repeated, refused and undone calls of the scripts of usage-ledger.ts.
use relayit.Prelude.{
  ℕ, suc, String, ◌≡◌, ◌≢◌, inl, inr, refl, none, some, [], ◌∷◌, arith, if◌then◌else◌, str_eq,
  eq_iff, eq_refl, Option-cases,
}
use relayit.Redis.{Redis}
use relayit.Usage.{Reservation, ProviderKind, unlimited}
use relayit.Usage.Ledger.{
  Keys, Limits, Details, reservation_of, count, move_slots, reserve_script, remeter_script,
  confirm_script, release_script, Call, reserve, remeter, confirm, release, evaluate, run,
}
use relayit.Usage.Ledger.Slots.{charge}
use relayit.Usage.Ledger.Accounts.{count-take_slots}
use relayit.Usage.Ledger.Effects.{count-returned, reserve_present, reserve_fresh, move_slots_lem}
use relayit.Usage.Ledger.Settlement.{count-release_reserved}

module _ (r : Redis Reservation) where
  open r use {State, hgetall}

  -- The state as it can be read: every counter and every hash.
  abbrev pub Reads : State → State → Type 0
  Reads s s' = (j : String) → (count r s' j ≡ count r s j) × (hgetall s' j ≡ hgetall s j)

  reserve_refused :
      (keys : Keys) (l : Limits) (d : Details) (s : State)
      → (reserve_script r keys l d s).0 ≢ 0
      → Reads s (reserve_script r keys l d s).1
  reserve_refused keys l d s refused j = elim (Option-cases (hgetall s keys.reservation)) [
    | inr (h, e) ↦ rw (reserve_present r keys l d h s e) (refl, refl)
    | inl e ↦
        ground
          (arith, reserve_fresh r keys l d s j e, count-take_slots r l keys.daily keys.monthly s j)
  ]

  move_refused :
      (keys : Keys) (l : Limits) (target : ProviderKind) (h : Reservation) (s : State)
      → (move_slots r keys l target h s).0 ≢ 0
      → Reads s (move_slots r keys l target h s).1
  move_refused keys l target h s refused j = ground (
    arith,
    move_slots_lem r keys l target h s j,
    count-take_slots r l keys.daily keys.monthly s j,
  )

  remeter_refused :
      (keys : Keys) (l : Limits) (target : ProviderKind) (fingerprint : String) (s : State)
      → (remeter_script r keys l target fingerprint s).0 ≢ 0
      → Reads s (remeter_script r keys l target fingerprint s).1
  unfolding remeter_script
  remeter_refused keys l target fingerprint s refused j =
      elim (Option-cases (hgetall s keys.reservation)) [
        | inl e ↦ rw (e, remeter_script) (refl, refl)
        | inr (h, e) ↦
            let again = rw (e, remeter_script) at refused in
            rw (e, remeter_script)
              (ground (
                arith,
                again,
                move_slots_lem r keys l target h s j,
                count-take_slots r l keys.daily keys.monthly s j,
              ))
      ]

  confirm_refused :
      (key : String) (s : State)
      → (confirm_script r key s).0 ≢ 0
      → Reads s (confirm_script r key s).1
  unfolding confirm_script
  confirm_refused key s refused j = elim (Option-cases (hgetall s key)) [
    | inl e ↦ rw (e, confirm_script) (refl, refl)
    | inr (h, e) ↦
        let again = rw (e, confirm_script) at refused in
        rw (e, confirm_script) (ground (arith, again))
  ]

  release_refused :
      (key : String) (s : State)
      → (release_script r key s).0 ≢ 0
      → Reads s (release_script r key s).1
  unfolding release_script
  release_refused key s refused j = elim (Option-cases (hgetall s key)) [
    | inl e ↦ rw (e, release_script) (refl, refl)
    | inr (h, e) ↦
        let again = rw (e, release_script) at refused in
        rw (e, release_script) (ground (arith, again))
  ]

  -- A script that returns a code other than 0 has changed no counter and no hash.
  pub evaluate_refused :
      (c : Call) (s : State) → (evaluate r c s).0 ≢ 0 → Reads s (evaluate r c s).1
  unfolding evaluate
  evaluate_refused (reserve keys l d) s refused = reserve_refused keys l d s refused
  evaluate_refused (remeter keys l target fingerprint) s refused =
      remeter_refused keys l target fingerprint s refused
  evaluate_refused (confirm key) s refused = confirm_refused key s refused
  evaluate_refused (release key) s refused = release_refused key s refused

  -- The hash that a RESERVE for a new delivery leaves.
  reserve_written :
      (keys : Keys) (l : Limits) (d : Details) (s : State)
      → hgetall s keys.reservation ≡ none
      → (reserve_script r keys l d s).0 ≡ 0
      → hgetall (reserve_script r keys l d s).1 keys.reservation ≡ some (reservation_of keys d)
  reserve_written keys l d s e passed =
      ground (arith, reserve_fresh r keys l d s keys.reservation e, eq_refl keys.reservation)

  reserve_known :
      (keys : Keys) (l : Limits) (d : Details) (h : Reservation) (s : State)
      → hgetall s keys.reservation ≡ some h
      → reserve_script r keys l d s ≡ (if str_eq h.fingerprint d.fingerprint then 0 else 3, s)
  unfolding reserve_script
  reserve_known keys l d h s e = rw (e, reserve_script) (ground arith)

  -- After a RESERVE that returned 0, a RESERVE for the same delivery changes nothing, whatever its
  -- keys for the counters, limits and other details are: it returns 0 if the fingerprint is the
  -- same, and 3 if it is another.
  pub reserve_again :
      (keys keys' : Keys) (l l' : Limits) (d d' : Details) (s : State)
      → hgetall s keys.reservation ≡ none
      → (evaluate r (reserve keys l d) s).0 ≡ 0
      → keys'.reservation ≡ keys.reservation
      → evaluate r (reserve keys' l' d') (evaluate r (reserve keys l d) s).1 ≡ (
        if str_eq d.fingerprint d'.fingerprint then 0 else 3,
        (evaluate r (reserve keys l d) s).1,
      )
  unfolding evaluate
  reserve_again keys keys' l l' d d' s e passed same =
      reserve_known keys' l' d' (reservation_of keys d) _
        (rw same (reserve_written keys l d s e passed))

  -- RESERVE for a new delivery and then RELEASE leave every counter as it was, where both limits
  -- are numbers.
  pub release-reserve :
      (keys : Keys) (l : Limits) (d : Details) (s : State) (j : String)
      → hgetall s keys.reservation ≡ none
      → charge l.daily_limit ≡ 1
      → charge l.monthly_limit ≡ 1
      → (evaluate r (reserve keys l d) s).0 ≡ 0
      → count r (run r (reserve keys l d ∷ release keys.reservation ∷ []) s) j ≡ count r s j
  unfolding run evaluate
  release-reserve keys l d s j e day month passed = ground (
    arith,
    reserve_fresh r keys l d s j e,
    count-take_slots r l keys.daily keys.monthly s j,
    count-release_reserved r keys.reservation (reservation_of keys d)
        (reserve_script r keys l d s).1 j (reserve_written keys l d s e passed) refl,
    count-returned r (reservation_of keys d) (reserve_script r keys l d s).1 j,
  )

  -- With no daily limit RESERVE charges no daily slot, and RELEASE returns one all the same: the
  -- pair lowers a daily counter that others have raised.
  pub release-reserve_unlimited :
      (keys : Keys) (l : Limits) (d : Details) (s : State) (n : ℕ)
      → hgetall s keys.reservation ≡ none
      → l.daily_limit ≡ unlimited
      → keys.monthly ≢ keys.daily
      → count r s keys.daily ≡ suc n
      → (evaluate r (reserve keys l d) s).0 ≡ 0
      → count r (run r (reserve keys l d ∷ release keys.reservation ∷ []) s) keys.daily ≡ n
  unfolding run evaluate
  release-reserve_unlimited keys l d s n e none_l other c passed = ground (
    arith,
    reserve_fresh r keys l d s keys.daily e,
    count-take_slots r l keys.daily keys.monthly s keys.daily,
    count-release_reserved r keys.reservation (reservation_of keys d)
        (reserve_script r keys l d s).1 keys.daily (reserve_written keys l d s e passed) refl,
    count-returned r (reservation_of keys d) (reserve_script r keys l d s).1 keys.daily,
    eq_iff keys.monthly keys.daily,
    eq_refl keys.daily,
  )
