-- ===== src/Usage/Ledger/Lifecycle.antt =====
-- The life of one reservation under the scripts of usage-ledger.ts.
use relayit.Prelude.{
  String, ◌≡◌, ◌≢◌, inl, inr, refl, Option, none, some, List, [], ◌∷◌, arith, if◌then◌else◌, ◌==◌,
  str_eq, eq_iff, Bool-cases, Option-cases,
}
use relayit.Redis.{Redis}
use relayit.Usage.{Reservation, ProviderKind, reserved, confirmed, released}
use relayit.Usage.Ledger.{
  Keys, reservation_of, moved_to, with_status, take_slots, move_slots, reserve_script, Call,
  reserve, remeter, confirm, release, evaluate, run,
}
use relayit.Usage.Ledger.Effects.{
  reserve_present, reserve_fresh, move_slots_lem, remeter_cases, reserved-cases,
}
use relayit.Usage.Ledger.Settlement.{
  hgetall-confirm_other, hgetall-confirm_reserved, release_other, hgetall-release_reserved,
}

-- One step in the life of the hash at a name.
pub data Advances : Option Reservation → Option Reservation → Type 0 where
  stays : {o : Option Reservation} → Advances o o
  opens : (h : Reservation) → h.status ≡ reserved → Advances none (some h)
  moves :
      (h : Reservation) (keys : Keys) (target : ProviderKind)
      → h.status ≡ reserved
      → Advances (some h) (some (moved_to keys target h))
  confirms :
      (h : Reservation) → h.status ≡ reserved → Advances (some h) (some (with_status confirmed h))
  releases :
      (h : Reservation) → h.status ≡ reserved → Advances (some h) (some (with_status released h))

module _ (r : Redis Reservation) where
  open r use {State, hgetall}

  -- A write at one name that is a step there is a step everywhere.
  step_at :
      (key : String) (o o' : Option Reservation) (s s' : State) (j : String)
      → hgetall s key ≡ o
      → hgetall s' j ≡ (if str_eq key j then o' else hgetall s j)
      → Advances o o'
      → Advances (hgetall s j) (hgetall s' j)
  step_at key o o' s s' j e w a = elim (Bool-cases (str_eq key j)) [
    | inl same ↦ rw (w, same, ← (eq_iff key j).0 same, e) a
    | inr other ↦ rw (w, other) stays
  ]

  -- Whatever script runs, the hash at every name stays as it is or takes one step of its life.
  pub evaluate-Advances :
      (c : Call) (s : State) (j : String) → Advances (hgetall s j) (hgetall (evaluate r c s).1 j)
  unfolding evaluate
  evaluate-Advances (reserve keys l d) s j = elim (Option-cases (hgetall s keys.reservation)) [
    | inr (h, e) ↦ rw (reserve_present r keys l d h s e) stays
    | inl e ↦ elim (Bool-cases ((take_slots r l keys.daily keys.monthly s).0 == 0)) [
      | inr refused ↦
          let same : hgetall (reserve_script r keys l d s).1 j ≡ hgetall s j =
            ground (arith, reserve_fresh r keys l d s j e) in
          rw same stays
      | inl passed ↦
          step_at keys.reservation none (some (reservation_of keys d)) s _ j e
            (ground (arith, reserve_fresh r keys l d s j e)) (opens _ refl)
    ]
  ]
  evaluate-Advances (remeter keys l target fingerprint) s j =
      elim (remeter_cases r keys l target fingerprint s) [
        | inl same ↦ rw same stays
        | inr (h, e, open_h, moved) ↦
            elim (Bool-cases ((take_slots r l keys.daily keys.monthly s).0 == 0)) [
              | inr refused ↦
                  let same : hgetall (move_slots r keys l target h s).1 j ≡ hgetall s j =
                    ground (arith, move_slots_lem r keys l target h s j) in
                  rw (moved, same) stays
              | inl passed ↦ rw moved (
                  step_at keys.reservation (some h) (some (moved_to keys target h)) s _ j e
                    (ground (arith, move_slots_lem r keys l target h s j))
                    (moves h keys target open_h))
            ]
      ]
  evaluate-Advances (confirm key) s j = elim (reserved-cases r key s) [
    | inr other ↦ rw (hgetall-confirm_other r key s j other) stays
    | inl (h, e, open_h) ↦
        step_at key (some h) _ s _ j e (hgetall-confirm_reserved r key h s j e open_h)
          (confirms h open_h)
  ]
  evaluate-Advances (release key) s j = elim (reserved-cases r key s) [
    | inr other ↦ rw (release_other r key s j other).1 stays
    | inl (h, e, open_h) ↦
        step_at key (some h) _ s _ j e (hgetall-release_reserved r key h s j e open_h)
          (releases h open_h)
  ]

  Advances-final :
      {o o' : Option Reservation} (h : Reservation)
      → o ≡ some h
      → h.status ≢ reserved
      → Advances o o'
      → o' ≡ some h
  Advances-final h e done stays = e
  Advances-final h e done (opens h' o) = cc
  Advances-final h e done (moves h' keys target o) = absurd (done (ground arith))
  Advances-final h e done (confirms h' o) = absurd (done (ground arith))
  Advances-final h e done (releases h' o) = absurd (done (ground arith))

  -- A reservation that is confirmed or released keeps its hash, field for field, whatever scripts
  -- run later.
  pub run-final :
      (calls : List Call) (s : State) (key : String) (h : Reservation)
      → hgetall s key ≡ some h
      → h.status ≢ reserved
      → hgetall (run r calls s) key ≡ some h
  unfolding run
  run-final [] s key h e done = e
  run-final (c ∷ calls) s key h e done =
      run-final calls (evaluate r c s).1 key h (Advances-final h e done (evaluate-Advances c s key))
        done
