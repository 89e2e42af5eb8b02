-- ===== src/Usage/Ledger/Accounts/Balance.antt =====
-- The counters of usage-ledger.ts agree with the reservations, where every limit is a number.
use relayit.Prelude.{String, inl, inr, List, [], ◌∷◌, arith, All, Bool-cases, Option-cases, ◌==◌}
use relayit.Redis.{Redis}
use relayit.Usage.{Reservation, ProviderKind, confirmed, released}
use relayit.Usage.Ledger.{
  Keys, Limits, Details, reservation_of, moved_to, with_status, take_slots, Call, reserve, remeter,
  confirm, release, evaluate, run,
}
use relayit.Usage.Ledger.Effects.{
  count-returned, reserve_present, reserve_fresh, move_slots_lem, remeter_cases, reserved-cases,
}
use relayit.Usage.Ledger.Settlement.{
  count-confirm_script, hgetall-confirm_other, hgetall-confirm_reserved, release_other,
  hgetall-release_reserved, count-release_reserved,
}
use relayit.Usage.Ledger.Accounts.{count-take_slots}
use relayit.Usage.Ledger.Accounts.Held.{
  holds, HasNoRepeat, IsMetered, IsBalanced, same-IsBalanced, write-IsBalanced,
}

module _ (r : Redis Reservation) where
  open r use {State, get, hgetall}

  reserve-IsBalanced :
      (ids : List String) (keys : Keys) (l : Limits) (d : Details) (s : State)
      → HasNoRepeat ids
      → IsMetered ids (reserve keys l d)
      → IsBalanced r ids s
      → IsBalanced r ids (evaluate r (reserve keys l d) s).1
  unfolding evaluate holds
  reserve-IsBalanced ids keys l d s nr (c, day, month) b =
      elim (Option-cases (hgetall s keys.reservation)) [
        | inr (h, e) ↦ rw (reserve_present r keys l d h s e) b
        | inl e ↦ elim (Bool-cases ((take_slots r l keys.daily keys.monthly s).0 == 0)) [
          | inr refused ↦
              same-IsBalanced r ids s _
                (λ j. ground (
                  arith,
                  reserve_fresh r keys l d s j e,
                  count-take_slots r l keys.daily keys.monthly s j,
                ))
                (λ j. ground (arith, reserve_fresh r keys l d s j e)) b
          | inl passed ↦
              write-IsBalanced r ids keys.reservation (reservation_of keys d) s _ nr c
                (λ j. ground (arith, reserve_fresh r keys l d s j e))
                (λ k h. ground (
                  arith,
                  reserve_fresh r keys l d s k e,
                  count-take_slots r l keys.daily keys.monthly s k,
                ))
                b
        ]
      ]

  remeter-IsBalanced :
      (ids : List String) (keys : Keys) (l : Limits) (target : ProviderKind) (fingerprint : String)
      (s : State)
      → HasNoRepeat ids
      → IsMetered ids (remeter keys l target fingerprint)
      → IsBalanced r ids s
      → IsBalanced r ids (evaluate r (remeter keys l target fingerprint) s).1
  unfolding evaluate holds
  remeter-IsBalanced ids keys l target fingerprint s nr (c, day, month) b =
      elim (remeter_cases r keys l target fingerprint s) [
        | inl same ↦ rw same b
        | inr (h, e, open_h, moved) ↦
            elim (Bool-cases ((take_slots r l keys.daily keys.monthly s).0 == 0)) [
              | inr refused ↦ rw moved (
                  same-IsBalanced r ids s _
                    (λ j. ground (
                      arith,
                      move_slots_lem r keys l target h s j,
                      count-take_slots r l keys.daily keys.monthly s j,
                    ))
                    (λ j. ground (arith, move_slots_lem r keys l target h s j)) b)
              | inl passed ↦ rw moved (
                  write-IsBalanced r ids keys.reservation (moved_to keys target h) s _ nr c
                    (λ j. ground (arith, move_slots_lem r keys l target h s j))
                    (λ k enough. rw e (
                      ground (
                        arith,
                        rw e at enough,
                        move_slots_lem r keys l target h s k,
                        count-returned r h (take_slots r l keys.daily keys.monthly s).1 k,
                        count-take_slots r l keys.daily keys.monthly s k,
                      )))
                    b)
            ]
      ]

  confirm-IsBalanced :
      (ids : List String) (key : String) (s : State)
      → HasNoRepeat ids
      → IsMetered ids (confirm key)
      → IsBalanced r ids s
      → IsBalanced r ids (evaluate r (confirm key) s).1
  unfolding evaluate holds
  confirm-IsBalanced ids key s nr c b = elim (reserved-cases r key s) [
    | inr other ↦
        same-IsBalanced r ids s _ (count-confirm_script r key s)
          (λ j. hgetall-confirm_other r key s j other) b
    | inl (h, e, open_h) ↦
        write-IsBalanced r ids key (with_status confirmed h) s _ nr c
          (λ j. hgetall-confirm_reserved r key h s j e open_h)
          (λ k enough. rw e (ground (arith, count-confirm_script r key s k))) b
  ]

  release-IsBalanced :
      (ids : List String) (key : String) (s : State)
      → HasNoRepeat ids
      → IsMetered ids (release key)
      → IsBalanced r ids s
      → IsBalanced r ids (evaluate r (release key) s).1
  unfolding evaluate holds
  release-IsBalanced ids key s nr c b = elim (reserved-cases r key s) [
    | inr other ↦
        same-IsBalanced r ids s _ (λ j. (release_other r key s j other).0)
          (λ j. (release_other r key s j other).1) b
    | inl (h, e, open_h) ↦
        write-IsBalanced r ids key (with_status released h) s _ nr c
          (λ j. hgetall-release_reserved r key h s j e open_h)
          (λ k enough. rw e (
            ground (
              arith,
              rw e at enough,
              count-release_reserved r key h s k e open_h,
              count-returned r h s k,
            )))
          b
  ]

  pub evaluate-IsBalanced :
      (ids : List String) (c : Call) (s : State)
      → HasNoRepeat ids
      → IsMetered ids c
      → IsBalanced r ids s
      → IsBalanced r ids (evaluate r c s).1
  evaluate-IsBalanced ids (reserve keys l d) s nr m b = reserve-IsBalanced ids keys l d s nr m b
  evaluate-IsBalanced ids (remeter keys l target fingerprint) s nr m b =
      remeter-IsBalanced ids keys l target fingerprint s nr m b
  evaluate-IsBalanced ids (confirm key) s nr m b = confirm-IsBalanced ids key s nr m b
  evaluate-IsBalanced ids (release key) s nr m b = release-IsBalanced ids key s nr m b

  -- In whatever order the scripts run, each counter equals the number of slots that the
  -- reservations `ids` hold and have not released, provided that held at the start, that `ids` are
  -- distinct and are the only reservations called for, and that every call's limits are numbers.
  pub run-IsBalanced :
      (ids : List String) (calls : List Call) (s : State)
      → HasNoRepeat ids
      → All (IsMetered ids) calls
      → IsBalanced r ids s
      → IsBalanced r ids (run r calls s)
  unfolding run
  run-IsBalanced ids [] s nr m b = b
  run-IsBalanced ids (c ∷ calls) s nr (m, ms) b =
      run-IsBalanced ids calls (evaluate r c s).1 nr ms (evaluate-IsBalanced ids c s nr m b)
