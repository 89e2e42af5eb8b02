-- ===== src/Usage/Service/Metering.antt =====
-- What a successful `remeter` of usage.ts says about the ledger.
use relayit.Prelude.{
  String, ◌≡◌, ◌⊎◌, inl, inr, refl, true, some, arith, ok, Result-cases, eq_refl, Option-cases,
}
use relayit.Redis.{Redis}
use relayit.Usage.{ProviderKind, managed, byo, same_kind, Reservation, reserved}
use relayit.Usage.Ledger.{Keys, Limits, moved_to, remeter_script, move_slots, evaluate}
use relayit.Usage.Ledger.Effects.{move_slots_lem}
use relayit.Usage.Service.{
  Surroundings, reservation_key, counter_keys, limits_of, dimensions_of, load, remeter_call,
  remeter_usage, reservation_result, send,
}

same_kind-eq : (a b : ProviderKind) → same_kind a b ≡ true → a ≡ b
unfolding same_kind
same_kind-eq managed managed e = refl
same_kind-eq byo byo e = refl
same_kind-eq managed byo e = cc
same_kind-eq byo managed e = cc

module _ (r : Redis Reservation) where
  open r use {State, hgetall}

  -- The reservation was open, and it still is, under the target's kind.
  abbrev pub IsMetered : String → ProviderKind → State → State → Type 0
  IsMetered key target s s' =
      (h : Reservation) × (h' : Reservation) × (hgetall s key ≡ some h)
      × (h.status ≡ reserved)
      × (hgetall s' key ≡ some h')
      × (h'.status ≡ reserved)
      × (h'.provider_kind ≡ target)
      × (h'.fingerprint ≡ h.fingerprint)

  remeter_zero :
      (keys : Keys) (l : Limits) (target : ProviderKind) (fingerprint : String) (h : Reservation)
      (s : State)
      → hgetall s keys.reservation ≡ some h
      → (remeter_script r keys l target fingerprint s).0 ≡ 0
      → ((h.status ≡ reserved)
          × (same_kind h.provider_kind target ≡ true)
          × ((remeter_script r keys l target fingerprint s).1 ≡ s))
        ⊎ ((h.status ≡ reserved)
            × (remeter_script r keys l target fingerprint s ≡ move_slots r keys l target h s))
  unfolding remeter_script
  remeter_zero keys l target fingerprint h s e passed =
      let again = rw (e, remeter_script) at passed in rw (e, remeter_script) (ground (arith, again))

  remeter_script_passed :
      (keys : Keys) (l : Limits) (target : ProviderKind) (fingerprint : String) (s : State)
      → (remeter_script r keys l target fingerprint s).0 ≡ 0
      → IsMetered keys.reservation target s (remeter_script r keys l target fingerprint s).1
  unfolding remeter_script
  remeter_script_passed keys l target fingerprint s passed =
      elim (Option-cases (hgetall s keys.reservation)) [
        | inl e ↦ let again = rw (e, remeter_script) at passed in absurd (ground (arith, again))
        | inr (h, e) ↦ elim (remeter_zero keys l target fingerprint h s e passed) [
          | inl (open_h, same, unchanged) ↦ (
            h,
            h,
            e,
            open_h,
            rw unchanged e,
            open_h,
            same_kind-eq h.provider_kind target same,
            refl,
          )
          | inr (open_h, moved) ↦ (
            h,
            moved_to keys target h,
            e,
            open_h,
            ground (
              arith,
              moved,
              passed,
              move_slots_lem r keys l target h s keys.reservation,
              eq_refl keys.reservation,
            ),
            open_h,
            refl,
            refl,
          )
        ]
      ]

  module _ (w : Surroundings r) where
    open w use {resolve}

    -- When `remeter` succeeds, the delivery had a reservation that was neither confirmed nor
    -- released, and it has one now that is under the target's kind, with the same fingerprint. So a
    -- delivery whose reservation is confirmed cannot be metered again.
    pub remeter_usage-ok :
        (delivery_id : String) (kind : ProviderKind) (s : State)
        → (remeter_usage r w delivery_id kind s).0 ≡ ok tt
        → IsMetered (reservation_key delivery_id) kind s (remeter_usage r w delivery_id kind s).1
    unfolding remeter_usage send reservation_result evaluate remeter_call counter_keys
    remeter_usage-ok delivery_id kind s e = elim (Result-cases (load r w delivery_id s)) [
      | inr (x, p) ↦ let again = rw (p, remeter_usage) at e in absurd (ground (arith, again))
      | inl (h, p) ↦
          let input = dimensions_of r w h kind in
          elim (Result-cases (resolve input (some h.billing_user_id))) [
            | inr (x, q) ↦
                let again = rw (p, q, remeter_usage) at e in absurd (ground (arith, again))
            | inl (policy, q) ↦
                let again = rw (p, q, remeter_usage) at e in
                let keys = counter_keys delivery_id policy input in
                let script =
                  remeter_script r keys (limits_of r w policy input) kind h.fingerprint s in
                let parts : (script.0 ≡ 0) × ((remeter_usage r w delivery_id kind s).1 ≡ script.1) =
                  rw (p, q, remeter_usage) (ground (arith, again)) in
                rw parts.1 (
                  remeter_script_passed keys (limits_of r w policy input) kind h.fingerprint s
                    parts.0)
          ]
    ]
