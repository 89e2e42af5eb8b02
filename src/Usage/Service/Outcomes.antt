-- ===== src/Usage/Service/Outcomes.antt =====
-- What each answer of the usage service says about the ledger (usage.ts).
use relayit.Prelude.{
  ℕ, String, ◌≡◌, ◌≢◌, inl, inr, refl, none, some, arith, ok, err, Result-cases, eq_iff, eq_refl,
  Option-cases, ◌∙◌,
}
use relayit.Redis.{Redis}
use relayit.Usage.{ProviderKind, Reservation, reserved, confirmed, released}
use relayit.Usage.Ledger.{
  Keys, Limits, Details, reservation_of, with_status, reserve_script, confirm_script,
  release_script, Call, evaluate,
}
use relayit.Usage.Ledger.Effects.{reserve_fresh, reserve_present, reserved-cases}
use relayit.Usage.Ledger.Settlement.{
  hgetall-confirm_reserved, hgetall-confirm_other, hgetall-release_reserved, release_other,
}
use relayit.Usage.Ledger.Replay.{Reads, evaluate_refused}
use relayit.Usage.Service.{
  UsagePolicyResult, Dimensions, Window, limit_exceeded, Surroundings, reservation_key,
  counter_keys, Operation, limits_of, details_of, reservation_result, finalize_result, send,
  reserve_call, reserve_usage, confirm_usage, release_usage,
}

-- RESERVE on code 0 leaves a hash with the fingerprint that it was given.
module _ (r : Redis Reservation) where
  open r use {State, hgetall}

  reserve_script_passed :
      (keys : Keys) (l : Limits) (d : Details) (s : State)
      → (reserve_script r keys l d s).0 ≡ 0
      → (h : Reservation) × (hgetall (reserve_script r keys l d s).1 keys.reservation ≡ some h)
        × (h.fingerprint ≡ d.fingerprint)
  unfolding reserve_script
  reserve_script_passed keys l d s passed = elim (Option-cases (hgetall s keys.reservation)) [
    | inl e ↦ (
      reservation_of keys d,
      ground (arith, reserve_fresh r keys l d s keys.reservation e, eq_refl keys.reservation),
      refl,
    )
    | inr (h, e) ↦
        let again = rw (e, reserve_script) at passed in
        (
          h,
          rw (reserve_present r keys l d h s e) e,
          ground (arith, again, eq_iff h.fingerprint d.fingerprint),
        )
  ]

  confirm_script_passed :
      (key : String) (s : State)
      → (confirm_script r key s).0 ≡ 0
      → (h : Reservation) × (hgetall (confirm_script r key s).1 key ≡ some h)
        × (h.status ≡ confirmed)
  unfolding confirm_script
  confirm_script_passed key s passed = elim (reserved-cases r key s) [
    | inl (h, e, open_h) ↦ (
      with_status confirmed h,
      ground (arith, hgetall-confirm_reserved r key h s key e open_h, eq_refl key),
      refl,
    )
    | inr other ↦ elim (Option-cases (hgetall s key)) [
      | inl e ↦ let again = rw (e, confirm_script) at passed in absurd (ground (arith, again))
      | inr (h, e) ↦
          let again = rw (e, confirm_script) at passed in
          (h, hgetall-confirm_other r key s key other ∙ e, ground (arith, again, other h e))
    ]
  ]

  release_script_passed :
      (key : String) (s : State)
      → (release_script r key s).0 ≡ 0
      → (h : Reservation) × (hgetall (release_script r key s).1 key ≡ some h)
        × (h.status ≢ reserved)
  unfolding release_script
  release_script_passed key s passed = elim (reserved-cases r key s) [
    | inl (h, e, open_h) ↦ (
      with_status released h,
      ground (arith, hgetall-release_reserved r key h s key e open_h, eq_refl key),
      λ z. cc,
    )
    | inr other ↦ elim (Option-cases (hgetall s key)) [
      | inl e ↦ let again = rw (e, release_script) at passed in absurd (ground (arith, again))
      | inr (h, e) ↦ (h, (release_other r key s key other).1 ∙ e, other h e)
    ]
  ]

  module _ (w : Surroundings r) where
    open w use {resolve, stringify, parse_date}

    answered_zero :
        (operation : Operation) (c : Call) (s : State) (n : ℕ)
        → (send r w operation c s).0 ≡ some n
        → ((evaluate r c s).0 ≡ n) × ((send r w operation c s).1 ≡ (evaluate r c s).1)
    unfolding send
    answered_zero operation c s n e = ground arith

    reserve_usage-ok_parts :
        (delivery_id : String) (input : Dimensions) (s : State) (policy : UsagePolicyResult)
        → (reserve_usage r w delivery_id input s).0 ≡ ok policy
        → let c = reserve_call r w delivery_id input policy in
          ((evaluate r c s).0 ≡ 0)
          × ((reserve_usage r w delivery_id input s).1 ≡ (evaluate r c s).1)
    unfolding reserve_usage send reservation_result
    reserve_usage-ok_parts delivery_id input s policy e = elim (Result-cases (resolve input none)) [
      | inr (x, p) ↦ let again = rw (p, reserve_usage) at e in cc
      | inl (x, p) ↦
          let again = rw (p, reserve_usage) at e in rw (p, reserve_usage) (ground (arith, again))
    ]

    -- When `reserve` succeeds, the delivery has a reservation whose fingerprint is that of the
    -- input under the billing user of the policy that is returned.
    pub reserve_usage-ok :
        (delivery_id : String) (input : Dimensions) (s : State) (policy : UsagePolicyResult)
        → (reserve_usage r w delivery_id input s).0 ≡ ok policy
        → (h : Reservation) × (hgetall
              (reserve_usage r w delivery_id input s).1
              (reservation_key delivery_id)
            ≡ some h)
          × (h.fingerprint ≡ stringify input policy.billing_user_id)
    unfolding reserve_call evaluate details_of counter_keys
    reserve_usage-ok delivery_id input s policy e =
        let (code, state) = reserve_usage-ok_parts delivery_id input s policy e in
        rw state (
          reserve_script_passed (counter_keys delivery_id policy input) (limits_of r w policy input)
            (details_of r w policy input) s code)

    -- When `reserve` fails with UsageLimitExceeded, no counter and no hash has changed.
    pub reserve_usage-limit_exceeded :
        (delivery_id id : String) (input : Dimensions) (s : State) (kind : ProviderKind) (at : ℕ)
        (window : Window)
        → (reserve_usage r w delivery_id input s).0 ≡ err (limit_exceeded id kind at window)
        → Reads r s (reserve_usage r w delivery_id input s).1
    unfolding reserve_usage send reservation_result
    reserve_usage-limit_exceeded delivery_id id input s kind at window e =
        elim (Result-cases (resolve input none)) [
          | inr (x, p) ↦ rw (p, reserve_usage) (λ j. (refl, refl))
          | inl (policy, p) ↦
              let again = rw (p, reserve_usage) at e in
              let c = reserve_call r w delivery_id input policy in
              let refused : (evaluate r c s).0 ≢ 0 = λ z. ground (arith, again, z) in
              rw (p, reserve_usage) (λ j. ground (arith, again, evaluate_refused r c s refused j))
        ]

    -- When `confirm` succeeds, the delivery has a reservation and it is confirmed.
    pub confirm_usage-ok :
        (delivery_id : String) (s : State)
        → (confirm_usage r w delivery_id s).0 ≡ ok tt
        → (h : Reservation) × (hgetall
              (confirm_usage r w delivery_id s).1
              (reservation_key delivery_id)
            ≡ some h)
          × (h.status ≡ confirmed)
    unfolding confirm_usage send finalize_result evaluate
    confirm_usage-ok delivery_id s e =
        let key = reservation_key delivery_id in
        let parts : ((confirm_script r key s).0 ≡ 0)
            × ((confirm_usage r w delivery_id s).1 ≡ (confirm_script r key s).1) =
          ground (arith, e) in
        rw parts.1 (confirm_script_passed key s parts.0)

    -- When `release` succeeds, the delivery has a reservation and it is released or confirmed.
    pub release_usage-ok :
        (delivery_id : String) (s : State)
        → (release_usage r w delivery_id s).0 ≡ ok tt
        → (h : Reservation) × (hgetall
              (release_usage r w delivery_id s).1
              (reservation_key delivery_id)
            ≡ some h)
          × (h.status ≢ reserved)
    unfolding release_usage send finalize_result evaluate
    release_usage-ok delivery_id s e =
        let key = reservation_key delivery_id in
        let parts : ((release_script r key s).0 ≡ 0)
            × ((release_usage r w delivery_id s).1 ≡ (release_script r key s).1) =
          ground (arith, e) in
        rw parts.1 (release_script_passed key s parts.0)
