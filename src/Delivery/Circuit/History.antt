-- ===== src/Delivery/Circuit/History.antt =====
-- What the breaker of circuit.ts answers after a history of failures and successes.
use relayit.Prelude.{
  ℕ, ◌+◌, String, ◌≡◌, ◌≢◌, refl, true, ◌||◌, Option, Bool, suc, false, ◌≤◌, ◌==◌, none, some, List,
  [], ◌∷◌, arith, ltb, leb, if◌then◌else◌, str_eq, eq_iff, eq_refl, All, ◌∙◌,
}
use text.Mathlib.TextLemmas.{append_cancel_left}
use relayit.Redis.Expiring.{Expiring}
use relayit.Delivery.Circuit.{
  Breaker, failure_threshold, cooldown_ms, breaker_key, fields, failed, circuit_allow,
  record_failure, record_success, Event, failure, success, record_event, after, consecutive,
  last_failure, HasTime, InOrder,
}

-- The hash of a provider at a time after a history that began with no hash.
abbrev told : List Event → ℕ → Option Breaker
told [] m = none
told (failure now ∷ es) m =
    if ltb m (now + cooldown_ms)
    then some record {
      failures = consecutive (failure now ∷ es);
      opened_at = if leb failure_threshold (consecutive (failure now ∷ es)) then now else 0;
    }
    else none
told (success ∷ es) m = none

failed_again :
    (count at now : ℕ) (near : Bool)
    → failed now (
        fields (
          if near
          then some
              record { failures = count; opened_at = if leb failure_threshold count then at else 0 }
          else none))
      ≡ record {
        failures = if near then suc count else 1;
        opened_at = if leb failure_threshold (if near then suc count else 1) then now else 0;
      }
failed_again count at now true = ground arith
failed_again count at now false = refl

failed-told :
    (es : List Event) (now : ℕ)
    → failed now (fields (told es now)) ≡ record {
      failures = consecutive (failure now ∷ es);
      opened_at = if leb failure_threshold (consecutive (failure now ∷ es)) then now else 0;
    }
failed-told [] now = ground arith
failed-told (failure at ∷ es) now =
    failed_again (consecutive (failure at ∷ es)) at now (ltb now (at + cooldown_ms))
failed-told (success ∷ es) now = ground arith

opened-told :
    (es : List Event) (now : ℕ)
    → All HasTime es
    → (if (fields (told es now)).opened_at == 0
        then true
        else leb ((fields (told es now)).opened_at + cooldown_ms) now)
      ≡ (ltb (consecutive es) failure_threshold || leb (last_failure es + cooldown_ms) now)
opened-told [] now t = refl
opened-told (failure at ∷ es) now (t, _) = ground arith
opened-told (success ∷ es) now t = refl

module _ (r : Expiring Breaker) where
  open r use {
    State, hgetall, hset, del, pexpire, hgetall-hset, hgetall-hset_other, hgetall-del,
    hgetall-pexpire, hgetall-pexpire_other,
  }

  hgetall-record_failure :
      (provider_id : String) (now m : ℕ) (s : State)
      → now ≤ m
      → hgetall (record_failure r provider_id now s) m (breaker_key provider_id) ≡ (
          if ltb m (now + cooldown_ms)
          then some (failed now (fields (hgetall s now (breaker_key provider_id))))
          else none)
  unfolding record_failure
  hgetall-record_failure provider_id now m s later =
      hgetall-pexpire _ (breaker_key provider_id) cooldown_ms now m later
      ∙ rw (hgetall-hset s (breaker_key provider_id) _ now) refl

  after-told :
      (provider_id : String) (es : List Event) (m : ℕ) (s : State)
      → ((n : ℕ) → hgetall s n (breaker_key provider_id) ≡ none)
      → InOrder es m
      → hgetall (after r provider_id es s) m (breaker_key provider_id) ≡ told es m
  unfolding after record_event record_success
  after-told provider_id [] m s e o = e m
  after-told provider_id (failure now ∷ es) m s e (later, o) =
      hgetall-record_failure provider_id now m (after r provider_id es s) later
      ∙ rw (after-told provider_id es now s e o, failed-told es now) refl
  after-told provider_id (success ∷ es) m s e o =
      hgetall-del (after r provider_id es s) (breaker_key provider_id) (breaker_key provider_id) m
      ∙ rw (eq_refl (breaker_key provider_id)) refl

  -- After any history of one provider that began with no hash, a call is refused exactly while
  -- there have been at least 5 failures since the last success, each less than the cooldown after
  -- the one before it, and the last failure is less than the cooldown ago, provided that the times
  -- are in order and positive. The hash expires with the cooldown, so that a failure which does
  -- not come within it counts as the first.
  pub circuit_allow-after :
      (provider_id : String) (es : List Event) (now : ℕ) (s : State)
      → ((n : ℕ) → hgetall s n (breaker_key provider_id) ≡ none)
      → All HasTime es
      → InOrder es now
      → circuit_allow r provider_id now (after r provider_id es s)
        ≡ (ltb (consecutive es) failure_threshold || leb (last_failure es + cooldown_ms) now)
  unfolding circuit_allow
  circuit_allow-after provider_id es now s e t o =
      rw (after-told provider_id es now s e o) (opened-told es now t)

  breaker_key-injective : (p q : String) → breaker_key p ≡ breaker_key q → p ≡ q
  unfolding breaker_key
  breaker_key-injective p q e = append_cancel_left _ p q e

  other_key : (p q : String) → p ≢ q → str_eq (breaker_key p) (breaker_key q) ≡ false
  other_key p q ne = ground (
    arith,
    eq_iff (breaker_key p) (breaker_key q),
    λ (x : breaker_key p ≡ breaker_key q). ne (breaker_key-injective p q x),
  )

  -- What happens to one provider changes the answer for no other.
  pub circuit_allow-record_event_ne :
      (p q : String) (e : Event) (now : ℕ) (s : State)
      → p ≢ q
      → circuit_allow r q now (record_event r p e s) ≡ circuit_allow r q now s
  unfolding circuit_allow record_event record_failure record_success
  circuit_allow-record_event_ne p q (failure at) now s ne =
      let other = other_key p q ne in
      rw
        (
          hgetall-pexpire_other _ (breaker_key p) (breaker_key q) cooldown_ms at now other,
          hgetall-hset_other s (breaker_key p) (breaker_key q) _ at now other,
        )
        refl
  circuit_allow-record_event_ne p q success now s ne =
      rw (hgetall-del s (breaker_key p) (breaker_key q) now, other_key p q ne) refl
