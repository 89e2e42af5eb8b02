-- ===== src/Delivery/Circuit.antt =====
-- The circuit breaker of packages/channels/src/messages/delivery/circuit.ts.
pub mod History
use Prim.Native.String.{◌++◌}
use relayit.Prelude.{
  ℕ, suc, ◌+◌, ◌≤◌, ◌<◌, String, ◌≡◌, refl, Bool, true, false, ◌||◌, Option, none, some, List, [],
  ◌∷◌, arith, ltb, leb, ◌==◌, if◌then◌else◌, str_eq, eq_iff, eq_refl, or_else, Option-cases,
  Bool-cases, inl, inr, ◌⊎◌,
}
use relayit.Redis.Expiring.{Expiring}

-- The hash of a provider; a missing field "openedAt" is 0, as in the script.
pub record Breaker : Type 0 where
  pub failures : ℕ
  pub opened_at : ℕ

abbrev pub failure_threshold : ℕ
failure_threshold = 5

abbrev pub cooldown_ms : ℕ
cooldown_ms = 60_000

abbrev pub ttl_ms : ℕ
ttl_ms = cooldown_ms

unfoldable pub breaker_key : String → String
breaker_key provider_id = "relayit:breaker:provider:" ++ provider_id

-- The fields that HGET finds, with "0" where there are none.
abbrev pub fields : Option Breaker → Breaker
fields found = or_else found (record { failures = 0; opened_at = 0 })

-- The hash after HINCRBY and, at the threshold, HSET.
abbrev pub failed : ℕ → Breaker → Breaker
failed now b =
    let n = suc b.failures in
    record { failures = n; opened_at = if leb failure_threshold n then now else b.opened_at }

-- What happens to the breaker of one provider: a failure at a time, or a success.
pub data Event : Type 0 where
  failure : ℕ → Event
  success : Event

-- One clock is read by the workers and by Redis: the time of a call is also that of its script.
module _ (r : Expiring Breaker) where
  open r use {State, hgetall, hset, del, pexpire}

  -- providerCircuitAllow with ALLOW_SCRIPT: `now - openedAt >= cooldown` on Lua's signed numbers.
  unfoldable pub circuit_allow : String → ℕ → State → Bool
  circuit_allow provider_id now s =
      let opened = (fields (hgetall s now (breaker_key provider_id))).opened_at in
      if opened == 0 then true else leb (opened + cooldown_ms) now

  -- providerCircuitRecordFailure with RECORD_FAILURE_SCRIPT.
  unfoldable pub record_failure : String → ℕ → State → State
  record_failure provider_id now s =
      let key = breaker_key provider_id in
      pexpire key ttl_ms now (hset key (failed now (fields (hgetall s now key))) now s)

  -- providerCircuitRecordSuccess with RECORD_SUCCESS_SCRIPT.
  unfoldable pub record_success : String → State → State
  record_success provider_id s = del (breaker_key provider_id) s

  unfoldable pub record_event : String → Event → State → State
  record_event provider_id (failure now) s = record_failure provider_id now s
  record_event provider_id success s = record_success provider_id s

  -- The oldest event is the last of the list.
  unfoldable pub after : String → List Event → State → State
  after provider_id [] s = s
  after provider_id (e ∷ es) s = record_event provider_id e (after provider_id es s)

-- The time of the newest failure, unless a success came after it.
abbrev pub last_failure : List Event → ℕ
last_failure [] = 0
last_failure (failure now ∷ es) = now
last_failure (success ∷ es) = 0

-- The failures since the last success of which each came within the cooldown of the one before.
abbrev pub consecutive : List Event → ℕ
consecutive [] = 0
consecutive (failure now ∷ es) =
    let before = consecutive es in if ltb now (last_failure es + cooldown_ms) then suc before else 1
consecutive (success ∷ es) = 0

-- The clock is after 1970.
abbrev pub HasTime : Event → Type 0
HasTime (failure now) = 0 < now
HasTime success = Unit {0}

-- No failure is later than a newer one, nor than a time.
abbrev pub InOrder : List Event → ℕ → Type 0
InOrder [] m = Unit {0}
InOrder (failure now ∷ es) m = (now ≤ m) × InOrder es now
InOrder (success ∷ es) m = InOrder es m
