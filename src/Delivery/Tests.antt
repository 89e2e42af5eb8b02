-- ===== src/Delivery/Tests.antt =====
-- Runs and instances of the theorems on the delivery of messages.
use relayit.Prelude.{◌+◌, ◌≡◌, refl, none, true, false, ◌||◌, List, [], ◌∷◌, arith, ltb, leb}
use relayit.Redis.Expiring.{store}
use relayit.Delivery.Circuit.{
  Breaker, breaker_key, record_failure, record_success, circuit_allow, Event, failure, success,
  record_event, after, consecutive, last_failure,
}
use relayit.Delivery.Circuit.History.{circuit_allow-after}

abbrev five_failures : List Event
five_failures = failure 500 ∷ failure 400 ∷ failure 300 ∷ failure 200 ∷ failure 100 ∷ success ∷ []

circuit_allow-after_example :
    circuit_allow
      (store Breaker)
      "prov_1"
      600
      (after (store Breaker) "prov_1" five_failures (λ j. none))
    ≡ (ltb (consecutive five_failures) 5 || leb (last_failure five_failures + 60_000) 600)
circuit_allow-after_example =
    circuit_allow-after (store Breaker) "prov_1" five_failures 600 (λ j. none) (λ n. refl)
      (omega arith) (omega arith)

-- The program's own test: open after five failures, closed again after a success.
opens_after_five :
    circuit_allow (store Breaker) "p" 600 (after (store Breaker) "p" five_failures (λ j. none))
    ≡ false
unfolding circuit_allow after record_event record_failure record_success breaker_key
opens_after_five = refl

-- The hash expires: five failures a minute apart never open the breaker.
abbrev slow_failures : List Event
slow_failures =
    failure 300_000 ∷ failure 240_000 ∷ failure 180_000 ∷ failure 120_000 ∷ failure 60_000 ∷ []

stays_closed :
    circuit_allow (store Breaker) "p" 300_001 (after (store Breaker) "p" slow_failures (λ j. none))
    ≡ true
unfolding circuit_allow after record_event record_failure record_success breaker_key
stays_closed = refl
