-- ===== src/Usage/Tests.antt =====
-- Runs and instances of the theorems on packages/channels/src/usage.ts and usage-ledger.ts.
use relayit.Prelude.{
  String, ◌≡◌, refl, none, some, List, [], ◌∷◌, arith, ok, err, if◌then◌else◌, str_eq, eq_iff,
}
use relayit.Redis.{Redis}
use relayit.Redis.Model.{Memory, model, empty}
use relayit.Usage.{same_kind, managed, byo, confirmed, Limit, at_most, unlimited, Reservation}
use relayit.Usage.Ledger.{
  Keys, Limits, Details, reservation_of, with_status, count, Call, reserve, remeter, confirm,
  release, evaluate, run, reserve_script, remeter_script, confirm_script, release_script,
  take_slots, take_slot, count_up, return_slot, move_slots,
}
use relayit.Usage.Ledger.Accounts.Caps.{Allows, IsWithin, run-IsWithin}
use relayit.Usage.Ledger.Accounts.Held.{IsBalanced, holds}
use relayit.Usage.Ledger.Accounts.Balance.{run-IsBalanced}
use relayit.Usage.Ledger.Lifecycle.{run-final}
use relayit.Usage.Ledger.Replay.{
  Reads, evaluate_refused, reserve_again, release-reserve, release-reserve_unlimited,
}
use relayit.Usage.Service.{
  UsagePolicyResult, Dimensions, limit_exceeded, Surroundings, answered, reserve_usage,
  confirm_usage, release_usage, reservation_key, counter_keys, details_of, send, reserve_call,
  limits_of, reservation_result, finalize_result, next_midnight, daily,
}
use relayit.Usage.Service.{remeter_usage, load, parse_snapshot, decode_snapshot, seconds_until}
use relayit.Usage.Service.Metering.{IsMetered, remeter_usage-ok}
use relayit.Usage.Service.Outcomes.{reserve_usage-ok}

abbrev redis : Redis Reservation
redis = model Reservation

abbrev keys_a : Keys
keys_a = record { reservation = "r:a"; daily = "d"; monthly = "m" }

abbrev keys_b : Keys
keys_b = record { reservation = "r:b"; daily = "d"; monthly = "m" }

abbrev byo_keys : Keys
byo_keys = record { reservation = "r:a"; daily = "d:byo"; monthly = "m:byo" }

abbrev limits : Limits
limits = record {
  daily_limit = at_most 2;
  monthly_limit = at_most 9;
  daily_ttl = 60;
  monthly_ttl = 600;
}

abbrev no_daily : Limits
no_daily = record limits { daily_limit = unlimited }

abbrev details : Details
details = record {
  fingerprint = "f";
  organization_id = "org";
  billing_user_id = "user";
  channel = "email";
  purpose = "marketing";
  provider_kind = managed;
  reserved_at = "2026-01-01T00:00:00.000Z";
  period_start = "2026-01-01T00:00:00.000Z";
  period_end = "2026-02-01T00:00:00.000Z";
}

abbrev calls : List Call
calls =
    reserve keys_a limits details
    ∷ reserve keys_b limits details
    ∷ remeter byo_keys limits byo "f"
    ∷ confirm "r:a"
    ∷ release "r:b"
    ∷ []

-- Two reservations, one moved and confirmed, the other released: its slots are free again.
calls_counts :
    (count redis (run redis calls empty) "d" ≡ 0)
    × (count redis (run redis calls empty) "d:byo" ≡ 1)
unfolding run evaluate reserve_script remeter_script confirm_script release_script take_slots
    take_slot count_up return_slot move_slots same_kind
calls_counts = (refl, refl)

run-IsBalanced_example : IsBalanced redis ("r:a" ∷ "r:b" ∷ []) (run redis calls empty)
unfolding holds
run-IsBalanced_example =
    run-IsBalanced redis ("r:a" ∷ "r:b" ∷ []) calls empty ((refl, tt), (tt, tt))
      ((refl, refl, refl), ((refl, refl, refl), ((refl, refl, refl), (refl, (refl, tt)))))
      (λ k. refl)

-- Four daily slots, two of them used by `calls`.
abbrev table : String → Limit
table k = if str_eq k "d" then at_most 2 else if str_eq k "d:byo" then at_most 2 else at_most 9

Allows-zero : (l : Limit) → Allows l 0
Allows-zero (at_most n) = omega arith
Allows-zero unlimited = tt

run-IsWithin_example : IsWithin redis table (run redis calls empty)
run-IsWithin_example =
    run-IsWithin redis table calls empty
      ((refl, refl), ((refl, refl), ((refl, refl), (tt, (tt, tt))))) (λ k. Allows-zero (table k))

abbrev after_confirm : Memory Reservation
after_confirm = record empty {
  hashes = λ j.
      if str_eq "r:a" j then some (with_status confirmed (reservation_of keys_a details)) else none;
}

run-final_example :
    (run redis (release "r:a" ∷ []) after_confirm).hashes "r:a"
    ≡ some (with_status confirmed (reservation_of keys_a details))
run-final_example =
    run-final redis (release "r:a" ∷ []) after_confirm "r:a"
      (with_status confirmed (reservation_of keys_a details)) refl (λ e. cc)

-- Both daily slots are taken.
abbrev full : Memory Reservation
full = record empty { counters = λ j. if str_eq "d" j then some 2 else none }

refuses_full : (evaluate redis (reserve keys_a limits details) full).0 ≡ 1
unfolding evaluate reserve_script take_slots take_slot count_up
refuses_full = refl

evaluate_refused_example : Reads redis full (evaluate redis (reserve keys_a limits details) full).1
evaluate_refused_example =
    evaluate_refused redis (reserve keys_a limits details) full
      (λ e. ground (arith, refuses_full, e))

reserves_first : (evaluate redis (reserve keys_a limits details) empty).0 ≡ 0
unfolding evaluate reserve_script take_slots take_slot count_up
reserves_first = refl

reserve_again_example :
    evaluate redis
      (reserve keys_a no_daily (record details { fingerprint = "g" }))
      (evaluate redis (reserve keys_a limits details) empty).1
    ≡ (3, (evaluate redis (reserve keys_a limits details) empty).1)
reserve_again_example =
    reserve_again redis keys_a keys_a limits no_daily details (record details { fingerprint = "g" })
      empty refl reserves_first refl

release-reserve_example :
    count redis (run redis (reserve keys_a limits details ∷ release "r:a" ∷ []) empty) "d" ≡ 0
release-reserve_example =
    release-reserve redis keys_a limits details empty "d" refl refl refl reserves_first

reserves_unlimited : (evaluate redis (reserve keys_a no_daily details) full).0 ≡ 0
unfolding evaluate reserve_script take_slots take_slot count_up
reserves_unlimited = refl

release-reserve_unlimited_example :
    count redis (run redis (reserve keys_a no_daily details ∷ release "r:a" ∷ []) full) "d" ≡ 1
release-reserve_unlimited_example =
    release-reserve_unlimited redis keys_a no_daily details full 1 refl refl
      (λ e. ground (arith, eq_iff "m" "d", e)) refl reserves_unlimited

abbrev january : UsagePolicyResult
january = record {
  billing_user_id = "user";
  daily_limit = some 1;
  monthly_limit = none;
  period_end = record { millis = 2_678_400_000; iso = "1970-02-01T00:00:00.000Z" };
  period_start = record { millis = 0; iso = "1970-01-01T00:00:00.000Z" };
}

abbrev surroundings : Surroundings redis
surroundings = record {
  fate = λ operation s. answered;
  parse_date = λ text. 3_600_000;
  stringify = λ input user. user;
  resolve = λ input user. ok january;
}

abbrev input : Dimensions
input = record {
  channel = "email";
  organization_id = "org";
  provider_kind = managed;
  purpose = "marketing";
  reserved_at = "1970-01-01T01:00:00.000Z";
}

reserve_usage_first : (reserve_usage redis surroundings "del_1" input empty).0 ≡ ok january
unfolding reserve_usage reserve_call send evaluate reserve_script take_slots take_slot count_up
    counter_keys reservation_key limits_of details_of reservation_result
reserve_usage_first = refl

reserve_usage-ok_example :
    (h : Reservation) × ((reserve_usage redis surroundings "del_1" input empty).1.hashes
        (reservation_key "del_1")
      ≡ some h)
    × (h.fingerprint ≡ "user")
reserve_usage-ok_example =
    reserve_usage-ok redis surroundings "del_1" input empty january reserve_usage_first

-- The one daily slot of the policy is taken.
abbrev spent : Memory Reservation
spent = record empty { counters = λ j. some 1 }

refuses_spent :
    (reserve_usage redis surroundings "del_1" input spent).0
    ≡ err (limit_exceeded "del_1" managed 86_400_000 daily)
unfolding reserve_usage reserve_call send evaluate reserve_script take_slots take_slot count_up
    counter_keys reservation_key limits_of details_of reservation_result next_midnight
refuses_spent = refl

abbrev open_hash : Memory Reservation
open_hash = record empty { hashes = λ j. some (reservation_of keys_a details) }

confirms_open : (confirm_usage redis surroundings "del_1" open_hash).0 ≡ ok tt
unfolding confirm_usage send evaluate confirm_script finalize_result
confirms_open = refl

releases_open : (release_usage redis surroundings "del_1" open_hash).0 ≡ ok tt
unfolding release_usage send evaluate release_script return_slot finalize_result
releases_open = refl

remeters_open : (remeter_usage redis surroundings "del_1" byo open_hash).0 ≡ ok tt
unfolding remeter_usage load parse_snapshot decode_snapshot send evaluate remeter_script same_kind
    move_slots take_slots take_slot count_up return_slot counter_keys reservation_key limits_of
    seconds_until next_midnight reservation_result
remeters_open = refl

remeter_usage-ok_example :
    IsMetered redis
      (reservation_key "del_1")
      byo
      open_hash
      (remeter_usage redis surroundings "del_1" byo open_hash).1
remeter_usage-ok_example = remeter_usage-ok redis surroundings "del_1" byo open_hash remeters_open
