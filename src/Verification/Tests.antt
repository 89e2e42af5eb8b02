-- ===== src/Verification/Tests.antt =====
-- Runs and instances of the theorems on packages/channels/src/email/verification.
use relayit.Prelude.{◌+◌, ◌*◌, ◌^◌, min, ◌≡◌, refl, true, false, some}
use relayit.Verification.Cadence.{
  verified, not_verified, default_verify_cadence_config, compute_next_check_at,
  merge_verification_status, next_domain_verify_at, level_after,
}
use relayit.Verification.Cadence.Schedule.{backoff_doubles, merge_verification_status-eq}

-- The program's own tests of computeNextCheckAt, mergeVerificationStatus and nextDomainVerifyAt.
not_verified_doubles :
    compute_next_check_at not_verified 0 default_verify_cadence_config 1000
    ≡ record { backoff_level = 1; next_check_at = 121_000 }
unfolding compute_next_check_at
not_verified_doubles = refl

requires_live_dns :
    (merge_verification_status true true 0 0 ≡ not_verified)
    × (merge_verification_status true true 2 0 ≡ verified)
unfolding merge_verification_status
requires_live_dns = (refl, refl)

sooner_wins : next_domain_verify_at 43_200_000 (some 120_000) ≡ 120_000
unfolding next_domain_verify_at
sooner_wins = refl

backoff_doubles_example :
    (compute_next_check_at not_verified
      (level_after default_verify_cadence_config 2)
      default_verify_cadence_config
      7).next_check_at
    ≡ 7 + min (120_000 * 2 ^ min 2 5) 900_000
backoff_doubles_example = backoff_doubles default_verify_cadence_config 2 7

-- Live DNS records make a domain verified that the provider has not verified.
merge_verification_status-eq_example : merge_verification_status false false 1 0 ≡ verified
merge_verification_status-eq_example = merge_verification_status-eq false false 1 0
