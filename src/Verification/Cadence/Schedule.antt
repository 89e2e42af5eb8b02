-- ===== src/Verification/Cadence/Schedule.antt =====
-- The times and conclusions of cadence.ts.
use relayit.Prelude.Powers.{pow-pos, pow-le, scaled-le}
use relayit.Prelude.{
  ℕ, zero, suc, ◌+◌, ◌*◌, ◌^◌, ◌≤◌, min, ◌≡◌, ◌≢◌, refl, Bool, some, arith, ◌==◌, if◌then◌else◌,
}
use relayit.Verification.Cadence.{
  DomainVerificationStatus, verified, partially_verified, not_verified, VerifyCadenceConfig,
  default_verify_cadence_config, compute_next_check_at, merge_verification_status,
  next_domain_verify_at, level_after,
}

-- A domain that is not verified is checked again no sooner than the base interval (or the longest
-- one, if that is shorter) and no later than the longest one; its level stays within the maximum.
pub compute_next_check_at-bounds :
    (status : DomainVerificationStatus) (level : ℕ) (config : VerifyCadenceConfig) (from : ℕ)
    → status ≢ verified
    → let next = compute_next_check_at status level config from in
      (from + min config.pending_base_ms config.pending_max_ms ≤ next.next_check_at)
      × (next.next_check_at ≤ from + config.pending_max_ms)
      × (next.backoff_level ≤ config.max_backoff_level)
unfolding compute_next_check_at
compute_next_check_at-bounds verified level config from ne = absurd (ne refl)
compute_next_check_at-bounds partially_verified level config from ne =
    omega (
      arith,
      scaled-le config.pending_base_ms 1 (2 ^ min level config.max_backoff_level) (pow-pos _),
    )
compute_next_check_at-bounds not_verified level config from ne =
    omega (
      arith,
      scaled-le config.pending_base_ms 1 (2 ^ min level config.max_backoff_level) (pow-pos _),
    )

-- Of two domains with the same status that is not `verified`, the one with the higher level is
-- checked no sooner and keeps at least as high a level.
pub compute_next_check_at_mono :
    (status : DomainVerificationStatus) (level level' : ℕ) (config : VerifyCadenceConfig) (from : ℕ)
    → status ≢ verified
    → level ≤ level'
    → let next = compute_next_check_at status level config from in
      let next' = compute_next_check_at status level' config from in
      (next.next_check_at ≤ next'.next_check_at) × (next.backoff_level ≤ next'.backoff_level)
unfolding compute_next_check_at
compute_next_check_at_mono verified level level' config from ne h = absurd (ne refl)
compute_next_check_at_mono partially_verified level level' config from ne h = omega (
  arith,
  scaled-le config.pending_base_ms (2 ^ min level config.max_backoff_level)
      (2 ^ min level' config.max_backoff_level) (pow-le _ _ (omega arith)),
)
compute_next_check_at_mono not_verified level level' config from ne h = omega (
  arith,
  scaled-le config.pending_base_ms (2 ^ min level config.max_backoff_level)
      (2 ^ min level' config.max_backoff_level) (pow-le _ _ (omega arith)),
)

level_after-eq-min :
    (config : VerifyCadenceConfig) (n : ℕ) → level_after config n ≡ min n config.max_backoff_level
unfolding level_after compute_next_check_at
level_after-eq-min config zero = omega arith
level_after-eq-min config (suc n) = omega (arith, level_after-eq-min config n)

-- After `n` checks in a row that found the domain not verified, the next interval is the base
-- doubled once for each of them, at most `maxBackoffLevel` times, and capped by the longest one.
pub backoff_doubles :
    (config : VerifyCadenceConfig) (n from : ℕ)
    → (compute_next_check_at not_verified (level_after config n) config from).next_check_at
      ≡ from
        + min (config.pending_base_ms * 2 ^ min n config.max_backoff_level) config.pending_max_ms
unfolding compute_next_check_at
backoff_doubles config n from =
    let e : min (level_after config n) config.max_backoff_level ≡ min n config.max_backoff_level =
      omega (arith, level_after-eq-min config n) in
    rw e

-- The conclusion depends on the DNS records alone: whatever the provider's two flags are, a
-- domain with no active record is not verified, one with a missing record is partially verified,
-- and any other is verified.
pub merge_verification_status-eq :
    (provider_verified provider_dkim_verified : Bool) (active_records missing_records : ℕ)
    → merge_verification_status provider_verified provider_dkim_verified active_records
        missing_records
      ≡ (if active_records == 0
          then not_verified
          else if missing_records == 0
          then verified
          else partially_verified)
unfolding merge_verification_status
merge_verification_status-eq provider_verified provider_dkim_verified active_records
      missing_records =
    ground arith

verified_at :
    (level from : ℕ)
    → (compute_next_check_at verified level default_verify_cadence_config from).next_check_at
      ≡ from + 43_200_000
unfolding compute_next_check_at
verified_at level from = refl

-- A verified provider identity does not starve DNS records that are not all found: with the
-- default configuration the domain is checked again within 15 minutes.
pub next_domain_verify_at-pending :
    (status : DomainVerificationStatus) (level level' from : ℕ)
    → status ≢ verified
    → let provider = compute_next_check_at verified level default_verify_cadence_config from in
      let dns = compute_next_check_at status level' default_verify_cadence_config from in
      (next_domain_verify_at provider.next_check_at (some dns.next_check_at) ≡ dns.next_check_at)
      × (next_domain_verify_at provider.next_check_at (some dns.next_check_at) ≤ from + 900_000)
unfolding next_domain_verify_at
next_domain_verify_at-pending status level level' from ne = ground (
  arith,
  compute_next_check_at-bounds status level' default_verify_cadence_config from ne,
  verified_at level from,
)
