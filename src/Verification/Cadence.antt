-- ===== src/Verification/Cadence.antt =====
-- When a domain is checked again, and what a check concludes:
-- packages/channels/src/email/verification/cadence.ts. Times are milliseconds.
pub mod Schedule
use relayit.Prelude.{
  ℕ, zero, suc, ◌+◌, ◌-◌, ◌*◌, ◌^◌, ◌≤◌, ◌<◌, min, ◌≡◌, refl, Bool, true, false, ◌&&◌, ◌||◌, Option,
  none, some, arith, ltb, ◌==◌, if◌then◌else◌,
}

pub data DomainVerificationStatus : Type 0 where
  verified partially_verified not_verified : DomainVerificationStatus

pub record VerifyCadenceConfig : Type 0 where
  pub max_backoff_level : ℕ
  pub pending_base_ms : ℕ
  pub pending_max_ms : ℕ
  pub verified_interval_ms : ℕ

abbrev pub default_verify_cadence_config : VerifyCadenceConfig
default_verify_cadence_config = record {
  max_backoff_level = 5;
  pending_base_ms = 2 * 60 * 1000;
  pending_max_ms = 15 * 60 * 1000;
  verified_interval_ms = 12 * 60 * 60 * 1000;
}

pub record NextCheck : Type 0 where
  pub backoff_level : ℕ
  pub next_check_at : ℕ

-- The interval of a domain that is not verified yet, at a level.
abbrev pub pending_interval : VerifyCadenceConfig → ℕ → ℕ
pending_interval config level = min (config.pending_base_ms * 2 ^ level) config.pending_max_ms

unfoldable pub compute_next_check_at :
    DomainVerificationStatus → ℕ → VerifyCadenceConfig → ℕ → NextCheck
compute_next_check_at verified backoff_level config from = record {
  backoff_level = 0;
  next_check_at = from + config.verified_interval_ms;
}
compute_next_check_at partially_verified backoff_level config from =
    let level = min backoff_level config.max_backoff_level in
    record { backoff_level = level; next_check_at = from + pending_interval config level }
compute_next_check_at not_verified backoff_level config from =
    let level = min backoff_level config.max_backoff_level in
    record {
      backoff_level = min (level + 1) config.max_backoff_level;
      next_check_at = from + pending_interval config level;
    }

-- The assignments of mergeVerificationStatus, first by the provider's flags, then by the records.
unfoldable pub merge_verification_status : Bool → Bool → ℕ → ℕ → DomainVerificationStatus
merge_verification_status provider_verified provider_dkim_verified active_records missing_records =
    let status =
      if provider_verified && provider_dkim_verified
      then verified
      else if provider_verified || provider_dkim_verified
      then partially_verified
      else not_verified in
    if active_records == 0
    then not_verified
    else if ltb 0 missing_records
    then partially_verified
    else if ltb 0 active_records && missing_records == 0
    then verified
    else status

unfoldable pub next_domain_verify_at : ℕ → Option ℕ → ℕ
next_domain_verify_at identity_next_check_at none = identity_next_check_at
next_domain_verify_at identity_next_check_at (some next_check_at) =
    if ltb next_check_at identity_next_check_at then next_check_at else identity_next_check_at

-- The backoff level after `n` checks in a row that find the domain not verified.
unfoldable pub level_after : VerifyCadenceConfig → ℕ → ℕ
level_after config zero = 0
level_after config (suc n) =
    (compute_next_check_at not_verified (level_after config n) config 0).backoff_level
