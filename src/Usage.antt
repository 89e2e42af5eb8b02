-- ===== src/Usage.antt =====
-- Metered usage: packages/channels/src/usage.ts and usage-ledger.ts. This file has the data that
-- the scripts and the service share.
pub mod Ledger
pub mod Service
mod Tests
use relayit.Prelude.{ℕ, String, Bool, true, false}

pub data ProviderKind : Type 0 where
  managed byo : ProviderKind

unfoldable pub same_kind : ProviderKind → ProviderKind → Bool
same_kind managed managed = true
same_kind byo byo = true
same_kind _ _ = false

-- The value of the hash field "status".
pub data Status : Type 0 where
  reserved confirmed released : Status

-- A number of Lua that may be -1, for "no limit"; `unlimited` stands for every negative one.
pub data Limit : Type 0 where
  at_most : ℕ → Limit
  unlimited : Limit

-- The fields that RESERVE writes with HSET.
pub record Reservation : Type 0 where
  pub fingerprint : String
  pub organization_id : String
  pub billing_user_id : String
  pub channel : String
  pub purpose : String
  pub provider_kind : ProviderKind
  pub reserved_at : String
  pub period_start : String
  pub period_end : String
  pub daily_key : String
  pub monthly_key : String
  pub status : Status
