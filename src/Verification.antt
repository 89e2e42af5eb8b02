-- ===== src/Verification.antt =====
-- Verification of sender domains: packages/channels/src/email/verification.
pub mod Cadence
mod Tests
