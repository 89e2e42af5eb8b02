-- ===== src/Delivery.antt =====
-- Delivery of an accepted message through the providers: packages/channels/src/messages/delivery
-- and packages/channels/src/email/delivery.
pub mod Circuit
pub mod Email
mod Tests
