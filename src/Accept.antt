-- ===== src/Accept.antt =====
-- The acceptance of messages: packages/channels/src/messages and packages/channels/src/email/accept.
-- This file has the contact of messages/accept/contacts.ts.
pub mod Contacts
pub mod Suppressions
pub mod Idempotency
pub mod Email
pub mod Policy
mod Tests
use relayit.Prelude.{String, Option, List}

-- `properties` holds the entries in the order of the object, or nothing.
pub record MessageContact : Type 0 where
  pub email : String
  pub first_name : Option String
  pub last_name : Option String
  pub properties : Option (List (String × String))
