-- ===== src/Accept/Email/Reads.antt =====
-- The reads of acceptTransactionalEmail (email/accept/accept.ts) before the reservation.
use relayit.Prelude.{String, Bool, List, [], ◌∷◌, ◌++◌, Result, ok, err}
use relayit.Prelude.Fallible.{◌>>=◌, map_error}
use relayit.Accept.{MessageContact}
use relayit.Accept.Contacts.Merging.{emails}
use relayit.Accept.Suppressions.{ContactRow, Filtered, filter_suppressed_contacts}
use relayit.Accept.Email.{
  Sender, custom, sandbox, ProviderKind, Content, AcceptInput, AcceptError,
  all_recipients_suppressed, suppressions, other, Surroundings,
}

-- Everything that the reads before the reservation have found out.
pub record Prepared : Type 0 where
  pub content : Content
  pub sender : Sender
  pub environment : String
  pub to : Filtered
  pub cc : Filtered
  pub bcc : Filtered
  pub provider_kind : ProviderKind
  pub attachments : List String

abbrev pub recipients : Prepared → List MessageContact
recipients p = p.to.kept ++ (p.cc.kept ++ p.bcc.kept)

abbrev pub stripped : Prepared → List String
stripped p = emails p.to.stripped ++ (emails p.cc.stripped ++ emails p.bcc.stripped)

module _ (w : Surroundings) where
  open w use {
    normalize, lower, is_blocked_attachment_filename, now, replay_query_ok, replay_delete_ok,
    delivery_query_ok, prepare_email_content, resolve_email_sender, resolve_app_environment,
    to_rows, cc_rows, bcc_rows, assert_members, resolve_provider_kind, resolve_attachments,
    delivery_id, message_id, reserve, insert_message_ok, insert_delivery_ok, stage_attachments,
    upsert, record_insert_ok, record_query_ok, record_others, record_id, enqueue_ok, emit_answers,
    event_data, iso_string, commit_ok, release_ok, delete_staged_ok, deliveries_later,
  }

  abbrev pub filter_recipients :
      String → Bool × List ContactRow → List MessageContact → Result AcceptError Filtered
  filter_recipients environment (query_ok, rows) contacts =
      map_error (λ _. suppressions)
        (filter_suppressed_contacts normalize lower query_ok environment rows contacts)

  abbrev pub assert_sandbox_recipients :
      Sender → List MessageContact → Result AcceptError (Unit {0})
  assert_sandbox_recipients (custom _) contacts = ok tt
  assert_sandbox_recipients (sandbox _) contacts = map_error other (assert_members contacts)

  abbrev pub some_recipient : List MessageContact → Result AcceptError (Unit {0})
  some_recipient [] = err all_recipients_suppressed
  some_recipient (_ ∷ _) = ok tt

  -- The reads from the content to the attachments.
  unfoldable pub prepare : AcceptInput → Result AcceptError Prepared
  prepare input = do
    content ← map_error other prepare_email_content
    sender ← map_error other resolve_email_sender
    environment ← map_error other resolve_app_environment
    to ← filter_recipients environment to_rows input.to
    cc ← filter_recipients environment cc_rows input.cc
    bcc ← filter_recipients environment bcc_rows input.bcc
    _ ← some_recipient (to.kept ++ (cc.kept ++ bcc.kept))
    _ ← assert_sandbox_recipients sender (to.kept ++ (cc.kept ++ bcc.kept))
    provider_kind ← map_error other (resolve_provider_kind sender)
    attachments ← map_error other resolve_attachments
    ok record {
      content = content;
      sender = sender;
      environment = environment;
      to = to;
      cc = cc;
      bcc = bcc;
      provider_kind = provider_kind;
      attachments = attachments;
    }
