-- ===== src/Accept/Tests.antt =====
-- Runs and instances of the theorems on the acceptance of messages.
use relayit.Prelude.{
  ◌+◌, ◌≡◌, refl, String, true, false, Option, none, some, List, [], ◌∷◌, ok, err, arith, All,
  str_eq, if◌then◌else◌,
}
use relayit.Prelude.Counts.{count}
use relayit.Prelude.Tables.{find_where}
use relayit.Webhooks
use relayit.Webhooks.Emit.{Answers, EmitInput, emit_webhook_event, matching}
use relayit.Prelude.Tables.{select_where}
use relayit.Accept.{MessageContact}
use relayit.Accept.Contacts.{
  merge_message_contacts, add, add_all, entry_for, merged, first_text, get, set, spread,
}
use relayit.Accept.Contacts.Merging.{emails, normalized, once, count-merge_message_contacts}
use relayit.Accept.Suppressions.{
  ContactRow, Filtered, Suppresses, filter_suppressed_contacts, suppressed_of, keep, strip, has,
  filter_suppressed_contacts-ok,
}
use relayit.Accept.Idempotency.{record_message_idempotency, find_record, find_message_replay}
use relayit.Accept.Email.{
  custom, sandbox, managed, Content, AcceptInput, AcceptedEmail, reserved, released, State,
  Surroundings,
}
use relayit.Accept.Email.Reads.{prepare}
use relayit.Accept.Email.Pipeline.{
  is_of_message, accept_transactional_email, accept_keyed, replay_message, commit_email, transact,
  insert_rows, finish, upsert_message_contacts, upsert_all, record_key, emit, emit_scheduled,
  emit_contacts, compensate, after_failure, has_blocked, retry,
}
use relayit.Accept.Email.Replays.{accept_transactional_email-accept_transactional_email}
use relayit.Verification.Cadence.{verified}
use relayit.Accept.Policy.{
  OrganizationDomain, OrganizationRow, SandboxDomain, sandbox_of, resolve_email_sender,
  resolve_from, resolve_custom, assert_sandbox_recipients_are_members, all_members, member_emails,
  sandbox_recipient_not_member,
}
use relayit.Accept.Policy.Senders.{IsOwnSender, resolve_email_sender-IsOwnSender}

-- One address in three spellings.
abbrev normal : String → String
normal text =
    if str_eq text "Ada@x.io"
    then "ada@x.io"
    else if str_eq text " ada@x.io"
    then "ada@x.io"
    else text

abbrev contact : String → Option String → MessageContact
contact email name = record {
  email = email;
  first_name = name;
  last_name = none;
  properties = none;
}

abbrev people : List MessageContact
people = contact "Ada@x.io" none ∷ contact "bob@x.io" none ∷ contact " ada@x.io" (some "Ada") ∷ []

merges :
    merge_message_contacts normal people
    ≡ contact "ada@x.io" (some "Ada") ∷ contact "bob@x.io" none ∷ []
unfolding merge_message_contacts add_all add entry_for merged first_text get set spread
merges = refl

count-merge_message_contacts_example :
    count "ada@x.io" (emails (merge_message_contacts normal people))
    ≡ once (count "ada@x.io" (normalized normal people))
count-merge_message_contacts_example = count-merge_message_contacts normal people "ada@x.io"

abbrev blocked_rows : List ContactRow
blocked_rows =
    record { email = "bob@x.io"; organization_app_environment_id = "env"; suppresses_all = true }
    ∷ []

abbrev divided : Filtered
divided = record {
  kept = contact "Ada@x.io" none ∷ contact " ada@x.io" (some "Ada") ∷ [];
  stripped = contact "bob@x.io" none ∷ [];
}

divides : filter_suppressed_contacts normal normal true "env" blocked_rows people ≡ ok divided
unfolding filter_suppressed_contacts suppressed_of keep strip has
divides = refl

filter_suppressed_contacts-ok_example :
    ((x : String)
      → count x (emails divided.kept) + count x (emails divided.stripped) ≡ count x (emails people))
    × All (λ r. All (λ row. ¬ Suppresses normal normal "env" row r) blocked_rows) divided.kept
filter_suppressed_contacts-ok_example =
    filter_suppressed_contacts-ok normal normal "env" blocked_rows people true divided divides
      (refl, tt)

abbrev content : Content
content = record { template_id = none; subject = "Hello"; html = none; text = some "Hi" }

abbrev mail : AcceptInput
mail = record {
  organization_id = "org_a";
  idempotency_key = some "order-1";
  scheduled_at = none;
  tags = none;
  attachments = [];
  to = contact "bob@x.io" none ∷ [];
  cc = [];
  bcc = [];
  from_address = "shop@x.io";
  headers = [];
  reply_to = [];
}

abbrev answers : EmitInput → Answers
answers event = record {
  now = 0;
  event_id = "whevt_1";
  new_idempotency_id = "whid_1";
  delivery_id = λ id. id;
  select_ok = true;
  event_ok = true;
  delivery_ok = λ id. true;
  enqueue_ok = λ id. true;
}

abbrev calm : Surroundings
calm = record {
  normalize = normal;
  lower = normal;
  is_blocked_attachment_filename = λ name. false;
  now = 1000;
  replay_query_ok = true;
  replay_delete_ok = true;
  delivery_query_ok = true;
  prepare_email_content = ok content;
  resolve_email_sender = ok (custom "dom_1");
  resolve_app_environment = ok "env";
  to_rows = (true, []);
  cc_rows = (true, []);
  bcc_rows = (true, []);
  assert_members = λ contacts. ok tt;
  resolve_provider_kind = λ sender. ok managed;
  resolve_attachments = ok [];
  delivery_id = "edlv_1";
  message_id = "msg_1";
  reserve = λ kind. ok "user_1";
  reserve_lost = λ kind. false;
  insert_message_ok = true;
  insert_delivery_ok = true;
  stage_attachments = λ attachments. ok [];
  upsert = λ c stored. some (c ∷ stored);
  record_insert_ok = true;
  record_query_ok = true;
  record_others = λ rows. rows;
  record_id = "midm_1";
  enqueue_ok = true;
  emit_answers = answers;
  event_data = λ fields. "{}";
  iso_string = λ at. "1970-01-01T00:00:00.000Z";
  commit_ok = true;
  release_ok = λ left. true;
  delete_staged_ok = λ left. true;
  deliveries_later = λ left. none;
}

abbrev no_webhooks : Webhooks.Tables
no_webhooks = record { endpoints = []; events = []; deliveries = []; jobs = [] }

abbrev quiet : State
quiet = record {
  tables = record {
    messages = [];
    deliveries = [];
    contacts = [];
    idempotency = [];
    jobs = [];
    webhooks = no_webhooks;
  };
  usage = [];
  attachments = [];
}

abbrev later : Surroundings
later = record calm { now = 90_000; delivery_id = "edlv_2"; message_id = "msg_2" }

abbrev accepted_mail : AcceptedEmail
accepted_mail = record {
  delivery_id = "edlv_1";
  message_id = "msg_1";
  replayed = false;
  stripped = [];
}

accepts :
    accept_transactional_email calm mail quiet
    ≡ (ok accepted_mail, (accept_transactional_email calm mail quiet).1)
unfolding accept_transactional_email accept_keyed replay_message prepare commit_email transact
    insert_rows finish upsert_message_contacts upsert_all record_key emit_scheduled emit_contacts
    emit has_blocked find_message_replay find_record record_message_idempotency find_where
    filter_suppressed_contacts suppressed_of keep strip has merge_message_contacts add_all add
    entry_for get set emit_webhook_event matching select_where
accepts = refl

none_blocked : has_blocked later mail.attachments ≡ false
unfolding has_blocked
none_blocked = refl

no_delivery : find_where (is_of_message "msg_1") quiet.tables.deliveries ≡ none
unfolding find_where
no_delivery = refl

accept_transactional_email-accept_transactional_email_example :
    accept_transactional_email later mail (accept_transactional_email calm mail quiet).1 ≡ (
      ok record { delivery_id = "edlv_1"; message_id = "msg_1"; replayed = true; stripped = [] },
      (accept_transactional_email calm mail quiet).1,
    )
accept_transactional_email-accept_transactional_email_example =
    accept_transactional_email-accept_transactional_email calm later mail "order-1" quiet
      (accept_transactional_email calm mail quiet).1 accepted_mail accepts refl refl refl
      no_delivery (omega arith) refl refl none_blocked

-- A transaction that fails gives the usage back.
abbrev broken : Surroundings
broken = record calm { enqueue_ok = false }

gives_back :
    (accept_transactional_email broken mail quiet).1.usage
    ≡ released "edlv_1" ∷ reserved "edlv_1" ∷ []
unfolding accept_transactional_email accept_keyed replay_message prepare commit_email transact
    insert_rows finish upsert_message_contacts upsert_all record_key has_blocked find_message_replay
    find_record record_message_idempotency find_where filter_suppressed_contacts suppressed_of keep
    strip has merge_message_contacts add_all add entry_for get set compensate after_failure retry
gives_back = refl

abbrev own_domain : OrganizationDomain
own_domain = record {
  organization_id = "org_a";
  custom_domain_id = "dom_1";
  fqdn = "x.io";
  verification_status = verified;
  is_paused = false;
}

abbrev domain_of : String → Option String
domain_of address = if str_eq address "shop@x.io" then some "x.io" else none

resolves :
    resolve_email_sender normal normal domain_of true true "org_a" "shop@x.io" [] []
      (own_domain ∷ [])
    ≡ ok (custom "dom_1")
unfolding resolve_email_sender resolve_from resolve_custom find_where sandbox_of
resolves = refl

abbrev own_organization : OrganizationRow
own_organization = record { id = "org_a"; sandbox_domain_id = some "sbx_1" }

abbrev own_sandbox : SandboxDomain
own_sandbox = record {
  id = "sbx_1";
  is_active = true;
  is_paused = false;
  root_domain = "x.io";
  verification_status = verified;
}

abbrev sandbox_domain_of : String → Option String
sandbox_domain_of address = if str_eq address "sandbox@x.io" then some "x.io" else none

resolves_sandbox :
    resolve_email_sender normal normal sandbox_domain_of true true "org_a" "sandbox@x.io"
      (own_organization ∷ [])
      (own_sandbox ∷ [])
      (own_domain ∷ [])
    ≡ ok (sandbox "sbx_1")
unfolding resolve_email_sender resolve_from resolve_custom find_where sandbox_of
resolves_sandbox = refl

resolve_email_sender-IsOwnSender_example :
    IsOwnSender normal normal sandbox_domain_of "org_a" "sandbox@x.io"
      (own_organization ∷ [])
      (own_sandbox ∷ [])
      (own_domain ∷ [])
      (sandbox "sbx_1")
resolve_email_sender-IsOwnSender_example =
    resolve_email_sender-IsOwnSender normal normal sandbox_domain_of true true "org_a"
      "sandbox@x.io" (own_organization ∷ []) (own_sandbox ∷ []) (own_domain ∷ []) (sandbox "sbx_1")
      resolves_sandbox

refuses_stranger :
    assert_sandbox_recipients_are_members normal normal domain_of true "org_a"
      (record { organization_id = "org_b"; email = "bob@x.io" } ∷ [])
      (contact "bob@x.io" none ∷ [])
    ≡ err sandbox_recipient_not_member
unfolding assert_sandbox_recipients_are_members member_emails all_members has
refuses_stranger = refl
