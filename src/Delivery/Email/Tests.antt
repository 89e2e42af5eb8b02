-- ===== src/Delivery/Email/Tests.antt =====
-- Runs and instances of the theorems on packages/channels/src/email/delivery.
use relayit.Prelude.{
  ◌≤◌, ◌≡◌, ℕ, refl, String, true, false, none, some, List, [], ◌∷◌, ok, total, if◌then◌else◌,
  str_eq, ◌==◌,
}
use relayit.Delivery.Email.{
  Provider, platform, organization, Identity, Payload, transactional, Loaded, queued,
  message_terminal, suppressions,
}
use relayit.Prelude.Tables.{find_where}
use relayit.Delivery.Email.Identities.{find_active, filter, insert, sorted, list_failover}
use relayit.Delivery.Email.Identities.Order.{Routes, wanted, list_failover-Routes}
use relayit.Delivery.Email.Work.{committed, Act, failure_recorded, Surroundings}
use relayit.Delivery.Email.Send.{
  bucket_exhausted, transaction_result, usage_result, allow_result, update_delivery, transact_event,
  allow, record_failure, record_success, remeter, send_email, conclude, send_unless, try_send,
  confirm_usage, mark_sent,
}
use relayit.Delivery.Email.Failures.{map_failure, classify_failure}
use relayit.Delivery.Email.Failover.{
  next_standby, try_standby, send_standby, end_standby, send_rest, end_primary, try_primary,
  send_all,
}
use relayit.Delivery.Email.Handler.{
  found, is_final, is_marketing, sender_of, truthy, none_kept, unsubscribe_ids, send_attached,
  send_through, route, keep, filter_recipients, skip, address_kept, address_in, address, deliver,
  deliver_message, deliver_found, attempt_delivery, handle,
}
use relayit.Delivery.Email.Failover.Sends.{accepts}
use relayit.Delivery.Email.Handler.Results.{IsDone, accepts-handle, handle-ok, handle-terminal}

abbrev managed_provider : Provider
managed_provider = record {
  id = "p1";
  scope = platform;
  vendor_id = "aws";
  product_id = "ses";
  credentials = "sealed";
}

abbrev primary : Identity
primary = record {
  failover_eligible = true;
  failover_priority = 0;
  id = "i1";
  is_active = true;
  provider = managed_provider;
  verified = true;
}

abbrev standby : String → ℕ → Identity
standby id priority = record primary {
  failover_priority = priority;
  id = id;
  is_active = false;
  provider = record managed_provider { id = id; scope = organization };
}

abbrev rows : List Identity
rows = standby "p3" 9 ∷ standby "p2" 4 ∷ primary ∷ []

lists_failover : list_failover rows ≡ primary ∷ standby "p2" 4 ∷ standby "p3" 9 ∷ []
unfolding list_failover find_active filter sorted insert
lists_failover = refl

list_failover-Routes_example :
    Routes (find_where (λ i. i.is_active) rows) (list_failover rows)
    × ((f : Identity → ℕ)
        → total f (list_failover rows) ≡ wanted f (find_where (λ i. i.is_active) rows) rows)
list_failover-Routes_example = list_failover-Routes rows

abbrev is_p2 : Identity → ℕ
is_p2 i = if str_eq i.id "p2" then 1 else 0

abbrev row : Loaded
row = record {
  id = "d1";
  message_id = "m1";
  message = some (record { app_environment_id = "e1"; tags = [] });
  status = queued;
  custom_domain_paused = false;
  custom_domain_id = some "c1";
  sandbox_domain_id = none;
  recipients = "a@example.com" ∷ [];
  cc = [];
  bcc = [];
  headers = none;
  content = record { sender = "b"; html = none; reply_to = []; subject = "s"; text = some "t" };
}

abbrev failures : String → Act → ℕ
failures id (failure_recorded id' done) = if str_eq id id' then 1 else 0
failures id _ = 0

-- The first provider refuses the email and its breaker opens at once.
abbrev failing_over : Surroundings
failing_over = record {
  find_delivery = λ h id. some (some row);
  find_organization_id = λ h id. some (some "o1");
  find_slug = λ h id. some none;
  find_contact = λ h e a. some none;
  find_identities = λ h sender. some rows;
  filter_suppressed = λ h e o kept. some kept;
  load_attachments = λ h id. ok [];
  merge_headers = λ i. i.existing;
  update = λ h id change. true;
  transact = λ h id change event. committed;
  circuit_allow = λ h id. some (total (failures id) h == 0);
  circuit_failure = λ h id. true;
  circuit_success = λ h id. true;
  remeter = λ h id kind. ok tt;
  confirm = λ h id. ok tt;
  release = λ h id. ok tt;
  open_adapter = λ h p. true;
  adapter_send = λ h p email. if str_eq p.id "p1" then none else some "sent-1";
}

abbrev payload : Payload
payload = record { delivery_id = "d1"; purpose = transactional; topic_id = none }

accepts-handle_example : total accepts (handle failing_over payload []).1 ≤ 1
accepts-handle_example = accepts-handle failing_over payload []

handle-ok_example : IsDone failing_over payload [] (handle failing_over payload []).1
unfolding handle truthy attempt_delivery deliver_found deliver_message deliver address address_in
    filter_recipients keep found address_kept none_kept sender_of route send_through send_attached
    unsubscribe_ids is_marketing send_all try_primary end_primary send_rest send_standby try_standby
    next_standby end_standby is_final list_failover find_active filter sorted insert update_delivery
    transact_event transaction_result allow allow_result try_send remeter bucket_exhausted
    send_unless send_email conclude record_failure record_success mark_sent confirm_usage
    usage_result
handle-ok_example = handle-ok failing_over payload [] refl

abbrev suppressing : Surroundings
suppressing = record failing_over { filter_suppressed = λ h e o kept. some [] }

handle-terminal_example : total accepts (handle suppressing payload []).1 ≡ 0
unfolding handle attempt_delivery deliver_found deliver_message deliver address address_in
    filter_recipients keep found address_kept none_kept skip is_final transact_event
    transaction_result map_failure classify_failure
handle-terminal_example =
    handle-terminal suppressing payload []
      (message_terminal suppressions "No deliverable recipients after suppression") refl refl
