-- ===== src/Accept/Email/Replays.antt =====
-- An acceptance that is repeated with the same idempotency key: acceptTransactionalEmail of
-- email/accept/accept.ts with messages/accept/idempotency.ts.
use mathlib.Core.Path.{subst}
use relayit.Prelude.{
  ◌+◌, ◌<◌, ◌≡◌, ◌∙◌, refl, ap, inl, inr, String, true, false, none, some, List, [], ◌∷◌, ◌++◌, ok,
  arith, eq_refl, Bool-cases,
}
use relayit.Prelude.Tables.{find_where, find_where-append}
use relayit.Accept.Idempotency.{idempotency_ms, find_record, find_message_replay}
use relayit.Accept.Idempotency.Records.{find_where-recorded}
use relayit.Accept.Email.{AcceptInput, AcceptedEmail, EmailDelivery, State, Surroundings, present}
use relayit.Accept.Email.Pipeline.{
  is_of_message, accepted_of, replay_message, accept_keyed, has_recipient, has_blocked,
  accept_transactional_email, delivery_row,
}
use relayit.Accept.Email.Promises.{IsAccepted, Outcome}
use relayit.Accept.Email.Outcomes.{accept_transactional_email-Outcome}

-- The outcome of an acceptance that is not a replay.
new-IsAccepted :
    (w : Surroundings) (input : AcceptInput) (s s' : State) (a : AcceptedEmail)
    → accept_transactional_email w input s ≡ (ok a, s')
    → a.replayed ≡ false
    → IsAccepted w input s s' a
new-IsAccepted w input s s' a h fresh =
    let all : Outcome w input s (ok a, s') =
      subst (λ r. Outcome w input s r) h (accept_transactional_email-Outcome w input s) in
    elim all [
      | inl (b, e, o) ↦ (let same : b ≡ a = cc in rw (← same) o)
      | inr (inl (e, h'), _) ↦ cc
      | inr (inr (b, e, replayed), _) ↦
          (let same : b ≡ a = cc in ground (arith, same, replayed, fresh))
    ]

somebody :
    (w : Surroundings) (input : AcceptInput) (s s' : State) (a : AcceptedEmail)
    → accept_transactional_email w input s ≡ (ok a, s')
    → has_recipient w input ≡ true
unfolding accept_transactional_email
somebody w input s s' a h = elim (Bool-cases (has_recipient w input)) [
  | inl there ↦ there
  | inr nobody ↦ ground (arith, nobody, h)
]

-- The delivery of an accepted message.
accepted_of-new :
    (w : Surroundings) (id : String) (rows : List EmailDelivery) (d : EmailDelivery)
    → d.message_id ≡ id
    → find_where (is_of_message id) rows ≡ none
    → accepted_of id (rows ++ d ∷ [])
      ≡ some record { delivery_id = d.id; message_id = id; replayed = true; stripped = [] }
unfolding accepted_of
accepted_of-new w id rows d e missing =
    ground (arith, e, find_where-append (is_of_message id) rows d missing, eq_refl id)

-- A message that was accepted with a key is not accepted again: within 24 hours, the same input
-- answers with the same message and delivery, as a replay, and changes nothing, provided that the
-- queries succeed, no attachment is blocked by then, and the id of the message is not empty and was
-- new.
pub accept_transactional_email-accept_transactional_email :
    (w w' : Surroundings) (input : AcceptInput) (key : String) (s s' : State) (a : AcceptedEmail)
    → accept_transactional_email w input s ≡ (ok a, s')
    → a.replayed ≡ false
    → present input.idempotency_key ≡ some key
    → present (some w.message_id) ≡ some w.message_id
    → find_where (is_of_message w.message_id) s.tables.deliveries ≡ none
    → w'.now < w.now + idempotency_ms
    → w'.replay_query_ok ≡ true
    → w'.delivery_query_ok ≡ true
    → has_blocked w' input.attachments ≡ false
    → accept_transactional_email w' input s' ≡ (
      ok record {
        delivery_id = a.delivery_id;
        message_id = a.message_id;
        replayed = true;
        stripped = [];
      },
      s',
    )
unfolding accept_transactional_email accept_keyed replay_message find_message_replay find_record
accept_transactional_email-accept_transactional_email w w' input key s s' a h fresh keyed nonempty
      new live asked queried clean =
    let o = new-IsAccepted w input s s' a h fresh in
    let (rows, answer) = o.keyed key keyed in
    let found =
      find_where-recorded w.record_insert_ok w.record_query_ok w.record_others w.record_id w.now
        input.organization_id key w.message_id rows s'.tables.idempotency answer in
    let (named, told, _) = o.named in
    let people : has_recipient w' input ≡ true = somebody w input s s' a h in
    let row = delivery_row w input o.prepared in
    let there : accepted_of w.message_id s'.tables.deliveries
        ≡ some record {
          delivery_id = w.delivery_id;
          message_id = w.message_id;
          replayed = true;
          stripped = [];
        } =
      rw o.one_delivery (accepted_of-new w w.message_id s.tables.deliveries row refl new) in
    let replayed : AcceptedEmail = record {
      delivery_id = w.delivery_id;
      message_id = w.message_id;
      replayed = true;
      stripped = [];
    } in
    let last : replay_message w' input (some w.message_id) s' ≡ (ok replayed, s') =
      ground (arith, queried, there) in
    let hit : find_message_replay w'.replay_query_ok w'.replay_delete_ok w'.now
          input.organization_id key s'.tables.idempotency
        ≡ (ok (some w.message_id), s'.tables.idempotency) =
      ground (arith, asked, found, live) in
    let second : accept_keyed w' input (some key) s'
        ≡ replay_message w' input (present (some w.message_id)) s' =
      ground (arith, hit) in
    let first : accept_transactional_email w' input s' ≡ accept_keyed w' input (some key) s' =
      ground (arith, people, clean, keyed) in
    rw (named, told) (first ∙ second ∙ ap (λ id. replay_message w' input id s') nonempty ∙ last)
