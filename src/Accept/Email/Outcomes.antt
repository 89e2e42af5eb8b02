-- ===== src/Accept/Email/Outcomes.antt =====
-- What an acceptance leaves behind, whatever fails: acceptTransactionalEmail of email/accept/accept.ts.
use relayit.Prelude.{
  ℕ, zero, suc, ◌≡◌, refl, ◌∙◌, ap, inl, inr, String, true, Option, none, some, List, [], ◌∷◌, ◌++◌,
  Result, ok, err, arith, Bool-cases, Option-cases, Result-cases,
}
use relayit.Accept.Idempotency.{IdempotencyRow, find_message_replay}
use relayit.Accept.Email.{
  AcceptInput, AcceptedEmail, AcceptError, EmailDelivery, ProviderKind, uploaded, Tables, reserved,
  State, Surroundings, concurrent_replay, find_email_delivery, no_recipients, invalid_attachment,
  other, present,
}
use relayit.Accept.Email.Promises.{accepted, IsAccepted, IsUntouched, Fails, Outcome}
use relayit.Accept.Email.Transaction.{
  record_key-ok, record_key-rows, inserted, finish-ok, transact-ok, transact-staged,
}
use relayit.Accept.Email.Reads.{Prepared, prepare}
use relayit.Accept.Email.Pipeline.{
  after_refusal, of_idempotency, job_of, record_key, finish, transact, compensate, after_failure,
  commit_email, continue, replay_message, accept_keyed, has_recipient, has_blocked,
  accept_transactional_email, retry, accepted_of, find_with_retry,
}

module _ (w : Surroundings) where
  accepted-Fails :
      (id : String) (rows : List EmailDelivery) (a : AcceptedEmail)
      → accepted_of id rows ≡ some a
      → a.replayed ≡ true
  unfolding accepted_of
  accepted-Fails id rows a h = ground (arith, h)

  retry-Fails :
      (n : ℕ) (attempt : ℕ → Option (List EmailDelivery)) (id : String) (a : AcceptedEmail)
      → find_with_retry n attempt id ≡ some a
      → a.replayed ≡ true
  unfolding find_with_retry
  retry-Fails zero attempt id a h = cc
  retry-Fails (suc n) attempt id a h = elim (Option-cases (attempt n)) [
    | inl failed ↦ retry-Fails n attempt id a (ground (arith, failed, h))
    | inr (rows, asked) ↦ elim (Option-cases (accepted_of id rows)) [
      | inl missing ↦ retry-Fails n attempt id a (ground (arith, asked, missing, h))
      | inr (b, there) ↦ accepted-Fails id rows a (ground (arith, asked, there, h))
    ]
  ]

  after_failure-Fails : (e : AcceptError) → Fails (after_failure w e)
  unfolding after_failure
  after_failure-Fails (concurrent_replay id) =
      elim (Option-cases (find_with_retry 3 w.deliveries_later id)) [
        | inl missing ↦ inl (concurrent_replay id, ground (arith, missing))
        | inr (a, found) ↦
            inr (a, ground (arith, found), retry-Fails 3 w.deliveries_later id a found)
      ]
  after_failure-Fails e = inl (e, refl)

  unchanged-IsUntouched : (s : State) → IsUntouched w s s
  unchanged-IsUntouched s = record { tables = refl; settled = inl refl; cleaned = inl refl }

  compensate-IsUntouched :
      (s : State) (staged : List String)
      → IsUntouched w s (
          compensate w staged (record s {
            usage = reserved w.delivery_id ∷ s.usage;
            attachments = uploaded staged ∷ s.attachments;
          }))
  unfolding compensate
  compensate-IsUntouched s staged = record {
    tables = refl;
    settled = elim (Bool-cases (retry 3 w.release_ok)) [
      | inl done ↦ inr (inl (ground (arith, done)))
      | inr failed ↦ inr (inr (inl (ground (arith, failed), failed)))
    ];
    cleaned = elim (Bool-cases (retry 3 w.delete_staged_ok)) [
      | inl done ↦ inr (inl (staged, ground (arith, done)))
      | inr failed ↦ inr (inr (staged, ground (arith, failed), failed))
    ];
  }

  after_refusal-IsUntouched :
      (s : State) (kind : ProviderKind) (e : String)
      → w.reserve kind ≡ err e
      → IsUntouched w s (after_refusal w (w.reserve_lost kind) s)
  after_refusal-IsUntouched s kind e refused = record {
    tables = refl;
    settled = elim (Bool-cases (w.reserve_lost kind)) [
      | inl lost ↦ inr (inr (inr (ground (arith, lost), kind, e, refused, lost)))
      | inr never ↦ inl (ground (arith, never))
    ];
    cleaned = inl refl;
  }

  finish-IsAccepted :
      (input : AcceptInput) (p : Prepared) (billing : String) (staged : List String) (s : State)
      (t' : Tables)
      → prepare w input ≡ ok p
      → w.reserve p.provider_kind ≡ ok billing
      → w.stage_attachments p.attachments ≡ ok staged
      → finish w input p billing (inserted w input p s.tables) ≡ ok t'
      → IsAccepted w input s
          (record s {
            tables = t';
            usage = reserved w.delivery_id ∷ s.usage;
            attachments = uploaded staged ∷ s.attachments;
          })
          (accepted w p)
  unfolding inserted
  finish-IsAccepted input p billing staged s t' prepared charged attached done =
      let t = inserted w input p s.tables in
      let fin = finish-ok w input p billing t t' done in
      let key = present input.idempotency_key in
      let rows =
        record_key-rows w input key (record t { contacts = fin.contacts }) fin.keyed
          fin.was_recorded in
      let same = fin.same_rows in
      let same_contacts : t'.contacts ≡ fin.contacts =
        same.same_contacts ∙ ap (λ (x : Tables). x.contacts) rows in
      record {
        prepared = p;
        billing = billing;
        staged = staged;
        was_prepared = prepared;
        was_charged = charged;
        charged = refl;
        was_staged = attached;
        attached = refl;
        were_upserted = rw same_contacts fin.were_upserted;
        were_emitted = fin.were_emitted;
        one_message = same.same_messages ∙ ap (λ (x : Tables). x.messages) rows;
        one_delivery = same.same_deliveries ∙ ap (λ (x : Tables). x.deliveries) rows;
        one_job =
            same.same_jobs ∙ ap (λ (x : Tables). x.jobs ++ job_of w input p billing ∷ []) rows;
        named = (refl, refl, refl);
        keyed = λ k e.
            (let recorded_it : record_key w input (some k) (record t { contacts = fin.contacts })
                  ≡ ok fin.keyed =
                rw (← e) fin.was_recorded in
              let (answer, _) =
                record_key-ok w input k (record t { contacts = fin.contacts }) fin.keyed
                  recorded_it in
              (t.idempotency, rw same.same_idempotency answer));
      }

  commit_email-Outcome :
      (input : AcceptInput) (p : Prepared) (s : State)
      → prepare w input ≡ ok p
      → Outcome w input s (commit_email w input p s)
  unfolding commit_email
  commit_email-Outcome input p s prepared = elim (Result-cases (w.reserve p.provider_kind)) [
    | inr (e, refused) ↦
        let same : commit_email w input p s
            ≡ (err (other e), after_refusal w (w.reserve_lost p.provider_kind) s) =
          ground (arith, refused) in
        rw same (inr (inl (other e, refl), after_refusal-IsUntouched s p.provider_kind e refused))
    | inl (billing, charged) ↦ elim (Result-cases (transact w input p billing s.tables).0) [
      | inl (t', done) ↦
          let staged = (transact w input p billing s.tables).1 in
          let s' : State = record s {
            tables = t';
            usage = reserved w.delivery_id ∷ s.usage;
            attachments = uploaded staged ∷ s.attachments;
          } in
          let same : commit_email w input p s ≡ (ok (accepted w p), s') =
            ground (arith, charged, done) in
          rw same (
            inl (
              accepted w p,
              refl,
              finish-IsAccepted input p billing staged s t' prepared charged
                  (transact-staged w input p billing s.tables t' done)
                  (transact-ok w input p billing s.tables t' done),
            ))
      | inr (e, failed) ↦
          let staged = (transact w input p billing s.tables).1 in
          let s1 : State = record s {
            usage = reserved w.delivery_id ∷ s.usage;
            attachments = uploaded staged ∷ s.attachments;
          } in
          let same : commit_email w input p s ≡ (after_failure w e, compensate w staged s1) =
            ground (arith, charged, failed) in
          rw same (inr (after_failure-Fails e, compensate-IsUntouched s staged))
    ]
  ]

  continue-Outcome : (input : AcceptInput) (s : State) → Outcome w input s (continue w input s)
  continue-Outcome input s = elim (Result-cases (prepare w input)) [
    | inr (e, failed) ↦
        let same : continue w input s ≡ (err e, s) = ground (arith, failed) in
        rw same
          (inr (inl (e, refl), record { tables = refl; settled = inl refl; cleaned = inl refl }))
    | inl (p, prepared) ↦
        let same : continue w input s ≡ commit_email w input p s = ground (arith, prepared) in
        rw same (commit_email-Outcome input p s prepared)
  ]

  replay_message-Outcome :
      (input : AcceptInput) (id : Option String) (s : State)
      → Outcome w input s (replay_message w input id s)
  unfolding replay_message
  replay_message-Outcome input none s = continue-Outcome input s
  replay_message-Outcome input (some id) s = elim (Bool-cases w.delivery_query_ok) [
    | inr failed ↦
        let same : replay_message w input (some id) s ≡ (err find_email_delivery, s) =
          ground (arith, failed) in
        rw same (
          inr (
            inl (find_email_delivery, refl),
            record { tables = refl; settled = inl refl; cleaned = inl refl },
          ))
    | inl asked ↦ elim (Option-cases (accepted_of id s.tables.deliveries)) [
      | inl missing ↦
          let same : replay_message w input (some id) s ≡ continue w input s =
            ground (arith, asked, missing) in
          rw same (continue-Outcome input s)
      | inr (a, found) ↦
          let same : replay_message w input (some id) s ≡ (ok a, s) =
            ground (arith, asked, found) in
          rw same (
            inr (
              inr (a, refl, accepted-Fails id s.tables.deliveries a found),
              record { tables = refl; settled = inl refl; cleaned = inl refl },
            ))
    ]
  ]

  -- The recorded keys before the reservation do not matter.
  Outcome-rows :
      (input : AcceptInput) (s : State) (rows : List IdempotencyRow)
      (r : Result AcceptError AcceptedEmail × State)
      → Outcome w input (record s { tables = record (s.tables) { idempotency = rows } }) r
      → Outcome w input s r
  Outcome-rows input s rows r (inl (a, e, o)) = inl (
    a,
    e,
    record {
      prepared = o.prepared;
      billing = o.billing;
      was_prepared = o.was_prepared;
      staged = o.staged;
      was_charged = o.was_charged;
      charged = o.charged;
      was_staged = o.was_staged;
      attached = o.attached;
      were_upserted = o.were_upserted;
      were_emitted = o.were_emitted;
      one_message = o.one_message;
      one_delivery = o.one_delivery;
      one_job = o.one_job;
      named = o.named;
      keyed = o.keyed;
    },
  )
  Outcome-rows input s rows r (inr (f, o)) =
      inr (f, record { tables = o.tables; settled = o.settled; cleaned = o.cleaned })

  accept_keyed-Outcome :
      (input : AcceptInput) (key : Option String) (s : State)
      → Outcome w input s (accept_keyed w input key s)
  unfolding accept_keyed
  accept_keyed-Outcome input none s = continue-Outcome input s
  accept_keyed-Outcome input (some key) s =
      let found =
        find_message_replay w.replay_query_ok w.replay_delete_ok w.now input.organization_id key
          s.tables.idempotency in
      let s' : State = record s { tables = record (s.tables) { idempotency = found.1 } } in
      elim (Result-cases found.0) [
        | inr (e, failed) ↦
            let same : accept_keyed w input (some key) s ≡ (err (of_idempotency e), s') =
              ground (arith, failed) in
            rw same (
              inr (
                inl (of_idempotency e, refl),
                record { tables = refl; settled = inl refl; cleaned = inl refl },
              ))
        | inl (id, asked) ↦
            let same : accept_keyed w input (some key) s ≡ replay_message w input (present id) s' =
              ground (arith, asked) in
            rw same (
              Outcome-rows input s found.1 (replay_message w input (present id) s')
                (replay_message-Outcome input (present id) s'))
      ]

  pub accept_transactional_email-Outcome :
      (input : AcceptInput) (s : State) → Outcome w input s (accept_transactional_email w input s)
  unfolding accept_transactional_email
  accept_transactional_email-Outcome input s = elim (Bool-cases (has_recipient w input)) [
    | inr nobody ↦
        let same : accept_transactional_email w input s ≡ (err no_recipients, s) =
          ground (arith, nobody) in
        rw same (
          inr (
            inl (no_recipients, refl),
            record { tables = refl; settled = inl refl; cleaned = inl refl },
          ))
    | inl somebody ↦ elim (Bool-cases (has_blocked w input.attachments)) [
      | inl blocked ↦
          let same : accept_transactional_email w input s ≡ (err invalid_attachment, s) =
            ground (arith, somebody, blocked) in
          rw same (
            inr (
              inl (invalid_attachment, refl),
              record { tables = refl; settled = inl refl; cleaned = inl refl },
            ))
      | inr clean ↦
          let same : accept_transactional_email w input s
              ≡ accept_keyed w input (present input.idempotency_key) s =
            ground (arith, somebody, clean) in
          rw same (accept_keyed-Outcome input (present input.idempotency_key) s)
    ]
  ]
