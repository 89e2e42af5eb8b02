-- ===== src/Delivery/Email/Handler/Steps.antt =====
-- The steps of `handle` in handler.ts on a delivery that has to be sent: what each leaves behind.
use relayit.Prelude.{
  ℕ, ◌+◌, ◌≤◌, ◌≡◌, ◌⊎◌, inl, inr, String, true, false, Option, none, some, List, [], ◌∷◌, arith,
  Result, ok, err, total, if◌then◌else◌,
}
use relayit.Effects.{bound, ◌>>=◌}
use relayit.Delivery.Email.Identities.{list_failover}
use relayit.Delivery.Email.{
  Identity, Payload, Loaded, Message, ProviderEmail, Failure, Sender, persistence, load_identities,
  load_delivery,
}
use relayit.Delivery.Email.Work.{to_sending, Work, Act, Surroundings}
use relayit.Delivery.Email.Send.{update_delivery, transact_event, transaction_result}
use relayit.Delivery.Email.Failover.{send_all}
use relayit.Delivery.Email.Handler.{
  query, found, Kept, none_kept, sender_of, unsubscribe_ids, email_of, send_attached, send_through,
  route, keep, filter_recipients, skip, address_kept, address_in, address,
}
use relayit.Delivery.Email.Failover.Sends.{accepts, IsRetried}
use relayit.Delivery.Email.Failover.Runs.{IsDelivered, Ran, send_all_lem}

-- A failed run: no second email, and none at all where the job is not tried again.
abbrev pub IsLost : ℕ → Failure → List Act → Type 0
IsLost n e h = (total accepts h ≤ n + 1) × (IsRetried e ⊎ (total accepts h ≡ n))

abbrev pub Sent : String → ℕ → Result Failure (Unit {0}) × List Act → Type 0
Sent id n (ok _, h) = (email : ProviderEmail) × IsDelivered id email n h
Sent id n (err e, h) = IsLost n e h

-- A step that sends nothing.
step :
    {A : Type 0} (id : String) (n : ℕ) (m : Work A) (h : List Act) (f : A → Work (Unit {0}))
    → total accepts (m h).1 ≡ n
    → ((a : A) → Sent id n (f a (m h).1))
    → Sent id n ((m >>= f) h)
step id n m h f e k = go (m h) e k
  where
    go :
        (r : Result Failure _ × List Act)
        → total accepts r.1 ≡ n
        → ((a : _) → Sent id n (f a r.1))
        → Sent id n (bound r.0 r.1 f)
    go (ok a, h') e' k' = k' a
    go (err u, h') e' k' = (omega (arith, e'), inr e')

module _ (w : Surroundings) where
  Sent-Ran :
      (id : String) (email : ProviderEmail) (n : ℕ) (r : Result Failure (Unit {0}) × List Act)
      → Ran id email n r
      → Sent id n r
  Sent-Ran id email n (ok _, h) d = (email, d)
  Sent-Ran id email n (err e, h) (b, e') = (b, inl e')

  unsubscribe_ids_quiet :
      (payload : Payload) (l : Loaded) (message : Message) (org : String) (kept : Kept)
      (h : List Act)
      → total accepts (unsubscribe_ids w payload l message org kept h).1 ≡ total accepts h
  unfolding unsubscribe_ids found
  unsubscribe_ids_quiet payload l message org kept h = ground arith

  filter_recipients_quiet :
      (l : Loaded) (message : Message) (org : String) (h : List Act)
      → total accepts (filter_recipients w l message org h).1 ≡ total accepts h
  unfolding filter_recipients keep found
  filter_recipients_quiet l message org h = ground arith

  send_attached_lem :
      (payload : Payload) (l : Loaded) (message : Message) (org : String) (kept : Kept)
      (routes : List Identity) (attachments : List String) (n : ℕ) (h : List Act)
      → total accepts h ≡ n
      → Sent l.id n (send_attached w payload l message org kept routes attachments h)
  unfolding send_attached update_delivery
  send_attached_lem payload l message org kept routes attachments n h e =
      let send : Option String × Option String → Work (Unit {0}) =
        λ ids. send_all w l (email_of w payload l kept attachments ids) routes in
      let look_up = unsubscribe_ids w payload l message org kept in
      let h' = (update_delivery w l.id to_sending h).1 in
      let quiet : total accepts (look_up h').1 ≡ n =
        ground (arith, unsubscribe_ids_quiet payload l message org kept h') in
      step l.id n (update_delivery w l.id to_sending) h (λ _. look_up >>= send) (ground arith)
        (λ _. step l.id n look_up h' send quiet (λ ids.
          Sent-Ran l.id (email_of w payload l kept attachments ids) n _
            (send_all_lem w l _ routes n _ quiet)))

  send_through_lem :
      (payload : Payload) (l : Loaded) (message : Message) (org : String) (kept : Kept)
      (routes : List Identity) (n : ℕ) (h : List Act)
      → total accepts h ≡ n
      → Sent l.id n (send_through w payload l message org kept routes h)
  unfolding send_through
  send_through_lem payload l message org kept [] n h e = (omega (arith, e), inr e)
  send_through_lem payload l message org kept (i ∷ rest) n h e =
      step l.id n (λ h'. (w.load_attachments h' l.id, h')) h
        (send_attached w payload l message org kept (i ∷ rest)) e
        (λ attachments. send_attached_lem payload l message org kept (i ∷ rest) attachments n h e)

  route_lem :
      (payload : Payload) (l : Loaded) (message : Message) (org : String) (kept : Kept)
      (sender : Option Sender) (n : ℕ) (h : List Act)
      → total accepts h ≡ n
      → Sent l.id n (route w payload l message org kept sender h)
  unfolding route
  route_lem payload l message org kept none n h e = (omega (arith, e), inr e)
  route_lem payload l message org kept (some sender) n h e =
      step l.id n (query w (λ h'. w.find_identities h' sender) (persistence load_identities)) h
        (λ rows. send_through w payload l message org kept (list_failover rows)) e
        (λ rows. send_through_lem payload l message org kept (list_failover rows) n h e)

  skip_lem : (l : Loaded) (n : ℕ) (h : List Act) → total accepts h ≡ n → Sent l.id n (skip w l h)
  unfolding skip transact_event transaction_result
  skip_lem l n h e = ground arith

  address_kept_lem :
      (payload : Payload) (l : Loaded) (message : Message) (org : String) (kept : Kept) (n : ℕ)
      (h : List Act)
      → total accepts h ≡ n
      → Sent l.id n (address_kept w payload l message org kept h)
  unfolding address_kept
  address_kept_lem payload l message org kept n h e =
      elim (none_kept kept)
        as (λ b.
          Sent l.id n
            ((if b then skip w l else route w payload l message org kept (sender_of l)) h)) [
              | true ↦ skip_lem l n h e
              | false ↦ route_lem payload l message org kept _ n h e
            ]

  address_in_lem :
      (payload : Payload) (l : Loaded) (message : Message) (environment : Option String) (n : ℕ)
      (h : List Act)
      → total accepts h ≡ n
      → Sent l.id n (address_in w payload l message environment h)
  unfolding address_in
  address_in_lem payload l message none n h e = (omega (arith, e), inr e)
  address_in_lem payload l message (some org) n h e =
      let quiet : total accepts (filter_recipients w l message org h).1 ≡ n =
        ground (arith, filter_recipients_quiet l message org h) in
      step l.id n (filter_recipients w l message org) h (address_kept w payload l message org) quiet
        (λ kept. address_kept_lem payload l message org kept n _ quiet)

  pub address_lem :
      (payload : Payload) (l : Loaded) (message : Message) (n : ℕ) (h : List Act)
      → total accepts h ≡ n
      → Sent l.id n (address w payload l message h)
  unfolding address
  address_lem payload l message n h e =
      step l.id n
        (query w (λ h'. w.find_organization_id h' message.app_environment_id)
          (persistence load_delivery))
        h (address_in w payload l message) e
        (λ environment. address_in_lem payload l message environment n h e)
