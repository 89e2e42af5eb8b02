-- ===== src/Delivery/Email/Handler/Results.antt =====
-- What `handle` of handler.ts guarantees, over every answer of its surroundings.
use relayit.Prelude.{
  ◌+◌, ◌≤◌, ◌≡◌, ◌⊎◌, inl, inr, refl, true, false, Option, none, some, List, arith, Result, ok, err,
  total, if◌then◌else◌, Bool-cases,
}
use relayit.Effects.{bound}
use relayit.Jobs.{retryable, terminal}
use relayit.Delivery.Email.{
  Payload, Loaded, Message, ProviderEmail, Failure, persistence, load_delivery,
}
use relayit.Delivery.Email.Work.{Act, Surroundings}
use relayit.Delivery.Email.Send.{update_delivery}
use relayit.Delivery.Email.Failures.{map_failure, classify_failure}
use relayit.Delivery.Email.Handler.{
  query, found, is_final, address, pause, deliver, deliver_found, deliver_message, attempt_delivery,
  handle,
}
use relayit.Delivery.Email.Failover.Sends.{accepts}
use relayit.Delivery.Email.Failover.Runs.{IsDelivered}
use relayit.Delivery.Email.Handler.Steps.{IsLost, Sent, address_lem}

module _ (w : Surroundings) where
  -- The run was not needed, or it has delivered.
  abbrev pub IsDone : Payload → List Act → List Act → Type 0
  IsDone payload h h' =
      (l : Loaded) × (w.find_delivery h payload.delivery_id ≡ some (some l))
      × (((is_final l.status ≡ true) × (h' ≡ h))
          ⊎ ((email : ProviderEmail) × IsDelivered l.id email (total accepts h) h'))

  abbrev Attempted : Payload → List Act → Result Failure (Unit {0}) × List Act → Type 0
  Attempted payload h (ok _, h') = IsDone payload h h'
  Attempted payload h (err e, h') = IsLost (total accepts h) e h'

  Attempted-Sent :
      (payload : Payload) (l : Loaded) (h : List Act)
      → w.find_delivery h payload.delivery_id ≡ some (some l)
      → (r : Result Failure (Unit {0}) × List Act) → Sent l.id (total accepts h) r
      → Attempted payload h r
  Attempted-Sent payload l h e (ok _, h') d = (l, e, inr d)
  Attempted-Sent payload l h e (err u, h') d = d

  deliver_lem :
      (payload : Payload) (l : Loaded) (message : Message) (h : List Act)
      → w.find_delivery h payload.delivery_id ≡ some (some l)
      → Attempted payload h (deliver w payload l message h)
  unfolding deliver pause update_delivery
  deliver_lem payload l message h e = elim (Bool-cases (is_final l.status)) [
    | inl done ↦ rw (done, Attempted) (l, e, inl (done, refl))
    | inr unfinished ↦
        rw (unfinished, Attempted)
          (elim l.custom_domain_paused
            as (λ b.
              Attempted payload h ((if b then pause w l else address w payload l message) h)) [
                | true ↦ ground arith
                | false ↦
                    Attempted-Sent payload l h e _
                      (address_lem w payload l message (total accepts h) h refl)
              ])
  ]

  deliver_message_lem :
      (payload : Payload) (l : Loaded) (message : Option Message) (h : List Act)
      → w.find_delivery h payload.delivery_id ≡ some (some l)
      → Attempted payload h (deliver_message w payload l message h)
  unfolding deliver_message
  deliver_message_lem payload l none h e = (omega arith, inr refl)
  deliver_message_lem payload l (some message) h e = deliver_lem payload l message h e

  attempt_lem :
      (payload : Payload) (row : Option (Option Loaded)) (h : List Act)
      → w.find_delivery h payload.delivery_id ≡ row
      → Attempted payload h
          (bound (found row (persistence load_delivery)) h (deliver_found w payload))
  unfolding deliver_found found
  attempt_lem payload none h e = (omega arith, inr refl)
  attempt_lem payload (some none) h e = (omega arith, inr refl)
  attempt_lem payload (some (some l)) h e = deliver_message_lem payload l l.message h e

  attempt_delivery_lem :
      (payload : Payload) (h : List Act) → Attempted payload h (attempt_delivery w payload h)
  unfolding attempt_delivery query
  attempt_delivery_lem payload h = attempt_lem payload _ h refl

  -- The same for the result of the last `mapError`.
  abbrev Handled : Payload → List Act → Result Failure (Unit {0}) × List Act → Type 0
  Handled payload h (ok _, h') = IsDone payload h h'
  Handled payload h (err e, h') =
      (total accepts h' ≤ total accepts h + 1)
      × ((classify_failure e ≡ retryable) ⊎ (total accepts h' ≡ total accepts h))

  Handled-Attempted :
      (payload : Payload) (h : List Act) (r : Result Failure (Unit {0}) × List Act)
      → Attempted payload h r
      → Handled payload h (elim r.0 [ ok _ ↦ ok tt | err e ↦ err (map_failure e) ], r.1)
  Handled-Attempted payload h (ok _, h') d = d
  Handled-Attempted payload h (err e, h') d = d

  handle_lem : (payload : Payload) (h : List Act) → Handled payload h (handle w payload h)
  unfolding handle
  handle_lem payload h = Handled-Attempted payload h _ (attempt_delivery_lem payload h)

  Handled-accepts :
      (payload : Payload) (h : List Act) (r : Result Failure (Unit {0}) × List Act)
      → Handled payload h r
      → total accepts r.1 ≤ total accepts h + 1
  Handled-accepts payload h (ok _, h') (l, e, inl (f, e')) = rw e' (omega arith)
  Handled-accepts payload h (ok _, h') (l, e, inr (email, (p, m, before, e', e''))) =
      rw e' (omega (arith, e''))
  Handled-accepts payload h (err e, h') (b, _) = b

  Handled-ok :
      (payload : Payload) (h : List Act) (r : Result Failure (Unit {0}) × List Act)
      → Handled payload h r
      → r.0 ≡ ok tt
      → IsDone payload h r.1
  Handled-ok payload h (ok _, h') d e = d
  Handled-ok payload h (err u, h') d e = ground arith

  Handled-terminal :
      (payload : Payload) (h : List Act) (e : Failure) (r : Result Failure (Unit {0}) × List Act)
      → Handled payload h r
      → r.0 ≡ err e
      → classify_failure e ≡ terminal
      → total accepts r.1 ≡ total accepts h
  Handled-terminal payload h e (ok _, h') d e' t = ground arith
  Handled-terminal payload h e (err u, h') (b, d) e' t = ground arith

  -- One run of the job has at most one email accepted, whatever the providers, the database, Redis
  -- and the usage ledger answer, and whether the run succeeds or fails.
  pub accepts-handle :
      (payload : Payload) (h : List Act)
      → total accepts (handle w payload h).1 ≤ total accepts h + 1
  accepts-handle payload h = Handled-accepts payload h _ (handle_lem payload h)

  -- A run succeeds only in two ways. Either the delivery was found sent, skipped or canceled, and
  -- nothing was done; or, as the newest entries of the history say in this order, the breaker
  -- allowed a provider, the usage was metered for the kind of this provider, the provider accepted
  -- the email, its success was recorded, the usage was confirmed, and the transaction was committed
  -- that marks the delivery as sent by it and emits message.sent. No other email was accepted.
  pub handle-ok :
      (payload : Payload) (h : List Act)
      → (handle w payload h).0 ≡ ok tt
      → IsDone payload h (handle w payload h).1
  handle-ok payload h e = Handled-ok payload h _ (handle_lem payload h) e

  -- When a run fails with an error that the job does not try again, no provider has accepted the
  -- email in this run, so that the release of the reservation by onDeadLetter frees no slot that
  -- this run has used.
  pub handle-terminal :
      (payload : Payload) (h : List Act) (e : Failure)
      → (handle w payload h).0 ≡ err e
      → classify_failure e ≡ terminal
      → total accepts (handle w payload h).1 ≡ total accepts h
  handle-terminal payload h e e' t = Handled-terminal payload h e _ (handle_lem payload h) e' t
