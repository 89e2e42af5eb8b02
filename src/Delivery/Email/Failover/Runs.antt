-- ===== src/Delivery/Email/Failover/Runs.antt =====
-- The loops over the provider identities in handler.ts: what a run leaves behind.
use relayit.Prelude.{
  ℕ, ◌+◌, ◌≤◌, ◌≡◌, refl, String, Bool, true, false, Option, none, some, List, [], ◌∷◌, arith,
  Result, ok, err, total,
}
use relayit.Effects.{bound, succeed}
use relayit.Delivery.Email.{Identity, Provider, Loaded, ProviderEmail, Failure}
use relayit.Delivery.Email.Identities.{provider_kind_for}
use relayit.Delivery.Email.Work.{
  to_sent, message_sent, Outcome, committed, update_failed, emit_failed, commit_failed, Act,
  transacted, allowed, remetered, sent_by, success_recorded, confirmed, Surroundings, Work,
}
use relayit.Delivery.Email.Send.{
  Attempt, accepted, refused, transaction_result, usage_result, transact_event, allow_result, allow,
  confirm_usage, mark_sent,
}
use relayit.Delivery.Email.Failures.{map_failure, classify_failure}
use relayit.Delivery.Email.Failover.{
  next_standby, try_standby, send_standby, fail_all, end_standby, send_rest, end_primary,
  try_primary, send_all,
}
use relayit.Delivery.Email.Failover.Sends.{accepts, IsRetried, Attempted, try_send_lem}

-- The newest entries after an accepted email: the breaker allowed the provider, the usage was
-- metered for its kind, the provider accepted, and its success was recorded.
abbrev pub after_send : String → Provider → ProviderEmail → String → List Act → List Act
after_send id provider email sent_id before =
    success_recorded provider.id true
    ∷ sent_by provider email (some sent_id)
    ∷ remetered id (provider_kind_for provider) (ok tt)
    ∷ allowed provider.id (some true)
    ∷ before

-- A run that ends well: then the usage was confirmed, and the row and the event are committed.
abbrev pub IsDelivered : String → ProviderEmail → ℕ → List Act → Type 0
IsDelivered id email n h =
    (provider : Provider) × (sent_id : String) × (before : List Act) × (h
      ≡ transacted id (to_sent provider.id sent_id) (message_sent sent_id) committed
        ∷ confirmed id (ok tt)
        ∷ after_send id provider email sent_id before)
    × (total accepts before ≡ n)

abbrev pub IsFailed : ℕ → Failure → List Act → Type 0
IsFailed n e h = (total accepts h ≤ n + 1) × IsRetried e

abbrev pub Ran : String → ProviderEmail → ℕ → Result Failure (Unit {0}) × List Act → Type 0
Ran id email n (ok _, h) = IsDelivered id email n h
Ran id email n (err e, h) = IsFailed n e h

-- The same for the loop, which may end with nothing sent.
abbrev Looped :
    String → ProviderEmail → ℕ → Result Failure (Option (Option String)) × List Act → Type 0
Looped id email n (ok none, h) = IsDelivered id email n h
Looped id email n (ok (some last), h) = total accepts h ≡ n
Looped id email n (err e, h) = IsFailed n e h

module _ (w : Surroundings) where
  commit_lem :
      (id : String) (provider : Provider) (email : ProviderEmail) (sent_id : String) (n : ℕ)
      (before : List Act) (outcome : Outcome)
      → total accepts before ≡ n
      → Ran id email n (
        transaction_result outcome "Failed to emit message.sent",
        transacted id (to_sent provider.id sent_id) (message_sent sent_id) outcome
            ∷ confirmed id (ok tt)
            ∷ after_send id provider email sent_id before,
      )
  unfolding transaction_result map_failure classify_failure
  commit_lem id provider email sent_id n before committed e = (provider, sent_id, before, refl, e)
  commit_lem id provider email sent_id n before update_failed e = ground arith
  commit_lem id provider email sent_id n before emit_failed e = ground arith
  commit_lem id provider email sent_id n before commit_failed e = ground arith

  mark_sent_lem :
      (id : String) (provider : Provider) (email : ProviderEmail) (sent_id : String) (n : ℕ)
      (before : List Act)
      → total accepts before ≡ n
      → Ran id email n
          (mark_sent w id provider.id sent_id (after_send id provider email sent_id before))
  unfolding mark_sent confirm_usage usage_result transact_event map_failure classify_failure
  mark_sent_lem id provider email sent_id n before e =
      let h = after_send id provider email sent_id before in
      elim (w.confirm h id)
        as (λ answer. Ran id email n (
          bound (usage_result answer) (confirmed id answer ∷ h) (λ _.
            transact_event w id (to_sent provider.id sent_id) (message_sent sent_id)
              "Failed to emit message.sent"))) [
                | ok _ ↦ commit_lem id provider email sent_id n before _ e
                | err u ↦ ground arith
              ]

  next_standby-accepted :
      (id : String) (email : ProviderEmail) (n : ℕ) (r : Result Failure (Unit {0}) × List Act)
      → Ran id email n r
      → Looped id email n (bound r.0 r.1 (λ _. succeed none))
  next_standby-accepted id email n (ok _, h) d = d
  next_standby-accepted id email n (err e, h) d = d

  -- What follows an attempt through a standby identity, by its result.
  next_standby_lem :
      (l : Loaded) (email : ProviderEmail) (provider : Provider) (n : ℕ) (before : List Act)
      (continue : Option String → Work (Option (Option String)))
      → total accepts before ≡ n
      → ((last : Option String) (h : List Act)
          → total accepts h ≡ n
          → Looped l.id email n (continue last h))
      → (r : Result Failure Attempt × List Act)
      → Attempted l.id provider email (allowed provider.id (some true) ∷ before) r
      → Looped l.id email n (bound r.0 r.1 (next_standby w l continue))
  unfolding next_standby
  next_standby_lem l email provider n before continue e k (ok (accepted p m), h) (e', e'') =
      rw (e', e'')
        (next_standby-accepted l.id email n _ (mark_sent_lem l.id provider email m n before e))
  next_standby_lem l email provider n before continue e k (ok (refused t b), h) a =
      k (some t) h (ground arith)
  next_standby_lem l email provider n before continue e k (err u, h) a = ground arith

  try_standby_lem :
      (l : Loaded) (email : ProviderEmail) (i : Identity) (last : Option String) (n : ℕ)
      (before : List Act) (continue : Option String → Work (Option (Option String)))
      → total accepts before ≡ n
      → ((last' : Option String) (h : List Act)
          → total accepts h ≡ n
          → Looped l.id email n (continue last' h))
      → (answer : Option Bool)
      → Looped l.id email n (
          bound
            (allow_result answer)
            (allowed i.provider.id answer ∷ before)
            (try_standby w l email i continue last))
  unfolding try_standby allow_result map_failure classify_failure
  try_standby_lem l email i last n before continue e k none = ground arith
  try_standby_lem l email i last n before continue e k (some false) = k last _ (ground arith)
  try_standby_lem l email i last n before continue e k (some true) =
      next_standby_lem l email i.provider n before continue e k _ (try_send_lem w l.id i email _)

  send_standby_lem :
      (l : Loaded) (email : ProviderEmail) (standby : List Identity) (last : Option String) (n : ℕ)
      (h : List Act)
      → total accepts h ≡ n
      → Looped l.id email n (send_standby w l email standby last h)
  unfolding send_standby allow
  send_standby_lem l email [] last n h e = e
  send_standby_lem l email (i ∷ rest) last n h e =
      try_standby_lem l email i last n h (send_standby w l email rest) e
        (λ last' h'. send_standby_lem l email rest last' n h') _

  fail_all_lem :
      (l : Loaded) (email : ProviderEmail) (last : Option String) (n : ℕ) (h : List Act)
      → total accepts h ≡ n
      → Ran l.id email n (fail_all w l last h)
  unfolding fail_all transact_event transaction_result map_failure classify_failure
  fail_all_lem l email last n h e = ground arith

  end_standby_lem :
      (l : Loaded) (email : ProviderEmail) (n : ℕ)
      (r : Result Failure (Option (Option String)) × List Act)
      → Looped l.id email n r
      → Ran l.id email n (bound r.0 r.1 (end_standby w l))
  unfolding end_standby
  end_standby_lem l email n (ok none, h) d = d
  end_standby_lem l email n (ok (some last), h) d = fail_all_lem l email last n h d
  end_standby_lem l email n (err e, h) d = d

  send_rest_lem :
      (l : Loaded) (email : ProviderEmail) (standby : List Identity) (n : ℕ) (h : List Act)
      → total accepts h ≡ n
      → Ran l.id email n (send_rest w l email standby h)
  unfolding send_rest
  send_rest_lem l email standby n h e =
      end_standby_lem l email n _ (send_standby_lem l email standby none n h e)

  end_primary_lem :
      (l : Loaded) (email : ProviderEmail) (standby : List Identity) (provider : Provider) (n : ℕ)
      (before : List Act)
      → total accepts before ≡ n
      → (r : Result Failure Attempt × List Act)
      → Attempted l.id provider email (allowed provider.id (some true) ∷ before) r
      → Ran l.id email n (bound r.0 r.1 (end_primary w l email standby))
  unfolding end_primary map_failure classify_failure
  end_primary_lem l email standby provider n before e (ok (accepted p m), h) (e', e'') =
      rw (e', e'') (mark_sent_lem l.id provider email m n before e)
  end_primary_lem l email standby provider n before e (ok (refused t true), h) a =
      send_rest_lem l email standby n h (ground arith)
  end_primary_lem l email standby provider n before e (ok (refused t false), h) a = ground arith
  end_primary_lem l email standby provider n before e (err u, h) a = ground arith

  try_primary_lem :
      (l : Loaded) (email : ProviderEmail) (i : Identity) (standby : List Identity) (n : ℕ)
      (before : List Act)
      → total accepts before ≡ n
      → (answer : Option Bool)
      → Ran l.id email n (
          bound
            (allow_result answer)
            (allowed i.provider.id answer ∷ before)
            (try_primary w l email i standby))
  unfolding try_primary allow_result map_failure classify_failure
  try_primary_lem l email i standby n before e none = ground arith
  try_primary_lem l email i standby n before e (some false) =
      send_rest_lem l email standby n _ (ground arith)
  try_primary_lem l email i standby n before e (some true) =
      end_primary_lem l email standby i.provider n before e _ (try_send_lem w l.id i email _)

  pub send_all_lem :
      (l : Loaded) (email : ProviderEmail) (routes : List Identity) (n : ℕ) (h : List Act)
      → total accepts h ≡ n
      → Ran l.id email n (send_all w l email routes h)
  unfolding send_all allow
  send_all_lem l email [] n h e = send_rest_lem l email [] n h e
  send_all_lem l email (i ∷ standby) n h e = try_primary_lem l email i standby n h e _
