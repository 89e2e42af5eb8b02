-- ===== src/Delivery/Email/Failover/Sends.antt =====
-- What one run of the delivery job sends, and what it leaves behind: trySendWithIdentity and the
-- loops over the identities in handler.ts.
use relayit.Prelude.{
  ℕ, ◌+◌, ◌≤◌, ◌≡◌, refl, String, true, false, Option, none, some, List, ◌∷◌, arith, Result, ok,
  err, total, if◌then◌else◌,
}
use relayit.Jobs.{retryable}
use relayit.Effects.{succeed, ask, bound}
use relayit.Usage.Service.{
  limit_exceeded, infrastructure as usage_failure, policy_error, reservation_conflict,
  reservation_not_found,
}
use relayit.Delivery.Email.{infrastructure, Identity, Provider, ProviderEmail, Failure}
use relayit.Delivery.Email.Identities.{provider_kind_for}
use relayit.Delivery.Email.Work.{Act, remetered, sent_by, success_recorded, Surroundings}
use relayit.Delivery.Email.Send.{
  Attempt, accepted, refused, bucket_exhausted, allow_result, allow, record_failure, record_success,
  remeter, send_email, conclude, send_unless, try_send,
}
use relayit.Delivery.Email.Failures.{map_failure, classify_failure}

-- An email that a provider has accepted.
abbrev pub accepts : Act → ℕ
accepts (sent_by provider email (some sent_id)) = 1
accepts _ = 0

-- The job is tried again after this error.
abbrev pub IsRetried : Failure → Type 0
IsRetried e = classify_failure (map_failure e) ≡ retryable

-- What an attempt through a provider leaves: an accepted email was metered before it.
abbrev pub Attempted :
    String → Provider → ProviderEmail → List Act → Result Failure Attempt × List Act → Type 0
Attempted id provider email h (ok (accepted provider_id sent_id), h') =
    (provider_id ≡ provider.id)
    × (h'
        ≡ success_recorded provider.id true
          ∷ sent_by provider email (some sent_id)
          ∷ remetered id (provider_kind_for provider) (ok tt)
          ∷ h)
Attempted id provider email h (ok (refused text leave_active), h') =
    total accepts h' ≡ total accepts h
Attempted id provider email h (err e, h') = (total accepts h' ≤ total accepts h + 1) × IsRetried e

module _ (w : Surroundings) where
  conclude-refused :
      (id : String) (provider : Provider) (email : ProviderEmail) (h₀ h : List Act)
      → total accepts h ≡ total accepts h₀
      → Attempted id provider email h₀ (conclude w provider none h)
  unfolding conclude record_failure allow allow_result map_failure classify_failure
  conclude-refused id provider email h₀ h e = ground arith

  -- The newest entries before the success is recorded.
  abbrev asked : String → Provider → ProviderEmail → Option String → List Act → List Act
  asked id provider email answer h =
      sent_by provider email answer ∷ remetered id (provider_kind_for provider) (ok tt) ∷ h

  conclude-accepted :
      (id : String) (provider : Provider) (email : ProviderEmail) (sent_id : String) (h : List Act)
      → Attempted id provider email h
          (conclude w provider (some sent_id) (asked id provider email (some sent_id) h))
  unfolding conclude record_success map_failure classify_failure
  conclude-accepted id provider email sent_id h =
      let start = asked id provider email (some sent_id) h in
      elim (w.circuit_success start provider.id)
        as (λ b. Attempted id provider email h (
          bound (if b then ok tt else err infrastructure) (success_recorded provider.id b ∷ start)
            (λ _. succeed (accepted provider.id sent_id)))) [
              | true ↦ (refl, refl)
              | false ↦ ground arith
            ]

  conclude_lem :
      (id : String) (provider : Provider) (email : ProviderEmail) (answer : Option String)
      (h : List Act)
      → Attempted id provider email h
          (conclude w provider answer (asked id provider email answer h))
  conclude_lem id provider email none h = conclude-refused id provider email h _ (ground arith)
  conclude_lem id provider email (some sent_id) h = conclude-accepted id provider email sent_id h

  send_unless_lem :
      (id : String) (i : Identity) (email : ProviderEmail) (h : List Act)
      → Attempted id i.provider email h
          (send_unless w i email false (remetered id (provider_kind_for i.provider) (ok tt) ∷ h))
  unfolding send_unless send_email
  send_unless_lem id i email h =
      let start = remetered id (provider_kind_for i.provider) (ok tt) ∷ h in
      elim (w.open_adapter start i.provider)
        as (λ b. Attempted id i.provider email h (
          let (x, h') =
            if b
            then ask (λ h'. w.adapter_send h' i.provider email) (sent_by i.provider email) start
            else (ok none, start) in
          bound x h' (conclude w i.provider))) [
            | true ↦ conclude_lem id i.provider email _ h
            | false ↦ conclude-refused id i.provider email h _ (ground arith)
          ]

  pub try_send_lem :
      (id : String) (i : Identity) (email : ProviderEmail) (h : List Act)
      → Attempted id i.provider email h (try_send w id i email h)
  unfolding try_send remeter bucket_exhausted send_unless map_failure classify_failure
  try_send_lem id i email h =
      let kind = provider_kind_for i.provider in
      elim (w.remeter h id kind)
        as (λ answer. Attempted id i.provider email h (
          bound (bucket_exhausted answer) (remetered id kind answer ∷ h) (send_unless w i email))) [
            | ok _ ↦ send_unless_lem id i email h
            | err (limit_exceeded _ _ _ _) ↦ ground arith
            | err (usage_failure _) ↦ ground arith
            | err (policy_error _) ↦ ground arith
            | err (reservation_conflict _ _) ↦ ground arith
            | err (reservation_not_found _) ↦ ground arith
          ]
