-- ===== src/Usage/Service.antt =====
-- The service of packages/channels/src/usage.ts over the ledger of usage-ledger.ts.
pub mod Outcomes
pub mod Metering
use relayit.Prelude.{
  ℕ, ◌+◌, ◌-◌, ◌*◌, ◌/◌, max, String, Bool, true, false, ◌||◌, ◌&&◌, Option, none, some, Result, ok,
  err, ◌==◌, if◌then◌else◌, str_eq,
}
use Prim.Native.String.{slice, ◌++◌}
use relayit.Redis.{Redis}
use relayit.Usage.{
  ProviderKind, managed, byo, Status, reserved, confirmed, released, Limit, at_most, unlimited,
  Reservation,
}
use relayit.Usage.Ledger.{Keys, Limits, Details, Call, evaluate, reserve, remeter, confirm, release}

-- A `Date`: its milliseconds since 1970 and the text of `toISOString()`.
pub record Date : Type 0 where
  pub millis : ℕ
  pub iso : String

pub record UsagePolicyResult : Type 0 where
  pub billing_user_id : String
  pub daily_limit : Option ℕ
  pub monthly_limit : Option ℕ
  pub period_end : Date
  pub period_start : Date

-- UsageLedgerDimensions; UsageReservationInput adds the delivery.
pub record Dimensions : Type 0 where
  pub channel : String
  pub organization_id : String
  pub provider_kind : ProviderKind
  pub purpose : String
  pub reserved_at : String

pub data Window : Type 0 where
  daily monthly : Window

pub data Operation : Type 0 where
  confirming loading releasing remetering reserving : Operation

pub data UsageError : Type 0 where
  infrastructure : Operation → UsageError
  limit_exceeded : String → ProviderKind → ℕ → Window → UsageError
  policy_error : String → UsageError
  reservation_conflict : String → String → UsageError
  reservation_not_found : String → UsageError

abbrev pub day_millis : ℕ
day_millis = 86_400_000

-- `Date.UTC(year, month, date + 1)` of a time: the next midnight of UTC.
unfoldable pub next_midnight : ℕ → ℕ
next_midnight t = (t / day_millis + 1) * day_millis

unfoldable pub seconds_until : ℕ → ℕ → ℕ
seconds_until end from = max 1 ((end - from + 999) / 1000)

abbrev limit_arg : Option ℕ → Limit
limit_arg none = unlimited
limit_arg (some n) = at_most n

abbrev kind_text : ProviderKind → String
kind_text managed = "managed"
kind_text byo = "byo"

unfoldable pub reservation_key : String → String
reservation_key delivery_id = "relayit:usage:reservation:" ++ delivery_id

counter_prefix : UsagePolicyResult → Dimensions → String
counter_prefix policy input =
    "relayit:usage:"
    ++ policy.billing_user_id
    ++ ":"
    ++ input.channel
    ++ ":"
    ++ input.purpose
    ++ ":"
    ++ kind_text input.provider_kind

unfoldable pub counter_keys : String → UsagePolicyResult → Dimensions → Keys
unfolding counter_prefix
counter_keys delivery_id policy input = record {
  reservation = reservation_key delivery_id;
  daily = counter_prefix policy input ++ ":day:" ++ slice input.reserved_at 0 10;
  monthly = counter_prefix policy input ++ ":period:" ++ policy.period_start.iso;
}

unfoldable pub reservation_result :
    ℕ → String → UsagePolicyResult → ProviderKind → ℕ → Result UsageError UsagePolicyResult
reservation_result code delivery_id policy kind reserved_at =
    if code == 0
    then ok policy
    else if code == 1
    then err (limit_exceeded delivery_id kind (next_midnight reserved_at) daily)
    else if code == 2
    then err (limit_exceeded delivery_id kind policy.period_end.millis monthly)
    else if code == 3
    then err
        (reservation_conflict delivery_id "Delivery Usage was reserved with different dimensions")
    else if code == 4
    then err (reservation_not_found delivery_id)
    else err (reservation_conflict delivery_id "Delivery Usage is already finalized")

-- The two messages of `finalizeResult`.
abbrev finalize_message : Operation → String
finalize_message confirming = "Released Usage cannot be confirmed"
finalize_message _ = "Usage could not be released"

unfoldable pub finalize_result : ℕ → String → Operation → Result UsageError (Unit {0})
finalize_result code delivery_id operation =
    if code == 0
    then ok tt
    else if code == 4
    then err (reservation_not_found delivery_id)
    else err (reservation_conflict delivery_id (finalize_message operation))

-- The codec's literals for the channel and the purpose.
unfoldable pub decode_snapshot : Reservation → Result UsageError Reservation
decode_snapshot h =
    if str_eq h.channel "email"
      && (str_eq h.purpose "transactional" || str_eq h.purpose "marketing")
    then ok h
    else err (infrastructure loading)

-- LOAD returns "__missing__" (here `none`) or the fields of the hash.
unfoldable pub parse_snapshot : String → Option Reservation → Result UsageError Reservation
parse_snapshot delivery_id none = err (reservation_not_found delivery_id)
parse_snapshot delivery_id (some h) = decode_snapshot h

-- What becomes of a command to Redis: it is answered, or the connection fails before or after the
-- script ran.
pub data Fate : Type 0 where
  answered lost_before lost_after : Fate

-- What the service uses of its surroundings: the fate of each command, `new Date(text)`,
-- `JSON.stringify` of the fingerprint's fields, and the UsagePolicy service.
pub record Surroundings (r : Redis Reservation) : Type 0 where
  pub fate : Operation → Redis.State r → Fate
  pub parse_date : String → ℕ
  pub stringify : Dimensions → String → String
  pub resolve : Dimensions → Option String → Result UsageError UsagePolicyResult

module _ (r : Redis Reservation) (w : Surroundings r) where
  open r use {State, hgetall}
  open w use {fate, parse_date, stringify, resolve}

  -- `redis.evaluateNumber`: the code, or `none` for a RedisError.
  unfoldable pub send : Operation → Call → State → Option ℕ × State
  send operation c s = elim (fate operation s) [
    | answered ↦ (some (evaluate r c s).0, (evaluate r c s).1)
    | lost_before ↦ (none, s)
    | lost_after ↦ (none, (evaluate r c s).1)
  ]

  unfoldable pub limits_of : UsagePolicyResult → Dimensions → Limits
  limits_of policy input = record {
    daily_limit = limit_arg policy.daily_limit;
    monthly_limit = limit_arg policy.monthly_limit;
    daily_ttl =
        seconds_until (next_midnight (parse_date input.reserved_at)) (parse_date input.reserved_at);
    monthly_ttl = seconds_until policy.period_end.millis (parse_date input.reserved_at);
  }

  unfoldable pub details_of : UsagePolicyResult → Dimensions → Details
  details_of policy input = record {
    fingerprint = stringify input policy.billing_user_id;
    organization_id = input.organization_id;
    billing_user_id = policy.billing_user_id;
    channel = input.channel;
    purpose = input.purpose;
    provider_kind = input.provider_kind;
    reserved_at = input.reserved_at;
    period_start = policy.period_start.iso;
    period_end = policy.period_end.iso;
  }

  unfoldable pub reserve_call : String → Dimensions → UsagePolicyResult → Call
  reserve_call delivery_id input policy =
      reserve (counter_keys delivery_id policy input) (limits_of policy input)
        (details_of policy input)

  unfoldable pub remeter_call : String → Dimensions → UsagePolicyResult → String → Call
  remeter_call delivery_id input policy fingerprint =
      remeter (counter_keys delivery_id policy input) (limits_of policy input) input.provider_kind
        fingerprint

  unfoldable pub reserve_usage :
      String → Dimensions → State → Result UsageError UsagePolicyResult × State
  unfolding reserve_call
  reserve_usage delivery_id input s = elim (resolve input none) [
    | err e ↦ (err e, s)
    | ok policy ↦
        let (code, s') = send reserving (reserve_call delivery_id input policy) s in
        elim code [
          | none ↦ (err (infrastructure reserving), s')
          | some n ↦ (
            reservation_result n delivery_id policy input.provider_kind
                (parse_date input.reserved_at),
            s',
          )
        ]
  ]

  -- `load`: the read of the hash may fail, and changes nothing.
  unfoldable pub load : String → State → Result UsageError Reservation
  load delivery_id s = elim (fate loading s) [
    | answered ↦ parse_snapshot delivery_id (hgetall s (reservation_key delivery_id))
    | _ ↦ err (infrastructure loading)
  ]

  abbrev pub dimensions_of : Reservation → ProviderKind → Dimensions
  dimensions_of h kind = record {
    channel = h.channel;
    organization_id = h.organization_id;
    provider_kind = kind;
    purpose = h.purpose;
    reserved_at = h.reserved_at;
  }

  unfoldable pub remeter_usage :
      String → ProviderKind → State → Result UsageError (Unit {0}) × State
  unfolding remeter_call
  remeter_usage delivery_id kind s = elim (load delivery_id s) [
    | err e ↦ (err e, s)
    | ok h ↦ elim (resolve (dimensions_of h kind) (some h.billing_user_id)) [
      | err e ↦ (err e, s)
      | ok policy ↦
          let (code, s') =
            send remetering (remeter_call delivery_id (dimensions_of h kind) policy h.fingerprint)
              s in
          elim code [
            | none ↦ (err (infrastructure remetering), s')
            | some n ↦
                elim (reservation_result n delivery_id policy kind (parse_date h.reserved_at)) [
                  | ok _ ↦ (ok tt, s')
                  | err e ↦ (err e, s')
                ]
          ]
    ]
  ]

  -- `finalize`, for CONFIRM and RELEASE.
  finalize : (String → Call) → Operation → String → State → Result UsageError (Unit {0}) × State
  finalize script operation delivery_id s =
      let (code, s') = send operation (script (reservation_key delivery_id)) s in
      elim code [
        | none ↦ (err (infrastructure operation), s')
        | some n ↦ (finalize_result n delivery_id operation, s')
      ]

  unfoldable pub confirm_usage : String → State → Result UsageError (Unit {0}) × State
  unfolding finalize
  confirm_usage = finalize confirm confirming

  unfoldable pub release_usage : String → State → Result UsageError (Unit {0}) × State
  unfolding finalize
  release_usage = finalize release releasing
