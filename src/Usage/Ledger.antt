-- ===== src/Usage/Ledger.antt =====
-- The Lua scripts of packages/channels/src/usage-ledger.ts. Each runs atomically and returns its
-- numeric code with the new state.
pub mod Slots
pub mod Accounts
pub mod Effects
pub mod Settlement
pub mod Lifecycle
pub mod Replay
use relayit.Prelude.{
  ℕ, String, Bool, true, false, not, Option, none, some, List, [], ◌∷◌, ltb, ◌==◌, if◌then◌else◌,
  or_else, str_eq,
}
use relayit.Redis.{Redis}
use relayit.Usage.{
  ProviderKind, same_kind, Status, reserved, confirmed, released, Limit, at_most, unlimited,
  Reservation,
}

-- KEYS of RESERVE and REMETER.
pub record Keys : Type 0 where
  pub reservation : String
  pub daily : String
  pub monthly : String

-- The numeric ARGV that RESERVE and REMETER share.
pub record Limits : Type 0 where
  pub daily_limit : Limit
  pub monthly_limit : Limit
  pub daily_ttl : ℕ
  pub monthly_ttl : ℕ

-- The other ARGV of RESERVE.
pub record Details : Type 0 where
  pub fingerprint : String
  pub organization_id : String
  pub billing_user_id : String
  pub channel : String
  pub purpose : String
  pub provider_kind : ProviderKind
  pub reserved_at : String
  pub period_start : String
  pub period_end : String

abbrev pub usage_tombstone_ttl_seconds : ℕ
usage_tombstone_ttl_seconds = 7_776_000

-- The hash that RESERVE writes.
abbrev pub reservation_of : Keys → Details → Reservation
reservation_of keys d = record {
  fingerprint = d.fingerprint;
  organization_id = d.organization_id;
  billing_user_id = d.billing_user_id;
  channel = d.channel;
  purpose = d.purpose;
  provider_kind = d.provider_kind;
  reserved_at = d.reserved_at;
  period_start = d.period_start;
  period_end = d.period_end;
  daily_key = keys.daily;
  monthly_key = keys.monthly;
  status = reserved;
}

-- The hash after the HSET of REMETER, and after that of CONFIRM or RELEASE.
abbrev pub moved_to : Keys → ProviderKind → Reservation → Reservation
moved_to keys target h = record h {
  provider_kind = target;
  daily_key = keys.daily;
  monthly_key = keys.monthly;
}

abbrev pub with_status : Status → Reservation → Reservation
with_status status h = record h { status = status }

module _ (r : Redis Reservation) where
  open r use {State, get, incr, decr, hgetall, hset, expire}

  -- The number that a counter holds; a missing key counts as 0.
  abbrev pub count : State → String → ℕ
  count s k = or_else (get s k) 0

  -- `INCR key`, and `if count == 1 then EXPIRE key ttl end`.
  unfoldable pub count_up : String → ℕ → State → State
  count_up k seconds s =
      let counted = incr k s in if count counted k == 1 then expire k seconds counted else counted

  -- `if limit >= 0 then … end` up to the early return: whether there was room, and the new state.
  unfoldable pub take_slot : Limit → String → ℕ → State → Bool × State
  take_slot unlimited k seconds s = (true, s)
  take_slot (at_most limit) k seconds s =
      let s' = count_up k seconds s in
      if ltb limit (count s' k) then (false, decr k s') else (true, s')

  -- `if dailyLimit >= 0 then DECR daily end`, on the way out when the month is full.
  unfoldable pub undo_slot : Limit → String → State → State
  undo_slot unlimited k s = s
  undo_slot (at_most _) k s = decr k s

  -- The two counter blocks of RESERVE and REMETER: the code so far, and the new state.
  unfoldable pub take_slots : Limits → String → String → State → ℕ × State
  take_slots l daily monthly s =
      let (day, s') = take_slot l.daily_limit daily l.daily_ttl s in
      if not day
      then (1, s')
      else (let (month, s'') = take_slot l.monthly_limit monthly l.monthly_ttl s' in
          if not month then (2, undo_slot l.daily_limit daily s'') else (0, s''))

  -- `if GET key and tonumber(GET key) > 0 then DECR key end`
  unfoldable pub return_slot : String → State → State
  return_slot k s = elim (get s k) [ none ↦ s | some n ↦ if ltb 0 n then decr k s else s ]

  unfoldable pub reserve_script : Keys → Limits → Details → State → ℕ × State
  reserve_script keys l d s = elim (hgetall s keys.reservation) [
    | some h ↦ if str_eq h.fingerprint d.fingerprint then (0, s) else (3, s)
    | none ↦
        let (code, s') = take_slots l keys.daily keys.monthly s in
        if code == 0 then (0, hset keys.reservation (reservation_of keys d) s') else (code, s')
  ]

  -- REMETER on a reservation that is still reserved, for another kind.
  unfoldable pub move_slots : Keys → Limits → ProviderKind → Reservation → State → ℕ × State
  move_slots keys l target h s =
      let (code, s') = take_slots l keys.daily keys.monthly s in
      if code == 0
      then (
        0,
        hset keys.reservation (moved_to keys target h)
            (return_slot h.monthly_key (return_slot h.daily_key s')),
      )
      else (code, s')

  unfoldable pub remeter_script : Keys → Limits → ProviderKind → String → State → ℕ × State
  remeter_script keys l target fingerprint s = elim (hgetall s keys.reservation) [
    | none ↦ (4, s)
    | some h ↦ if not (str_eq h.fingerprint fingerprint) then (3, s) else elim h.status [
      | reserved ↦ if same_kind h.provider_kind target then (0, s) else move_slots keys l target h s
      | _ ↦ (5, s)
    ]
  ]

  unfoldable pub confirm_script : String → State → ℕ × State
  confirm_script key s = elim (hgetall s key) [
    | none ↦ (4, s)
    | some h ↦ elim h.status [
      | released ↦ (5, s)
      | reserved ↦
          (0, expire key usage_tombstone_ttl_seconds (hset key (with_status confirmed h) s))
      | confirmed ↦ (0, expire key usage_tombstone_ttl_seconds s)
    ]
  ]

  unfoldable pub release_script : String → State → ℕ × State
  release_script key s = elim (hgetall s key) [
    | none ↦ (4, s)
    | some h ↦ elim h.status [
      | reserved ↦ (
        0,
        expire key usage_tombstone_ttl_seconds (
            hset key (with_status released h)
              (return_slot h.monthly_key (return_slot h.daily_key s))),
      )
      | _ ↦ (0, expire key usage_tombstone_ttl_seconds s)
    ]
  ]

-- A call of a script, with its keys and arguments.
pub data Call : Type 0 where
  reserve : Keys → Limits → Details → Call
  remeter : Keys → Limits → ProviderKind → String → Call
  confirm release : String → Call

-- The ledger's method that makes the call: `redis.evaluateNumber({ script, keys, args })`.
unfoldable pub evaluate : (r : Redis Reservation) → Call → Redis.State r → ℕ × Redis.State r
evaluate r (reserve keys l d) s = reserve_script r keys l d s
evaluate r (remeter keys l target fingerprint) s = remeter_script r keys l target fingerprint s
evaluate r (confirm key) s = confirm_script r key s
evaluate r (release key) s = release_script r key s

-- Scripts run one at a time; a history of calls is a list.
unfoldable pub run : (r : Redis Reservation) → List Call → Redis.State r → Redis.State r
run r [] s = s
run r (c ∷ cs) s = run r cs (evaluate r c s).1
