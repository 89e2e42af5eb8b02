-- ===== src/Jobs/Storage/Recurrence.antt =====
-- The schedule of recurring jobs: SCHEDULE_RECURRING_JOB_SCRIPT, CANCEL_RECURRING_JOB_SCRIPT and
-- PROMOTE_SCHEDULED_JOBS_SCRIPT of storage.ts.
use relayit.Prelude.{
  ℕ, ◌+◌, ◌≤◌, ◌<◌, String, ◌≡◌, refl, true, Option, none, some, List, [], ◌∷◌, arith, str_eq,
  eq_iff, eq_refl, if◌then◌else◌, length, ◌==◌,
}
use relayit.Prelude.Counts.{count, count-append}
use relayit.Redis.{is_some}
use relayit.Redis.Queues.{Queues}
use relayit.Jobs.Storage.{
  JobKeys, schedule_script, cancel_script, promote_identity, promote_identities,
  promote_scheduled_script,
}

pub data Command : Type 0 where
  schedule : String → String → ℕ → Command
  cancel : String → Command
  promote : ℕ → ℕ → Command

module _ (q : Queues) (keys : JobKeys) where
  open q use {
    State, stream, xadd, score, zadd, zrem, due, field, hset, hdel, stream-xadd, stream-zadd,
    stream-zrem, stream-hset, stream-hdel, score-xadd, score-zadd, score-zrem, score-hset,
    score-hdel, field-xadd, field-zadd, field-zrem, field-hset, field-hdel, due_once, due_scored,
    due_all,
  }

  unfoldable pub execute : Command → State → State
  execute (schedule identity envelope run_at) s =
      (schedule_script q keys run_at identity envelope s).1
  execute (cancel identity) s = (cancel_script q keys identity s).1
  execute (promote now limit) s = (promote_scheduled_script q keys now limit s).1

  unfoldable pub run : List Command → State → State
  run [] s = s
  run (c ∷ cs) s = run cs (execute c s)

  -- An identity has a time exactly when it has a payload.
  abbrev pub IsPaired : State → String → Type 0
  IsPaired s i = is_some (score s keys.scheduled i) ≡ is_some (field s keys.payloads i)

  score-promote_identity :
      (identity : String) (found : Option String) (n : ℕ) (s : State) (i : String)
      → score (promote_identity q keys identity found n s).1 keys.scheduled i
        ≡ (if str_eq identity i then none else score s keys.scheduled i)
  unfolding promote_identity
  score-promote_identity identity none n s i = ground (
    arith,
    score-hdel (zrem keys.scheduled identity s) keys.payloads identity keys.scheduled i,
    score-zrem s keys.scheduled keys.scheduled identity i,
    eq_refl keys.scheduled,
  )
  score-promote_identity identity (some e) n s i = ground (
    arith,
    score-hdel (zrem keys.scheduled identity (xadd keys.ready e s)) keys.payloads identity
        keys.scheduled i,
    score-zrem (xadd keys.ready e s) keys.scheduled keys.scheduled identity i,
    score-xadd s keys.ready keys.scheduled e i,
    eq_refl keys.scheduled,
  )

  field-promote_identity :
      (identity : String) (found : Option String) (n : ℕ) (s : State) (i : String)
      → field (promote_identity q keys identity found n s).1 keys.payloads i
        ≡ (if str_eq identity i then none else field s keys.payloads i)
  unfolding promote_identity
  field-promote_identity identity none n s i = ground (
    arith,
    field-hdel (zrem keys.scheduled identity s) keys.payloads keys.payloads identity i,
    field-zrem s keys.scheduled identity keys.payloads i,
    eq_refl keys.payloads,
  )
  field-promote_identity identity (some e) n s i = ground (
    arith,
    field-hdel (zrem keys.scheduled identity (xadd keys.ready e s)) keys.payloads keys.payloads
        identity i,
    field-zrem (xadd keys.ready e s) keys.scheduled identity keys.payloads i,
    field-xadd s keys.ready e keys.payloads i,
    eq_refl keys.payloads,
  )

  -- What one identity adds to the ready stream.
  abbrev pub ready_of : Option String → List String
  ready_of none = []
  ready_of (some envelope) = envelope ∷ []

  stream-promote_identity :
      (identity : String) (found : Option String) (n : ℕ) (s : State) (m : String)
      → count m (stream (promote_identity q keys identity found n s).1 keys.ready)
        ≡ count m (stream s keys.ready) + count m (ready_of found)
  unfolding promote_identity
  stream-promote_identity identity none n s m = ground (
    arith,
    stream-hdel (zrem keys.scheduled identity s) keys.payloads keys.ready identity,
    stream-zrem s keys.scheduled keys.ready identity,
  )
  stream-promote_identity identity (some e) n s m = ground (
    arith,
    stream-hdel (zrem keys.scheduled identity (xadd keys.ready e s)) keys.payloads keys.ready
        identity,
    stream-zrem (xadd keys.ready e s) keys.scheduled keys.ready identity,
    stream-xadd s keys.ready keys.ready e,
    eq_refl keys.ready,
    count-append m (stream s keys.ready) (e ∷ []),
  )

  pub score-promote_identities :
      (ids : List String) (n : ℕ) (s : State) (i : String)
      → score (promote_identities q keys ids n s).1 keys.scheduled i
        ≡ (if count i ids == 0 then score s keys.scheduled i else none)
  unfolding promote_identities
  score-promote_identities [] n s i = ground arith
  score-promote_identities (id ∷ ids) n s i =
      let found = field s keys.payloads id in
      ground (
        arith,
        score-promote_identities ids (promote_identity q keys id found n s).0
            (promote_identity q keys id found n s).1 i,
        score-promote_identity id found n s i,
      )

  pub field-promote_identities :
      (ids : List String) (n : ℕ) (s : State) (i : String)
      → field (promote_identities q keys ids n s).1 keys.payloads i
        ≡ (if count i ids == 0 then field s keys.payloads i else none)
  unfolding promote_identities
  field-promote_identities [] n s i = ground arith
  field-promote_identities (id ∷ ids) n s i =
      let found = field s keys.payloads id in
      ground (
        arith,
        field-promote_identities ids (promote_identity q keys id found n s).0
            (promote_identity q keys id found n s).1 i,
        field-promote_identity id found n s i,
      )

  execute-IsPaired :
      (c : Command) (s : State) (i : String) → IsPaired s i → IsPaired (execute c s) i
  unfolding execute schedule_script cancel_script promote_scheduled_script
  execute-IsPaired (schedule id e at) s i h = ground (
    arith,
    score-zadd (hset keys.payloads id e s) keys.scheduled keys.scheduled id i at,
    score-hset s keys.payloads id e keys.scheduled i,
    field-zadd (hset keys.payloads id e s) keys.scheduled id keys.payloads i at,
    field-hset s keys.payloads keys.payloads id i e,
    eq_refl keys.scheduled,
    eq_refl keys.payloads,
  )
  execute-IsPaired (cancel id) s i h = ground (
    arith,
    score-hdel (zrem keys.scheduled id s) keys.payloads id keys.scheduled i,
    score-zrem s keys.scheduled keys.scheduled id i,
    field-hdel (zrem keys.scheduled id s) keys.payloads keys.payloads id i,
    field-zrem s keys.scheduled id keys.payloads i,
    eq_refl keys.scheduled,
    eq_refl keys.payloads,
  )
  execute-IsPaired (promote now limit) s i h = ground (
    arith,
    score-promote_identities (due s keys.scheduled now limit) 0 s i,
    field-promote_identities (due s keys.scheduled now limit) 0 s i,
  )

  -- Under any interleaving of schedule, cancel and promote, an identity that had a time exactly when
  -- it had a payload still does: no identity is left without its payload, and no payload without a
  -- time at which it is run or removed.
  pub run-IsPaired :
      (cs : List Command) (s : State) (i : String) → IsPaired s i → IsPaired (run cs s) i
  unfolding run
  run-IsPaired [] s i h = h
  run-IsPaired (c ∷ cs) s i h = run-IsPaired cs (execute c s) i (execute-IsPaired c s i h)

  -- How often the payloads of the identities are an envelope.
  abbrev pub payloads_of : State → String → List String → ℕ
  payloads_of s m [] = 0
  payloads_of s m (id ∷ ids) = count m (ready_of (field s keys.payloads id)) + payloads_of s m ids

  payloads_of-promote_identity :
      (identity : String) (found : Option String) (n : ℕ) (s : State) (m : String)
      (ids : List String)
      → count identity ids ≡ 0
      → payloads_of (promote_identity q keys identity found n s).1 m ids ≡ payloads_of s m ids
  payloads_of-promote_identity identity found n s m [] h = refl
  payloads_of-promote_identity identity found n s m (id ∷ ids) h = ground (
    arith,
    eq_iff id identity,
    eq_iff identity id,
    field-promote_identity identity found n s id,
    payloads_of-promote_identity identity found n s m ids,
  )

  stream-promote_identities :
      (ids : List String) (n : ℕ) (s : State) (m : String)
      → ((i : String) → count i ids ≤ 1)
      → count m (stream (promote_identities q keys ids n s).1 keys.ready)
        ≡ count m (stream s keys.ready) + payloads_of s m ids
  unfolding promote_identities
  stream-promote_identities [] n s m h = omega arith
  stream-promote_identities (id ∷ ids) n s m h =
      let found = field s keys.payloads id in
      let next = promote_identity q keys id found n s in
      let fewer : (i : String) → count i ids ≤ 1 = λ i. omega (arith, h i) in
      let absent : count id ids ≡ 0 = ground (arith, h id, eq_refl id) in
      omega (
        arith,
        stream-promote_identities ids next.0 next.1 m fewer,
        stream-promote_identity id found n s m,
        payloads_of-promote_identity id found n s m ids absent,
      )

  number-promote_identity :
      (identity : String) (found : Option String) (n : ℕ) (s : State)
      → is_some found ≡ true
      → (promote_identity q keys identity found n s).0 ≡ n + 1
  unfolding promote_identity
  number-promote_identity identity none n s h = cc
  number-promote_identity identity (some e) n s h = refl

  number-promote_identities :
      (ids : List String) (n : ℕ) (s : State)
      → ((i : String) → count i ids ≤ 1)
      → ((i : String) → 0 < count i ids → is_some (field s keys.payloads i) ≡ true)
      → (promote_identities q keys ids n s).0 ≡ n + length ids
  unfolding promote_identities
  number-promote_identities [] n s h k = omega arith
  number-promote_identities (id ∷ ids) n s h k =
      let found = field s keys.payloads id in
      let next = promote_identity q keys id found n s in
      let there : is_some found ≡ true = k id (ground (arith, eq_refl id)) in
      let rest : next.0 ≡ n + 1 = number-promote_identity id found n s there in
      let fewer : (i : String) → count i ids ≤ 1 = λ i. omega (arith, h i) in
      let others : (i : String) → 0 < count i ids → is_some (field next.1 keys.payloads i) ≡ true =
        λ i p.
          ground
            (arith, p, h id, k i, eq_refl id, eq_iff id i, field-promote_identity id found n s i) in
      omega (arith, rest, number-promote_identities ids next.0 next.1 fewer others)

  -- Where times and payloads are paired, a promotion appends for each due identity its payload to
  -- the ready stream, once, and nothing else; it answers with their number, and none of them is
  -- scheduled any more.
  pub promote_scheduled_due :
      (now limit : ℕ) (s : State)
      → ((i : String) → IsPaired s i)
      → ((promote_scheduled_script q keys now limit s).0 ≡ length (due s keys.scheduled now limit))
        × ((m : String)
            → count m (stream (promote_scheduled_script q keys now limit s).1 keys.ready)
              ≡ count m (stream s keys.ready) + payloads_of s m (due s keys.scheduled now limit))
        × ((i : String)
            → 0 < count i (due s keys.scheduled now limit)
            → score (promote_scheduled_script q keys now limit s).1 keys.scheduled i ≡ none)
  unfolding promote_scheduled_script
  promote_scheduled_due now limit s paired =
      let ids = due s keys.scheduled now limit in
      let once : (i : String) → count i ids ≤ 1 = λ i. due_once s keys.scheduled i now limit in
      let there : (i : String) → 0 < count i ids → is_some (field s keys.payloads i) ≡ true = λ i p.
        (let (n, e, h) = due_scored s keys.scheduled i now limit p in
          ground (arith, e, paired i)) in
      (
        omega (arith, number-promote_identities ids 0 s once there),
        λ m. stream-promote_identities ids 0 s m once,
        λ i p. ground (arith, p, score-promote_identities ids 0 s i),
      )
