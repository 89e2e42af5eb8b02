-- ===== src/Jobs/Storage/Promotion.antt =====
-- Promotion of delayed jobs loses no job and doubles none: PROMOTE_DELAYED_JOBS_SCRIPT of
-- storage.ts, with the two commands by which the producer, the outbox and the worker add jobs.
use relayit.Prelude.{
  ℕ, ◌+◌, ◌≤◌, ◌<◌, String, ◌≡◌, false, none, some, List, [], ◌∷◌, arith, str_eq, eq_refl,
  if◌then◌else◌, ◌==◌, Bool-cases, inl, inr,
}
use relayit.Prelude.Counts.{count, count-append}
use relayit.Redis.Queues.{Queues}
use relayit.Jobs.Storage.{JobKeys, promote_each, promote_delayed_script}

-- One call that touches the delayed set or the ready stream of a job.
pub data Command : Type 0 where
  append : String → Command
  delay : String → ℕ → Command
  promote : ℕ → ℕ → Command

-- How often the commands add an envelope.
abbrev pub added : String → List Command → ℕ
added m [] = 0
added m (append envelope ∷ rest) = (if str_eq envelope m then 1 else 0) + added m rest
added m (delay envelope at ∷ rest) = (if str_eq envelope m then 1 else 0) + added m rest
added m (promote now limit ∷ rest) = added m rest

module _ (q : Queues) (keys : JobKeys) where
  open q use {
    State, stream, xadd, score, zadd, zrem, due, stream-xadd, stream-zadd, stream-zrem, score-xadd,
    score-zadd, score-zrem, due_once, due_scored, due_all,
  }

  unfoldable pub execute : Command → State → State
  execute (append envelope) s = xadd keys.ready envelope s
  execute (delay envelope at) s = zadd keys.delayed at envelope s
  execute (promote now limit) s = (promote_delayed_script q keys now limit s).1

  unfoldable pub run : List Command → State → State
  run [] s = s
  run (c ∷ cs) s = run cs (execute c s)

  abbrev pub is_delayed : State → String → ℕ
  is_delayed s m = elim (score s keys.delayed m) [ none ↦ 0 | some _ ↦ 1 ]

  -- The abstract queue: how often a job's envelope is held, ready or delayed.
  abbrev pub held : State → String → ℕ
  held s m = count m (stream s keys.ready) + is_delayed s m

  pub stream-promote_each :
      (ms : List String) (s : State) (m : String)
      → count m (stream (promote_each q keys ms s) keys.ready)
        ≡ count m (stream s keys.ready) + count m ms
  unfolding promote_each
  stream-promote_each [] s m = omega arith
  stream-promote_each (e ∷ ms) s m = ground (
    arith,
    stream-promote_each ms (zrem keys.delayed e (xadd keys.ready e s)) m,
    stream-zrem (xadd keys.ready e s) keys.delayed keys.ready e,
    stream-xadd s keys.ready keys.ready e,
    eq_refl keys.ready,
    count-append m (stream s keys.ready) (e ∷ []),
  )

  pub score-promote_each :
      (ms : List String) (s : State) (m : String)
      → score (promote_each q keys ms s) keys.delayed m
        ≡ (if count m ms == 0 then score s keys.delayed m else none)
  unfolding promote_each
  score-promote_each [] s m = ground arith
  score-promote_each (e ∷ ms) s m = ground (
    arith,
    score-promote_each ms (zrem keys.delayed e (xadd keys.ready e s)) m,
    score-zrem (xadd keys.ready e s) keys.delayed keys.delayed e m,
    score-xadd s keys.ready keys.delayed e m,
    eq_refl keys.delayed,
  )

  -- Promotion moves jobs and changes no job's number.
  pub held-promote :
      (now limit : ℕ) (s : State) (m : String)
      → held (promote_delayed_script q keys now limit s).1 m ≡ held s m
  unfolding promote_delayed_script
  held-promote now limit s m =
      let members = due s keys.delayed now limit in
      elim (Bool-cases (count m members == 0)) [
        | inl none_due ↦
            ground
              (arith, none_due, stream-promote_each members s m, score-promote_each members s m)
        | inr some_due ↦
            let (n, e, h) = due_scored s keys.delayed m now limit (ground (arith, some_due)) in
            ground (
              arith,
              some_due,
              e,
              due_once s keys.delayed m now limit,
              stream-promote_each members s m,
              score-promote_each members s m,
            )
      ]

  held-append :
      (envelope : String) (s : State) (m : String)
      → held (execute (append envelope) s) m ≡ held s m + (if str_eq envelope m then 1 else 0)
  unfolding execute
  held-append envelope s m = ground (
    arith,
    stream-xadd s keys.ready keys.ready envelope,
    score-xadd s keys.ready keys.delayed envelope m,
    eq_refl keys.ready,
    count-append m (stream s keys.ready) (envelope ∷ []),
  )

  -- A member that is delayed already is only moved in time.
  held-delay :
      (envelope : String) (at : ℕ) (s : State) (m : String)
      → held s m ≡ 0
      → held (execute (delay envelope at) s) m ≡ (if str_eq envelope m then 1 else 0)
  unfolding execute
  held-delay envelope at s m h = ground (
    arith,
    stream-zadd s keys.delayed keys.ready envelope at,
    score-zadd s keys.delayed keys.delayed envelope m at,
    eq_refl keys.delayed,
  )

  held-delay_other :
      (envelope : String) (at : ℕ) (s : State) (m : String)
      → str_eq envelope m ≡ false
      → held (execute (delay envelope at) s) m ≡ held s m
  unfolding execute
  held-delay_other envelope at s m h = ground (
    arith,
    stream-zadd s keys.delayed keys.ready envelope at,
    score-zadd s keys.delayed keys.delayed envelope m at,
  )

  -- Under any interleaving of appends, delays and promotions, a job whose envelope is added at most
  -- once is held exactly as often as it was added: promotion at whatever times and with whatever
  -- limits loses no job and doubles none.
  pub held-run :
      (cs : List Command) (s : State) (m : String)
      → held s m + added m cs ≤ 1
      → held (run cs s) m ≡ held s m + added m cs
  unfolding run
  held-run [] s m h = omega arith
  held-run (append e ∷ cs) s m h = omega (
    arith,
    held-append e s m,
    held-run cs (execute (append e) s) m (omega (arith, held-append e s m)),
  )
  held-run (delay e at ∷ cs) s m h = elim (Bool-cases (str_eq e m)) [
    | inl same ↦
        let one : held (execute (delay e at) s) m ≡ 1 = ground (arith, same, held-delay e at s m) in
        ground (arith, same, one, held-run cs (execute (delay e at) s) m)
    | inr other ↦
        let same : held (execute (delay e at) s) m ≡ held s m = held-delay_other e at s m other in
        ground (arith, other, same, held-run cs (execute (delay e at) s) m)
  ]
  held-run (promote now limit ∷ cs) s m h =
      let same : held (execute (promote now limit) s) m ≡ held s m =
        unfold execute in held-promote now limit s m in
      omega (arith, same, held-run cs (execute (promote now limit) s) m (omega (arith, same)))

  -- A promotion that returns less than its limit has moved each job that was due to the ready
  -- stream, once, and it is delayed no more.
  pub promote_delayed_due :
      (now limit at : ℕ) (s : State) (m : String)
      → (promote_delayed_script q keys now limit s).0 < limit
      → score s keys.delayed m ≡ some at
      → at ≤ now
      → (count m (stream (promote_delayed_script q keys now limit s).1 keys.ready)
          ≡ count m (stream s keys.ready) + 1)
        × (score (promote_delayed_script q keys now limit s).1 keys.delayed m ≡ none)
  unfolding promote_delayed_script
  promote_delayed_due now limit at s m short e h =
      let members = due s keys.delayed now limit in
      ground (
        arith,
        due_all s keys.delayed m now limit at short e h,
        stream-promote_each members s m,
        score-promote_each members s m,
      )
