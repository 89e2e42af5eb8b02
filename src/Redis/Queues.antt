-- ===== src/Redis/Queues.antt =====
-- The commands of Redis on which packages/jobs keeps its jobs: streams, sorted sets and hashes of
-- fields. As in Redis.antt the state is abstract, and the laws are the documented effects. A law
-- between two kinds of value says that a command on one leaves the other alone; a name holds one
-- kind and never two.
pub mod Model
use relayit.Prelude.{
  ℕ, ◌≤◌, ◌<◌, String, ◌≡◌, Option, none, some, List, [], ◌∷◌, ◌++◌, str_eq, if◌then◌else◌, length,
  ◌&&◌,
}
use relayit.Prelude.Counts.{count}

pub record Queues : Type 1 where
  pub State : Type 0
  -- the field "payload" of each entry that XADD has appended, oldest first
  pub stream : State → String → List String
  pub xadd : String → String → State → State
  -- ZSCORE, ZADD, ZREM
  pub score : State → String → String → Option ℕ
  pub zadd : String → ℕ → String → State → State
  pub zrem : String → String → State → State
  -- ZRANGEBYSCORE key -inf max LIMIT 0 limit
  pub due : State → String → ℕ → ℕ → List String
  -- HGET, HSET, HDEL
  pub field : State → String → String → Option String
  pub hset : String → String → String → State → State
  pub hdel : String → String → State → State
  pub stream-xadd :
      (s : State) (k j m : String)
      → stream (xadd k m s) j ≡ (if str_eq k j then stream s j ++ m ∷ [] else stream s j)
  pub stream-zadd : (s : State) (k j m : String) (n : ℕ) → stream (zadd k n m s) j ≡ stream s j
  pub stream-zrem : (s : State) (k j m : String) → stream (zrem k m s) j ≡ stream s j
  pub stream-hset : (s : State) (k j i v : String) → stream (hset k i v s) j ≡ stream s j
  pub stream-hdel : (s : State) (k j i : String) → stream (hdel k i s) j ≡ stream s j
  pub score-xadd : (s : State) (k j m i : String) → score (xadd k m s) j i ≡ score s j i
  pub score-zadd :
      (s : State) (k j m i : String) (n : ℕ)
      → score (zadd k n m s) j i ≡ (if str_eq k j && str_eq m i then some n else score s j i)
  pub score-zrem :
      (s : State) (k j m i : String)
      → score (zrem k m s) j i ≡ (if str_eq k j && str_eq m i then none else score s j i)
  pub score-hset : (s : State) (k f v j i : String) → score (hset k f v s) j i ≡ score s j i
  pub score-hdel : (s : State) (k f j i : String) → score (hdel k f s) j i ≡ score s j i
  pub field-xadd : (s : State) (k m j i : String) → field (xadd k m s) j i ≡ field s j i
  pub field-zadd : (s : State) (k m j i : String) (n : ℕ) → field (zadd k n m s) j i ≡ field s j i
  pub field-zrem : (s : State) (k m j i : String) → field (zrem k m s) j i ≡ field s j i
  pub field-hset :
      (s : State) (k j f i v : String)
      → field (hset k f v s) j i ≡ (if str_eq k j && str_eq f i then some v else field s j i)
  pub field-hdel :
      (s : State) (k j f i : String)
      → field (hdel k f s) j i ≡ (if str_eq k j && str_eq f i then none else field s j i)
  -- A member is due at most once, and only with a score that is not above the maximum.
  pub due_once : (s : State) (k i : String) (max limit : ℕ) → count i (due s k max limit) ≤ 1
  pub due_scored :
      (s : State) (k i : String) (max limit : ℕ)
      → 0 < count i (due s k max limit)
      → (n : ℕ) × (score s k i ≡ some n) × (n ≤ max)
  -- Below the limit, all of these are returned.
  pub due_all :
      (s : State) (k i : String) (max limit n : ℕ)
      → length (due s k max limit) < limit
      → score s k i ≡ some n
      → n ≤ max
      → count i (due s k max limit) ≡ 1
