-- ===== src/Redis.antt =====
-- The Redis commands that the Lua scripts of packages/channels call, as an interface. Redis is a
-- service outside the repository: its state is abstract, and the fields below the operations are
-- the documented effects that the scripts rely on. `H` is the record of fields that a script
-- keeps in its hash. A name holds a counter or a hash and never both.
pub mod Model
pub mod Queues
pub mod Expiring
use relayit.Prelude.{
  ℕ, suc, ◌+◌, String, ◌≡◌, Bool, true, false, ◌||◌, ◌&&◌, Option, none, some, str_eq,
  if◌then◌else◌, or_else,
}

abbrev pub is_some {ℓ} : {A : Type ℓ} → Option A → Bool
is_some none = false
is_some (some _) = true

pub record Redis (H : Type 0) : Type 1 where
  pub State : Type 0
  -- GET, INCR, DECR on a counter
  pub get : State → String → Option ℕ
  pub incr : String → State → State
  pub decr : String → State → State
  -- HGETALL, HSET of the fields of an `H`, DEL
  pub hgetall : State → String → Option H
  pub hset : String → H → State → State
  pub del : String → State → State
  -- TTL, and EXPIRE with a positive number of seconds, the only ones that the program passes: with
  -- 0, Redis deletes the key
  pub ttl : State → String → Option ℕ
  pub expire : String → ℕ → State → State
  pub get-incr :
      (s : State) (k j : String)
      → get (incr k s) j ≡ (if str_eq k j then some (suc (or_else (get s k) 0)) else get s j)
  pub get-decr :
      (s : State) (k j : String) (n : ℕ)
      → get s k ≡ some (suc n)
      → get (decr k s) j ≡ (if str_eq k j then some n else get s j)
  pub get-hset : (s : State) (k j : String) (h : H) → get (hset k h s) j ≡ get s j
  pub get-expire : (s : State) (k j : String) (n : ℕ) → get (expire k n s) j ≡ get s j
  pub hgetall-incr : (s : State) (k j : String) → hgetall (incr k s) j ≡ hgetall s j
  pub hgetall-decr : (s : State) (k j : String) → hgetall (decr k s) j ≡ hgetall s j
  pub hgetall-hset :
      (s : State) (k j : String) (h : H)
      → hgetall (hset k h s) j ≡ (if str_eq k j then some h else hgetall s j)
  pub hgetall-del :
      (s : State) (k j : String) → hgetall (del k s) j ≡ (if str_eq k j then none else hgetall s j)
  pub hgetall-expire : (s : State) (k j : String) (n : ℕ) → hgetall (expire k n s) j ≡ hgetall s j
  pub ttl-incr : (s : State) (k j : String) → ttl (incr k s) j ≡ ttl s j
  pub ttl-decr : (s : State) (k j : String) → ttl (decr k s) j ≡ ttl s j
  pub ttl-hset : (s : State) (k j : String) (h : H) → ttl (hset k h s) j ≡ ttl s j
  pub ttl-expire :
      (s : State) (k j : String) (n : ℕ)
      → ttl (expire k n s) j
        ≡ (if str_eq k j && (is_some (get s k) || is_some (hgetall s k)) then some n else ttl s j)
