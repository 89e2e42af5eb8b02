-- ===== src/Redis/Expiring.antt =====
-- The commands of Redis on hashes that expire, as an interface with the time of each call in
-- milliseconds: HGETALL, HSET, DEL and PEXPIRE. The state is abstract, and the laws are the documented
-- effects that a script relies on.
use relayit.Prelude.{
  ℕ, ◌+◌, ◌≤◌, String, ◌≡◌, refl, false, Option, none, some, arith, str_eq, eq_refl, ltb,
  if◌then◌else◌,
}

pub record Expiring (H : Type 0) : Type 1 where
  pub State : Type 0
  -- HGETALL key, at a time
  pub hgetall : State → ℕ → String → Option H
  -- HSET of the fields of an `H`, at a time; DEL
  pub hset : String → H → ℕ → State → State
  pub del : String → State → State
  -- PEXPIRE key milliseconds, at a time
  pub pexpire : String → ℕ → ℕ → State → State
  pub hgetall-hset : (s : State) (k : String) (h : H) (n : ℕ) → hgetall (hset k h n s) n k ≡ some h
  pub hgetall-hset_other :
      (s : State) (k j : String) (h : H) (n m : ℕ)
      → str_eq k j ≡ false
      → hgetall (hset k h n s) m j ≡ hgetall s m j
  pub hgetall-del :
      (s : State) (k j : String) (m : ℕ)
      → hgetall (del k s) m j ≡ (if str_eq k j then none else hgetall s m j)
  -- From the call on, the hash is as it was until its time is over, and then it is gone.
  pub hgetall-pexpire :
      (s : State) (k : String) (ttl n m : ℕ)
      → n ≤ m
      → hgetall (pexpire k ttl n s) m k ≡ (if ltb m (n + ttl) then hgetall s n k else none)
  pub hgetall-pexpire_other :
      (s : State) (k j : String) (ttl n m : ℕ)
      → str_eq k j ≡ false
      → hgetall (pexpire k ttl n s) m j ≡ hgetall s m j

-- A store that satisfies the interface: each name has a hash and a time at which it expires, if any.
abbrev pub Store : Type 0 → Type 0
Store H = String → Option (H × Option ℕ)

module _ {H : Type 0} where
  abbrev pub value : ℕ → Option (H × Option ℕ) → Option H
  value m none = none
  value m (some (h, none)) = some h
  value m (some (h, some deadline)) = if ltb m deadline then some h else none

  -- The time to live of a hash that is there stays.
  abbrev pub written : H → ℕ → Option (H × Option ℕ) → Option (H × Option ℕ)
  written h n none = some (h, none)
  written h n (some (_, none)) = some (h, none)
  written h n (some (_, some deadline)) =
      if ltb n deadline then some (h, some deadline) else some (h, none)

  abbrev pub expiring : ℕ → ℕ → Option (H × Option ℕ) → Option (H × Option ℕ)
  expiring ttl n none = none
  expiring ttl n (some (h, none)) = some (h, some (n + ttl))
  expiring ttl n (some (h, some deadline)) =
      if ltb n deadline then some (h, some (n + ttl)) else none

  pub value-written :
      (h : H) (n : ℕ) (found : Option (H × Option ℕ)) → value n (written h n found) ≡ some h
  value-written h n none = refl
  value-written h n (some (_, none)) = refl
  value-written h n (some (_, some deadline)) = ground arith

  pub value-expiring :
      (ttl n m : ℕ) (found : Option (H × Option ℕ))
      → value m (expiring ttl n found) ≡ (if ltb m (n + ttl) then value n found else none)
  value-expiring ttl n m none = ground arith
  value-expiring ttl n m (some (h, none)) = refl
  value-expiring ttl n m (some (h, some deadline)) = ground arith

abbrev pub store : (H : Type 0) → Expiring H
store H = record {
  State = Store H;
  hgetall = λ s m j. value m (s j);
  hset = λ k h n s j. if str_eq k j then written h n (s k) else s j;
  del = λ k s j. if str_eq k j then none else s j;
  pexpire = λ k ttl n s j. if str_eq k j then expiring ttl n (s k) else s j;
  hgetall-hset = λ s k h n. rw (eq_refl k) (value-written h n (s k));
  hgetall-hset_other = λ s k j h n m other. rw other refl;
  hgetall-del = λ s k j m. ground arith;
  hgetall-pexpire = λ s k ttl n m later. rw (eq_refl k) (value-expiring ttl n m (s k));
  hgetall-pexpire_other = λ s k j ttl n m other. rw other refl;
}
