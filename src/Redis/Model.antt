-- ===== src/Redis/Model.antt =====
-- A value of the interface, over maps written as functions: its laws can hold together.
use relayit.Prelude.{
  ℕ, suc, pred, String, ◌≡◌, refl, ◌||◌, ◌&&◌, Option, none, some, arith, str_eq, if◌then◌else◌,
  or_else,
}
use relayit.Redis.{Redis, is_some}

pub record Memory (H : Type 0) : Type 0 where
  pub counters : String → Option ℕ
  pub hashes : String → Option H
  pub expiries : String → Option ℕ

module _ {H : Type 0} where
  abbrev pub empty : Memory H
  empty = record { counters = λ _. none; hashes = λ _. none; expiries = λ _. none }

  abbrev incr : String → Memory H → Memory H
  incr k s = record s {
    counters = λ j. if str_eq k j then some (suc (or_else (s.counters k) 0)) else s.counters j;
  }

  abbrev decr : String → Memory H → Memory H
  decr k s = record s {
    counters = λ j. if str_eq k j then some (pred (or_else (s.counters k) 0)) else s.counters j;
  }

  pub decr_lem :
      (s : Memory H) (k j : String) (n : ℕ)
      → s.counters k ≡ some (suc n)
      → (decr k s).counters j ≡ (if str_eq k j then some n else s.counters j)
  decr_lem s k j n e = ground arith

abbrev pub model : (H : Type 0) → Redis H
model H = record {
  State = Memory H;
  get = λ s. s.counters;
  incr = incr;
  decr = decr;
  hgetall = λ s. s.hashes;
  hset = λ k h s. record s { hashes = λ j. if str_eq k j then some h else s.hashes j };
  del = λ k s. record s {
    counters = λ j. if str_eq k j then none else s.counters j;
    hashes = λ j. if str_eq k j then none else s.hashes j;
  };
  ttl = λ s. s.expiries;
  expire = λ k n s. record s {
    expiries = λ j.
        if str_eq k j && (is_some (s.counters k) || is_some (s.hashes k))
        then some n
        else s.expiries j;
  };
  get-incr = λ s k j. refl;
  get-decr = decr_lem;
  get-hset = λ s k j h. refl;
  get-expire = λ s k j n. refl;
  hgetall-incr = λ s k j. refl;
  hgetall-decr = λ s k j. refl;
  hgetall-hset = λ s k j h. refl;
  hgetall-del = λ s k j. refl;
  hgetall-expire = λ s k j n. refl;
  ttl-incr = λ s k j. refl;
  ttl-decr = λ s k j. refl;
  ttl-hset = λ s k j h. refl;
  ttl-expire = λ s k j n. refl;
}
