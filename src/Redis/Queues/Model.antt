-- ===== src/Redis/Queues/Model.antt =====
-- A value of the interface: streams as lists, sorted sets as association lists, hashes as functions.
use relayit.Prelude.{
  ℕ, zero, suc, ◌≤◌, ◌<◌, String, ◌≡◌, refl, Option, none, some, List, [], ◌∷◌, ◌++◌, arith, str_eq,
  eq_iff, if◌then◌else◌, length, leb, ◌&&◌,
}
use relayit.Prelude.Counts.{count}
use relayit.Redis.Queues.{Queues}

pub record Memory : Type 0 where
  pub streams : String → List String
  pub sets : String → List (String × ℕ)
  pub hashes : String → String → Option String

abbrev pub empty : Memory
empty = record { streams = λ _. []; sets = λ _. []; hashes = λ _ _. none }

abbrev pub find : String → List (String × ℕ) → Option ℕ
find i [] = none
find i ((m, n) ∷ rest) = if str_eq m i then some n else find i rest

abbrev pub without : String → List (String × ℕ) → List (String × ℕ)
without i [] = []
without i ((m, n) ∷ rest) = let kept = without i rest in if str_eq m i then kept else (m, n) ∷ kept

abbrev drop_member : String → List String → List String
drop_member i [] = []
drop_member i (m ∷ rest) = let kept = drop_member i rest in if str_eq m i then kept else m ∷ kept

abbrev pub due_in : ℕ → List (String × ℕ) → List String
due_in max [] = []
due_in max ((m, n) ∷ rest) =
    let others = drop_member m (due_in max rest) in if leb n max then m ∷ others else others

abbrev pub take : ℕ → List String → List String
take zero xs = []
take (suc n) [] = []
take (suc n) (x ∷ xs) = x ∷ take n xs

pub find-without :
    (i j : String) (l : List (String × ℕ))
    → find j (without i l) ≡ (if str_eq i j then none else find j l)
find-without i j [] = ground arith
find-without i j ((m, n) ∷ rest) =
    ground (arith, eq_iff m i, eq_iff m j, eq_iff i j, find-without i j rest)

count-drop_member :
    (i j : String) (l : List String)
    → count j (drop_member i l) ≡ (if str_eq i j then 0 else count j l)
count-drop_member i j [] = ground arith
count-drop_member i j (m ∷ rest) =
    ground (arith, eq_iff m i, eq_iff m j, eq_iff i j, count-drop_member i j rest)

-- Whether a score is there and not above the maximum.
abbrev pub is_due : ℕ → Option ℕ → ℕ
is_due max none = 0
is_due max (some n) = if leb n max then 1 else 0

pub count-due_in :
    (max : ℕ) (i : String) (l : List (String × ℕ)) → count i (due_in max l) ≡ is_due max (find i l)
count-due_in max i [] = refl
count-due_in max i ((m, n) ∷ rest) =
    ground (arith, eq_iff m i, count-drop_member m i (due_in max rest), count-due_in max i rest)

pub count-take : (n : ℕ) (i : String) (xs : List String) → count i (take n xs) ≤ count i xs
count-take zero i xs = omega arith
count-take (suc n) i [] = omega arith
count-take (suc n) i (x ∷ xs) = omega (arith, count-take n i xs)

take_all : (n : ℕ) (xs : List String) → length (take n xs) < n → take n xs ≡ xs
take_all zero xs h = absurd (omega arith)
take_all (suc n) [] h = refl
take_all (suc n) (x ∷ xs) h = ground (arith, take_all n xs)

pub once :
    (max limit : ℕ) (i : String) (l : List (String × ℕ)) → count i (take limit (due_in max l)) ≤ 1
once max limit i l = ground (arith, count-take limit i (due_in max l), count-due_in max i l)

pub scored :
    (max limit : ℕ) (i : String) (found : Option ℕ) (c : ℕ)
    → c ≤ is_due max found
    → 0 < c
    → (n : ℕ) × (found ≡ some n) × (n ≤ max)
scored max limit i none c h p = absurd (omega arith)
scored max limit i (some n) c h p = (n, refl, ground arith)

pub all :
    (max limit : ℕ) (i : String) (l : List (String × ℕ)) (n : ℕ)
    → length (take limit (due_in max l)) < limit
    → find i l ≡ some n
    → n ≤ max
    → count i (take limit (due_in max l)) ≡ 1
all max limit i l n short e h =
    rw (take_all limit (due_in max l) short) (ground (arith, count-due_in max i l, e))

pub score_after_zadd :
    (l : List (String × ℕ)) (k j m i : String) (n : ℕ)
    → find i (if str_eq k j then (m, n) ∷ l else l)
      ≡ (if str_eq k j && str_eq m i then some n else find i l)
score_after_zadd l k j m i n = ground arith

pub score_after_zrem :
    (l : List (String × ℕ)) (k j m i : String)
    → find i (if str_eq k j then without m l else l)
      ≡ (if str_eq k j && str_eq m i then none else find i l)
score_after_zrem l k j m i = ground (arith, find-without m i l)

abbrev pub model : Queues
model = record {
  State = Memory;
  stream = λ s. s.streams;
  xadd = λ k m s. record s {
    streams = λ j. if str_eq k j then s.streams j ++ m ∷ [] else s.streams j;
  };
  score = λ s k i. find i (s.sets k);
  zadd = λ k n m s. record s { sets = λ j. if str_eq k j then (m, n) ∷ s.sets j else s.sets j };
  zrem = λ k m s. record s { sets = λ j. if str_eq k j then without m (s.sets j) else s.sets j };
  due = λ s k max limit. take limit (due_in max (s.sets k));
  field = λ s. s.hashes;
  hset = λ k f v s. record s {
    hashes = λ j i. if str_eq k j && str_eq f i then some v else s.hashes j i;
  };
  hdel =
      λ k f s. record s { hashes = λ j i. if str_eq k j && str_eq f i then none else s.hashes j i };
  stream-xadd = λ s k j m. refl;
  stream-zadd = λ s k j m n. refl;
  stream-zrem = λ s k j m. refl;
  stream-hset = λ s k j i v. refl;
  stream-hdel = λ s k j i. refl;
  score-xadd = λ s k j m i. refl;
  score-zadd = λ s k j m i n. score_after_zadd (s.sets j) k j m i n;
  score-zrem = λ s k j m i. score_after_zrem (s.sets j) k j m i;
  score-hset = λ s k f v j i. refl;
  score-hdel = λ s k f j i. refl;
  field-xadd = λ s k m j i. refl;
  field-zadd = λ s k m j i n. refl;
  field-zrem = λ s k m j i. refl;
  field-hset = λ s k j f i v. refl;
  field-hdel = λ s k j f i. refl;
  due_once = λ s k i max limit. once max limit i (s.sets k);
  due_scored = λ s k i max limit.
      scored max limit i (find i (s.sets k)) _
        (omega (arith, count-take limit i (due_in max (s.sets k)), count-due_in max i (s.sets k)));
  due_all = λ s k i max limit n. all max limit i (s.sets k) n;
}
