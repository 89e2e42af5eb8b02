-- ===== src/Effects.antt =====
-- Code that calls its surroundings. Each call is recorded, with its outcome, in a history whose
-- newest entry stands first; the surroundings answer a call from the history so far, so that a
-- statement about all surroundings covers every answer that they can give.
use relayit.Prelude.{◌≡◌, refl, Bool, List, ◌∷◌, Result, ok, err, All, if◌then◌else◌}

abbrev pub Work : Type 0 → Type 0 → Type 0 → Type 0
Work Act E A = List Act → Result E A × List Act

infixl 5 ◌>>=◌ ◌>>◌
abbrev pub ◌>>=◌ : {Act E A B : Type 0} → Work Act E A → (A → Work Act E B) → Work Act E B
◌>>=◌ m f h = let (x, h') = m h in elim x [ ok a ↦ f a h' | err e ↦ (err e, h') ]

abbrev pub ◌>>◌ : {Act E B : Type 0} → Work Act E (Unit {0}) → Work Act E B → Work Act E B
m >> k = m >>= λ _. k

-- `Effect.succeed` and `Effect.fail`
abbrev pub succeed : {Act E A : Type 0} → A → Work Act E A
succeed a h = (ok a, h)

abbrev pub fail : {Act E A : Type 0} → E → Work Act E A
fail e h = (err e, h)

-- A call that answers with a value, which is recorded.
abbrev pub ask : {Act E A : Type 0} → (List Act → A) → (A → Act) → Work Act E A
ask reply act h = let a = reply h in (ok a, act a ∷ h)

-- A call that may fail, with the error that it is mapped to.
abbrev pub perform : {Act E : Type 0} → (List Act → Bool) → (Bool → Act) → E → Work Act E (Unit {0})
perform reply act e h = let done = reply h in (if done then ok tt else err e, act done ∷ h)

-- The rest of a bind, once its first step has returned `x`.
abbrev pub bound :
    {Act E A B : Type 0} → Result E A → List Act → (A → Work Act E B) → Result E B × List Act
bound x h f = elim x [ ok a ↦ f a h | err e ↦ (err e, h) ]

-- What holds of every act before a step and after its continuation holds after both.
pub after-All :
    {Act E A B : Type 0} (Q : Act → Type 0) (x : Result E A) (h : List Act) (f : A → Work Act E B)
    → All Q h
    → ((a : A) → x ≡ ok a → All Q (f a h).1)
    → All Q (bound x h f).1
after-All Q (ok a) h f q k = k a refl
after-All Q (err e) h f q k = q
