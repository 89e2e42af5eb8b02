-- ===== src/Prelude/Fallible.antt =====
-- Code that returns a result: the bind that do blocks use.
use mathlib.Core.Path.{◌≡◌, refl}
use mathlib.Core.Bool.{Bool, true, false}
use relayit.Prelude.Results.{Result, ok, err}

infixl 5 ◌>>=◌
abbrev pub ◌>>=◌ : {E A B : Type 0} → Result E A → (A → Result E B) → Result E B
m >>= f = elim m [ ok a ↦ f a | err e ↦ err e ]

-- `Effect.mapError`
abbrev pub map_error : {E F A : Type 0} → (E → F) → Result E A → Result F A
map_error f m = elim m [ ok a ↦ ok a | err e ↦ err (f e) ]

-- A statement that succeeds or fails with an error.
abbrev pub check : {E : Type 0} → Bool → E → Result E (Unit {0})
check true e = ok tt
check false e = err e

-- A bind that succeeds.
pub bind-ok :
    {E A B : Type 0} (m : Result E A) (f : A → Result E B) (b : B)
    → (m >>= f) ≡ ok b
    → (a : A) × (m ≡ ok a) × (f a ≡ ok b)
bind-ok (ok a) f b h = (a, refl, h)
bind-ok (err e) f b h = cc

pub check-ok : {E : Type 0} (done : Bool) (e : E) → check done e ≡ ok tt → done ≡ true
check-ok true e h = refl
check-ok false e h = cc
