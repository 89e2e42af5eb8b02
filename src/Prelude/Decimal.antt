-- ===== src/Prelude/Decimal.antt =====
-- `String(n)` of a number that is not negative.
use Prim.Native.Nat.{ℕ, zero, suc, ◌/◌, ◌%◌}
use Prim.Native.String.{String, ◌++◌}
use mathlib.Core.List.{List, [], ◌∷◌}
use relayit.Prelude.Tests.{if◌then◌else◌, ltb}

abbrev pub nth : ℕ → List String → String
nth n [] = ""
nth zero (x ∷ xs) = x
nth (suc n) (x ∷ xs) = nth n xs

abbrev pub digit : ℕ → String
digit n = nth n ("0" ∷ "1" ∷ "2" ∷ "3" ∷ "4" ∷ "5" ∷ "6" ∷ "7" ∷ "8" ∷ "9" ∷ [])

-- A number has no more digits than itself and one, so this fuel is enough.
abbrev pub digits : ℕ → ℕ → String
digits zero n = digit n
digits (suc fuel) n =
    let more = digits fuel (n / 10) in if ltb n 10 then digit n else more ++ digit (n % 10)

abbrev pub decimal : ℕ → String
decimal n = digits n n
