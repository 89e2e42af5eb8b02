-- ===== src/Prelude/Powers.antt =====
-- Powers of two and products, as bounds.
use native.Mathlib.Nat.{pow-suc}
use native.Mathlib.Omega.{arith}
use Prim.Native.Nat.{ℕ, zero, suc, ◌*◌, ◌^◌, ◌≤◌}

pub pow-pos : (n : ℕ) → 1 ≤ 2 ^ n
pow-pos zero = omega arith
pow-pos (suc n) = omega (arith, pow-suc 2 n, pow-pos n)

pub pow-le : (m n : ℕ) → m ≤ n → 2 ^ m ≤ 2 ^ n
pow-le m zero h = ground arith
pow-le zero (suc n) h = pow-pos (suc n)
pow-le (suc m) (suc n) h = omega (arith, pow-suc 2 m, pow-suc 2 n, pow-le m n (omega arith))

pub scaled-le : (c a b : ℕ) → a ≤ b → c * a ≤ c * b
scaled-le c a b h = grind arith
