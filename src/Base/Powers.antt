-- ===== src/Base/Powers.antt =====
-- Powers of two, as shifts use them.
use Prim.Native.Nat.{ℕ, zero, suc, ◌+◌, ◌*◌, ◌^◌, ◌≤◌, ◌<◌}
use mathlib.Core.Path.{◌≡◌, ap}
use native.Mathlib.Nat.{pow-suc, one-le-pow, pow-le-pow_right}
use native.Mathlib.Omega.{arith}

pub pow-add : (a b : ℕ) → 2 ^ (a + b) ≡ 2 ^ a * 2 ^ b
pow-add zero b = omega (arith, ap (λ (k : ℕ). 2 ^ k) (let e : 0 + b ≡ b = omega arith in e))
pow-add (suc a) b = omega (
  arith,
  ap (λ (k : ℕ). 2 ^ k) (let e : suc a + b ≡ suc (a + b) = omega arith in e),
  pow-suc 2 (a + b),
  pow-suc 2 a,
  pow-add a b,
  ap (λ (t : ℕ). t * 2 ^ b) (pow-suc 2 a),
)

pub pow_pos : (a : ℕ) → 0 < 2 ^ a
pow_pos a = one-le-pow a 2 (omega arith)

pub pow_mono : (a b : ℕ) → a ≤ b → 2 ^ a ≤ 2 ^ b
pow_mono a b h = pow-le-pow_right {n = 2} (omega arith) h
