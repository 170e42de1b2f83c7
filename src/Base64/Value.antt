-- ===== src/Base64/Value.antt =====
-- A list of digits, lowest first, as the number that it stands for, and arithmetic on shifts.
use encfs.Base.{ℕ, zero, suc, ◌+◌, ◌-◌, ◌*◌, ◌^◌, ◌<◌}
use encfs.Base.{List, [], ◌∷◌, length, All, ◌>>>◌}
use encfs.Base.{◌≡◌, refl, ap, arith}
use encfs.Base.{pow-add, pow_pos, pow_mono, dec_lt}
use native.Mathlib.Nat.{pow-suc, pow-zero}

-- The number of the digits `xs` in base `2 ^ p`.
abbrev pub value : ℕ → List ℕ → ℕ
value p [] = 0
value p (x ∷ xs) = x + 2 ^ p * value p xs

-- Each digit has at most `p` bits.
abbrev pub IsDigits : ℕ → List ℕ → Type 0
IsDigits p = All (λ x. x < 2 ^ p)

-- `n` times the same base, one more at the front.
value_bound : (p : ℕ) (xs : List ℕ) → IsDigits p xs → value p xs < (2 ^ p) ^ length xs
value_bound p [] h = rw (pow-zero (2 ^ p)) (omega arith)
value_bound p (x ∷ xs) h = grind (arith, pow-suc (2 ^ p) (length xs), value_bound p xs h.1, h.0)

-- Taking `d` bits off the low end of a work buffer.
pub shift_small : (work bits d : ℕ) → work < 2 ^ bits → work >>> d < 2 ^ (bits - d)
shift_small work bits d h = elim (dec_lt bits d) [
  | yes p ↦ grind (arith, pow_mono bits d (omega arith), pow_pos d, pow_pos (bits - d))
  | no p ↦
      let e : bits ≡ d + (bits - d) = omega arith in
      grind (arith, ap (λ (k : ℕ). 2 ^ k) e, pow-add d (bits - d), pow_pos d)
]

pub short_step : (n d bits : ℕ) → n * d < bits - d + d → 0 < bits → n * d < bits
short_step zero d bits h pos = omega arith
short_step (suc n) d bits h pos = omega arith

pub product_pos : (a b : ℕ) → 0 < a → 0 < b → 0 < a * b
product_pos zero b h k = elim h [ ]
product_pos (suc a) b h k = omega arith

pub pow-once : (b : ℕ) → b ^ 1 ≡ b
pow-once b = omega (arith, pow-suc b 0, ap (λ (t : ℕ). t * b) (pow-zero b))

pub value-nil : (p : ℕ) (xs : List ℕ) → length xs ≡ 0 → value p xs ≡ 0
value-nil p [] h = refl
value-nil p (x ∷ xs) h = absurd (omega arith)
