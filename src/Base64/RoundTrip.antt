-- ===== src/Base64/RoundTrip.antt =====
-- Regrouping bytes into digits for a name, and the digits back into bytes.
use encfs.Base.{ℕ, zero, suc, ◌+◌, ◌*◌, ◌^◌, ◌≤◌, ◌<◌, Bool, true, false}
use encfs.Base.{List, [], ◌∷◌, length, take, ◌≡◌, refl, sym, ap, ap₂, arith, inl, inr, ◌⊎◌, dec_lt}
use encfs.Base64.{change_base2_inline}
use encfs.Base64.Value.{value, IsDigits, product_pos}
use encfs.Base64.Regroup.{IsRegrouped, IsRegrouped-same, inline_values-IsRegrouped}
use native.Mathlib.Nat.{pow-suc}

digit_unique : (b x y u v : ℕ) → x < b → y < b → x + b * u ≡ y + b * v → (x ≡ y) × (u ≡ v)
digit_unique b x y u v hx hy e = elim (dec_lt u v) [
  | yes less ↦ absurd (let step : b * u + b ≤ b * v = grind arith in omega arith)
  | no more ↦ elim (dec_lt v u) [
    | yes less ↦ absurd (let step : b * v + b ≤ b * u = grind arith in omega arith)
    | no other ↦ let same : u ≡ v = omega arith in (omega (arith, ap (λ (t : ℕ). b * t) same), same)
  ]
]

-- The digits of a number are determined, from the lowest up, as far as both lists reach.
pub digits_unique :
    (p : ℕ) (xs ys : List ℕ) (u v : ℕ)
    → IsDigits p xs
    → IsDigits p ys
    → length xs ≤ length ys
    → value p xs + (2 ^ p) ^ length xs * u ≡ value p ys + (2 ^ p) ^ length ys * v
    → take (length xs) ys ≡ xs
digits_unique p [] ys u v hx hy le e = refl
digits_unique p (x ∷ xs) [] u v hx hy le e = absurd (omega arith)
digits_unique p (x ∷ xs) (y ∷ ys) u v hx hy le e =
    let b = 2 ^ p in
    let same =
      digit_unique b x y (value p xs + b ^ length xs * u) (value p ys + b ^ length ys * v) hx.0 hy.0
        (omega (
          arith,
          e,
          ap (λ (t : ℕ). t * u) (pow-suc b (length xs)),
          ap (λ (t : ℕ). t * v) (pow-suc b (length ys)),
        )) in
    ap₂ ◌∷◌ (sym same.0) (digits_unique p xs ys u v hx.1 hy.1 (omega arith) same.1)

some_digits : (n d m : ℕ) → 0 < m → m * 8 ≤ n * d → 0 < n
some_digits zero d m h e = absurd (omega arith)
some_digits (suc n) d m h e = omega arith

module _ (s d : ℕ) (d_byte : d ≤ 8) (fits : s + d ≤ 64) (s_pos : 0 < s) (d_pos : 0 < d) where
  -- The public function is the first level of the recursion, with an empty work buffer.
  pub change_base2_inline-IsRegrouped :
      (output_partial : Bool) (src : List ℕ)
      → IsDigits s src
      → 0 < length src
      → (output_partial ≡ true) ⊎ (s ≤ d)
      → IsRegrouped d output_partial
          (value s src)
          (length src * s)
          (change_base2_inline s d src output_partial)
  unfolding change_base2_inline
  change_base2_inline-IsRegrouped output_partial src ds some wide =
      IsRegrouped-same d output_partial (value s src) (length src * s) _ (omega arith) (omega arith)
        (inline_values-IsRegrouped s d d_byte fits d_pos (suc (length src * s)) output_partial src 0
          0 (omega arith) (omega (arith, product_pos s (length src) s_pos some)) ds (omega arith)
          s_pos wide)

-- Bytes regrouped into `d`-bit digits, with the partial last digit, and the digits regrouped into
-- bytes without one: the bytes come back at the front of what is written.
pub change_base2_inline-round_trip :
    (d : ℕ) (xs : List ℕ)
    → 0 < d
    → d ≤ 8
    → IsDigits 8 xs
    → 0 < length xs
    → take (length xs) (change_base2_inline d 8 (change_base2_inline 8 d xs true) false) ≡ xs
change_base2_inline-round_trip d xs d_pos d_byte hx some =
    let enc = change_base2_inline 8 d xs true in
    let there =
      change_base2_inline-IsRegrouped 8 d d_byte (omega arith) (omega arith) d_pos true xs hx some
        (inl refl) in
    let back =
      change_base2_inline-IsRegrouped d 8 (omega arith) (omega arith) d_pos (omega arith) false enc
        there.digits (some_digits (length enc) d (length xs) some (there.exact refl).1)
        (inr d_byte) in
    digits_unique 8 xs (change_base2_inline d 8 enc false) 0 back.high hx back.digits
      (omega (arith, (there.exact refl).1, back.long))
      (omega (
        arith,
        back.whole,
        there.whole,
        (there.exact refl).0,
        ap (λ (t : ℕ). (2 ^ d) ^ length enc * t) (there.exact refl).0,
      ))

-- An encoded name has as many digits as its bits need, rounded up.
pub length-change_base2_inline :
    (d : ℕ) (xs : List ℕ)
    → 0 < d
    → d ≤ 8
    → IsDigits 8 xs
    → 0 < length xs
    → (length xs * 8 ≤ length (change_base2_inline 8 d xs true) * d)
      × (length (change_base2_inline 8 d xs true) * d < length xs * 8 + d)
length-change_base2_inline d xs d_pos d_byte hx some =
    let v =
      change_base2_inline-IsRegrouped 8 d d_byte (omega arith) (omega arith) d_pos true xs hx some
        (inl refl) in
    ((v.exact refl).1, v.short)

-- The values written are digits to the new base.
pub change_base2_inline-IsDigits :
    (d : ℕ) (xs : List ℕ)
    → 0 < d
    → d ≤ 8
    → IsDigits 8 xs
    → 0 < length xs
    → IsDigits d (change_base2_inline 8 d xs true)
change_base2_inline-IsDigits d xs d_pos d_byte hx some =
    (change_base2_inline-IsRegrouped 8 d d_byte (omega arith) (omega arith) d_pos true xs hx some
      (inl refl)).digits
