-- ===== src/Base64/Fill.antt =====
-- The loop of `changeBase2Inline` that fills its work buffer keeps the number that the buffer and
-- the input make together.
use encfs.Base.{ℕ, ◌+◌, ◌*◌, ◌%◌, ◌^◌, ◌≤◌, ◌<◌}
use encfs.Base.{List, [], ◌∷◌, length, bit_or, u8}
use encfs.Base.{◌≡◌, refl, ap, ◌∙◌, arith, ltb, Bool-cases, inl, inr, ◌⊎◌}
use encfs.Base.{pow-add, pow_pos, pow_mono}
use encfs.Base.Bits.{or_join, and_mask}
use encfs.Base64.{Work, push_value, fill, low_value}
use native.Mathlib.Nat.{mod-eq_of_lt}
use encfs.Base64.Value.{value, IsDigits}

module _ (s d : ℕ) (d_byte : d ≤ 8) (fits : s + d ≤ 64) where
  -- With room in the work buffer, a value is put above the bits that are there.
  pub push_value-add :
      (x work bits : ℕ)
      → x < 2 ^ s
      → work < 2 ^ bits
      → bits < d
      → (push_value s d x work bits ≡ work + x * 2 ^ bits) × (work + x * 2 ^ bits < 2 ^ (bits + s))
  push_value-add x work bits hx hw hb =
      let room : x * 2 ^ bits + 2 ^ bits ≤ 2 ^ s * 2 ^ bits = grind arith in
      let top = pow_mono (bits + s) 64 (omega arith) in
      let no_wrap : x * 2 ^ bits < 2 ^ 64 = omega (arith, pow-add bits s, pow_pos bits) in
      (
        ap (bit_or work) (mod-eq_of_lt no_wrap) ∙ or_join bits x work hw,
        omega (arith, pow-add bits s),
      )

  pub low_value-mod : (work : ℕ) → low_value s d work ≡ work % 2 ^ d
  low_value-mod work =
      ap u8 (and_mask d work) ∙ mod-eq_of_lt (omega (arith, pow_mono d 8 d_byte, pow_pos d))

  -- What `fill` keeps: the number that the work buffer and the input make together, and the count
  -- of its bits. It stops with a value's worth of bits, or at the end of the input.
  pub record IsFilled (src : List ℕ) (work bits : ℕ) (f : Work) : Type 0 where
    pub digits : IsDigits s f.rest
    pub small : f.work < 2 ^ f.bits
    pub same_value : f.work + 2 ^ f.bits * value s f.rest ≡ work + 2 ^ bits * value s src
    pub same_bits : f.bits + s * length f.rest ≡ bits + s * length src
    pub enough : (length f.rest ≡ 0) ⊎ (d ≤ f.bits)
    pub room : (f.bits ≡ bits) ⊎ (f.bits < d + s)

  IsFilled-push :
      (x : ℕ) (src : List ℕ) (work bits : ℕ) (f : Work)
      → push_value s d x work bits ≡ work + x * 2 ^ bits
      → bits < d
      → IsFilled src (push_value s d x work bits) (bits + s) f
      → IsFilled (x ∷ src) work bits f
  IsFilled-push x src work bits f e low v = record {
    digits = v.digits;
    small = v.small;
    same_value = omega (arith, v.same_value, e, ap (λ (t : ℕ). t * value s src) (pow-add bits s));
    same_bits = omega (arith, v.same_bits);
    enough = v.enough;
    room = inr (room_of v.room);
  }
    where
      room_of : (f.bits ≡ bits + s) ⊎ (f.bits < d + s) → f.bits < d + s
      room_of (inl same) = omega arith
      room_of (inr below) = below

  pub fill-IsFilled :
      (src : List ℕ) (work bits : ℕ)
      → IsDigits s src
      → work < 2 ^ bits
      → IsFilled src work bits (fill s d src work bits)
  unfolding fill
  fill-IsFilled [] work bits h hw = record {
    digits = tt;
    small = hw;
    same_value = refl;
    same_bits = refl;
    enough = inl refl;
    room = inl refl;
  }
  fill-IsFilled (x ∷ src) work bits h hw = elim (Bool-cases (ltb bits d)) [
    | inr full ↦ rw full (record {
      digits = h;
      small = hw;
      same_value = refl;
      same_bits = refl;
      enough = inr (ground arith);
      room = inl refl;
    })
    | inl more ↦
        let (e, below) = push_value-add x work bits h.0 hw (ground arith) in
        rw more (
          IsFilled-push x src work bits _ e (ground arith)
            (fill-IsFilled src (push_value s d x work bits) (bits + s) h.1 (rw e below)))
  ]
