-- ===== src/Base64/Regroup.antt =====
-- What `changeBase2Inline` writes: the digits, to the new base, of the number it is given.
use encfs.Base.{ℕ, zero, suc, ◌+◌, ◌-◌, ◌*◌, ◌^◌, ◌≤◌, ◌<◌, Bool, true, false}
use encfs.Base.{List, [], ◌∷◌, length, ◌>>>◌}
use encfs.Base.{◌≡◌, refl, ◌∙◌, ap, arith, ltb, ◌==◌, if◌then◌else◌, Bool-cases, inl, inr, ◌⊎◌}
use encfs.Base.{pow-add, pow_pos}
use encfs.Base64.{fill, low_value, partial_values, inline_values}
use native.Mathlib.Nat.{div-add-mod, pow-suc}
use encfs.Base64.Value.{value, IsDigits, shift_small, short_step, value-nil, product_pos, pow-once}
use encfs.Base64.Fill.{fill-IsFilled, low_value-mod}

-- `out` are the `d`-bit digits of `total`, up to a number `high` above them; `count` bits went in.
-- With a partial last value nothing is left above, and the digits hold every bit.
pub record IsRegrouped (d : ℕ) (output_partial : Bool) (total count : ℕ) (out : List ℕ)
    : Type 0 where
  pub digits : IsDigits d out
  pub high : ℕ
  pub whole : value d out + (2 ^ d) ^ length out * high ≡ total
  pub long : count < length out * d + d
  pub short : length out * d < count + d
  pub exact : output_partial ≡ true → (high ≡ 0) × (count ≤ length out * d)

-- All of it: nothing is left above, and the digits hold every bit.
pub record IsExact (d : ℕ) (total count : ℕ) (out : List ℕ) : Type 0 where
  pub digits : IsDigits d out
  pub whole : value d out ≡ total
  pub long : count ≤ length out * d
  pub short : length out * d < count + d

-- The number and the count may be written otherwise.
pub IsRegrouped-same :
    (d : ℕ) (output_partial : Bool) (total count : ℕ) (out : List ℕ) {total' count' : ℕ}
    → total' ≡ total
    → count' ≡ count
    → IsRegrouped d output_partial total' count' out
    → IsRegrouped d output_partial total count out
IsRegrouped-same d output_partial total count out e c v = record {
  digits = v.digits;
  high = v.high;
  whole = v.whole ∙ e;
  long = omega (arith, v.long);
  short = omega (arith, v.short);
  exact = λ p. ((v.exact p).0, omega (arith, (v.exact p).1));
}

module _ (s d : ℕ) (d_byte : d ≤ 8) (fits : s + d ≤ 64) where
  module _ (d_pos : 0 < d) where
    pub low_value-lt : (work : ℕ) → low_value s d work < 2 ^ d
    low_value-lt work = omega (arith, low_value-mod s d d_byte fits work, pow_pos d)

    pub low_value-split : (work : ℕ) → low_value s d work + 2 ^ d * (work >>> d) ≡ work
    low_value-split work =
        omega (arith, low_value-mod s d d_byte fits work, div-add-mod work (2 ^ d))

    pub IsExact-nil : (work bits : ℕ) → work < 2 ^ bits → bits ≡ 0 → IsExact d work bits []
    IsExact-nil work bits hw e = record {
      digits = tt;
      whole = let small : work < 2 ^ 0 = rw e at hw in omega arith;
      long = omega arith;
      short = omega arith;
    }

    -- One more digit below.
    pub IsExact-cons :
        (work bits : ℕ) (out : List ℕ)
        → 0 < bits
        → IsExact d (work >>> d) (bits - d) out
        → IsExact d work bits (low_value s d work ∷ out)
    IsExact-cons work bits out h v = record {
      digits = (low_value-lt work, v.digits);
      whole = omega (arith, low_value-split work, ap (λ (t : ℕ). 2 ^ d * t) v.whole);
      long = omega (arith, v.long);
      short = omega (arith, short_step (length out) d bits v.short h);
    }

    IsRegrouped-cons :
        (output_partial : Bool) (low total count : ℕ) (out : List ℕ) {total' count' : ℕ}
        → low < 2 ^ d
        → total' ≡ low + 2 ^ d * total
        → count' ≡ count + d
        → IsRegrouped d output_partial total count out
        → IsRegrouped d output_partial total' count' (low ∷ out)
    IsRegrouped-cons output_partial low total count out h same_total same_count v = record {
      digits = (h, v.digits);
      high = v.high;
      whole = omega (
        arith,
        same_total,
        ap (λ (t : ℕ). 2 ^ d * t) v.whole,
        ap (λ (t : ℕ). t * v.high) (pow-suc (2 ^ d) (length out)),
      );
      long = omega (arith, v.long);
      short = omega (arith, v.short);
      exact = λ p. ((v.exact p).0, omega (arith, (v.exact p).1));
    }

    IsRegrouped-of_IsExact :
        (output_partial : Bool) (total count : ℕ) (out : List ℕ)
        → IsExact d total count out
        → IsRegrouped d output_partial total count out
    IsRegrouped-of_IsExact output_partial total count out v = record {
      digits = v.digits;
      high = 0;
      whole = omega (arith, v.whole);
      long = omega (arith, v.long);
      short = v.short;
      exact = λ p. (refl, v.long);
    }

    partial_values-IsExact :
        (fuel work bits : ℕ)
        → bits ≤ fuel
        → work < 2 ^ bits
        → IsExact d work bits (partial_values s d fuel work bits)
    unfolding partial_values
    partial_values-IsExact zero work bits h hw = IsExact-nil work bits hw (omega arith)
    partial_values-IsExact (suc fuel) work bits h hw = elim (Bool-cases (ltb 0 bits)) [
      | inr none_left ↦ rw none_left (IsExact-nil work bits hw (ground arith))
      | inl some_left ↦ rw some_left (
          IsExact-cons work bits _ (ground arith) (
            partial_values-IsExact fuel (work >>> d) (bits - d) (ground arith)
              (shift_small work bits d hw)))
    ]

    -- The last level of the recursion, which has no input left.
    last_value :
        (output_partial : Bool) (work bits : ℕ)
        → 0 < bits
        → work < 2 ^ bits
        → (output_partial ≡ true) ⊎ (bits < d + d)
        → IsRegrouped d output_partial work bits (
            low_value s d work
            ∷ (if output_partial
                then partial_values s d (bits - d) (work >>> d) (bits - d)
                else []))
    last_value true work bits pos hw narrow = IsRegrouped-of_IsExact true work bits _ (
        IsExact-cons work bits _ pos (
          partial_values-IsExact (bits - d) (work >>> d) (bits - d) (omega arith)
            (shift_small work bits d hw)))
    last_value false work bits pos hw (inl e) = cc
    last_value false work bits pos hw (inr narrow) = record {
      digits = (low_value-lt work, tt);
      high = work >>> d;
      whole =
          omega (arith, low_value-split work, ap (λ (t : ℕ). t * (work >>> d)) (pow-once (2 ^ d)));
      long = omega arith;
      short = omega arith;
      exact = λ p. cc;
    }

    -- A level that has input left, above the deeper ones.
    upper_value :
        (output_partial : Bool) (src : List ℕ) (work bits : ℕ) (out : List ℕ)
        → d ≤ bits
        → IsRegrouped d output_partial
            ((work >>> d) + 2 ^ (bits - d) * value s src)
            (bits - d + s * length src)
            out
        → IsRegrouped d output_partial
            (work + 2 ^ bits * value s src)
            (bits + s * length src)
            (low_value s d work ∷ out)
    upper_value output_partial src work bits out h v =
        IsRegrouped-cons output_partial (low_value s d work) _ _ out (low_value-lt work)
          (omega (
            arith,
            low_value-split work,
            ap (λ (t : ℕ). t * value s src) (pow-add d (bits - d)),
            ap (λ (k : ℕ). 2 ^ k * value s src) (let e : bits ≡ d + (bits - d) = omega arith in e),
          ))
          (omega arith) v

    -- Every level: the values written are the digits of what the work buffer and the input hold.
    pub inline_values-IsRegrouped :
        (fuel : ℕ) (output_partial : Bool) (src : List ℕ) (work bits : ℕ)
        → bits + s * length src < fuel
        → 0 < bits + s * length src
        → IsDigits s src
        → work < 2 ^ bits
        → bits < s
        → (output_partial ≡ true) ⊎ (s ≤ d)
        → IsRegrouped d output_partial
            (work + 2 ^ bits * value s src)
            (bits + s * length src)
            (inline_values s d fuel output_partial src work bits)
    unfolding inline_values
    inline_values-IsRegrouped zero output_partial src work bits h pos ds hw hb wide =
        absurd (omega arith)
    inline_values-IsRegrouped (suc fuel) output_partial src work bits h pos ds hw hb wide =
        let f = fill s d src work bits in
        let v = fill-IsFilled s d d_byte fits src work bits ds hw in
        rw (← v.same_value, ← v.same_bits)
          (elim (Bool-cases (length f.rest == 0)) [
            | inr more ↦
                let filled : d ≤ f.bits = ground (arith, v.enough) in
                let some_rest : 0 < length f.rest = ground arith in
                let some_bits : 0 < f.bits - d + s * length f.rest =
                  omega (arith, product_pos s (length f.rest) (omega arith) some_rest) in
                rw more (
                  upper_value output_partial f.rest f.work f.bits _ filled (
                    inline_values-IsRegrouped fuel output_partial f.rest (f.work >>> d) (f.bits - d)
                      (omega (arith, v.same_bits)) some_bits v.digits
                      (shift_small f.work f.bits d v.small) (omega (arith, v.room)) wide))
            | inl done ↦
                let no_rest : length f.rest ≡ 0 = ground arith in
                let same : f.work + 2 ^ f.bits * value s f.rest ≡ f.work =
                  omega (arith, ap (λ (t : ℕ). 2 ^ f.bits * t) (value-nil s f.rest no_rest)) in
                let count : f.bits + s * length f.rest ≡ f.bits =
                  omega (arith, ap (λ (t : ℕ). s * t) no_rest) in
                rw done (
                  rw (same, count)
                    (last_value output_partial f.work f.bits (omega (arith, v.same_bits)) v.small
                      (elim wide [ inl e ↦ inl e | inr le ↦ inr (omega (arith, v.room)) ])))
          ])
