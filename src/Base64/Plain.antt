-- ===== src/Base64/Plain.antt =====
-- `changeBase2`, which regroups from one buffer into another, writes what `changeBase2Inline` leaves.
use encfs.Base.{ℕ, zero, suc, ◌+◌, ◌-◌, ◌*◌, ◌^◌, ◌≤◌, ◌<◌, Bool, true, not, ◌&&◌}
use encfs.Base.{List, [], ◌∷◌, ◌++◌, length, take_all, ◌>>>◌, ltb, leb, ◌==◌, if◌then◌else◌}
use encfs.Base.{◌≡◌, refl, sym, ap, ◌∙◌, arith, Bool-cases, inl, inr, pow-add, dec_lt}
use mathlib.Core.Path.{subst}
use encfs.Base64.{low_value, push_value, drain, change_values, change_base2, change_base2_inline}
use encfs.Base64.Value.{value, IsDigits, shift_small}
use encfs.Base64.Fill.{push_value-add}
use encfs.Base64.Regroup.{IsExact, low_value-lt, low_value-split, IsExact-nil, IsExact-cons}
use encfs.Base64.RoundTrip.{digits_unique, change_base2_inline-IsRegrouped}

module _ (s d : ℕ) (d_byte : d ≤ 8) (fits : s + d ≤ 64) (d_pos : 0 < d) where
  -- A digit more below those of the number that is left.
  below :
      (work bits V n : ℕ) (out : List ℕ)
      → d ≤ bits
      → IsExact d ((work >>> d) + 2 ^ (bits - d) * V) (bits - d + n) out
      → IsExact d (work + 2 ^ bits * V) (bits + n) (low_value s d work ∷ out)
  below work bits V n out h v = record {
    digits = (low_value-lt s d d_byte fits d_pos work, v.digits);
    whole = omega (
      arith,
      low_value-split s d d_byte fits d_pos work,
      ap (λ (t : ℕ). 2 ^ d * t) v.whole,
      ap (λ (t : ℕ). t * V) (pow-add d (bits - d)),
      ap (λ (k : ℕ). 2 ^ k * V) (let e : bits ≡ d + (bits - d) = omega arith in e),
    );
    long = omega (arith, v.long);
    short = omega (arith, v.short);
  }

  -- What the inner loop leaves: less than a value, and the digits that it wrote below what follows.
  record IsDrained (work bits : ℕ) (end : List ℕ × ℕ × ℕ) : Type 0 where
    little : end.2 < d
    small : end.1 < 2 ^ end.2
    taken : end.2 + length end.0 * d ≡ bits
    joins :
        (V n : ℕ) (rest : List ℕ)
        → IsExact d (end.1 + 2 ^ end.2 * V) (end.2 + n) rest
        → IsExact d (work + 2 ^ bits * V) (bits + n) (end.0 ++ rest)

  drain-IsDrained :
      (fuel work bits : ℕ)
      → bits ≤ fuel
      → work < 2 ^ bits
      → IsDrained work bits (drain s d fuel work bits)
  unfolding drain
  drain-IsDrained zero work bits h hw = record {
    little = omega arith;
    small = hw;
    taken = omega arith;
    joins = λ V n rest v. v;
  }
  drain-IsDrained (suc fuel) work bits h hw = elim (Bool-cases (leb d bits)) [
    | inr few ↦
        rw few (record {
          little = ground arith;
          small = hw;
          taken = omega arith;
          joins = λ V n rest v. v;
        })
    | inl more ↦
        let enough : d ≤ bits = ground arith in
        let v =
          drain-IsDrained fuel (work >>> d) (bits - d) (omega arith) (shift_small work bits d hw) in
        rw more (record {
          little = v.little;
          small = v.small;
          taken = omega (arith, v.taken);
          joins = λ V n rest w. below work bits V n _ enough (v.joins V n rest w);
        })
  ]

  same_number :
      {total count total' count' : ℕ} (out : List ℕ)
      → total ≡ total'
      → count ≡ count'
      → IsExact d total count out
      → IsExact d total' count' out
  same_number out e f v = record {
    digits = v.digits;
    whole = v.whole ∙ e;
    long = omega (arith, v.long, f);
    short = omega (arith, v.short, f);
  }

  change_values-IsExact :
      (src : List ℕ) (work bits room : ℕ)
      → IsDigits s src
      → work < 2 ^ bits
      → bits < d
      → bits + s * length src ≤ room * d
      → IsExact d
          (work + 2 ^ bits * value s src)
          (bits + s * length src)
          (change_values s d src work bits room)
  unfolding change_values
  change_values-IsExact [] work bits room ds hw few enough = elim (Bool-cases (bits == 0)) [
    | inl no_bits ↦
        let e : bits ≡ 0 = ground arith in
        subst
          (λ (b : Bool).
            IsExact d (work + 2 ^ bits * 0) (bits + s * 0)
              (if not b && ltb 0 room then low_value s d work ∷ [] else []))
          (sym no_bits)
          (same_number [] (omega arith) (omega arith)
            (IsExact-nil s d d_byte fits d_pos work bits hw e))
    | inr some_bits ↦
        let pos : 0 < bits = ground arith in
        let has_room : ltb 0 room ≡ true = some_room room pos enough in
        subst
          (λ (b : Bool).
            IsExact d (work + 2 ^ bits * 0) (bits + s * 0)
              (if not b && ltb 0 room then low_value s d work ∷ [] else []))
          (sym some_bits)
          (subst
            (λ (b : Bool).
              IsExact d (work + 2 ^ bits * 0) (bits + s * 0)
                (if b then low_value s d work ∷ [] else []))
            (sym has_room)
            (same_number (low_value s d work ∷ []) (omega arith) (omega arith) (
              IsExact-cons s d d_byte fits d_pos work bits [] pos (
                IsExact-nil s d d_byte fits d_pos (work >>> d) (bits - d)
                  (shift_small work bits d hw) (omega arith)))))
  ]
    where
      some_room : (n : ℕ) → 0 < bits → bits + s * 0 ≤ n * d → ltb 0 n ≡ true
      some_room zero pos h = absurd (omega arith)
      some_room (suc n) pos h = ground arith
  change_values-IsExact (x ∷ src) work bits room ds hw few enough =
      let (pushed, fits_bits) = push_value-add s d d_byte fits x work bits ds.0 hw few in
      let end = drain s d (bits + s) (push_value s d x work bits) (bits + s) in
      let v =
        drain-IsDrained (bits + s) (push_value s d x work bits) (bits + s) (omega arith)
          (subst (λ (w : ℕ). w < 2 ^ (bits + s)) (sym pushed) fits_bits) in
      let rest =
        change_values-IsExact src end.1 end.2 (room - length end.0) ds.1 v.small v.little
          (less_room room (length end.0) end.2 (omega (arith, v.taken, enough))) in
      same_number (end.0 ++ change_values s d src end.1 end.2 (room - length end.0))
        (omega (arith, pushed, ap (λ (t : ℕ). t * value s src) (pow-add bits s))) (omega arith)
        (v.joins (value s src) (s * length src) _ rest)
    where
      right_distrib : (a b : ℕ) → (a + b) * d ≡ a * d + b * d
      right_distrib a b = omega arith

      less_room :
          (n k left : ℕ)
          → left + k * d + s * length src ≤ n * d
          → left + s * length src ≤ (n - k) * d
      less_room n k left h = elim (dec_lt n k) [
        | yes short ↦ absurd (let step : n * d + d ≤ k * d = grind arith in omega (arith, d_pos))
        | no more ↦
            let split : (n - k) * d + k * d ≡ n * d =
              sym (right_distrib (n - k) k) ∙ ap (λ (t : ℕ). t * d) (omega arith) in
            omega (arith, split, h)
      ]

-- Two lists of digits of one number, of the same count of bits, are one list.
count_unique : (n m d count : ℕ) → count ≤ n * d → m * d < count + d → m ≤ n
count_unique n m d count h k = elim (dec_lt n m) [
  | yes more ↦ absurd (let step : n * d + d ≤ m * d = grind arith in omega arith)
  | no other ↦ omega arith
]

-- For values of `s` bits, at least one of them, and digits of at most eight bits, with a work buffer of
-- 64 bits that holds both: `changeBase2`, given a buffer with room for all digits, writes exactly what
-- `changeBase2Inline` leaves with its last partial digit, though the two take their digits in other
-- orders of work.
pub change_base2-eq-change_base2_inline :
    (s d dst_len : ℕ) (src : List ℕ)
    → d ≤ 8
    → s + d ≤ 64
    → 0 < s
    → 0 < d
    → IsDigits s src
    → 0 < length src
    → length src * s ≤ dst_len * d
    → change_base2 s d src dst_len ≡ change_base2_inline s d src true
unfolding change_base2
change_base2-eq-change_base2_inline s d dst_len src d_byte fits s_pos d_pos ds some enough =
    let one : 0 < 2 ^ 0 = omega arith in
    let a =
      change_values-IsExact s d d_byte fits d_pos src 0 0 dst_len ds one d_pos
        (omega (arith, enough)) in
    let b =
      change_base2_inline-IsRegrouped s d d_byte fits s_pos d_pos true src ds some (inl refl) in
    let xs = change_values s d src 0 0 dst_len in
    let ys = change_base2_inline s d src true in
    let le =
      count_unique (length ys) (length xs) d (length src * s) (b.exact refl).1
        (omega (arith, a.short)) in
    let ge =
      count_unique (length xs) (length ys) d (length src * s) (omega (arith, a.long)) b.short in
    sym (
      digits_unique d xs ys 0 0 a.digits b.digits le (
        omega (
          arith,
          a.whole,
          b.whole,
          (b.exact refl).0,
          ap (λ (t : ℕ). (2 ^ d) ^ length ys * t) (b.exact refl).0,
        )))
    ∙ take_all (length xs) ys ge
