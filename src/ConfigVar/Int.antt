-- ===== src/ConfigVar/Int.antt =====
-- Numbers: `readInt` reads what `writeInt` has written.
use encfs.Base.{
  ℕ, ◌+◌, ◌*◌, ◌/◌, ◌%◌, ◌^◌, ◌<◌, Bool, true, false, not, List, [], ◌∷◌, ◌++◌, length, u32,
  bit_and, bit_or, ◌<<<◌, ◌>>>◌,
}
use encfs.Base.{if◌then◌else◌, ◌==◌, ◌≡◌, refl, sym, ap, ◌∙◌, arith, ==_iff}
use encfs.Base.Bits.{or_join_high, and_mask, and_shifted, and_bit}
use mathlib.Core.Path.{subst}
use native.Mathlib.Nat.{mod-eq_of_lt}
use encfs.ConfigVar.{digits, skip_zeros, read_digits}

-- A digit with the mark that more follow.
marked : (r : ℕ) → r < 128 → bit_or 0x80 r ≡ 128 + r
marked r h = or_join_high 7 1 r h

field : (k m a : ℕ) → bit_and a (m * 2 ^ k) ≡ bit_and (a / 2 ^ k) m * 2 ^ k
field k m a = and_shifted k a m

digit_1 : (v : ℕ) → bit_and v 0x00003f80 >>> 7 ≡ v / 2 ^ 7 % 128
digit_1 v =
    let e : bit_and v 0x00003f80 ≡ bit_and (v / 2 ^ 7) 127 * 2 ^ 7 = field 7 127 v in
    omega (arith, e, and_mask 7 (v / 2 ^ 7))

digit_2 : (v : ℕ) → bit_and v 0x001fc000 >>> 14 ≡ v / 2 ^ 14 % 128
digit_2 v =
    let e : bit_and v 0x001fc000 ≡ bit_and (v / 2 ^ 14) 127 * 2 ^ 14 = field 14 127 v in
    omega (arith, e, and_mask 7 (v / 2 ^ 14))

digit_3 : (v : ℕ) → bit_and v 0x0fe00000 >>> 21 ≡ v / 2 ^ 21 % 128
digit_3 v =
    let e : bit_and v 0x0fe00000 ≡ bit_and (v / 2 ^ 21) 127 * 2 ^ 21 = field 21 127 v in
    omega (arith, e, and_mask 7 (v / 2 ^ 21))

digit_4 : (v : ℕ) → bit_and v 0xf0000000 >>> 28 ≡ v / 2 ^ 28 % 16
digit_4 v =
    let e : bit_and v 0xf0000000 ≡ bit_and (v / 2 ^ 28) 15 * 2 ^ 28 = field 28 15 v in
    omega (arith, e, and_mask 4 (v / 2 ^ 28))

pub digits_lem :
    (v : ℕ)
    → digits v
      ≡ (128 + v / 2 ^ 28 % 16)
        ∷ (128 + v / 2 ^ 21 % 128)
        ∷ (128 + v / 2 ^ 14 % 128)
        ∷ (128 + v / 2 ^ 7 % 128)
        ∷ v % 128
        ∷ []
unfolding digits
digits_lem v =
    rw (digit_1 v, digit_2 v, digit_3 v, digit_4 v, and_mask 7 v)
      (rw
        (
          marked (v / 2 ^ 28 % 16) (omega arith),
          marked (v / 2 ^ 21 % 128) (omega arith),
          marked (v / 2 ^ 14 % 128) (omega arith),
          marked (v / 2 ^ 7 % 128) (omega arith),
        )
        refl)

-- The value after one turn of the loop of `readInt`.
taken :
    (value tmp r : ℕ)
    → tmp % 128 ≡ r
    → value * 128 < 2 ^ 32
    → bit_or (u32 (value <<< 7)) (bit_and tmp 0x7f) ≡ value * 128 + r
taken value tmp r e room =
    ap (λ (t : ℕ). bit_or (u32 (value <<< 7)) t) (and_mask 7 tmp ∙ e)
    ∙ ap (λ (t : ℕ). bit_or t r) (mod-eq_of_lt {n = value * 128} {m = 2 ^ 32} room)
    ∙ or_join_high 7 value r (omega (arith, e))

turn :
    (value value' count tmp : ℕ) (buf : List ℕ) (more : Bool)
    → bit_or (u32 (value <<< 7)) (bit_and tmp 0x7f) ≡ value'
    → not (bit_and tmp 0x80 == 0) ≡ more
    → read_digits value count (tmp ∷ buf)
      ≡ (if more then read_digits value' (count + 1) buf else (value', count + 1))
unfolding read_digits
turn value value' count tmp buf more e f =
    ap
      (λ (t : ℕ).
        if not (bit_and tmp 0x80 == 0) then read_digits t (count + 1) buf else (t, count + 1))
      e
    ∙ ap
        (λ (b : Bool).
          if b
          then read_digits value' (count + 1) buf
          else (let p : ℕ × ℕ = (value', count + 1) in p))
        f

more_digit :
    (value count r : ℕ) (buf : List ℕ)
    → r < 128
    → value * 128 < 2 ^ 32
    → read_digits value count ((128 + r) ∷ buf) ≡ read_digits (value * 128 + r) (count + 1) buf
more_digit value count r buf small room =
    let high = and_bit 7 (128 + r) in
    turn value (value * 128 + r) count (128 + r) buf true
      (taken value (128 + r) r (omega (arith, small)) room) (ground (arith, high, small))

last_digit :
    (value count r : ℕ) (buf : List ℕ)
    → r < 128
    → value * 128 < 2 ^ 32
    → read_digits value count (r ∷ buf) ≡ (value * 128 + r, count + 1)
last_digit value count r buf small room =
    let high = and_bit 7 r in
    turn value (value * 128 + r) count r buf false (taken value r r (omega (arith, small)) room)
      (ground (arith, high, small))

-- Five digits give the number that they stand for, and so do they without the zeros before them.
count_on :
    (value count more : ℕ) (buf : List ℕ)
    → read_digits value (count + more) buf
      ≡ ((read_digits value count buf).0, (read_digits value count buf).1 + more)
unfolding read_digits
count_on value count more [] = refl
count_on value count more (tmp ∷ buf) =
    go (not (bit_and tmp 0x80 == 0))
      (count_on (bit_or (u32 (value <<< 7)) (bit_and tmp 0x7f)) (count + 1) more buf)
  where
    value' : ℕ
    value' = bit_or (u32 (value <<< 7)) (bit_and tmp 0x7f)

    go :
        (b : Bool)
        → read_digits value' (count + 1 + more) buf
          ≡ ((read_digits value' (count + 1) buf).0, (read_digits value' (count + 1) buf).1 + more)
        → (if b then read_digits value' (count + more + 1) buf else (value', count + more + 1)) ≡ (
          (if b then read_digits value' (count + 1) buf else (value', count + 1)).0,
          (if b then read_digits value' (count + 1) buf else (value', count + 1)).1 + more,
        )
    go true ih =
        ap (λ (n : ℕ). read_digits value' n buf)
          (let e : count + more + 1 ≡ count + 1 + more = omega arith in e)
        ∙ ih
    go false ih =
        ap (λ (n : ℕ). let p : ℕ × ℕ = (value', n) in p)
          (let e : count + more + 1 ≡ count + 1 + more = omega arith in e)

-- What is read of some digits: the value, and how many there are.
abbrev Reads : List ℕ → List ℕ → ℕ → Type 0
Reads ds rest v = read_digits 0 0 (ds ++ rest) ≡ (v, length ds)

skip_one : (ds rest : List ℕ) (v : ℕ) → Reads (128 ∷ ds) rest v → Reads ds rest v
skip_one ds rest v h =
    let e : read_digits 0 0 (128 ∷ (ds ++ rest)) ≡ read_digits 0 (0 + 1) (ds ++ rest) =
      more_digit 0 0 0 (ds ++ rest) (omega arith) (omega arith) in
    let both = sym (count_on 0 0 1 (ds ++ rest)) ∙ sym e ∙ h in
    let value = ap (λ (p : ℕ × ℕ). p.0) both in
    let count : (read_digits 0 0 (ds ++ rest)).1 ≡ length ds =
      omega (arith, ap (λ (p : ℕ × ℕ). p.1) both) in
    λ i. (value i, count i)

skip_zeros_lem : (ds rest : List ℕ) (v : ℕ) → Reads ds rest v → Reads (skip_zeros ds) rest v
skip_zeros_lem [] rest v h = h
skip_zeros_lem (d ∷ ds) rest v h = by_test (skip_zeros_lem ds rest v) (d == 0x80) refl
  where
    by_test :
        (Reads ds rest v → Reads (skip_zeros ds) rest v)
        → (b : Bool) → (d == 0x80) ≡ b
        → Reads (if b then skip_zeros ds else d ∷ ds) rest v
    by_test later true e =
        later
          (skip_one ds rest v (subst (λ (x : ℕ). Reads (x ∷ ds) rest v) ((==_iff d 0x80).0 e) h))
    by_test later false e = h

pub digits-Reads :
    (v : ℕ) (rest : List ℕ)
    → v < 0x80000000
    → read_digits 0 0 (skip_zeros (digits v) ++ rest) ≡ (v, length (skip_zeros (digits v)))
digits-Reads v rest small =
    skip_zeros_lem (digits v) rest v
      (subst (λ (ds : List ℕ). Reads ds rest v) (sym (digits_lem v)) all_five)
  where
    a0 : ℕ
    a0 = 0 * 128 + v / 2 ^ 28 % 16

    a1 : ℕ
    a1 = a0 * 128 + v / 2 ^ 21 % 128

    a2 : ℕ
    a2 = a1 * 128 + v / 2 ^ 14 % 128

    a3 : ℕ
    a3 = a2 * 128 + v / 2 ^ 7 % 128

    whole : a3 * 128 + v % 128 ≡ v
    whole = omega (arith, small)

    all_five :
        Reads
          ((128 + v / 2 ^ 28 % 16)
            ∷ (128 + v / 2 ^ 21 % 128)
            ∷ (128 + v / 2 ^ 14 % 128)
            ∷ (128 + v / 2 ^ 7 % 128)
            ∷ v % 128
            ∷ [])
          rest
          v
    all_five =
        more_digit 0 0 (v / 2 ^ 28 % 16) _ (omega arith) (omega arith)
        ∙ more_digit a0 (0 + 1) (v / 2 ^ 21 % 128) _ (omega arith) (omega (arith, small))
        ∙ more_digit a1 (0 + 1 + 1) (v / 2 ^ 14 % 128) _ (omega arith) (omega (arith, small))
        ∙ more_digit a2 (0 + 1 + 1 + 1) (v / 2 ^ 7 % 128) _ (omega arith) (omega (arith, small))
        ∙ last_digit a3 (0 + 1 + 1 + 1 + 1) (v % 128) rest (omega arith) (omega (arith, small))
        ∙ ap (λ (n : ℕ). let p : ℕ × ℕ = (n, 5) in p) whole
