-- ===== src/Base/Endian.antt =====
-- Numbers as bytes, highest first or lowest first, as loops with shifts write and read them.
use Prim.Native.Nat.{ℕ, zero, suc, ◌+◌, ◌*◌, ◌/◌, ◌%◌, ◌^◌, ◌≤◌, ◌<◌, bit_and, bit_or}
use mathlib.Core.Path.{◌≡◌, refl, sym, ap, ◌∙◌, subst}
use mathlib.Core.List.{List, [], ◌∷◌, ◌++◌}
use native.Mathlib.Nat.{pow-suc, pow-le-pow_right, mod-eq_of_lt}
use native.Mathlib.Omega.{arith}
use encfs.Base.Lists.{length, All}
use encfs.Base.Words.{◌<<<◌, ◌>>>◌, IsByte}
use encfs.Base.Bits.{or_join_high, and_mask}

-- `for (i = 1; i <= n; ++i) { data[n - i] = v & 0xff; v >>= 8; }`, before `rest`.
unfoldable pub write_be : ℕ → ℕ → List ℕ → List ℕ
write_be zero v rest = rest
write_be (suc n) v rest = write_be n (v >>> 8) (bit_and v 0xff ∷ rest)

-- `for (i = 0; i < n; ++i) acc = (acc << 8) | data[i];` on an unsigned word of `w` bits.
unfoldable pub read_be : ℕ → ℕ → List ℕ → ℕ
read_be w acc [] = acc
read_be w acc (b ∷ data') = read_be w (bit_or ((acc <<< 8) % 2 ^ w) b) data'

-- `for (i = 0; i < n; ++i) { h[i] = v & 0xff; v >>= 8; }`
unfoldable pub write_le : ℕ → ℕ → List ℕ
write_le zero v = []
write_le (suc n) v = bit_and v 0xff ∷ write_le n (v >>> 8)

pub length-write_be : (n v : ℕ) (rest : List ℕ) → length (write_be n v rest) ≡ n + length rest
unfolding write_be
length-write_be zero v rest = omega arith
length-write_be (suc n) v rest = omega (arith, length-write_be n (v >>> 8) (bit_and v 0xff ∷ rest))

pub write_be-IsByte : (n v : ℕ) (rest : List ℕ) → All IsByte rest → All IsByte (write_be n v rest)
unfolding write_be
write_be-IsByte zero v rest h = h
write_be-IsByte (suc n) v rest h =
    write_be-IsByte n (v >>> 8) (bit_and v 0xff ∷ rest) (omega (arith, and_mask 8 v), h)

-- A byte is taken in without loss while the word has room.
read_be_step :
    (w acc b : ℕ) → b < 256 → acc * 256 + b < 2 ^ w → bit_or ((acc <<< 8) % 2 ^ w) b ≡ acc * 256 + b
read_be_step w acc b hb fits =
    ap (λ (t : ℕ). bit_or t b) (mod-eq_of_lt {n = acc * 256} {m = 2 ^ w} (omega arith))
    ∙ or_join_high 8 acc b hb

-- Reading back what was written: the number, below what was there.
pub read_be-write_be :
    (w n v acc : ℕ) (rest : List ℕ)
    → v < 256 ^ n
    → acc * 256 ^ n + v < 2 ^ w
    → read_be w acc (write_be n v rest) ≡ read_be w (acc * 256 ^ n + v) rest
unfolding read_be write_be
read_be-write_be w zero v acc rest h fits = ap (λ (t : ℕ). read_be w t rest) (omega arith)
read_be-write_be w (suc n) v acc rest h fits =
    let p = pow-suc 256 n in
    let high : ℕ = acc * 256 ^ n + v / 256 in
    let join : high * 256 + v % 256 ≡ acc * 256 ^ suc n + v =
      omega (arith, ap (λ (t : ℕ). acc * t) p) in
    read_be-write_be w n (v / 256) acc (bit_and v 0xff ∷ rest) (omega arith) (omega (arith, join))
    ∙ ap (λ (t : ℕ). read_be w (bit_or ((high <<< 8) % 2 ^ w) t) rest) (and_mask 8 v)
    ∙ ap (λ (t : ℕ). read_be w t rest)
        (read_be_step w high (v % 256) (omega arith) (omega (arith, join)) ∙ join)

pub write_be-append :
    (n v : ℕ) (front rest : List ℕ) → write_be n v (front ++ rest) ≡ write_be n v front ++ rest
unfolding write_be
write_be-append zero v front rest = refl
write_be-append (suc n) v front rest = write_be-append n (v >>> 8) (bit_and v 0xff ∷ front) rest

-- What is read from so few bytes has room in 64 bits.
pub read_be-lt :
    (m acc : ℕ) (data' : List ℕ)
    → All IsByte data'
    → acc < 256 ^ m
    → m + length data' ≤ 8
    → read_be 64 acc data' < 256 ^ (m + length data')
unfolding read_be
read_be-lt m acc [] bytes h small = ap_lt (omega arith) h
  where
    ap_lt : {i j : ℕ} → i ≡ j → acc < 256 ^ i → acc < 256 ^ j
    ap_lt {i} {j} e k = subst (λ (n : ℕ). acc < 256 ^ n) e k
read_be-lt m acc (b ∷ data') bytes h small =
    let p = pow-suc 256 m in
    let next : acc * 256 + b < 256 ^ suc m = omega (arith, p, bytes.0, h) in
    let wide : 256 ^ suc m ≤ 256 ^ 8 =
      pow-le-pow_right {n = 256} (omega arith) {i = suc m} {j = 8} (omega (arith, small)) in
    let step : bit_or ((acc <<< 8) % 2 ^ 64) b ≡ acc * 256 + b =
      read_be_step 64 acc b bytes.0 (omega (arith, next, wide)) in
    let rest = read_be-lt (suc m) (acc * 256 + b) data' bytes.1 next (omega (arith, small)) in
    let place : suc m + length data' ≡ m + length (b ∷ data') = omega arith in
    subst (λ (n : ℕ). read_be 64 (bit_or ((acc <<< 8) % 2 ^ 64) b) data' < 256 ^ n) place
      (subst (λ (a : ℕ). read_be 64 a data' < 256 ^ (suc m + length data')) (sym step) rest)
