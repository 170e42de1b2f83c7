-- ===== src/Base/Bits.antt =====
-- The bit operations at variables: an equation for the lowest digit of each, and from these the
-- laws that masks, joined fields and exclusive or obey at every width.
use Prim.Native.Nat.{ℕ, zero, suc, ◌+◌, ◌-◌, ◌*◌, ◌/◌, ◌%◌, ◌^◌, ◌≤◌, ◌<◌, min, max, differ}
use Prim.Native.Nat.{bit_and, bit_or, bit_xor, digits, bitwise}
use Prim.Native.Nat.{bit_and-bitwise, bit_or-bitwise, bit_xor-bitwise}
use mathlib.Core.Path.{◌≡◌, refl, sym, ap, ◌∙◌}
use mathlib.Core.WellFounded
use native.Mathlib.Nat.{pow-suc, div-add-mod, div-div-eq-div-mul}
use native.Mathlib.Omega.{arith}
use encfs.Base.Order.{lt_wf}
use encfs.Base.Powers.{pow_pos}
use encfs.Base.Words.{◌<<<◌, low_mask}

-- `digits` reads no more digits than its first number has: extra fuel changes nothing.
module _ (z : ℕ → ℕ) (f : ℕ → ℕ → ℕ) where
  digits-more : (n a b k : ℕ) → a ≤ n → k ≡ n + 1 → digits z f k a b ≡ digits z f n a b
  digits-more n a b zero h e = absurd (omega arith)
  digits-more zero zero b (suc k) h e = refl
  digits-more zero (suc a) b (suc k) h e = absurd (omega arith)
  digits-more (suc n) zero b (suc k) h e = refl
  digits-more (suc n) (suc a) b (suc k) h e =
      ap (λ (t : ℕ). t * 2 + f (suc a % 2) (b % 2))
        (digits-more n (suc a / 2) (b / 2) k (omega arith) (omega arith))

  digits-add : (d n a b k : ℕ) → a ≤ n → k ≡ n + d → digits z f k a b ≡ digits z f n a b
  digits-add zero n a b k h e = ap (λ (t : ℕ). digits z f t a b) (let p : k ≡ n = omega arith in p)
  digits-add (suc d) n a b k h e =
      digits-more (n + d) a b k (omega arith) (omega arith) ∙ digits-add d n a b (n + d) h refl

  bitwise-digit :
      (a b : ℕ)
      → bitwise z f (suc a) b ≡ bitwise z f (suc a / 2) (b / 2) * 2 + f (suc a % 2) (b % 2)
  bitwise-digit a b =
      ap (λ (t : ℕ). t * 2 + f (suc a % 2) (b % 2))
        (digits-add (a - suc a / 2) (suc a / 2) (suc a / 2) (b / 2) a (omega arith) (omega arith))

pub and_digit : (a b : ℕ) → bit_and a b ≡ bit_and (a / 2) (b / 2) * 2 + min (a % 2) (b % 2)
and_digit zero b = simp bit_and-bitwise (omega arith)
and_digit (suc a) b = simp bit_and-bitwise (bitwise-digit (λ y. 0) min a b)

pub or_digit : (a b : ℕ) → bit_or a b ≡ bit_or (a / 2) (b / 2) * 2 + max (a % 2) (b % 2)
or_digit zero b = simp bit_or-bitwise (omega arith)
or_digit (suc a) b = simp bit_or-bitwise (bitwise-digit (λ y. y) max a b)

differ-bit : (x y : ℕ) → x < 2 → y < 2 → differ x y ≡ (x + y) % 2
differ-bit zero zero h k = refl
differ-bit zero (suc zero) h k = refl
differ-bit zero (suc (suc y)) h k = absurd (omega arith)
differ-bit (suc zero) zero h k = refl
differ-bit (suc zero) (suc zero) h k = refl
differ-bit (suc zero) (suc (suc y)) h k = absurd (omega arith)
differ-bit (suc (suc x)) y h k = absurd (omega arith)

pub xor_digit : (a b : ℕ) → bit_xor a b ≡ bit_xor (a / 2) (b / 2) * 2 + (a + b) % 2
xor_digit zero b = simp bit_xor-bitwise (omega arith)
xor_digit (suc a) b = simp bit_xor-bitwise (
    omega (
      arith,
      bitwise-digit (λ y. y) differ a b,
      differ-bit (suc a % 2) (b % 2) (omega arith) (omega arith),
    ))

-- Induction on a number by halves: what holds at 0, and at `a` if at `a / 2`, holds everywhere.
module _ {ℓ} (P : ℕ → Type ℓ) (base : P 0) (step : (a : ℕ) → P (a / 2) → P a) where
  by_halves : (a : ℕ) → P a
  by_halves a = WellFounded.induction lt_wf {C = P} a go
    where
      go : (n : ℕ) → ((m : ℕ) → m < n → P m) → P n
      go zero ih = base
      go (suc n) ih = step (suc n) (ih (suc n / 2) (omega arith))

zero-or : (b : ℕ) → bit_or 0 b ≡ b
zero-or b = bit_or-bitwise 0 b

pub zero-xor : (b : ℕ) → bit_xor 0 b ≡ b
zero-xor b = bit_xor-bitwise 0 b

pub or-zero : (a : ℕ) → bit_or a 0 ≡ a
or-zero = by_halves (λ a. bit_or a 0 ≡ a) refl (λ a ih. omega (arith, or_digit a 0, ih))

pub and-zero : (a : ℕ) → bit_and a 0 ≡ 0
and-zero = by_halves (λ a. bit_and a 0 ≡ 0) refl (λ a ih. omega (arith, and_digit a 0, ih))

pub xor-zero : (a : ℕ) → bit_xor a 0 ≡ a
xor-zero = by_halves (λ a. bit_xor a 0 ≡ a) refl (λ a ih. omega (arith, xor_digit a 0, ih))

double_shift : (q k : ℕ) → q * 2 ^ suc k ≡ q * 2 ^ k * 2
double_shift q k = omega (arith, ap (λ (t : ℕ). q * t) (pow-suc 2 k))

-- Joining two fields that do not overlap is addition.
pub or_join : (k q r : ℕ) → r < 2 ^ k → bit_or r (q <<< k) ≡ r + q * 2 ^ k
or_join zero q r h = let e : r ≡ 0 = omega arith in rw e (omega (arith, zero-or (q * 2 ^ 0)))
or_join (suc k) q r h = ground (
  arith,
  or_digit r (q * 2 ^ suc k),
  double_shift q k,
  or_join k q (r / 2) (omega (arith, pow-suc 2 k)),
)

-- The same with the high field first.
pub or_join_high : (k q r : ℕ) → r < 2 ^ k → bit_or (q <<< k) r ≡ q * 2 ^ k + r
or_join_high zero q r h = ground (arith, or-zero q)
or_join_high (suc k) q r h = ground (
  arith,
  or_digit (q * 2 ^ suc k) r,
  double_shift q k,
  or_join_high k q (r / 2) (omega (arith, pow-suc 2 k)),
)

and_mask_field : (k q r : ℕ) → r < 2 ^ k → bit_and (r + q * 2 ^ k) (low_mask k) ≡ r
and_mask_field zero q r h = rw and-zero (omega arith)
and_mask_field (suc k) q r h = ground (
  arith,
  and_digit (r + q * 2 ^ suc k) (low_mask (suc k)),
  double_shift q k,
  pow-suc 2 k,
  pow_pos k,
  and_mask_field k q (r / 2) (omega (arith, pow-suc 2 k)),
)

-- A mask of the `k` lowest bits is the remainder by `2 ^ k`.
pub and_mask : (k a : ℕ) → bit_and a (low_mask k) ≡ a % 2 ^ k
and_mask k a =
    ground (arith, pow_pos k, div-add-mod a (2 ^ k), and_mask_field k (a / 2 ^ k) (a % 2 ^ k))

pub xor_self : (a : ℕ) → bit_xor a a ≡ 0
xor_self = by_halves (λ a. bit_xor a a ≡ 0) refl (λ a ih. omega (arith, xor_digit a a, ih))

-- Exclusive or with the same number twice gives the first back.
pub xor_cancel : (a b : ℕ) → bit_xor (bit_xor a b) b ≡ a
xor_cancel =
    by_halves (λ a. (b : ℕ) → bit_xor (bit_xor a b) b ≡ a)
      (λ b. ap (λ (t : ℕ). bit_xor t b) (zero-xor b) ∙ xor_self b)
      (λ a ih b. cancel_step a b (ih (b / 2)))
  where
    cancel_step :
        (a b : ℕ) → bit_xor (bit_xor (a / 2) (b / 2)) (b / 2) ≡ a / 2 → bit_xor (bit_xor a b) b ≡ a
    cancel_step a b e =
        let c = bit_xor a b in
        let half : c / 2 ≡ bit_xor (a / 2) (b / 2) = omega (arith, xor_digit a b) in
        omega (arith, xor_digit a b, xor_digit c b, ap (λ (t : ℕ). bit_xor t (b / 2)) half, e)

-- It stays within the width of its arguments.
pub xor-lt : (k a b : ℕ) → a < 2 ^ k → b < 2 ^ k → bit_xor a b < 2 ^ k
xor-lt zero a b h g =
    let p : a ≡ 0 = omega arith in let q : b ≡ 0 = omega arith in rw (p, q) (omega arith)
xor-lt (suc k) a b h g =
    let e = pow-suc 2 k in
    omega (arith, xor_digit a b, e, xor-lt k (a / 2) (b / 2) (omega arith) (omega arith))

two-pow : (k : ℕ) → 2 ^ suc k ≡ 2 * 2 ^ k
two-pow k = omega (arith, pow-suc 2 k)

-- A mask that stands `k` bits up picks from the number `k` bits down.
pub and_shifted : (k a m : ℕ) → bit_and a (m * 2 ^ k) ≡ bit_and (a / 2 ^ k) m * 2 ^ k
and_shifted zero a m =
    ap (λ (t : ℕ). bit_and a t) (let e : m * 1 ≡ m = omega arith in e)
    ∙ omega (arith, ap (λ (t : ℕ). bit_and t m) (let e : a / 1 ≡ a = omega arith in e))
and_shifted (suc k) a m =
    let half : m * 2 ^ suc k / 2 ≡ m * 2 ^ k = omega (arith, double_shift m k) in
    let shift : a / 2 ^ suc k ≡ a / 2 / 2 ^ k =
      ap (λ (t : ℕ). a / t) (two-pow k) ∙ sym (div-div-eq-div-mul a 2 (2 ^ k)) in
    omega (
      arith,
      and_digit a (m * 2 ^ suc k),
      double_shift m k,
      double_shift (bit_and (a / 2 ^ suc k) m) k,
      and_shifted k (a / 2) m,
      ap (λ (t : ℕ). bit_and (a / 2) t) half,
      ap (λ (t : ℕ). bit_and t m * 2 ^ k) shift,
    )

-- One bit of a number.
pub and_bit : (k a : ℕ) → bit_and a (2 ^ k) ≡ a / 2 ^ k % 2 * 2 ^ k
and_bit k a =
    ap (bit_and a) (let e : 2 ^ k ≡ 1 * 2 ^ k = omega arith in e)
    ∙ and_shifted k a 1
    ∙ ap (λ (t : ℕ). t * 2 ^ k) (and_mask 1 (a / 2 ^ k))

-- Disjunction keeps every bit of both sides.
pub or-ge_left : (a b : ℕ) → a ≤ bit_or a b
or-ge_left =
    by_halves (λ a. (b : ℕ) → a ≤ bit_or a b) (λ b. omega arith)
      (λ a ih b. omega (arith, or_digit a b, ih (b / 2)))

pub or-ge_right : (a b : ℕ) → b ≤ bit_or a b
or-ge_right =
    by_halves (λ a. (b : ℕ) → b ≤ bit_or a b) (λ b. omega (arith, zero-or b))
      (λ a ih b. omega (arith, or_digit a b, ih (b / 2)))

-- Numbers without a difference are equal.
pub xor_zero_eq : (a b : ℕ) → bit_xor a b ≡ 0 → a ≡ b
xor_zero_eq a b e = sym (xor_cancel a b) ∙ ap (λ (t : ℕ). bit_xor t b) e ∙ zero-xor b
