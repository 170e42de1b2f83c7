-- ===== src/MacFile/Compare.antt =====
-- The comparison in constant time finds every difference.
use encfs.Base.{
  ℕ, zero, suc, ◌≤◌, List, [], ◌∷◌, ◌++◌, length, take, write_le, bit_or, bit_xor, bit_and, ◌>>>◌,
  ◌≡◌, refl, sym, ap, ap₂, ◌∙◌, arith,
}
use encfs.Base.Bits.{or-ge_left, or-ge_right, xor_zero_eq, xor_self, or-zero}
use encfs.MacFile.{differences}

-- What was found is not lost.
differences-ge : (n mac : ℕ) (data' : List ℕ) (failed : ℕ) → failed ≤ differences n mac data' failed
unfolding differences
differences-ge zero mac data' failed = omega arith
differences-ge (suc n) mac [] failed = omega arith
differences-ge (suc n) mac (stored ∷ data') failed =
    let d = bit_xor (bit_and mac 0xff) stored in
    omega (arith, differences-ge n (mac >>> 8) data' (bit_or failed d), or-ge_left failed d)

-- No difference means that the stored bytes are those of the MAC.
pub differences_sound :
    (n mac : ℕ) (data' : List ℕ) (failed : ℕ)
    → n ≤ length data'
    → differences n mac data' failed ≡ 0
    → take n data' ≡ write_le n mac
unfolding differences write_le
differences_sound zero mac data' failed h e = refl
differences_sound (suc n) mac [] failed h e = absurd (omega arith)
differences_sound (suc n) mac (stored ∷ data') failed h e =
    let d = bit_xor (bit_and mac 0xff) stored in
    let none : d ≡ 0 =
      omega
        (arith, e, differences-ge n (mac >>> 8) data' (bit_or failed d), or-ge_right failed d) in
    ap₂ (◌∷◌) (sym (xor_zero_eq (bit_and mac 0xff) stored none))
      (differences_sound n (mac >>> 8) data' (bit_or failed d) (omega arith) e)

-- The bytes of the MAC itself show no difference.
pub differences_complete :
    (n mac : ℕ) (rest : List ℕ) → differences n mac (write_le n mac ++ rest) 0 ≡ 0
unfolding differences write_le
differences_complete zero mac rest = refl
differences_complete (suc n) mac rest =
    ap (λ (t : ℕ). differences n (mac >>> 8) (write_le n (mac >>> 8) ++ rest) (bit_or 0 t))
      (xor_self (bit_and mac 0xff))
    ∙ ap (differences n (mac >>> 8) (write_le n (mac >>> 8) ++ rest)) (or-zero 0)
    ∙ differences_complete n (mac >>> 8) rest

pub length-write_le : (n v : ℕ) → length (write_le n v) ≡ n
unfolding write_le
length-write_le zero v = refl
length-write_le (suc n) v = ap suc (length-write_le n (v >>> 8))
