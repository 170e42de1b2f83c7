-- ===== src/MacFile/Location.antt =====
-- Places in the file with headers and without.
use encfs.Base.{ℕ, ◌+◌, ◌-◌, ◌*◌, ◌≤◌, ◌<◌, ◌≡◌, sym, ap, ◌∙◌, arith}
use native.Mathlib.Nat.{div-eq_of_lt-le, lt-div-mul-add, div-mul-le_self}
use encfs.MacFile.{round_up_divide, loc_with_header, loc_without_header}

-- Rounding up gives the number of blocks that hold so many bytes.
round_up_divide-bounds :
    (n d : ℕ) → 0 < d → (n ≤ round_up_divide n d * d) × (round_up_divide n d * d < n + d)
unfolding round_up_divide
round_up_divide-bounds n d pos = (
  omega (arith, lt-div-mul-add {a = n + d - 1} pos),
  omega (arith, div-mul-le_self (n + d - 1) d, pos),
)

round_up_divide_unique : (n d k : ℕ) → n ≤ k * d → k * d < n + d → round_up_divide n d ≡ k
unfolding round_up_divide
round_up_divide_unique n d k h g = div-eq_of_lt-le d (omega arith) (omega arith)

-- With a header shorter than the block: `locWithHeader` moves the start of a block of user data to
-- the start of a whole block, and `locWithoutHeader` undoes it at any place, so that sizes come
-- back.
pub loc_without_header-loc_with_header :
    (offset k block_size header_size : ℕ)
    → header_size < block_size
    → (loc_with_header (k * (block_size - header_size)) block_size header_size ≡ k * block_size)
      × (loc_without_header (loc_with_header offset block_size header_size) block_size header_size
          ≡ offset)
unfolding loc_with_header loc_without_header
loc_without_header-loc_with_header offset k block_size header_size h =
    let d = block_size - header_size in
    let whole : block_size ≡ d + header_size = omega arith in
    let blocks : k * block_size ≡ k * d + k * header_size =
      omega (arith, ap (λ (t : ℕ). k * t) whole) in
    let n = round_up_divide offset d in
    let rows : n * block_size ≡ n * d + n * header_size =
      omega (arith, ap (λ (t : ℕ). n * t) whole) in
    let (high, low) = round_up_divide-bounds offset d (omega arith) in
    let back : round_up_divide (offset + n * header_size) block_size ≡ n =
      round_up_divide_unique (offset + n * header_size) block_size n (omega (arith, high, rows))
        (omega (arith, low, rows)) in
    (
      ap (λ (t : ℕ). k * d + t * header_size)
            (round_up_divide_unique (k * d) d k (omega arith) (omega arith))
          ∙ sym blocks,
      ap (λ (t : ℕ). offset + n * header_size - t * header_size) back ∙ omega arith,
    )
