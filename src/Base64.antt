-- ===== src/Base64.antt =====
-- encfs/base64.h and encfs/base64.cpp: digits regrouped between two powers of two, and the
-- translations between digits and printable characters. A C buffer is the list of its bytes.
pub mod Value
pub mod Fill
pub mod Regroup
pub mod RoundTrip
pub mod Plain
pub mod Ascii
pub mod Name
pub mod Standard
mod Tests
use encfs.Base.{ℕ, zero, suc, ◌+◌, ◌-◌, ◌*◌, ◌/◌, Bool, true, false, ◌&&◌, not}
use encfs.Base.{List, [], ◌∷◌, ◌++◌, length, bit_and, bit_or, u8, u64, ◌<<<◌, ◌>>>◌, low_mask}
use encfs.Base.{ltb, leb, ◌==◌, if◌then◌else◌}

-- The sizes of a name after regrouping: a decoded one is rounded down, an encoded one up.
abbrev pub b64_to_b256_bytes : ℕ → ℕ
b64_to_b256_bytes n = n * 6 / 8

abbrev pub b32_to_b256_bytes : ℕ → ℕ
b32_to_b256_bytes n = n * 5 / 8

abbrev pub b256_to_b64_bytes : ℕ → ℕ
b256_to_b64_bytes n = (n * 8 + 5) / 6

abbrev pub b256_to_b32_bytes : ℕ → ℕ
b256_to_b32_bytes n = (n * 8 + 4) / 5

-- The input that is left, and the work buffer with the number of bits in it.
pub record Work : Type 0 where
  pub rest : List ℕ
  pub work : ℕ
  pub bits : ℕ

-- The `src_pow` low bits of an input value are regrouped into values of `dst_pow` bits.
module _ (src_pow dst_pow : ℕ) where
  -- `work |= ((unsigned long)(*src++)) << workBits`, on a 64-bit `unsigned long`.
  abbrev pub push_value : ℕ → ℕ → ℕ → ℕ
  push_value x work bits = bit_or work (u64 (x <<< bits))

  -- The first loop of the inline version: it takes input until a value can be output.
  pub fill : List ℕ → ℕ → ℕ → Work
  fill [] work bits = record { rest = []; work = work; bits = bits }
  fill (x ∷ src) work bits =
      if ltb bits dst_pow
      then fill src (push_value x work bits) (bits + src_pow)
      else record { rest = x ∷ src; work = work; bits = bits }

  -- `work & mask`, stored in an `unsigned char`.
  abbrev pub low_value : ℕ → ℕ
  low_value work = u8 (bit_and work (low_mask dst_pow))

  -- `while (workBits > 0)`: each round takes `dst_pow` bits away, so `bits` rounds are enough. The
  -- `int` that goes below 0 here stops at 0, which ends the loop as well.
  pub partial_values : ℕ → ℕ → ℕ → List ℕ
  partial_values zero work bits = []
  partial_values (suc fuel) work bits =
      let later = low_value work ∷ partial_values fuel (work >>> dst_pow) (bits - dst_pow) in
      if ltb 0 bits then later else []

  -- The values that the static `changeBase2Inline` writes from `outLoc` on, in order. Each level of
  -- its recursion writes after the deeper ones have read their input, and one place before theirs.
  -- A level below another one has `dst_pow` bits less before it: the fuel is the bits at hand.
  pub inline_values : ℕ → Bool → List ℕ → ℕ → ℕ → List ℕ
  unfolding fill partial_values
  inline_values zero output_partial src work bits = []
  inline_values (suc fuel) output_partial src work bits =
      let f = fill src work bits in
      let out_val = low_value f.work in
      let work' = f.work >>> dst_pow in
      let bits' = f.bits - dst_pow in
      let deeper = inline_values fuel output_partial f.rest work' bits' in
      let last = if output_partial then partial_values bits' work' bits' else [] in
      if length f.rest == 0 then out_val ∷ last else out_val ∷ deeper

  -- The public `changeBase2Inline`: the values that it leaves at the start of the buffer.
  pub change_base2_inline : List ℕ → Bool → List ℕ
  unfolding inline_values
  change_base2_inline src output_partial =
      inline_values (suc (length src * src_pow)) output_partial src 0 0

  -- The inner loop of `changeBase2`.
  pub drain : ℕ → ℕ → ℕ → List ℕ × ℕ × ℕ
  drain zero work bits = ([], work, bits)
  drain (suc fuel) work bits =
      let (out, work', bits') = drain fuel (work >>> dst_pow) (bits - dst_pow) in
      let more : List ℕ × ℕ × ℕ = (low_value work ∷ out, work', bits') in
      if leb dst_pow bits then more else ([], work, bits)

  -- `changeBase2` from a state of its work buffer; `room` is what is left of `dstLen`, and stops at
  -- 0. Only the value of the last partial group is held to it.
  pub change_values : List ℕ → ℕ → ℕ → ℕ → List ℕ
  unfolding drain
  change_values [] work bits room =
      if not (bits == 0) && ltb 0 room then low_value work ∷ [] else []
  change_values (x ∷ src) work bits room =
      let (out, work', bits') = drain (bits + src_pow) (push_value x work bits) (bits + src_pow) in
      out ++ change_values src work' bits' (room - length out)

  -- `changeBase2(src, srcLen, src2Pow, dst, dstLen, dst2Pow)`: what is written to `dst`.
  pub change_base2 : List ℕ → ℕ → List ℕ
  unfolding change_values
  change_base2 src dst_len = change_values src 0 0 dst_len
