-- ===== src/MacFile.antt =====
-- encfs/MACFileIO.cpp: a layer of blocks with a header, the MAC of the block and random bytes, over a
-- base file. `none` is an `Error`.
pub mod Location
pub mod Compare
pub mod Block
pub mod Tests
use encfs.Base.{
  ℕ, zero, suc, ◌+◌, ◌-◌, ◌*◌, ◌/◌, ◌%◌, ◌<◌, Bool, true, false, ◌&&◌, not, List, [], ◌∷◌, ◌++◌,
  length, take, drop, replicate, get_or, write_le,
}
use encfs.Base.{Option, none, some, if◌then◌else◌, ltb, leb, ◌==◌, bit_and, bit_or, bit_xor, ◌>>>◌}
use encfs.Cipher.Ssl.{r_assert, ◌>>=◌, ◌>>◌}
use encfs.Cipher.Ops.{CipherOps}
use encfs.BlockFile.Layer.{Result, fail, ok}

-- `roundUpDivide`
unfoldable pub round_up_divide : ℕ → ℕ → ℕ
round_up_divide numerator denominator = (numerator + denominator - 1) / denominator

-- `locWithHeader` and `locWithoutHeader`
unfoldable pub loc_with_header : ℕ → ℕ → ℕ → ℕ
loc_with_header offset block_size header_size =
    offset + round_up_divide offset (block_size - header_size) * header_size

unfoldable pub loc_without_header : ℕ → ℕ → ℕ → ℕ
loc_without_header offset block_size header_size =
    offset - round_up_divide offset block_size * header_size

-- The fields of `MACFileIO`, with the block size and `allowHoles` of its base class.
pub record MacFileIo : Type 0 where
  pub mac_bytes : ℕ
  pub rand_bytes : ℕ
  pub block_size : ℕ
  pub allow_holes : Bool
  pub warn_only : Bool

-- What is called of the base file.
pub record BaseFile (S : Type 0) : Type 0 where
  pub read : S → ℕ → ℕ → S × Result (List ℕ)
  pub write : S → ℕ → List ℕ → S × Result ℕ

abbrev pub header_size : MacFileIo → ℕ
header_size c = c.mac_bytes + c.rand_bytes

-- `bs`
abbrev pub full_size : MacFileIo → ℕ
full_size c = c.block_size + header_size c

abbrev pub all_zero : List ℕ → Bool
all_zero [] = true
all_zero (x ∷ data') = if not (x == 0) then false else all_zero data'

-- `skipBlock`, for the bytes that were read.
abbrev pub skip_block : MacFileIo → List ℕ → Bool
skip_block c data' = if c.allow_holes then all_zero data' else not (ltb 0 c.mac_bytes)

-- The comparison in constant time: the differences of `n` bytes, joined to `fail`.
unfoldable pub differences : ℕ → ℕ → List ℕ → ℕ → ℕ
differences zero mac data' failed = failed
differences (suc n) mac [] failed = failed
differences (suc n) mac (stored ∷ data') failed =
    differences n (mac >>> 8) data' (bit_or failed (bit_xor (bit_and mac 0xff) stored))

-- `EBADMSG`
abbrev pub ebadmsg : ℕ
ebadmsg = 74

module _ (c : MacFileIo) (ops : CipherOps) where
  -- Whether the MAC of the block fails the comparison.
  abbrev pub is_forged : List ℕ → Option Bool
  is_forged data' = do
    (mac, _) ← ops.mac_64 (drop c.mac_bytes data') none
    some (ltb 0 (differences c.mac_bytes mac data' 0))

  abbrev pub compare_mac : List ℕ → List ℕ → Option (Result (List ℕ))
  compare_mac data' user_data = do
    forged ← is_forged data'
    some (if forged && not c.warn_only then fail ebadmsg else ok user_data)

  -- What `readOneBlock` makes of the bytes of a block.
  pub check_block : List ℕ → Option (Result (List ℕ))
  check_block data' =
      let user_data = drop (header_size c) data' in
      if not (ltb (header_size c) (length data'))
      then some (ok [])
      else if skip_block c data'
      then some (ok user_data)
      else compare_mac data' user_data

  -- The header with the random bytes, before the MAC is filled in: without them `random` is not asked
  -- for, and a failure of `randomize` is an error.
  abbrev pub with_random : Option (List ℕ) → List ℕ → Result (List ℕ)
  with_random random data' =
      if ltb 0 c.rand_bytes then filled random else ok (replicate c.mac_bytes 0 ++ data')
    where
      filled : Option (List ℕ) → Result (List ℕ)
      filled none = fail ebadmsg
      filled (some bytes) = ok (replicate c.mac_bytes 0 ++ bytes ++ data')

  -- The MAC filled in, lowest byte first.
  abbrev pub with_mac : Result (List ℕ) → Option (Result (List ℕ))
  with_mac (fail errno) = some (fail errno)
  with_mac (ok block) =
      if ltb 0 c.mac_bytes
      then (ops.mac_64 (drop c.mac_bytes block) none >>= λ mac.
          some (ok (write_le c.mac_bytes mac.0 ++ drop c.mac_bytes block)))
      else some (ok block)

  -- The block that `writeOneBlock` hands to the base file; `random` is what `randomize` wrote, if it
  -- succeeded.
  pub seal_block : Option (List ℕ) → List ℕ → Option (Result (List ℕ))
  seal_block random data' = with_mac (with_random random data')

  module _ {S : Type 0} (base : BaseFile S) where
    abbrev pub open_read : S × Result (List ℕ) → Option (S × Result (List ℕ))
    open_read (s, fail errno) = some (s, fail errno)
    open_read (s, ok data') = check_block data' >>= λ result. some (s, result)

    -- `readOneBlock`
    pub read_one_block : S → ℕ → ℕ → Option (S × Result (List ℕ))
    read_one_block s offset data_len = open_read (
        base.read s (loc_with_header offset (full_size c) (header_size c))
          (header_size c + data_len))

    abbrev pub write_sealed : S → ℕ → Result (List ℕ) → S × Result ℕ
    write_sealed s offset (fail errno) = (s, fail errno)
    write_sealed s offset (ok block) =
        base.write s (loc_with_header offset (full_size c) (header_size c)) block

    -- `writeOneBlock`
    pub write_one_block : S → ℕ → List ℕ → Option (List ℕ) → Option (S × Result ℕ)
    write_one_block s offset data' random =
        seal_block random data' >>= λ block. some (write_sealed s offset block)
