-- ===== src/BlockFile/Truncate.antt =====
-- `truncateBase` of encfs/BlockFileIO.cpp: the last block is coded again when it is cut.
pub mod Extend
use encfs.Base.{
  ℕ, zero, suc, ◌*◌, ◌/◌, ◌%◌, Bool, true, false, ◌&&◌, not, List, take, ◌++◌, replicate,
}
use encfs.Base.{Option, none, some, if◌then◌else◌, ltb, ◌==◌}
use encfs.Cipher.Ssl.{◌>>=◌}
use encfs.BlockFile.Layer.{Result, fail, ok, Lower}
use encfs.BlockFile.{BlockFileIo, State, cache_read_one_block, cache_write_one_block}
use encfs.BlockFile.Write.{read_then, result_then, pad_file}

-- `base->truncate`, or `none` for a null pointer.
abbrev pub Truncate : Type 0 → Type 0
Truncate S = Option (S → ℕ → S × Result ℕ)

module _ {S : Type 0} (c : BlockFileIo) (layer : Lower S) where
  abbrev pub lowered : State S → S × Result ℕ → State S × Result ℕ
  lowered st (lower', result) = (
    record { cache_offset = st.cache_offset; cache_data = st.cache_data; lower = lower' },
    result,
  )

  -- Without a base, `res` stays 0.
  abbrev pub truncate_lower : Truncate S → State S → ℕ → State S × Result ℕ
  truncate_lower none st size = (st, ok 0)
  truncate_lower (some base) st size = lowered st (base st.lower size)

  -- `res == 0`
  abbrev pub zero_then :
      (State S → Option (State S × Result ℕ)) → State S × Result ℕ → Option (State S × Result ℕ)
  zero_then f (st, fail errno) = some (st, fail errno)
  zero_then f (st, ok zero) = f st
  zero_then f (st, ok (suc n)) = some (st, ok (suc n))

  -- The front of the block that was read, from a buffer that was handed out with zeros in it.
  abbrev pub write_back : ℕ → List ℕ → State S → Option (State S × Result ℕ)
  write_back size block st =
      result_then c layer (λ st1. some (st1, ok 0))
        (cache_write_one_block c layer st (size / c.block_size * c.block_size)
          (take (size % c.block_size) (block ++ replicate (size % c.block_size) 0)))

  abbrev pub cut_block : Truncate S → State S → ℕ → Option (State S × Result ℕ)
  cut_block base st size =
      cache_read_one_block c layer st (size / c.block_size * c.block_size) c.block_size
      >>= read_then c layer
          (λ st1 block. zero_then (write_back size block) (truncate_lower base st1 size))

  -- A `getSize` that fails returns a negative number, here above the negated block size: the size asked
  -- for is larger, and `padFile` fails a `CHECK` unless it has nothing to write.
  abbrev pub truncate_sized : Truncate S → State S → ℕ → Result ℕ → Option (State S × Result ℕ)
  truncate_sized base st size (fail errno) =
      zero_then (λ st1. if size == 0 then some (st1, ok 0) else none) (truncate_lower base st size)
  truncate_sized base st size (ok old_size) =
      if ltb old_size size
      then zero_then (λ st1. pad_file c layer st1 old_size size true) (truncate_lower base st size)
      else if size == old_size
      then some (st, ok 0)
      else if not (size % c.block_size == 0)
      then cut_block base st size
      else some (truncate_lower base st size)

  -- `truncateBase`
  abbrev pub truncate_asked : Truncate S → State S → ℕ → S × Result ℕ → Option (State S × Result ℕ)
  truncate_asked base st size (lower', old_size) =
      truncate_sized base (record st { lower = lower' }) size old_size

  unfoldable pub truncate_base : Truncate S → State S → ℕ → Option (State S × Result ℕ)
  truncate_base base st size = layer.get_size st.lower >>= truncate_asked base st size
