-- ===== src/BlockFile/Write.antt =====
-- The writing side of encfs/BlockFileIO.cpp: write, and padFile, which fills the gap before it.
pub mod Steps
pub mod Pad
pub mod Loop
pub mod Whole
use encfs.Base.{
  ℕ, zero, suc, ◌+◌, ◌-◌, ◌*◌, ◌/◌, ◌%◌, min, Bool, true, false, ◌&&◌, ◌||◌, not, List, [], ◌∷◌,
  ◌++◌, length, take, drop, replicate, write_at,
}
use encfs.Base.{Option, none, some, if◌then◌else◌, ltb, leb, ◌==◌}
use encfs.Cipher.Ssl.{◌>>=◌}
use encfs.BlockFile.Layer.{Result, fail, ok, Lower}
use encfs.BlockFile.{BlockFileIo, State, cache_read_one_block, cache_write_one_block}

module _ {S : Type 0} (c : BlockFileIo) (layer : Lower S) where
  -- A negative result ends the function that looks at it.
  abbrev pub read_then :
      (State S → List ℕ → Option (State S × Result ℕ))
      → State S × Result (List ℕ)
      → Option (State S × Result ℕ)
  read_then f (st, fail errno) = some (st, fail errno)
  read_then f (st, ok block) = f st block

  abbrev pub write_then :
      (State S → Option (State S × Result ℕ)) → State S × Result ℕ → Option (State S × Result ℕ)
  write_then f (st, fail errno) = some (st, fail errno)
  write_then f (st, ok count) = f st

  abbrev pub result_then :
      (State S → Option (State S × Result ℕ))
      → Option (State S × Result ℕ)
      → Option (State S × Result ℕ)
  result_then f run = run >>= write_then f

  -- The `n` bytes of block `k` that are there, written back with zeros up to `m` bytes.
  abbrev pub pad_block : State S → ℕ → ℕ → ℕ → Option (State S × Result ℕ)
  pad_block st k n m =
      cache_read_one_block c layer st (k * c.block_size) n
      >>= read_then (λ st1 block.
        result_then (λ st2. some (st2, ok 0))
          (cache_write_one_block c layer st1 (k * c.block_size) (take m (block ++ replicate m 0))))

  -- `count` blocks of zeros from block `k` on.
  abbrev pub zero_blocks : ℕ → State S → ℕ → Option (State S × Result ℕ)
  zero_blocks zero st k = some (st, ok 0)
  zero_blocks (suc count) st k =
      result_then (λ st1. zero_blocks count st1 (k + 1))
        (cache_write_one_block c layer st (k * c.block_size) (replicate c.block_size 0))

  -- The steps 2 and 3 of `padFile`.
  abbrev pub pad_rest : State S → ℕ → ℕ → Bool → Option (State S × Result ℕ)
  pad_rest st old_last_block new_size force_write =
      let new_last_block = new_size / c.block_size in
      let new_block_size = new_size % c.block_size in
      result_then
        (λ st1.
          if force_write && not (new_block_size == 0)
          then result_then (λ st2. some (st2, ok 0))
              (cache_write_one_block c layer st1 (new_last_block * c.block_size)
                (replicate new_block_size 0))
          else some (st1, ok 0))
        (if not c.allow_holes
          then zero_blocks (new_last_block - old_last_block) st old_last_block
          else some (st, ok 0))

  -- `padFile`
  unfoldable pub pad_file : State S → ℕ → ℕ → Bool → Option (State S × Result ℕ)
  pad_file st old_size new_size force_write =
      let old_last_block = old_size / c.block_size in
      let new_last_block = new_size / c.block_size in
      let last_size = old_size % c.block_size in
      let new_block_size = new_size % c.block_size in
      if old_last_block == new_last_block
      then (if force_write && not (new_block_size == 0)
          then pad_block st old_last_block last_size new_block_size
          else some (st, ok 0))
      else if last_size == 0
      then pad_rest st old_last_block new_size force_write
      else result_then (λ st1. pad_rest st1 (old_last_block + 1) new_size force_write)
          (pad_block st old_last_block last_size c.block_size)

  -- `blockNum > lastNonEmptyBlock`: in an empty file, and behind a full block, the last block that is
  -- not empty is the one before `lastFileBlock`, which may be -1.
  abbrev pub is_behind : ℕ → ℕ → Bool
  is_behind file_size block_num =
      if file_size % c.block_size == 0
      then leb (file_size / c.block_size) block_num
      else ltb (file_size / c.block_size) block_num

  -- The bytes to write in a turn of the loop: the piece of the request alone, or merged into zeros, or
  -- into the block that is there.
  abbrev pub is_alone : ℕ → ℕ → ℕ → ℕ → Bool
  is_alone file_size block_num partial_offset to_copy =
      (to_copy == c.block_size)
      || ((partial_offset == 0) && leb file_size (block_num * c.block_size + to_copy))

  abbrev pub with_block :
      State S
      → ℕ
      → ℕ
      → ℕ
      → List ℕ
      → (State S → List ℕ → Option (State S × Result ℕ))
      → Option (State S × Result ℕ)
  with_block st file_size block_num partial_offset piece f =
      if is_alone file_size block_num partial_offset (length piece)
      then f st piece
      else if is_behind file_size block_num
      then f st (write_at [] partial_offset piece)
      else (cache_read_one_block c layer st (block_num * c.block_size) c.block_size
          >>= read_then (λ st1 block. f st1 (write_at block partial_offset piece)))

  -- The loop of `write`, which returns `req.dataLen` at its end. Each turn writes a byte at least, so
  -- that fuel above the size is enough.
  abbrev pub write_loop : ℕ → State S → ℕ → ℕ → List ℕ → ℕ → ℕ → Option (State S × Result ℕ)
  write_loop zero st file_size data_len data' block_num partial_offset = none
  write_loop (suc fuel) st file_size data_len [] block_num partial_offset = some (st, ok data_len)
  write_loop (suc fuel) st file_size data_len (x ∷ data') block_num partial_offset =
      let to_copy = min (c.block_size - partial_offset) (length (x ∷ data')) in
      with_block st file_size block_num partial_offset (take to_copy (x ∷ data')) (λ st1 block.
        result_then
          (λ st2.
            write_loop fuel st2 file_size data_len (drop to_copy (x ∷ data')) (block_num + 1) 0)
          (cache_write_one_block c layer st1 (block_num * c.block_size) block))

  -- The requests that the code hands to `cacheWriteOneBlock` as they are.
  abbrev pub is_direct : ℕ → ℕ → ℕ → Bool
  is_direct file_size offset data_len =
      (offset % c.block_size == 0)
      && (leb data_len c.block_size
          && ((data_len == c.block_size)
              || ((offset / c.block_size == file_size / c.block_size)
                  && leb (file_size % c.block_size) data_len)))

  abbrev pub write_data : ℕ → State S → ℕ → List ℕ → Option (State S × Result ℕ)
  write_data file_size st offset data' =
      if is_direct file_size offset (length data')
      then cache_write_one_block c layer st offset data'
      else write_loop (suc (length data')) st file_size (length data') data' (offset / c.block_size)
          (offset % c.block_size)

  abbrev pub write_sized : State S → ℕ → List ℕ → Result ℕ → Option (State S × Result ℕ)
  write_sized st offset data' (fail errno) = some (st, fail errno)
  write_sized st offset data' (ok file_size) =
      if ltb file_size offset
      then result_then (λ st1. write_data file_size st1 offset data')
          (pad_file st file_size offset false)
      else write_data file_size st offset data'

  -- `write`
  abbrev pub write_asked : State S → ℕ → List ℕ → S × Result ℕ → Option (State S × Result ℕ)
  write_asked st offset data' (lower', file_size) =
      write_sized (record st { lower = lower' }) offset data' file_size

  pub write : State S → ℕ → List ℕ → Option (State S × Result ℕ)
  write st offset data' = layer.get_size st.lower >>= write_asked st offset data'
