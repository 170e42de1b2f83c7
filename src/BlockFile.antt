-- ===== src/BlockFile.antt =====
-- encfs/BlockFileIO.cpp: a file of bytes over a lower layer that reads and writes whole blocks, with a
-- cache of one block.
pub mod Layer
pub mod Cache
pub mod Read
pub mod Write
pub mod Truncate
pub mod Tests
use encfs.Base.{
  ℕ, zero, suc, ◌+◌, ◌-◌, ◌*◌, ◌/◌, ◌%◌, ◌≤◌, ◌<◌, min, Bool, true, false, ◌&&◌, not, List, [], ◌∷◌,
  ◌++◌, length, take, drop,
}
use encfs.Base.{Option, none, some, if◌then◌else◌, ltb, leb, ◌==◌}
use encfs.Cipher.Ssl.{r_assert, ◌>>=◌, ◌>>◌}
use encfs.BlockFile.Layer.{Result, fail, ok, Lower}

-- The fields of `BlockFileIO` that do not change.
pub record BlockFileIo : Type 0 where
  pub block_size : ℕ
  pub allow_holes : Bool
  pub no_cache : Bool

-- The fields that do: `_cache`, as its offset and its first `dataLen` bytes, and the lower layer. The
-- bytes of `_cache.data` behind `dataLen` are never looked at.
pub record State (S : Type 0) : Type 0 where
  pub cache_offset : ℕ
  pub cache_data : List ℕ
  pub lower : S

module _ {S : Type 0} (c : BlockFileIo) (layer : Lower S) where
  -- `clearCache`
  abbrev pub clear_cache : State S → State S
  clear_cache st = record { cache_offset = st.cache_offset; cache_data = []; lower = st.lower }

  -- What `cacheReadOneBlock` keeps of the block read at `offset`, and what it returns of it.
  abbrev pub keep_block : State S → ℕ → ℕ → Result (List ℕ) → State S × Result (List ℕ)
  keep_block st offset data_len (fail errno) = (st, fail errno)
  keep_block st offset data_len (ok []) = (st, ok [])
  keep_block st offset data_len (ok (x ∷ block)) = (
    record { cache_offset = offset; cache_data = x ∷ block; lower = st.lower },
    ok (take data_len (x ∷ block)),
  )

  abbrev pub is_cached : State S → ℕ → Bool
  is_cached st offset =
      not c.no_cache && ((offset == st.cache_offset) && not (length st.cache_data == 0))

  abbrev pub loaded : State S → ℕ → ℕ → S × Result (List ℕ) → State S × Result (List ℕ)
  loaded st offset data_len (lower', result) =
      keep_block (record { cache_offset = st.cache_offset; cache_data = []; lower = lower' }) offset
        data_len result

  abbrev pub load_block : State S → ℕ → ℕ → Option (State S × Result (List ℕ))
  load_block st offset data_len = layer.read_one_block st.lower offset c.block_size >>= λ read.
      some (loaded st offset data_len read)

  -- `cacheReadOneBlock`: `none` is a failed `CHECK`, which ends the program, or an `Error`
  -- from below.
  unfoldable pub cache_read_one_block : State S → ℕ → ℕ → Option (State S × Result (List ℕ))
  cache_read_one_block st offset data_len = do
    r_assert (leb data_len c.block_size)
    r_assert (offset % c.block_size == 0)
    if is_cached st offset
        then some (st, ok (take data_len st.cache_data))
        else load_block st offset data_len

  -- `cacheWriteOneBlock`
  abbrev pub keep_written : State S → ℕ → List ℕ → S × Result ℕ → State S × Result ℕ
  keep_written st offset block (lower', fail errno) =
      (record { cache_offset = st.cache_offset; cache_data = []; lower = lower' }, fail errno)
  keep_written st offset block (lower', ok done) =
      (record { cache_offset = offset; cache_data = block; lower = lower' }, ok done)

  unfoldable pub cache_write_one_block : State S → ℕ → List ℕ → Option (State S × Result ℕ)
  cache_write_one_block st offset block = layer.write_one_block st.lower offset block >>= λ written.
      some (keep_written st offset block written)

  -- Whether the block is too short, and whether it is the last one of the file: the loop ends without
  -- the block, ends with it, or goes on.
  abbrev pub end_turn :
      (State S → ℕ → List ℕ → Option (State S × Result (List ℕ)))
      → ℕ
      → State S
      → List ℕ
      → List ℕ
      → Bool
      → Bool
      → Option (State S × Result (List ℕ))
  end_turn loop size st out out' true last = some (st, ok out)
  end_turn loop size st out out' false true = some (st, ok out')
  end_turn loop size st out out' false false = loop st size out'

  -- One turn of the loop of `read`, from the block that was read on; `loop` takes the next block.
  -- `out` is what was copied to the caller's buffer before, which a failure forgets.
  abbrev pub copy_block :
      (State S → ℕ → List ℕ → Option (State S × Result (List ℕ)))
      → ℕ
      → ℕ
      → List ℕ
      → State S × Result (List ℕ)
      → Option (State S × Result (List ℕ))
  copy_block loop size partial_offset out (st, fail errno) = some (st, fail errno)
  copy_block loop size partial_offset out (st, ok block) =
      let read_size = length block in
      let cpy_size = min (read_size - partial_offset) size in
      end_turn loop (size - cpy_size) st out (out ++ take cpy_size (drop partial_offset block))
        (leb read_size partial_offset) (ltb read_size c.block_size)

  -- Each turn copies a byte at least, so that fuel above the size is enough.
  abbrev pub read_loop : ℕ → State S → ℕ → ℕ → ℕ → List ℕ → Option (State S × Result (List ℕ))
  read_loop zero st size block_num partial_offset out = none
  read_loop (suc fuel) st zero block_num partial_offset out = some (st, ok out)
  read_loop (suc fuel) st (suc size) block_num partial_offset out =
      cache_read_one_block st (block_num * c.block_size) c.block_size
      >>= copy_block (λ st' size' out'. read_loop fuel st' size' (block_num + 1) 0 out') (suc size)
          partial_offset out

  -- `read`: the bytes read, or the code of the error.
  pub read : State S → ℕ → ℕ → Option (State S × Result (List ℕ))
  read st offset data_len =
      let partial_offset = offset % c.block_size in
      let block_num = offset / c.block_size in
      if (partial_offset == 0) && leb data_len c.block_size
      then cache_read_one_block st offset data_len
      else read_loop (suc data_len) st data_len block_num partial_offset []
