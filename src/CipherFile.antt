-- ===== src/CipherFile.antt =====
-- encfs/CipherFileIO.cpp: a layer of blocks that codes each block with a vector of its own, made of the
-- block's number and of the vector in the header of the file. `none` is an `Error`.
pub mod Header
pub mod Code
pub mod Block
pub mod Write
pub mod Move
pub mod Reverse
pub mod Layer
pub mod Shown
pub mod Tests
use encfs.Base.{
  ℕ, zero, suc, ◌+◌, ◌-◌, ◌/◌, ◌<◌, Bool, true, false, ◌&&◌, not, List, [], ◌∷◌, ◌++◌, length, take,
  drop, replicate, write_be, read_be, write_le, bit_xor, bit_or, ◌>>>◌,
}
use encfs.Base.{Option, none, some, if◌then◌else◌, ltb, leb, ◌==◌}
use encfs.Cipher.Ssl.{r_assert, ◌>>=◌, ◌>>◌}
use encfs.Cipher.Ops.{CipherOps}
use encfs.BlockFile.Layer.{Result, fail, ok}
use encfs.MacFile.{all_zero, ebadmsg}
use encfs.RawFile.{o_rdwr}
use encfs.FileIo.{Attr, FileIo}

-- The fields of `CipherFileIO` that do not change: `haveHeader`, `reverseEncryption`, and the block size
-- and `_allowHoles` of the base class.
pub record CipherFileIo : Type 0 where
  pub block_size : ℕ
  pub have_header : Bool
  pub reverse_encryption : Bool
  pub allow_holes : Bool

-- What `randomize` answers when it is called next, and after that: the bytes, or `none` for a failure.
abbrev pub Random : Type 0
Random = List (Option (List ℕ))

-- The fields that do, with the base file.
pub record State (S : Type 0) : Type 0 where
  pub external_iv : ℕ
  pub file_iv : ℕ
  pub last_flags : ℕ
  pub random : Random
  pub base : S

-- `HEADER_SIZE`
abbrev pub header_size : ℕ
header_size = 8

-- `EPERM` and `EISDIR`
abbrev pub eperm : ℕ
eperm = 1

abbrev pub eisdir : ℕ
eisdir = 21

-- `fileIV = (fileIV << 8) | buf[i]`
abbrev pub iv_of : List ℕ → ℕ
iv_of buf = read_be 64 0 buf

-- The loop that asks for a vector until it is not zero: the new `fileIV`, and the bytes. `none` where
-- `randomize` has not been asked often enough.
pub new_file_iv : Random → ℕ → Option (Random × ℕ × Result (List ℕ))
new_file_iv [] file_iv = none
new_file_iv (none ∷ random) file_iv = some (random, file_iv, fail ebadmsg)
new_file_iv (some buf ∷ random) file_iv =
    let rest = new_file_iv random 0 in
    if iv_of buf == 0 then rest else some (random, iv_of buf, ok buf)

module _ (c : CipherFileIo) (ops : CipherOps) {S : Type 0} (io : FileIo S) where
  -- `open`
  abbrev pub opened : State S → ℕ → S × Result ℕ → State S × Result ℕ
  opened st flags (base', fail errno) = (record st { base = base' }, fail errno)
  opened st flags (base', ok fd) = (record st { last_flags = flags; base = base' }, ok fd)

  pub open_file : State S → ℕ → State S × Result ℕ
  open_file st flags = opened st flags (io.open_file st.base flags)

  -- `isWritable` and `setFileName`
  pub is_writable : State S → Bool
  is_writable st = io.is_writable st.base

  pub set_file_name : State S → List ℕ → State S
  set_file_name st file_name = record st { base = io.set_file_name st.base file_name }

  -- The size of the upper file, from that of the file below.
  abbrev pub upper_size : ℕ → Option ℕ
  upper_size size =
      if c.have_header && ltb 0 size
      then (if not c.reverse_encryption
          then r_assert (leb header_size size) >> some (size - header_size)
          else some (size + header_size))
      else some size

  -- `getAttr`
  abbrev pub upper_attr : Result Attr → Option (Result Attr)
  upper_attr (fail errno) = some (fail errno)
  upper_attr (ok stbuf) =
      if stbuf.is_reg
      then (upper_size stbuf.size >>= λ size. some (ok (record stbuf { size = size })))
      else some (ok stbuf)

  pub get_attr : State S → Option (Result Attr)
  get_attr st = io.get_attr st.base >>= upper_attr

  -- `getSize`
  abbrev pub sized : State S → S × Result ℕ → Option (State S × Result ℕ)
  sized st (base', fail errno) = some (record st { base = base' }, fail errno)
  sized st (base', ok size) =
      upper_size size >>= λ upper. some (record st { base = base' }, ok upper)

  pub get_size : State S → Option (State S × Result ℕ)
  get_size st = io.get_size st.base >>= sized st

  -- A `bool` and a buffer: the error where it is false.
  abbrev pub coded : Bool × List ℕ → Result (List ℕ)
  coded (true, buf) = ok buf
  coded (false, buf) = fail ebadmsg

  -- The two branches of `initHeader`. A header that is read short is filled up with zeros.
  abbrev pub header_decoded : State S → Result (List ℕ) → Option (State S × Result ℕ)
  header_decoded st (fail errno) = some (st, fail errno)
  header_decoded st (ok plain) =
      r_assert (not (iv_of plain == 0)) >> some (record st { file_iv = iv_of plain }, ok 0)

  abbrev pub header_read : State S → S × Result (List ℕ) → Option (State S × Result ℕ)
  header_read st (base', fail errno) = some (record st { base = base' }, fail errno)
  header_read st (base', ok got) =
      ops.stream_decode (take header_size (got ++ replicate header_size 0)) st.external_iv
      >>= λ plain. header_decoded (record st { base = base' }) (coded plain)

  pub read_header : State S → Option (State S × Result ℕ)
  read_header st = io.read st.base 0 header_size >>= header_read st

  abbrev pub header_written : State S → S × Result ℕ → State S × Result ℕ
  header_written st (base', fail errno) = (record st { base = base' }, fail errno)
  header_written st (base', ok count) = (record st { base = base' }, ok 0)

  abbrev pub store_header : State S → Result (List ℕ) → Option (State S × Result ℕ)
  store_header st (fail errno) = some (st, fail errno)
  store_header st (ok buf) = io.write st.base 0 buf >>= λ written. some (header_written st written)

  abbrev pub header_made : State S → Random × ℕ × Result (List ℕ) → Option (State S × Result ℕ)
  header_made st (random', iv, fail errno) =
      some (record st { file_iv = iv; random = random' }, fail errno)
  header_made st (random', iv, ok buf) =
      let st' : State S = record st { file_iv = iv; random = random' } in
      if io.is_writable st.base
      then (ops.stream_encode buf st.external_iv >>= λ out. store_header st' (coded out))
      else some (st', ok 0)

  pub create_header : State S → Option (State S × Result ℕ)
  create_header st = new_file_iv st.random st.file_iv >>= header_made st

  -- `initHeader`
  abbrev pub has_header : Result ℕ → Bool
  has_header (fail errno) = false
  has_header (ok raw_size) = leb header_size raw_size

  abbrev pub by_raw_size : State S → S × Result ℕ → Option (State S × Result ℕ)
  by_raw_size st (base', raw_size) =
      if has_header raw_size
      then read_header (record st { base = base' })
      else create_header (record st { base = base' })

  pub init_header : State S → Option (State S × Result ℕ)
  init_header st = io.get_size st.base >>= by_raw_size st

  -- `writeHeader`: the loop that takes the bytes of `fileIV` shifts all of them out of it.
  abbrev pub is_ok : Result ℕ → Bool
  is_ok (fail errno) = false
  is_ok (ok count) = true

  abbrev pub put_header : State S → Bool × List ℕ → Option (State S × Bool)
  put_header st (false, buf) = some (st, false)
  put_header st (true, buf) = do
    (base', count) ← io.write st.base 0 buf
    some (record st { base = base' }, is_ok count)

  pub write_header : State S → Option (State S × Bool)
  write_header st =
      let buf = write_be header_size st.file_iv [] in
      ops.stream_encode buf st.external_iv
      >>= put_header (record st { file_iv = st.file_iv >>> 64 })

  -- `setIV`
  abbrev pub base_set_iv : State S → ℕ → Option (State S × Bool)
  base_set_iv st iv = do
    (base', done) ← io.set_iv st.base iv
    some (record st { base = base' }, done)

  abbrev pub header_moved : ℕ → ℕ → State S × Bool → Option (State S × Bool)
  header_moved old_iv iv (st, false) = some (record st { external_iv = old_iv }, false)
  header_moved old_iv iv (st, true) = base_set_iv st iv

  abbrev pub move_header : ℕ → State S × Result ℕ → Option (State S × Bool)
  move_header iv (st, fail errno) = some (st, false)
  move_header iv (st, ok done) =
      write_header (record st { external_iv = iv }) >>= header_moved st.external_iv iv

  abbrev pub ensure_file_iv : State S → Option (State S × Result ℕ)
  ensure_file_iv st = if st.file_iv == 0 then init_header st else some (st, ok 0)

  abbrev pub reopened : State S → ℕ → S × Result ℕ → Option (State S × Bool)
  reopened st iv (base', ok fd) = ensure_file_iv (record st { base = base' }) >>= move_header iv
  reopened st iv (base', fail errno) =
      if errno == eisdir
      then base_set_iv (record st { external_iv = iv; base = base' }) iv
      else some (record st { base = base' }, false)

  pub set_iv : State S → ℕ → Option (State S × Bool)
  set_iv st iv =
      if st.external_iv == 0
      then base_set_iv (record st { external_iv = iv }) iv
      else if c.have_header
      then reopened st iv (io.open_file st.base (bit_or st.last_flags o_rdwr))
      else base_set_iv st iv

  -- `blockRead`, `streamRead`, `blockWrite` and `streamWrite`
  pub block_read : List ℕ → ℕ → Option (Bool × List ℕ)
  block_read buf iv64 =
      if c.reverse_encryption
      then ops.block_encode buf iv64
      else if c.allow_holes && all_zero buf
      then some (true, buf)
      else ops.block_decode buf iv64

  pub stream_read : List ℕ → ℕ → Option (Bool × List ℕ)
  stream_read buf iv64 =
      if c.reverse_encryption then ops.stream_encode buf iv64 else ops.stream_decode buf iv64

  pub block_write : List ℕ → ℕ → Option (Bool × List ℕ)
  block_write buf iv64 =
      if c.reverse_encryption then ops.block_decode buf iv64 else ops.block_encode buf iv64

  pub stream_write : List ℕ → ℕ → Option (Bool × List ℕ)
  stream_write buf iv64 =
      if c.reverse_encryption then ops.stream_decode buf iv64 else ops.stream_encode buf iv64

  -- A whole block goes through the block cipher, a part of one through the stream cipher.
  unfoldable pub decode_data : ℕ → ℕ → List ℕ → Option (Bool × List ℕ)
  unfolding block_read stream_read
  decode_data file_iv block_num buf =
      if not (length buf == c.block_size)
      then stream_read buf (bit_xor block_num file_iv)
      else block_read buf (bit_xor block_num file_iv)

  unfoldable pub encode_data : ℕ → ℕ → List ℕ → Option (Bool × List ℕ)
  unfolding block_write stream_write
  encode_data file_iv block_num buf =
      if not (length buf == c.block_size)
      then stream_write buf (bit_xor block_num file_iv)
      else block_write buf (bit_xor block_num file_iv)

  abbrev pub ensure_header : State S → Option (State S × Result ℕ)
  ensure_header st = if c.have_header then ensure_file_iv st else some (st, ok 0)

  -- `readOneBlock`
  abbrev pub decode_with : ℕ → List ℕ → State S × Result ℕ → Option (State S × Result (List ℕ))
  decode_with block_num buf (st, fail errno) = some (st, fail errno)
  decode_with block_num buf (st, ok done) =
      decode_data st.file_iv block_num buf >>= λ plain. some (st, coded plain)

  abbrev pub decode_read : State S → ℕ → S × Result (List ℕ) → Option (State S × Result (List ℕ))
  decode_read st block_num (base', fail errno) = some (record st { base = base' }, fail errno)
  decode_read st block_num (base', ok []) = some (record st { base = base' }, ok [])
  decode_read st block_num (base', ok (x ∷ buf)) =
      ensure_header (record st { base = base' }) >>= decode_with block_num (x ∷ buf)

  pub read_one_block : State S → ℕ → ℕ → Option (State S × Result (List ℕ))
  read_one_block st offset data_len =
      io.read st.base
        (if c.have_header && not c.reverse_encryption then offset + header_size else offset)
        data_len
      >>= decode_read st (offset / c.block_size)

  -- `writeOneBlock`
  abbrev pub block_written : State S → S × Result ℕ → State S × Result ℕ
  block_written st (base', result) = (record st { base = base' }, result)

  abbrev pub write_coded : State S → ℕ → Result (List ℕ) → Option (State S × Result ℕ)
  write_coded st offset (fail errno) = some (st, fail errno)
  write_coded st offset (ok buf) =
      io.write st.base (if c.have_header then offset + header_size else offset) buf >>= λ written.
      some (block_written st written)

  abbrev pub encode_with : ℕ → List ℕ → State S × Result ℕ → Option (State S × Result ℕ)
  encode_with offset buf (st, fail errno) = some (st, fail errno)
  encode_with offset buf (st, ok done) =
      encode_data st.file_iv (offset / c.block_size) buf >>= λ out.
      write_coded st offset (coded out)

  pub write_one_block : State S → ℕ → List ℕ → Option (State S × Result ℕ)
  write_one_block st offset buf =
      if c.have_header && c.reverse_encryption
      then some (st, fail eperm)
      else ensure_header st >>= encode_with offset buf

  module _ (sha1 : List ℕ → List ℕ) where
    -- `generateReverseHeader`: the bytes of the header that is shown, made of the number of the inode.
    abbrev pub header_of_digest : State S → List ℕ → Option (State S × Result (List ℕ))
    header_of_digest st md =
        let header_buf = take header_size md in
        ops.stream_encode header_buf st.external_iv >>= λ out.
        some (record st { file_iv = iv_of header_buf }, coded out)

    abbrev pub header_of_attr : State S → Result Attr → Option (State S × Result (List ℕ))
    header_of_attr st (fail errno) = none
    header_of_attr st (ok stbuf) =
        r_assert (not (stbuf.ino == 0)) >> header_of_digest st (sha1 (write_le 8 stbuf.ino))

    pub generate_reverse_header : State S → Option (State S × Result (List ℕ))
    generate_reverse_header st = get_attr st >>= header_of_attr st

    -- `read` in a reverse file system with headers; `payload` is `BlockFileIO::read`.
    module _ (payload : State S → ℕ → ℕ → Option (State S × Result (List ℕ))) where
      abbrev pub behind_front : List ℕ → State S × Result (List ℕ) → State S × Result (List ℕ)
      behind_front front (st, fail errno) = (st, fail errno)
      behind_front front (st, ok bytes) = (st, ok (front ++ bytes))

      -- The bytes of the header that a request in it is given, and then the rest.
      abbrev pub with_front : State S → ℕ → ℕ → ℕ → List ℕ → Option (State S × Result (List ℕ))
      with_front st offset data_len header_bytes header_buf =
          let front = take header_bytes (drop (header_size - header_bytes) header_buf) in
          if header_bytes == data_len
          then some (st, ok front)
          else (r_assert (offset + header_bytes == header_size)
              >> (payload st 0 (data_len - header_bytes) >>= λ rest.
                  some (behind_front front rest)))

      abbrev pub read_behind_header :
          ℕ → ℕ → State S × Result (List ℕ) → Option (State S × Result (List ℕ))
      read_behind_header offset data_len (st, fail errno) = some (st, fail errno)
      read_behind_header offset data_len (st, ok header_buf) =
          if ltb offset header_size
          then with_front st offset data_len
              (if ltb data_len (header_size - offset) then data_len else header_size - offset)
              header_buf
          else payload st (offset - header_size) data_len

      pub reverse_read : State S → ℕ → ℕ → Option (State S × Result (List ℕ))
      reverse_read st offset data_len =
          generate_reverse_header st >>= read_behind_header offset data_len
