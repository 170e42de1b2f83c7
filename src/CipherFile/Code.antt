-- ===== src/CipherFile/Code.antt =====
-- The coding of one block: what `writeOneBlock` codes, `readOneBlock` decodes.
use encfs.Base.{
  ℕ, ◌<◌, ◌%◌, Bool, true, false, not, ◌&&◌, List, length, All, IsByte, bit_xor, Option, some,
  if◌then◌else◌, ◌==◌, ◌≡◌, refl, sym, ap, ◌∙◌, ==_iff,
}
use encfs.Cipher.Ops.{CipherOps, IsCipher}
use encfs.MacFile.{all_zero}
use encfs.FileIo.{FileIo}
use encfs.CipherFile.{
  CipherFileIo, block_read, stream_read, block_write, stream_write, encode_data, decode_data,
}

-- Where holes are allowed, a block of zeros is not decoded: under no vector may these bytes be coded to
-- zeros, unless they are zeros.
abbrev pub HolesApart : CipherFileIo → CipherOps → List ℕ → Type 0
HolesApart c ops buf =
    c.allow_holes ≡ true
    → (iv64 : ℕ) (out : List ℕ) → ops.block_encode buf iv64 ≡ some (true, out)
    → all_zero out ≡ true
    → buf ≡ out

module _ (c : CipherFileIo) (ops : CipherOps) (cipher : IsCipher ops) {S : Type 0} (io : FileIo S)
    (normal : c.reverse_encryption ≡ false) (whole : c.block_size % ops.cipher_block_size ≡ 0) where
  block_read_lem :
      (iv64 : ℕ) (buf out : List ℕ)
      → HolesApart c ops buf
      → ops.block_encode buf iv64 ≡ some (true, out)
      → ops.block_decode out iv64 ≡ some (true, buf)
      → block_read c ops io out iv64 ≡ some (true, buf)
  unfolding block_read
  block_read_lem iv64 buf out apart encodes decodes =
      ap
        (λ (b : Bool).
          if b
          then ops.block_encode out iv64
          else if c.allow_holes && all_zero out
          then some (let p : Bool × List ℕ = (true, out) in p)
          else ops.block_decode out iv64)
        normal
      ∙ by_holes c.allow_holes refl (all_zero out) refl
    where
      by_holes :
          (holes : Bool)
          → c.allow_holes ≡ holes
          → (zeros : Bool) → all_zero out ≡ zeros
          → (if holes && zeros
              then some (let p : Bool × List ℕ = (true, out) in p)
              else ops.block_decode out iv64)
            ≡ some (true, buf)
      by_holes true h true z =
          ap (λ (t : List ℕ). some (let p : Bool × List ℕ = (true, t) in p))
            (sym (apart h iv64 out encodes z))
      by_holes true h false z = decodes
      by_holes false h zeros z = decodes

  -- What `encode_data` makes of some bytes, `decode_data` makes undone, and it is as long.
  pub decode_data-encode_data :
      (file_iv block_num : ℕ) (buf : List ℕ)
      → HolesApart c ops buf
      → 0 < length buf
      → All IsByte buf
      → (out : List ℕ) × (encode_data c ops io file_iv block_num buf ≡ some (true, out))
        × (length out ≡ length buf)
        × (decode_data c ops io file_iv block_num out ≡ some (true, buf))
  unfolding encode_data decode_data stream_read stream_write block_write
  decode_data-encode_data file_iv block_num buf apart pos bytes =
      by_size (length buf == c.block_size) refl
    where
      iv64 : ℕ
      iv64 = bit_xor block_num file_iv

      encode_at : Bool → List ℕ → Option (Bool × List ℕ)
      encode_at full t =
          if not full
          then (if c.reverse_encryption then ops.stream_decode t iv64 else ops.stream_encode t iv64)
          else if c.reverse_encryption
          then ops.block_decode t iv64
          else ops.block_encode t iv64

      decode_at : Bool → List ℕ → Option (Bool × List ℕ)
      decode_at full t =
          if not full
          then (if c.reverse_encryption then ops.stream_encode t iv64 else ops.stream_decode t iv64)
          else block_read c ops io t iv64

      by_size :
          (full : Bool)
          → (length buf == c.block_size) ≡ full
          → (out : List ℕ) × (encode_at (length buf == c.block_size) buf ≡ some (true, out))
            × (length out ≡ length buf)
            × (decode_at (length out == c.block_size) out ≡ some (true, buf))
      by_size true full =
          let same : length buf ≡ c.block_size = (==_iff (length buf) c.block_size).0 full in
          let (out, encodes, same_size, _, decodes) =
            cipher.block_undone buf iv64 pos
              (ap (λ (n : ℕ). n % ops.cipher_block_size) same ∙ whole) bytes in
          (
            out,
            ap (λ (b : Bool). encode_at b buf) full
                ∙ ap
                    (λ (b : Bool).
                      if b then ops.block_decode buf iv64 else ops.block_encode buf iv64)
                    normal
                ∙ encodes,
            same_size,
            ap (λ (n : ℕ). decode_at (n == c.block_size) out) same_size
                ∙ ap (λ (b : Bool). decode_at b out) full
                ∙ block_read_lem iv64 buf out apart encodes decodes,
          )
      by_size false part =
          let (out, encodes, same_size, _, decodes) = cipher.stream_undone buf iv64 pos bytes in
          (
            out,
            ap (λ (b : Bool). encode_at b buf) part
                ∙ ap
                    (λ (b : Bool).
                      if b then ops.stream_decode buf iv64 else ops.stream_encode buf iv64)
                    normal
                ∙ encodes,
            same_size,
            ap (λ (n : ℕ). decode_at (n == c.block_size) out) same_size
                ∙ ap (λ (b : Bool). decode_at b out) part
                ∙ ap
                    (λ (b : Bool).
                      if b then ops.stream_encode out iv64 else ops.stream_decode out iv64)
                    normal
                ∙ decodes,
          )
