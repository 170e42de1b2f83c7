-- ===== src/Base64/Name.antt =====
-- The whole way of a name through encfs/base64.cpp: bytes to characters and back, as
-- encfs/BlockNameIO.cpp and encfs/StreamNameIO.cpp call it in both bases.
use encfs.Base.{ℕ, ◌<◌, true, false, List, length, take, take_all, All, ◌≡◌, arith, IsByte}
use encfs.Base.{map, ◌∙◌, ap, length-map}
use encfs.Base64.{
  change_base2_inline, b256_to_b64_bytes, b256_to_b32_bytes, b64_to_b256_bytes, b32_to_b256_bytes,
}
use encfs.Base64.Ascii.{
  b64_to_ascii, ascii_to_b64, b32_to_ascii, ascii_to_b32, IsNameChar, to_lower,
}
use encfs.Base64.Ascii.{
  ascii_to_b64-b64_to_ascii, ascii_to_b32-b32_to_ascii, length-b64_to_ascii, length-b32_to_ascii,
}
use encfs.Base64.RoundTrip.{
  change_base2_inline-round_trip, length-change_base2_inline, change_base2_inline-IsDigits,
}

-- `changeBase2Inline(buf, n, 8, 6, true); B64ToAscii(buf, B256ToB64Bytes(n))`
pub encode_b64 : List ℕ → List ℕ
encode_b64 bytes =
    b64_to_ascii (take (b256_to_b64_bytes (length bytes)) (change_base2_inline 8 6 bytes true))

-- `AsciiToB64(buf, name, n); changeBase2Inline(buf, n, 6, 8, false)`, and the bytes that are used.
pub decode_b64 : List ℕ → List ℕ
decode_b64 name =
    take (b64_to_b256_bytes (length name)) (change_base2_inline 6 8 (ascii_to_b64 name) false)

-- The same with 5-bit digits.
pub encode_b32 : List ℕ → List ℕ
encode_b32 bytes =
    b32_to_ascii (take (b256_to_b32_bytes (length bytes)) (change_base2_inline 8 5 bytes true))

pub decode_b32 : List ℕ → List ℕ
decode_b32 name =
    take (b32_to_b256_bytes (length name)) (change_base2_inline 5 8 (ascii_to_b32 name) false)

digits_b64 :
    (bytes : List ℕ)
    → All IsByte bytes
    → 0 < length bytes
    → take (b256_to_b64_bytes (length bytes)) (change_base2_inline 8 6 bytes true)
      ≡ change_base2_inline 8 6 bytes true
digits_b64 bytes h some =
    take_all _ _
      (omega (arith, length-change_base2_inline 6 bytes (omega arith) (omega arith) h some))

-- An encoded name of one byte at least has as many characters as `B256ToB64Bytes` says, and
-- `B64ToB256Bytes` undoes that size.
pub length-encode_b64 :
    (bytes : List ℕ)
    → All IsByte bytes
    → 0 < length bytes
    → (length (encode_b64 bytes) ≡ b256_to_b64_bytes (length bytes))
      × (b64_to_b256_bytes (length (encode_b64 bytes)) ≡ length bytes)
unfolding encode_b64
length-encode_b64 bytes h some =
    let count : length (encode_b64 bytes) ≡ b256_to_b64_bytes (length bytes) =
      length-b64_to_ascii _
      ∙ ap length (digits_b64 bytes h some)
      ∙ omega (arith, length-change_base2_inline 6 bytes (omega arith) (omega arith) h some) in
    (count, omega arith)

digits_b32 :
    (bytes : List ℕ)
    → All IsByte bytes
    → 0 < length bytes
    → take (b256_to_b32_bytes (length bytes)) (change_base2_inline 8 5 bytes true)
      ≡ change_base2_inline 8 5 bytes true
digits_b32 bytes h some =
    take_all _ _
      (omega (arith, length-change_base2_inline 5 bytes (omega arith) (omega arith) h some))

-- An encoded name has as many characters as the size functions say, both ways.
pub length-encode_b32 :
    (bytes : List ℕ)
    → All IsByte bytes
    → 0 < length bytes
    → (length (encode_b32 bytes) ≡ b256_to_b32_bytes (length bytes))
      × (b32_to_b256_bytes (length (encode_b32 bytes)) ≡ length bytes)
unfolding encode_b32
length-encode_b32 bytes h some =
    let count : length (encode_b32 bytes) ≡ b256_to_b32_bytes (length bytes) =
      length-b32_to_ascii _
      ∙ ap length (digits_b32 bytes h some)
      ∙ omega (arith, length-change_base2_inline 5 bytes (omega arith) (omega arith) h some) in
    (count, omega arith)

-- A name of one byte at least, in base 64, decodes to the bytes that it was made of, and all its
-- characters may stand in a file name.
pub decode_b64-encode_b64 :
    (bytes : List ℕ)
    → All IsByte bytes
    → 0 < length bytes
    → (decode_b64 (encode_b64 bytes) ≡ bytes) × All IsNameChar (encode_b64 bytes)
unfolding encode_b64 decode_b64
decode_b64-encode_b64 bytes h some =
    let digits = change_base2_inline 8 6 bytes true in
    let e = digits_b64 bytes h some in
    let (back, chars) =
      ascii_to_b64-b64_to_ascii digits
        (change_base2_inline-IsDigits 6 bytes (omega arith) (omega arith) h some) in
    (
      ap (λ (n : ℕ). take n (change_base2_inline 6 8 (ascii_to_b64 (encode_b64 bytes)) false))
            (length-encode_b64 bytes h some).1
          ∙ ap
              (λ (x : List ℕ).
                take (length bytes) (change_base2_inline 6 8 (ascii_to_b64 (b64_to_ascii x)) false))
              e
          ∙ ap (λ (x : List ℕ). take (length bytes) (change_base2_inline 6 8 x false)) back
          ∙ change_base2_inline-round_trip 6 bytes (omega arith) (omega arith) h some,
      rw e chars,
    )

-- A name of one byte at least, in base 32, decodes to the bytes that it was made of, also after a
-- file system has put it in lower case, and all its characters may stand in a file name.
pub decode_b32-encode_b32 :
    (bytes : List ℕ)
    → All IsByte bytes
    → 0 < length bytes
    → (decode_b32 (encode_b32 bytes) ≡ bytes)
      × (decode_b32 (map to_lower (encode_b32 bytes)) ≡ bytes)
      × All IsNameChar (encode_b32 bytes)
unfolding encode_b32 decode_b32
decode_b32-encode_b32 bytes h some =
    let digits = change_base2_inline 8 5 bytes true in
    let e = digits_b32 bytes h some in
    let (back, lower, chars) =
      ascii_to_b32-b32_to_ascii digits
        (change_base2_inline-IsDigits 5 bytes (omega arith) (omega arith) h some) in
    let n = (length-encode_b32 bytes h some).1 in
    let bytes_of : List ℕ → List ℕ =
      λ x. take (length bytes) (change_base2_inline 5 8 (ascii_to_b32 x) false) in
    let round_trip = change_base2_inline-round_trip 5 bytes (omega arith) (omega arith) h some in
    (
      ap (λ (k : ℕ). take k (change_base2_inline 5 8 (ascii_to_b32 (encode_b32 bytes)) false)) n
          ∙ ap (λ (x : List ℕ). bytes_of (b32_to_ascii x)) e
          ∙ ap (λ (x : List ℕ). take (length bytes) (change_base2_inline 5 8 x false)) back
          ∙ round_trip,
      ap
            (λ (k : ℕ).
              take k
                (change_base2_inline 5 8 (ascii_to_b32 (map to_lower (encode_b32 bytes))) false))
            (ap b32_to_b256_bytes (length-map to_lower (encode_b32 bytes)) ∙ n)
          ∙ ap (λ (x : List ℕ). bytes_of (map to_lower (b32_to_ascii x))) e
          ∙ ap (λ (x : List ℕ). take (length bytes) (change_base2_inline 5 8 x false)) lower
          ∙ round_trip,
      rw e chars,
    )
