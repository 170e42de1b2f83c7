-- ===== src/NameIo/Stream.antt =====
-- encfs/StreamNameIO.cpp. An `Error` thrown is `none`; the vector behind the pointer `iv` stands in the
-- result as the call leaves it.
use encfs.Base.{
  ℕ, ◌+◌, ◌-◌, ◌^◌, ◌≤◌, ◌<◌, Bool, true, false, List, ◌++◌, length, take, drop, bit_xor,
}
use encfs.Base.{
  take_all, take-append_left, sym, length-append, Option, none, some, if◌then◌else◌, ◌≡◌, ap, ◌∙◌,
  arith, IsByte, All, All-append, ltb, leb, ◌==◌,
}
use encfs.Base64.{b256_to_b64_bytes, b64_to_b256_bytes}
use encfs.Base64.Ascii.{IsNameChar}
use encfs.Base64.Name.{encode_b64, decode_b64, decode_b64-encode_b64, length-encode_b64}
use encfs.Cipher.Ssl.{r_assert, ◌>>=◌, ◌>>◌}
use encfs.Cipher.Ops.{CipherOps, IsCipher}
use encfs.NameIo.{
  mac_bytes, read_mac, tmp_iv, read_mac-mac_bytes, read_mac-mac_bytes_behind, mac_bytes-IsByte,
}

abbrev pub max_encoded_name_len : ℕ → ℕ
max_encoded_name_len plaintext_stream_len = b256_to_b64_bytes (2 + plaintext_stream_len)

abbrev pub max_decoded_name_len : ℕ → ℕ
max_decoded_name_len encoded_stream_len = b64_to_b256_bytes encoded_stream_len - 2

-- `_interface` is the version; `buffer_length` the size of the buffer for the result.
module _ (ops : CipherOps) (interface : ℕ) where
  pub encode_name : List ℕ → Option ℕ → ℕ → Option (List ℕ × Option ℕ)
  encode_name plaintext_name iv buffer_length = do
    (mac, iv') ← ops.mac_16 plaintext_name iv
    r_assert (leb (length plaintext_name + 2) buffer_length)
    (_, coded) ← ops.stream_encode plaintext_name (bit_xor mac (tmp_iv iv (leb 2 interface)))
    let encoded_name = if leb 1 interface then mac_bytes mac ++ coded else coded ++ mac_bytes mac
    some (encode_b64 encoded_name, iv')

  pub decode_name : List ℕ → Option ℕ → ℕ → Option (List ℕ × Option ℕ)
  decode_name encoded_name iv buffer_length =
      let decoded_stream_len = b64_to_b256_bytes (length encoded_name) - 2 in
      let tmp_buf = decode_b64 encoded_name in
      let mac =
        if leb 1 interface then read_mac tmp_buf 0 else read_mac tmp_buf decoded_stream_len in
      let coded =
        if leb 1 interface
        then take decoded_stream_len (drop 2 tmp_buf)
        else take decoded_stream_len tmp_buf in
      do
        r_assert (ltb 2 (length encoded_name))
        r_assert (leb decoded_stream_len buffer_length)
        r_assert (ltb 0 decoded_stream_len)
        (_, plaintext_name) ← ops.stream_decode coded (bit_xor mac (tmp_iv iv (leb 2 interface)))
        (mac2, iv') ← ops.mac_16 plaintext_name iv
        if mac2 == mac then some (plaintext_name, iv') else none

module _ (ops : CipherOps) (laws : IsCipher ops) (interface : ℕ) where
  -- What `decodeName` finds in the decoded bytes, at the front or at the end.
  pub unwrap :
      (mac n : ℕ) (coded : List ℕ) (new : Bool)
      → mac < 2 ^ 16
      → length coded ≡ n
      → let wire = if new then mac_bytes mac ++ coded else coded ++ mac_bytes mac in
        ((if new then read_mac wire 0 else read_mac wire n) ≡ mac)
        × ((if new then take n (drop 2 wire) else take n wire) ≡ coded)
        × (length wire ≡ n + 2)
  unfolding mac_bytes
  unwrap mac n coded true h e =
      (read_mac-mac_bytes mac coded h, take_all n coded (omega (arith, e)), omega (arith, e))
  unwrap mac n coded false h e = (
    ap (read_mac (coded ++ mac_bytes mac)) (sym e) ∙ read_mac-mac_bytes_behind coded mac h,
    take-append_left n coded (mac_bytes mac) e,
    length-append coded (mac_bytes mac) ∙ omega (arith, e),
  )

  wire-IsByte :
      (mac : ℕ) (coded : List ℕ) (new : Bool)
      → All IsByte coded
      → All IsByte (if new then mac_bytes mac ++ coded else coded ++ mac_bytes mac)
  wire-IsByte mac coded true h = All-append IsByte (mac_bytes mac) coded (mac_bytes-IsByte mac) h
  wire-IsByte mac coded false h = All-append IsByte coded (mac_bytes mac) h (mac_bytes-IsByte mac)

  -- Over a cipher that keeps its laws: a name that is not empty is encoded into as many characters
  -- as `maxEncodedNameLen` says, all of which may stand in a file name. Decoding gives the name
  -- back, and leaves the vector of the chain as encoding left it. The buffers have the sizes that
  -- the code allocates at least.
  pub decode_name-encode_name :
      (name : List ℕ) (iv : Option ℕ) (bl bl' : ℕ)
      → 0 < length name
      → All IsByte name
      → max_encoded_name_len (length name) ≤ bl
      → length name ≤ bl'
      → (coded : List ℕ) × (iv' : Option ℕ) × (encode_name ops interface name iv bl
          ≡ some (coded, iv'))
        × (decode_name ops interface coded iv bl' ≡ some (name, iv'))
        × (length coded ≡ max_encoded_name_len (length name))
        × All IsNameChar coded
  unfolding encode_name decode_name
  decode_name-encode_name name iv bl bl' pos bytes room room' =
      let (mac, iv', mac_is, small) = laws.mac_16_total name iv pos in
      let iv64 = bit_xor mac (tmp_iv iv (leb 2 interface)) in
      let (coded, enc, size, coded_bytes, dec) = laws.stream_undone name iv64 pos bytes in
      let wire = if leb 1 interface then mac_bytes mac ++ coded else coded ++ mac_bytes mac in
      let n = length name in
      let (mac_back, coded_back, long) = unwrap mac n coded (leb 1 interface) small size in
      let wire_bytes = wire-IsByte mac coded (leb 1 interface) coded_bytes in
      let (wire_back, chars) = decode_b64-encode_b64 wire wire_bytes (omega (arith, long)) in
      let (count, count_back) = length-encode_b64 wire wire_bytes (omega (arith, long)) in
      let len : b64_to_b256_bytes (length (encode_b64 wire)) - 2 ≡ n =
        omega (arith, count_back, long) in
      let fits : leb (n + 2) bl ≡ true = ground arith in
      let enough : ltb 2 (length (encode_b64 wire)) ≡ true = ground (arith, count, long) in
      let fits' : leb n bl' ≡ true = ground arith in
      let some_bytes : ltb 0 n ≡ true = ground arith in
      let matches : (mac == mac) ≡ true = ground arith in
      (
        encode_b64 wire,
        iv',
        rw (mac_is, fits, enc),
        rw (len, wire_back, mac_back, coded_back, enough, fits', some_bytes, dec, mac_is, matches),
        count ∙ ap b256_to_b64_bytes (omega (arith, long)),
        chars,
      )
