-- ===== src/NameIo/Block.antt =====
-- encfs/BlockNameIO.cpp. An `Error` thrown is `none`; the vector behind the pointer `iv` stands in the
-- result as the call leaves it.
pub mod RoundTrip
use encfs.Base.{
  ℕ, ◌+◌, ◌-◌, ◌*◌, ◌/◌, ◌%◌, ◌^◌, ◌≤◌, ◌<◌, Bool, true, false, ◌||◌, not, List, [], ◌∷◌, ◌++◌,
  length, take, drop, replicate, get_or, bit_xor,
}
use encfs.Base.{Option, none, some, if◌then◌else◌, ltb, leb, ◌==◌}
use encfs.Base64.{b256_to_b64_bytes, b64_to_b256_bytes, b256_to_b32_bytes, b32_to_b256_bytes}
use encfs.Base64.Name.{encode_b64, decode_b64, encode_b32, decode_b32}
use encfs.Cipher.Ssl.{r_assert, ◌>>=◌, ◌>>◌}
use encfs.Cipher.Ops.{CipherOps}
use encfs.NameIo.{mac_bytes, read_mac, tmp_iv}

-- The fields of `BlockNameIO` besides the cipher and its key.
pub record BlockNameIo : Type 0 where
  pub interface : ℕ
  pub bs : ℕ
  pub case_insensitive : Bool

module _ (c : BlockNameIo) where
  abbrev pub max_encoded_name_len : ℕ → ℕ
  max_encoded_name_len plaintext_name_len =
      let num_blocks = (plaintext_name_len + c.bs) / c.bs in
      let encoded_name_len = num_blocks * c.bs + 2 in
      if c.case_insensitive
      then b256_to_b32_bytes encoded_name_len
      else b256_to_b64_bytes encoded_name_len

  abbrev pub max_decoded_name_len : ℕ → ℕ
  max_decoded_name_len encoded_name_len =
      let dec_len_256 =
        if c.case_insensitive
        then b32_to_b256_bytes encoded_name_len
        else b64_to_b256_bytes encoded_name_len in
      dec_len_256 - 2

  -- `_bs - length % _bs` is at least 1, so that the test for 0 that follows in the code never holds.
  abbrev pub padding_of : ℕ → ℕ
  padding_of n = let padding = c.bs - n % c.bs in if padding == 0 then c.bs else padding

  abbrev pub to_ascii : List ℕ → List ℕ
  to_ascii bytes = if c.case_insensitive then encode_b32 bytes else encode_b64 bytes

  abbrev pub from_ascii : List ℕ → List ℕ
  from_ascii name = if c.case_insensitive then decode_b32 name else decode_b64 name

  module _ (ops : CipherOps) where
    pub encode_name : List ℕ → Option ℕ → ℕ → Option (List ℕ × Option ℕ)
    encode_name plaintext_name iv buffer_length =
        let padding = padding_of (length plaintext_name) in
        let padded = plaintext_name ++ replicate padding (padding % 256) in
        do
          r_assert (leb (length plaintext_name + 2 + padding) buffer_length)
          (mac, iv') ← ops.mac_16 padded iv
          (ok, coded) ← ops.block_encode padded (bit_xor mac (tmp_iv iv (leb 3 c.interface)))
          if not ok then none else some (to_ascii (mac_bytes mac ++ coded), iv')

    -- The check of the MAC, which covers the padding.
    abbrev check_mac : List ℕ → ℕ → Option ℕ → ℕ → Option (List ℕ × Option ℕ)
    check_mac plain mac iv final_size = do
      (mac2, iv') ← ops.mac_16 plain iv
      if not (mac2 == mac) then none else some (take final_size plain, iv')

    -- The rest of `decodeName`, from the decrypted bytes on.
    abbrev finish_decode : List ℕ → ℕ → Option ℕ → ℕ → Option (List ℕ × Option ℕ)
    finish_decode plain mac iv buffer_length =
        let decoded_stream_len = length plain in
        let padding = get_or plain (decoded_stream_len - 1) 0 in
        let final_size = decoded_stream_len - padding in
        if ltb c.bs padding || ltb decoded_stream_len padding
        then none
        else (r_assert (ltb final_size buffer_length) >> check_mac plain mac iv final_size)

    abbrev decode_blocks : List ℕ → ℕ → Option ℕ → ℕ → Option (List ℕ × Option ℕ)
    decode_blocks coded mac iv buffer_length = do
      (ok, plain) ← ops.block_decode coded (bit_xor mac (tmp_iv iv (leb 3 c.interface)))
      if not ok then none else finish_decode plain mac iv buffer_length

    pub decode_name : List ℕ → Option ℕ → ℕ → Option (List ℕ × Option ℕ)
    decode_name encoded_name iv buffer_length =
        let decoded_stream_len = max_decoded_name_len (length encoded_name) in
        let tmp_buf = from_ascii encoded_name in
        if ltb decoded_stream_len c.bs
        then none
        else decode_blocks (take decoded_stream_len (drop 2 tmp_buf)) (read_mac tmp_buf 0) iv
            buffer_length
