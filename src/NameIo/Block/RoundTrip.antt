-- ===== src/NameIo/Block/RoundTrip.antt =====
-- A name that `BlockNameIO` encoded decodes to itself, with every block size below 128.
use encfs.Base.{
  ℕ, zero, suc, inl, inr, Bool-cases, ◌+◌, ◌-◌, ◌*◌, ◌/◌, ◌%◌, ◌^◌, ◌≤◌, ◌<◌, true, false, List, [],
  ◌∷◌, ◌++◌, length, take, drop, replicate, get_or, bit_xor,
}
use encfs.Base.{
  Option, some, if◌then◌else◌, ltb, leb, ◌==◌, ◌≡◌, refl, sym, ap, ◌∙◌, arith, All, IsByte,
  All-append, All-replicate,
}
use encfs.Base.{take_all, take-append_left, length-append, length-replicate}
use native.Mathlib.Nat.{mod-lt, mod-add-div', add-div_right, mul-mod_left, mod-eq_of_lt}
use encfs.Base64.{b256_to_b64_bytes, b256_to_b32_bytes}
use encfs.Base64.Ascii.{IsNameChar}
use encfs.Base64.Name.{
  decode_b64-encode_b64, decode_b32-encode_b32, length-encode_b64, length-encode_b32,
}
use encfs.Cipher.Ops.{CipherOps, IsCipher}
use encfs.NameIo.{
  mac_bytes, read_mac, tmp_iv, read_mac-mac_bytes, length-mac_bytes, drop-mac_bytes,
  mac_bytes-IsByte,
}
use encfs.NameIo.Block.{
  BlockNameIo, padding_of, max_encoded_name_len, max_decoded_name_len, to_ascii, from_ascii,
  encode_name, decode_name,
}

-- What the constructor asserts of the block size, which the cipher's own block divides.
pub record IsBlockNameIo (c : BlockNameIo) (ops : CipherOps) : Type 0 where
  pub bs_pos : 0 < c.bs
  pub small_bs : c.bs < 128
  pub same_block : c.bs ≡ ops.cipher_block_size

-- The padding fills the last block, or is a whole block of its own.
pub padding_fills :
    (c : BlockNameIo) (n : ℕ)
    → 0 < c.bs
    → (0 < padding_of c n)
      × (padding_of c n ≤ c.bs)
      × ((n + padding_of c n) % c.bs ≡ 0)
      × (n + padding_of c n ≡ (n + c.bs) / c.bs * c.bs)
      × (c.bs ≤ n + padding_of c n)
padding_fills c n pos =
    let rest = mod-lt n pos in
    let parts = mod-add-div' n c.bs in
    let next = ap (λ (t : ℕ). t * c.bs) (add-div_right n pos) in
    let none_left : (c.bs - n % c.bs == 0) ≡ false = ground arith in
    let whole : n + (c.bs - n % c.bs) ≡ (n / c.bs + 1) * c.bs = omega arith in
    rw none_left (
      omega arith,
      omega arith,
      ap (λ (t : ℕ). t % c.bs) whole ∙ mul-mod_left (n / c.bs + 1) c.bs,
      whole ∙ sym next,
      omega arith,
    )

get_or-replicate : (n v : ℕ) → get_or (replicate (suc n) v) n 0 ≡ v
get_or-replicate zero v = refl
get_or-replicate (suc n) v = get_or-replicate n v

-- The last byte of the padding.
get_or-padding :
    (front : List ℕ) (n v : ℕ) → get_or (front ++ replicate (suc n) v) (length front + n) 0 ≡ v
get_or-padding [] n v =
    ap (λ (i : ℕ). get_or (replicate (suc n) v) i 0) (omega arith) ∙ get_or-replicate n v
get_or-padding (x ∷ front) n v =
    let next : suc (length front) + n ≡ suc (length front + n) = omega arith in
    ap (λ (i : ℕ). get_or (x ∷ front ++ replicate (suc n) v) i 0) next ∙ get_or-padding front n v

last_byte :
    (front : List ℕ) (n v : ℕ)
    → 0 < n
    → get_or (front ++ replicate n v) (length (front ++ replicate n v) - 1) 0 ≡ v
last_byte front zero v pos = absurd (omega arith)
last_byte front (suc n) v pos =
    ap (λ (i : ℕ). get_or (front ++ replicate (suc n) v) i 0)
      (omega (arith, length-append front (replicate (suc n) v), length-replicate n v))
    ∙ get_or-padding front n v

ascii_round_trip :
    (c : BlockNameIo) (bytes : List ℕ)
    → All IsByte bytes
    → 0 < length bytes
    → (from_ascii c (to_ascii c bytes) ≡ bytes)
      × (max_decoded_name_len c (length (to_ascii c bytes)) ≡ length bytes - 2)
      × (length (to_ascii c bytes) ≡ (
          if c.case_insensitive
          then b256_to_b32_bytes (length bytes)
          else b256_to_b64_bytes (length bytes)))
      × All IsNameChar (to_ascii c bytes)
ascii_round_trip c bytes h pos = elim (Bool-cases c.case_insensitive) [
  | inl base32 ↦
      let (back, _, chars) = decode_b32-encode_b32 bytes h pos in
      let (size, size_back) = length-encode_b32 bytes h pos in
      rw base32 (back, ap (λ (t : ℕ). t - 2) size_back, size, chars)
  | inr base64 ↦
      let (back, chars) = decode_b64-encode_b64 bytes h pos in
      let (size, size_back) = length-encode_b64 bytes h pos in
      rw base64 (back, ap (λ (t : ℕ). t - 2) size_back, size, chars)
]

-- The name with its padding: whole blocks of bytes, the last of which is the size of the padding.
padded_name :
    (c : BlockNameIo) (name : List ℕ)
    → All IsByte name
    → 0 < c.bs
    → c.bs < 128
    → (padded : List ℕ) × (length padded ≡ length name + padding_of c (length name))
      × All IsByte padded
      × (get_or padded (length padded - 1) 0 ≡ padding_of c (length name))
      × (take (length name) padded ≡ name)
      × (name ++ replicate (padding_of c (length name)) (padding_of c (length name)) ≡ padded)
padded_name c name bytes pos small =
    let padding = padding_of c (length name) in
    let (some_pad, short_pad, _, _, _) = padding_fills c (length name) pos in
    let tail = replicate padding padding in
    (
      name ++ tail,
      length-append name tail ∙ omega (arith, length-replicate padding padding),
      All-append IsByte name tail bytes (All-replicate IsByte padding padding (omega arith)),
      last_byte name padding padding some_pad,
      take-append_left (length name) name tail refl,
      refl,
    )

-- The coded bytes behind their MAC, spelled as characters and read back.
wire_round_trip :
    (c : BlockNameIo) (mac : ℕ) (coded : List ℕ) (n : ℕ)
    → mac < 2 ^ 16
    → All IsByte coded
    → length coded ≡ n
    → let wire = mac_bytes mac ++ coded in
      (from_ascii c (to_ascii c wire) ≡ wire)
      × (max_decoded_name_len c (length (to_ascii c wire)) ≡ n)
      × (length (to_ascii c wire)
          ≡ (if c.case_insensitive then b256_to_b32_bytes (n + 2) else b256_to_b64_bytes (n + 2)))
      × All IsNameChar (to_ascii c wire)
      × (read_mac wire 0 ≡ mac)
      × (take n (drop 2 wire) ≡ coded)
wire_round_trip c mac coded n small bytes size =
    let wire = mac_bytes mac ++ coded in
    let long : length wire ≡ n + 2 = length-mac_bytes mac coded ∙ omega (arith, size) in
    let (back, count_back, count, chars) =
      ascii_round_trip c wire (All-append IsByte (mac_bytes mac) coded (mac_bytes-IsByte mac) bytes)
        (omega (arith, long)) in
    (
      back,
      count_back ∙ omega (arith, long),
      count
          ∙ ap (λ (t : ℕ). if c.case_insensitive then b256_to_b32_bytes t else b256_to_b64_bytes t)
              long,
      chars,
      read_mac-mac_bytes mac coded small,
      ap (take n) (drop-mac_bytes mac coded) ∙ take_all n coded (omega (arith, size)),
    )

-- Each coder on the values that its steps return.
module _ (c : BlockNameIo) (ops : CipherOps) (iv : Option ℕ) (mac : ℕ) (iv' : Option ℕ)
    (padded coded : List ℕ) where
  encode_name-steps :
      (name : List ℕ) (bl : ℕ)
      → length name + 2 + padding_of c (length name) ≤ bl
      → padding_of c (length name) < 256
      → (name ++ replicate (padding_of c (length name)) (padding_of c (length name)) ≡ padded)
      → ops.mac_16 padded iv ≡ some (mac, iv')
      → ops.block_encode padded (bit_xor mac (tmp_iv iv (leb 3 c.interface))) ≡ some (true, coded)
      → encode_name c ops name iv bl ≡ some (to_ascii c (mac_bytes mac ++ coded), iv')
  unfolding encode_name
  encode_name-steps name bl room small def_ mac_is enc =
      let fits : leb (length name + 2 + padding_of c (length name)) bl ≡ true = ground arith in
      let pad_byte : padding_of c (length name) % 256 ≡ padding_of c (length name) =
        mod-eq_of_lt small in
      rw (fits, pad_byte, def_, mac_is, enc)

  decode_name-steps :
      (name encoded : List ℕ) (n padding bl : ℕ)
      → c.bs ≤ n
      → (max_decoded_name_len c (length encoded) ≡ n)
      → (read_mac (from_ascii c encoded) 0 ≡ mac)
      → (take n (drop 2 (from_ascii c encoded)) ≡ coded)
      → ops.block_decode coded (bit_xor mac (tmp_iv iv (leb 3 c.interface))) ≡ some (true, padded)
      → (get_or padded (length padded - 1) 0 ≡ padding)
      → length padded ≡ length name + padding
      → padding ≤ c.bs
      → length name < bl
      → ops.mac_16 padded iv ≡ some (mac, iv')
      → (take (length name) padded ≡ name)
      → decode_name c ops encoded iv bl ≡ some (name, iv')
  unfolding decode_name
  decode_name-steps name encoded n padding bl full count mac_back back dec last size short room
        mac_is front =
      let big : ltb n c.bs ≡ false = ground arith in
      let no_overrun : ltb c.bs padding ≡ false = ground arith in
      let no_underrun : ltb (length padded) padding ≡ false = ground (arith, size) in
      let final_size : length padded - padding ≡ length name = omega (arith, size) in
      let fits : ltb (length name) bl ≡ true = ground arith in
      let matches : (mac == mac) ≡ true = ground arith in
      rw (
        count, big, mac_back, back, dec, last, no_overrun, no_underrun, final_size, fits, mac_is,
        matches, front,
      )

module _ (c : BlockNameIo) (ops : CipherOps) (laws : IsCipher ops) (ok : IsBlockNameIo c ops) where
  -- Over a cipher that keeps its laws, with blocks below 128 bytes: a name is always encoded, into
  -- as many characters as `maxEncodedNameLen` says, all of which may stand in a file name, in base
  -- 64 and in base 32. Decoding gives the name back without the padding, and leaves the vector of
  -- the chain as encoding left it. The buffers are long enough for the padded name and for the
  -- name with its final zero.
  pub decode_name-encode_name_blocks :
      (name : List ℕ) (iv : Option ℕ) (bl bl' : ℕ)
      → All IsByte name
      → (length name + c.bs) / c.bs * c.bs + 2 ≤ bl
      → length name < bl'
      → (coded : List ℕ) × (iv' : Option ℕ) × (encode_name c ops name iv bl ≡ some (coded, iv'))
        × (decode_name c ops coded iv bl' ≡ some (name, iv'))
        × (length coded ≡ max_encoded_name_len c (length name))
        × All IsNameChar coded
  decode_name-encode_name_blocks name iv bl bl' bytes room room' =
      let n = length name in
      let padding = padding_of c n in
      let (some_pad, short_pad, whole, total, full) = padding_fills c n ok.bs_pos in
      let (padded, size, padded_bytes, last, front, def_) =
        padded_name c name bytes ok.bs_pos ok.small_bs in
      let (mac, iv', mac_is, small) = laws.mac_16_total padded iv (omega (arith, size)) in
      let iv64 = bit_xor mac (tmp_iv iv (leb 3 c.interface)) in
      let blocks : length padded % ops.cipher_block_size ≡ 0 =
        ap (λ (t : ℕ). length padded % t) (sym ok.same_block)
        ∙ ap (λ (t : ℕ). t % c.bs) size
        ∙ whole in
      let (coded, enc, same, coded_bytes, dec) =
        laws.block_undone padded iv64 (omega (arith, size)) blocks padded_bytes in
      let (wire_back, count_back, count, chars, mac_back, coded_back) =
        wire_round_trip c mac coded (n + padding) small coded_bytes (omega (arith, same, size)) in
      let encoded = to_ascii c (mac_bytes mac ++ coded) in
      (
        encoded,
        iv',
        encode_name-steps c ops iv mac iv' padded coded name bl (omega arith)
            (omega (arith, ok.small_bs)) def_ mac_is enc,
        decode_name-steps c ops iv mac iv' padded coded name encoded (n + padding) padding bl' full
            count_back (ap (λ (t : List ℕ). read_mac t 0) wire_back ∙ mac_back)
            (ap (λ (t : List ℕ). take (n + padding) (drop 2 t)) wire_back ∙ coded_back) dec last
            size short_pad room' mac_is front,
        count
            ∙ ap
                (λ (t : ℕ).
                  if c.case_insensitive
                  then b256_to_b32_bytes (t + 2)
                  else b256_to_b64_bytes (t + 2))
                total,
        chars,
      )
