-- ===== src/NameIo/Path/Coders.antt =====
-- The name coders as `NameIO` sees them: `StreamNameIO` and `BlockNameIO` keep what the coding of paths
-- relies on.
use encfs.Base.{ℕ, ◌+◌, ◌*◌, ◌/◌, ◌≤◌, ◌<◌, max, Bool, true, false, List, [], ◌∷◌, length}
use encfs.Base.{
  Option, some, ltb, leb, ◌==◌, ◌≡◌, ◌≢◌, refl, ap, ◌∙◌, arith, All, IsByte, Bool-cases, inl, inr,
}
use encfs.Base64.Ascii.{IsNameChar}
use encfs.Cipher.Ops.{CipherOps, IsCipher}
use encfs.NameIo.Stream
use encfs.NameIo.Block.{BlockNameIo}
use encfs.NameIo.Block
use encfs.NameIo.Block.RoundTrip.{IsBlockNameIo, padding_fills}
use encfs.NameIo.Path.{NameCoder, NameIo, until_nul, recode_name}
use encfs.NameIo.Path.Steps.{IsPlainChar}
use encfs.NameIo.Path.Loop.{IsNameIo}

-- `StreamNameIO` of a version, with the settings of the base class.
unfoldable pub stream_name_io : CipherOps → ℕ → Bool → Bool → NameIo
stream_name_io ops interface chained reverse = record {
  encoder = record {
    max_len = Stream.max_encoded_name_len;
    code = Stream.encode_name ops interface;
  };
  decoder = record {
    max_len = Stream.max_decoded_name_len;
    code = Stream.decode_name ops interface;
  };
  chained_name_iv = chained;
  reverse_encryption = reverse;
}

-- `BlockNameIO`.
unfoldable pub block_name_io : CipherOps → BlockNameIo → Bool → Bool → NameIo
block_name_io ops c chained reverse = record {
  encoder = record { max_len = Block.max_encoded_name_len c; code = Block.encode_name c ops };
  decoder = record { max_len = Block.max_decoded_name_len c; code = Block.decode_name c ops };
  chained_name_iv = chained;
  reverse_encryption = reverse;
}

until_nul_whole : (name : List ℕ) → All (λ x. x ≢ 0) name → until_nul name ≡ name
until_nul_whole [] h = refl
until_nul_whole (x ∷ name) h =
    let other : (x == 0) ≡ false = ground (arith, h.0) in
    rw other (ap (◌∷◌ x) (until_nul_whole name h.1))

-- A coder that succeeds within its bound passes the checks of `recodePath`.
recode_name-code :
    (coder : NameCoder) (name coded : List ℕ) (iv iv' : Option ℕ)
    → 0 < coder.max_len (length name)
    → coder.code name iv (max 32 (coder.max_len (length name) + 1)) ≡ some (coded, iv')
    → length coded ≤ coder.max_len (length name)
    → All (λ x. x ≢ 0) coded
    → recode_name coder name iv ≡ some (coded, iv')
unfolding recode_name
recode_name-code coder name coded iv iv' pos e short chars =
    let some_room : ltb 0 (coder.max_len (length name)) ≡ true = ground arith in
    let fits : leb (length coded) (coder.max_len (length name)) ≡ true = ground arith in
    rw (some_room, e, fits, until_nul_whole coded chars)

IsNameChar-no_nul : (name : List ℕ) → All IsNameChar name → All (λ x. x ≢ 0) name
IsNameChar-no_nul [] h = tt
IsNameChar-no_nul (x ∷ name) h = (h.0.0, IsNameChar-no_nul name h.1)

IsPlainChar-parts : (name : List ℕ) → All IsPlainChar name → All IsByte name × All (λ x. x ≢ 0) name
IsPlainChar-parts [] h = (tt, tt)
IsPlainChar-parts (x ∷ name) h =
    let (bytes, no_nul) = IsPlainChar-parts name h.1 in
    ((h.0.1, bytes), ((ground (arith, h.0.0)), no_nul))

-- `StreamNameIO` keeps the laws of names, over any cipher that keeps its own.
pub stream_name_io-IsNameIo :
    (ops : CipherOps) (interface : ℕ) (chained reverse : Bool)
    → IsCipher ops
    → IsNameIo (stream_name_io ops interface chained reverse)
unfolding stream_name_io
stream_name_io-IsNameIo ops interface chained reverse laws = record {
  name_undone = λ name iv pos chars.
      let io = stream_name_io ops interface chained reverse in
      let (bytes, no_nul) = IsPlainChar-parts name chars in
      let bl = max 32 (Stream.max_encoded_name_len (length name) + 1) in
      let n' = Stream.max_encoded_name_len (length name) in
      let bl' = max 32 (Stream.max_decoded_name_len n' + 1) in
      let room : length name ≤ Stream.max_decoded_name_len n' = omega arith in
      let (coded, iv', enc, dec, count, nice) =
        Stream.decode_name-encode_name ops laws interface name iv bl bl' pos bytes (omega arith)
          (omega arith) in
      let bound = ap (λ (t : ℕ). Stream.max_decoded_name_len t) count in
      (
        coded,
        iv',
        recode_name-code io.encoder name coded iv iv' (omega arith) enc (omega (arith, count))
            (IsNameChar-no_nul coded nice),
        recode_name-code io.decoder coded name iv iv' (omega (arith, bound))
            (ap (λ (t : ℕ). Stream.decode_name ops interface coded iv (max 32 (t + 1))) bound ∙ dec)
            (omega (arith, bound)) no_nul,
        omega (arith, count),
        nice,
      );
}

-- The bounds of `BlockNameIO` leave room for the padded name and for the plain one.
block_sizes :
    (c : BlockNameIo) (n : ℕ)
    → 0 < c.bs
    → ((n + c.bs) / c.bs * c.bs + 2 ≤ Block.max_encoded_name_len c n)
      × (n ≤ Block.max_decoded_name_len c (Block.max_encoded_name_len c n))
block_sizes c n pos =
    let (_, _, _, total, _) = padding_fills c n pos in
    elim (Bool-cases c.case_insensitive) [
      | inl base32 ↦ rw base32 (omega arith, omega (arith, total))
      | inr base64 ↦ rw base64 (omega arith, omega (arith, total))
    ]

-- `BlockNameIO` keeps the laws of names, in base 64 and in base 32, over any cipher that keeps its own
-- and whose blocks are those of the coder.
pub block_name_io-IsNameIo :
    (ops : CipherOps) (c : BlockNameIo) (chained reverse : Bool)
    → IsCipher ops
    → IsBlockNameIo c ops
    → IsNameIo (block_name_io ops c chained reverse)
unfolding block_name_io
block_name_io-IsNameIo ops c chained reverse laws ok = record {
  name_undone = λ name iv pos chars.
      let io = block_name_io ops c chained reverse in
      let (bytes, no_nul) = IsPlainChar-parts name chars in
      let n' = Block.max_encoded_name_len c (length name) in
      let bl = max 32 (n' + 1) in
      let bl' = max 32 (Block.max_decoded_name_len c n' + 1) in
      let (room, room') = block_sizes c (length name) ok.bs_pos in
      let (coded, iv', enc, dec, count, nice) =
        Block.RoundTrip.decode_name-encode_name_blocks c ops laws ok name iv bl bl' bytes
          (omega (arith, room)) (omega (arith, room')) in
      let bound = ap (λ (t : ℕ). Block.max_decoded_name_len c t) count in
      (
        coded,
        iv',
        recode_name-code io.encoder name coded iv iv' (omega (arith, room)) enc
            (omega (arith, count)) (IsNameChar-no_nul coded nice),
        recode_name-code io.decoder coded name iv iv' (omega (arith, bound, room', pos))
            (ap (λ (t : ℕ). Block.decode_name c ops coded iv (max 32 (t + 1))) bound ∙ dec)
            (omega (arith, bound, room')) no_nul,
        omega (arith, count, room),
        nice,
      );
}
