-- ===== src/Cipher/Ssl/RoundTrip.antt =====
-- Decoding undoes encoding in `SSL_Cipher`, for partial blocks and for whole ones.
use encfs.Base.{ℕ, ◌+◌, ◌%◌, ◌≤◌, ◌<◌, true, false}
use encfs.Base.{List, ◌++◌, length, take, All, IsByte, u64}
use encfs.Base.{◌≡◌, refl, sym, ap, ◌∙◌, arith, leb, ◌==◌, some}
use encfs.Base.{write_le, drop_all, append-nil, Bool-cases, inl, inr, ◌⊎◌, ◌≢◌}
use encfs.Cipher.Evp.{Evp, IsEvp}
use encfs.Cipher.Mix.{shuffle_bytes, flip_bytes, unshuffle_bytes-shuffle_bytes}
use encfs.Cipher.Mix.{flip_bytes-flip_bytes, length-shuffle_bytes, length-flip_bytes}
use encfs.Cipher.Mix.{shuffle_bytes-IsByte, flip_bytes-IsByte}
use encfs.Cipher.Ssl.{SslKey, SslCipher, key_data, iv_data, overlay, set_ivec, check_request}
use encfs.Cipher.Ssl.{stream_encode, stream_decode, block_encode, block_decode, set_ivec_old}

-- The key belongs to the cipher, whose vector has 8 or 16 bytes, so that a digest fills it.
pub record IsKeyOf (c : SslCipher) (key : SslKey) : Type 0 where
  pub same_key_size : key.key_size ≡ c.key_size
  pub same_iv_length : key.iv_length ≡ c.iv_length
  pub short_iv : c.iv_length ≤ 16

overlay_all : (out buf : List ℕ) → length out ≡ length buf → overlay out buf ≡ out
unfolding overlay
overlay_all out buf e = ap (◌++◌ out) (drop_all (length out) buf (omega arith)) ∙ append-nil out

module _ (evp : Evp) (laws : IsEvp evp) (c : SslCipher) (key : SslKey) (own : IsKeyOf c key) where
  -- The vector is always there.
  pub set_ivec_total : (seed : ℕ) → (iv : List ℕ) × (set_ivec evp c seed key ≡ some iv)
  unfolding set_ivec
  set_ivec_total seed =
      let md = evp.hmac (key_data key) (take c.iv_length (iv_data key) ++ write_le 8 seed) in
      let long : leb c.iv_length (length md) ≡ true = ground (
        arith,
        laws.length-hmac (key_data key) (take c.iv_length (iv_data key) ++ write_le 8 seed),
        own.short_iv,
      ) in
      elim (Bool-cases (leb 3 c.iface_current)) [
        | inl new ↦ rw (new, long) (take c.iv_length md, refl)
        | inr old ↦ rw old (set_ivec_old c seed key, refl)
      ]

  check_request-true : (buf : List ℕ) → 0 < length buf → check_request evp c buf key ≡ some tt
  unfolding check_request
  check_request-true buf h = ground (arith, own.same_key_size, own.same_iv_length)

  abbrev encrypt : List ℕ → List ℕ → List ℕ
  encrypt = evp.stream_encrypt (key_data key)

  abbrev decrypt : List ℕ → List ℕ → List ℕ
  decrypt = evp.stream_decrypt (key_data key)

  -- The two passes of `streamEncode`.
  abbrev first_pass : List ℕ → List ℕ → List ℕ
  first_pass iv buf = encrypt iv (shuffle_bytes buf)

  abbrev second_pass : List ℕ → List ℕ → List ℕ
  second_pass iv buf = encrypt iv (shuffle_bytes (flip_bytes buf))

  length-first_pass : (iv buf : List ℕ) → length (first_pass iv buf) ≡ length buf
  length-first_pass iv buf =
      laws.length-stream (key_data key) iv (shuffle_bytes buf) ∙ length-shuffle_bytes buf

  length-second_pass : (iv buf : List ℕ) → length (second_pass iv buf) ≡ length buf
  length-second_pass iv buf = length-first_pass iv (flip_bytes buf) ∙ length-flip_bytes buf

  overlay-encrypt : (iv buf : List ℕ) → overlay (encrypt iv buf) buf ≡ encrypt iv buf
  overlay-encrypt iv buf = overlay_all _ buf (laws.length-stream (key_data key) iv buf)

  stream_encode-passes :
      (buf : List ℕ) (iv64 : ℕ) (iv1 iv2 : List ℕ)
      → 0 < length buf
      → set_ivec evp c iv64 key ≡ some iv1
      → set_ivec evp c (u64 (iv64 + 1)) key ≡ some iv2
      → stream_encode evp c buf iv64 key ≡ some (true, second_pass iv2 (first_pass iv1 buf))
  unfolding stream_encode
  stream_encode-passes buf iv64 iv1 iv2 pos e1 e2 =
      let out = second_pass iv2 (first_pass iv1 buf) in
      let same : (length out == length buf) ≡ true =
        ground (arith, length-second_pass iv2 (first_pass iv1 buf), length-first_pass iv1 buf) in
      rw (
        check_request-true buf pos,
        e1,
        e2,
        overlay-encrypt iv1 (shuffle_bytes buf),
        overlay-encrypt iv2 (shuffle_bytes (flip_bytes (first_pass iv1 buf))),
        same,
      )

  -- What a pass of `streamDecode` makes of a pass of `streamEncode`.
  undo_pass : (iv buf : List ℕ) → All IsByte buf → decrypt iv (encrypt iv buf) ≡ buf
  undo_pass iv buf bytes = laws.stream_inverse (key_data key) iv buf bytes

  stream_decode-passes :
      (buf : List ℕ) (iv64 : ℕ) (iv1 iv2 : List ℕ)
      → 0 < length buf
      → All IsByte buf
      → set_ivec evp c iv64 key ≡ some iv1
      → set_ivec evp c (u64 (iv64 + 1)) key ≡ some iv2
      → stream_decode evp c (second_pass iv2 (first_pass iv1 buf)) iv64 key ≡ some (true, buf)
  unfolding stream_decode
  stream_decode-passes buf iv64 iv1 iv2 pos bytes e1 e2 =
      let mid = first_pass iv1 buf in
      let mixed = shuffle_bytes (flip_bytes mid) in
      let out = encrypt iv2 mixed in
      let mid_bytes = laws.stream-IsByte (key_data key) iv1 (shuffle_bytes buf) in
      let size = length-second_pass iv2 mid ∙ length-first_pass iv1 buf in
      let same : (length (shuffle_bytes buf) == length out) ≡ true =
        ground (arith, size, length-shuffle_bytes buf) in
      rw (
        check_request-true out (omega (arith, size)),
        e2,
        e1,
        undo_pass iv2 mixed
            (shuffle_bytes-IsByte (flip_bytes mid) (flip_bytes-IsByte mid mid_bytes)),
        overlay_all mixed out (sym (laws.length-stream (key_data key) iv2 mixed)),
        unshuffle_bytes-shuffle_bytes (flip_bytes mid)
            (omega (arith, length-flip_bytes mid, length-first_pass iv1 buf)),
        flip_bytes-flip_bytes mid,
        undo_pass iv1 (shuffle_bytes buf) (shuffle_bytes-IsByte buf bytes),
        overlay_all (shuffle_bytes buf) mid
            (sym (laws.length-stream (key_data key) iv1 (shuffle_bytes buf))),
        unshuffle_bytes-shuffle_bytes buf pos,
        same,
      )

  -- Where OpenSSL keeps its laws and the key is one of the cipher: `streamEncode` succeeds on any
  -- bytes, if there are any, and `streamDecode` under the same key and vector gives them back. The
  -- coded bytes are as many as the plain ones.
  pub stream_decode-encode :
      (buf : List ℕ) (iv64 : ℕ)
      → 0 < length buf
      → All IsByte buf
      → (out : List ℕ) × (stream_encode evp c buf iv64 key ≡ some (true, out))
        × (length out ≡ length buf)
        × All IsByte out
        × (stream_decode evp c out iv64 key ≡ some (true, buf))
  stream_decode-encode buf iv64 pos bytes =
      let (iv1, e1) = set_ivec_total iv64 in
      let (iv2, e2) = set_ivec_total (u64 (iv64 + 1)) in
      (
        second_pass iv2 (first_pass iv1 buf),
        stream_encode-passes buf iv64 iv1 iv2 pos e1 e2,
        length-second_pass iv2 (first_pass iv1 buf) ∙ length-first_pass iv1 buf,
        laws.stream-IsByte (key_data key) iv2 _,
        stream_decode-passes buf iv64 iv1 iv2 pos bytes e1 e2,
      )

  -- Where OpenSSL keeps its laws and the key is one of the cipher: on whole blocks `blockEncode`
  -- succeeds and `blockDecode` gives the bytes back; on other data, if there is any, both refuse
  -- and leave the buffer as it was.
  pub block_decode-encode :
      (buf : List ℕ) (iv64 : ℕ)
      → 0 < length buf
      → All IsByte buf
      → ((length buf % evp.block_size ≡ 0)
          × ((out : List ℕ) × (block_encode evp c buf iv64 key ≡ some (true, out))
              × (length out ≡ length buf)
              × All IsByte out
              × (block_decode evp c out iv64 key ≡ some (true, buf))))
        ⊎ ((length buf % evp.block_size ≢ 0)
            × (block_encode evp c buf iv64 key ≡ some (false, buf))
            × (block_decode evp c buf iv64 key ≡ some (false, buf)))
  unfolding block_encode block_decode
  block_decode-encode buf iv64 pos bytes =
      let (iv, e) = set_ivec_total iv64 in
      let out = evp.block_encrypt (key_data key) iv buf in
      let ready = check_request-true buf pos in
      elim (Bool-cases (length buf % evp.block_size == 0)) [
        | inl whole ↦
            let no_rest : length buf % evp.block_size ≡ 0 = ground arith in
            let size = laws.length-block (key_data key) iv buf no_rest in
            let back = laws.block_inverse (key_data key) iv buf no_rest bytes in
            let same : (length out == length buf) ≡ true = ground (arith, size) in
            let same' : (length buf == length out) ≡ true = ground (arith, size) in
            let whole' : (length out % evp.block_size == 0) ≡ true =
              ap (λ (n : ℕ). n % evp.block_size == 0) size ∙ whole in
            inl (
              no_rest,
              (
                out,
                rw (ready, whole, e, same, overlay_all out buf size),
                size,
                laws.block-IsByte (key_data key) iv buf,
                rw (
                  check_request-true out (omega (arith, size)),
                  whole',
                  e,
                  back,
                  same',
                  overlay_all buf out (sym size),
                ),
              ),
            )
        | inr rest ↦ inr (ground arith, rw (ready, rest), rw (ready, rest))
      ]
