-- ===== src/Cipher/Ops.antt =====
-- encfs/Cipher.h: what the name and file coders call of a `Cipher`, as an interface with the laws
-- that they rely on. `SSL_Cipher` and `NullCipher` are the two implementations.
use encfs.Base.{ℕ, ◌%◌, ◌^◌, ◌<◌, Bool, true, List, length, All, IsByte, ◌≡◌, Option, some}
use encfs.Base.{inl, inr, refl}
use mathlib.Core.Option
use encfs.Cipher.Evp.{Evp, IsEvp}
use encfs.Cipher.Ssl.{
  SslKey, SslCipher, fold_16, mac_16, mac_64, stream_encode, stream_decode, block_encode,
  block_decode,
}
use encfs.Cipher.Ssl.RoundTrip.{IsKeyOf, stream_decode-encode, block_decode-encode}
use encfs.Cipher.Ssl.Mac.{mac_fold, fold_16-lt}

-- The functions of a cipher with a key. A pointer to a chained vector is `none` when it is null, and
-- stands in the result as the call leaves it; an outer `none` is an `Error`.
pub record CipherOps : Type 0 where
  pub mac_64 : List ℕ → Option ℕ → Option (ℕ × Option ℕ)
  pub mac_16 : List ℕ → Option ℕ → Option (ℕ × Option ℕ)
  pub stream_encode : List ℕ → ℕ → Option (Bool × List ℕ)
  pub stream_decode : List ℕ → ℕ → Option (Bool × List ℕ)
  pub block_encode : List ℕ → ℕ → Option (Bool × List ℕ)
  pub block_decode : List ℕ → ℕ → Option (Bool × List ℕ)
  pub cipher_block_size : ℕ

-- `encode` succeeds on `buf` with as many bytes, from which `decode` gives `buf` back.
abbrev pub IsUndone :
    (List ℕ → ℕ → Option (Bool × List ℕ))
    → (List ℕ → ℕ → Option (Bool × List ℕ))
    → List ℕ
    → ℕ
    → Type 0
IsUndone encode decode buf iv64 =
    (out : List ℕ) × (encode buf iv64 ≡ some (true, out))
    × (length out ≡ length buf)
    × All IsByte out
    × (decode out iv64 ≡ some (true, buf))

pub record IsCipher (ops : CipherOps) : Type 0 where
  pub mac_16_total :
      (buf : List ℕ) (iv : Option ℕ)
      → 0 < length buf
      → (mac : ℕ) × (iv' : Option ℕ) × (ops.mac_16 buf iv ≡ some (mac, iv')) × (mac < 2 ^ 16)
  pub mac_64_total :
      (buf : List ℕ) (iv : Option ℕ)
      → 0 < length buf
      → (mac : ℕ) × (iv' : Option ℕ) × (ops.mac_64 buf iv ≡ some (mac, iv'))
  pub stream_undone :
      (buf : List ℕ) (iv64 : ℕ)
      → 0 < length buf
      → All IsByte buf
      → IsUndone ops.stream_encode ops.stream_decode buf iv64
  pub block_undone :
      (buf : List ℕ) (iv64 : ℕ)
      → 0 < length buf
      → length buf % ops.cipher_block_size ≡ 0
      → All IsByte buf
      → IsUndone ops.block_encode ops.block_decode buf iv64

unfoldable pub ssl_cipher : Evp → SslCipher → SslKey → CipherOps
ssl_cipher evp c key = record {
  mac_64 = mac_64 evp key;
  mac_16 = mac_16 evp key;
  stream_encode = λ buf iv64. stream_encode evp c buf iv64 key;
  stream_decode = λ buf iv64. stream_decode evp c buf iv64 key;
  block_encode = λ buf iv64. block_encode evp c buf iv64 key;
  block_decode = λ buf iv64. block_decode evp c buf iv64 key;
  cipher_block_size = evp.block_size;
}

-- encfs/NullCipher.cpp: nothing is coded, and `MAC_64` does not touch the vector.
unfoldable pub null_cipher : CipherOps
null_cipher = record {
  mac_64 = λ _ iv. some (0, iv);
  mac_16 = λ _ iv. some (fold_16 0, iv);
  stream_encode = λ buf _. some (true, buf);
  stream_decode = λ buf _. some (true, buf);
  block_encode = λ buf _. some (true, buf);
  block_decode = λ buf _. some (true, buf);
  cipher_block_size = 1;
}

-- `SSL_Cipher` with a key of its own keeps the laws of the cipher interface, where OpenSSL keeps its
-- documented ones: on any data there are a MAC of 16 bits and one of 64, and the coding of streams
-- and of whole blocks succeeds and is undone by decoding.
pub ssl_cipher-IsCipher :
    (evp : Evp) (c : SslCipher) (key : SslKey)
    → IsEvp evp
    → IsKeyOf c key
    → IsCipher (ssl_cipher evp c key)
unfolding ssl_cipher
ssl_cipher-IsCipher evp c key laws own = record {
  mac_16_total = λ buf iv pos.
      let (v, _, _, mac, _, small) = mac_fold evp laws key buf iv pos in
      (fold_16 v, Option.map (λ _. v) iv, mac, small);
  mac_64_total = λ buf iv pos.
      let (v, mac, _, _, _, _) = mac_fold evp laws key buf iv pos in
      (v, Option.map (λ _. v) iv, mac);
  stream_undone = λ buf iv64 pos bytes. stream_decode-encode evp laws c key own buf iv64 pos bytes;
  block_undone = λ buf iv64 pos whole bytes.
      elim (block_decode-encode evp laws c key own buf iv64 pos bytes) [
        | inl done ↦ done.1
        | inr refused ↦ absurd (refused.0 whole)
      ];
}

-- `NullCipher` keeps the laws of the cipher interface.
pub null_cipher-IsCipher : IsCipher null_cipher
unfolding null_cipher
null_cipher-IsCipher = record {
  mac_16_total = λ buf iv pos. (fold_16 0, iv, refl, fold_16-lt 0);
  mac_64_total = λ buf iv pos. (0, iv, refl);
  stream_undone = λ buf iv64 pos bytes. (buf, refl, refl, bytes, refl);
  block_undone = λ buf iv64 pos whole bytes. (buf, refl, refl, bytes, refl);
}
