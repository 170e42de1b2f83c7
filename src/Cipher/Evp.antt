-- ===== src/Cipher/Evp.antt =====
-- What encfs/SSL_Cipher.cpp calls of OpenSSL, which is not part of the repository: a parameter, with
-- the documented behaviour that the code relies on as named laws.
use encfs.Base.{ℕ, ◌%◌, List, length, All, IsByte, ◌≡◌}

-- Each function is given the bytes of the key that its context was initialised with. The update and
-- the final call of a context are one function, which returns the bytes that both write.
pub record Evp : Type 0 where
  -- `HMAC_Init_ex`, `HMAC_Update` and `HMAC_Final` with SHA-1: the key and the data.
  pub hmac : List ℕ → List ℕ → List ℕ
  -- The key, the initialization vector and the data.
  pub stream_encrypt : List ℕ → List ℕ → List ℕ → List ℕ
  pub stream_decrypt : List ℕ → List ℕ → List ℕ → List ℕ
  pub block_encrypt : List ℕ → List ℕ → List ℕ → List ℕ
  pub block_decrypt : List ℕ → List ℕ → List ℕ → List ℕ
  -- `EVP_CIPHER_block_size` of the block cipher.
  pub block_size : ℕ

-- A digest of SHA-1 has 20 bytes; CFB mode keeps the size of any data and CBC mode without padding
-- that of whole blocks; decryption undoes encryption under the same key and vector.
pub record IsEvp (evp : Evp) : Type 0 where
  pub length-hmac : (key data' : List ℕ) → length (evp.hmac key data') ≡ 20
  pub hmac-IsByte : (key data' : List ℕ) → All IsByte (evp.hmac key data')
  pub length-stream :
      (key iv data' : List ℕ) → length (evp.stream_encrypt key iv data') ≡ length data'
  pub stream_inverse :
      (key iv data' : List ℕ)
      → All IsByte data'
      → evp.stream_decrypt key iv (evp.stream_encrypt key iv data') ≡ data'
  pub stream-IsByte : (key iv data' : List ℕ) → All IsByte (evp.stream_encrypt key iv data')
  pub length-block :
      (key iv data' : List ℕ)
      → length data' % evp.block_size ≡ 0
      → length (evp.block_encrypt key iv data') ≡ length data'
  pub block_inverse :
      (key iv data' : List ℕ)
      → length data' % evp.block_size ≡ 0
      → All IsByte data'
      → evp.block_decrypt key iv (evp.block_encrypt key iv data') ≡ data'
  pub block-IsByte : (key iv data' : List ℕ) → All IsByte (evp.block_encrypt key iv data')
