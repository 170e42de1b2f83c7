-- ===== src/Cipher/Tests.antt =====
-- A small cipher in place of OpenSSL, which keeps its laws, and the witnesses.
use encfs.Base.{
  ℕ, ◌+◌, ◌%◌, ◌<◌, true, false, List, [], ◌∷◌, length, replicate, map, All, IsByte, some, ◌≡◌, ◌≢◌,
  ◌⊎◌, refl, ap₂, arith, length-map, length-replicate, All-replicate,
}
use encfs.Cipher.Evp.{Evp, IsEvp}
use encfs.Cipher.Mix.{shuffle_bytes, unshuffle_bytes, unshuffle_bytes-shuffle_bytes}
use encfs.Cipher.Ssl.{
  SslKey, SslCipher, stream_encode, stream_decode, block_encode, block_decode, write_key, read_key,
}
use encfs.Cipher.Ssl.RoundTrip.{IsKeyOf, stream_decode-encode, block_decode-encode}
use encfs.Cipher.Ssl.Key.{read_key-write_key}
use encfs.Cipher.Ops.{CipherOps, IsCipher, ssl_cipher, ssl_cipher-IsCipher}

-- Every byte goes one up, whatever the key and the vector.
abbrev pub next_byte : ℕ → ℕ
next_byte x = (x + 1) % 256

abbrev pub last_byte : ℕ → ℕ
last_byte x = (x + 255) % 256

abbrev pub test_evp : Evp
test_evp = record {
  hmac = λ key data'. replicate 20 (length data' % 256);
  stream_encrypt = λ key iv data'. map next_byte data';
  stream_decrypt = λ key iv data'. map last_byte data';
  block_encrypt = λ key iv data'. map next_byte data';
  block_decrypt = λ key iv data'. map last_byte data';
  block_size = 2;
}

last_byte-next_byte : (x : ℕ) → x < 256 → last_byte (next_byte x) ≡ x
last_byte-next_byte x h = omega arith

map_inverse : (xs : List ℕ) → All IsByte xs → map last_byte (map next_byte xs) ≡ xs
map_inverse [] h = refl
map_inverse (x ∷ xs) h = ap₂ (◌∷◌) (last_byte-next_byte x h.0) (map_inverse xs h.1)

map-IsByte : (xs : List ℕ) → All IsByte (map next_byte xs)
map-IsByte [] = tt
map-IsByte (x ∷ xs) = (omega arith, map-IsByte xs)

pub test_evp_laws : IsEvp test_evp
test_evp_laws = record {
  length-hmac = λ key data'. length-replicate 20 (length data' % 256);
  hmac-IsByte = λ key data'. All-replicate IsByte 20 (length data' % 256) (omega arith);
  length-stream = λ key iv data'. length-map next_byte data';
  stream_inverse = λ key iv data' h. map_inverse data' h;
  stream-IsByte = λ key iv data'. map-IsByte data';
  length-block = λ key iv data' whole. length-map next_byte data';
  block_inverse = λ key iv data' whole h. map_inverse data' h;
  block-IsByte = λ key iv data'. map-IsByte data';
}

abbrev pub test_cipher : SslCipher
test_cipher = record { iface_current = 3; key_size = 2; iv_length = 8 }

abbrev pub test_key : SslKey
test_key = record { key_size = 2; iv_length = 8; buffer = 5 ∷ 6 ∷ replicate 8 7 }

pub test_key-IsKeyOf : IsKeyOf test_cipher test_key
test_key-IsKeyOf = record { same_key_size = refl; same_iv_length = refl; short_iv = omega arith }

abbrev some_data : List ℕ
some_data = 1 ∷ 255 ∷ 0 ∷ 9 ∷ []

some_data-IsByte : All IsByte some_data
some_data-IsByte = omega arith

unshuffle_bytes-shuffle_bytes_example : unshuffle_bytes (shuffle_bytes some_data) ≡ some_data
unshuffle_bytes-shuffle_bytes_example = unshuffle_bytes-shuffle_bytes some_data (omega arith)

stream_decode-encode_example :
    (out : List ℕ) × (stream_encode test_evp test_cipher some_data 77 test_key ≡ some (true, out))
    × (length out ≡ 4)
    × All IsByte out
    × (stream_decode test_evp test_cipher out 77 test_key ≡ some (true, some_data))
stream_decode-encode_example =
    stream_decode-encode test_evp test_evp_laws test_cipher test_key test_key-IsKeyOf some_data 77
      (omega arith) some_data-IsByte

block_decode-encode_example :
    ((length some_data % 2 ≡ 0)
      × ((out : List ℕ) × (block_encode test_evp test_cipher some_data 77 test_key
            ≡ some (true, out))
          × (length out ≡ 4)
          × All IsByte out
          × (block_decode test_evp test_cipher out 77 test_key ≡ some (true, some_data))))
    ⊎ ((length some_data % 2 ≢ 0)
        × (block_encode test_evp test_cipher some_data 77 test_key ≡ some (false, some_data))
        × (block_decode test_evp test_cipher some_data 77 test_key ≡ some (false, some_data)))
block_decode-encode_example =
    block_decode-encode test_evp test_evp_laws test_cipher test_key test_key-IsKeyOf some_data 77
      (omega arith) some_data-IsByte

read_key-write_key_example :
    (data' : List ℕ) × (k : SslKey) × (write_key test_evp test_cipher test_key test_key
      ≡ some data')
    × (read_key test_evp test_cipher data' test_key true ≡ some (some k))
    × (k.buffer ≡ 5 ∷ 6 ∷ replicate 8 7)
    × IsKeyOf test_cipher k
read_key-write_key_example =
    read_key-write_key test_evp test_evp_laws test_cipher test_key test_key-IsKeyOf test_key true
      test_key-IsKeyOf refl (omega arith) (omega arith)

-- The cipher with this key, for the tests of its clients.
abbrev pub test_ops : CipherOps
test_ops = ssl_cipher test_evp test_cipher test_key

pub test_ops_laws : IsCipher test_ops
test_ops_laws = ssl_cipher-IsCipher test_evp test_cipher test_key test_evp_laws test_key-IsKeyOf
