-- ===== src/Cipher/Ssl/Key.antt =====
-- `writeKey` and `readKey`: a volume key, encrypted under the user's key.
use encfs.Base.{ℕ, ◌+◌, ◌*◌, ◌^◌, ◌<◌, Bool, true, List, [], length, take, drop}
use encfs.Base.{All, IsByte, ◌≡◌, refl, ap, ◌∙◌, arith, ◌==◌, some}
use encfs.Base.{
  write_be, read_be, write_be-append, length-write_be, read_be-write_be, take-append_left,
  drop-append_left, take_all,
}
use encfs.Cipher.Evp.{Evp, IsEvp}
use encfs.Cipher.Ssl.{SslKey, SslCipher, write_key, read_key}
use encfs.Cipher.Ssl.RoundTrip.{IsKeyOf, stream_decode-encode}
use encfs.Cipher.Ssl.Mac.{mac_32_total}

read_be-nil : (w acc : ℕ) → read_be w acc [] ≡ acc
unfolding read_be
read_be-nil w acc = refl

-- The checksum at the front of the data, and what follows it.
stored_checksum :
    (v : ℕ) (coded : List ℕ)
    → v < 2 ^ 32
    → (read_be 32 0 (take 4 (write_be 4 v coded)) ≡ v) × (drop 4 (write_be 4 v coded) ≡ coded)
stored_checksum v coded h =
    let e = write_be-append 4 v [] coded in
    let four = length-write_be 4 v [] in
    (
      ap (λ (x : List ℕ). read_be 32 0 (take 4 x)) e
          ∙ ap (read_be 32 0) (take-append_left 4 (write_be 4 v []) coded four)
          ∙ read_be-write_be 32 4 v 0 [] h (omega arith)
          ∙ read_be-nil 32 (0 * 256 ^ 4 + v)
          ∙ omega arith,
      ap (drop 4) e ∙ drop-append_left 4 (write_be 4 v []) coded four,
    )

module _ (evp : Evp) (laws : IsEvp evp) (c : SslCipher) (master : SslKey)
    (own : IsKeyOf c master) where
  -- Where OpenSSL keeps its laws and both keys are of the cipher: a key that `writeKey` wrote is
  -- read back by `readKey` under the same master key, with the check of its checksum or without.
  pub read_key-write_key :
      (key : SslKey) (check_key : Bool)
      → IsKeyOf c key
      → length key.buffer ≡ c.key_size + c.iv_length
      → 0 < c.key_size
      → All IsByte key.buffer
      → (data' : List ℕ) × (k : SslKey) × (write_key evp c key master ≡ some data')
        × (read_key evp c data' master check_key ≡ some (some k))
        × (k.buffer ≡ key.buffer)
        × IsKeyOf c k
  unfolding write_key read_key
  read_key-write_key key check_key k_own size pos bytes =
      let n = c.key_size + c.iv_length in
      let whole = take_all n key.buffer (omega (arith, size)) in
      let some_bytes : 0 < length key.buffer = omega (arith, size) in
      let (checksum, mac, small) = mac_32_total evp laws master key.buffer some_bytes in
      let (coded, enc, same, _, dec) =
        stream_decode-encode evp laws c master own key.buffer checksum some_bytes bytes in
      let key_test : (key.key_size == c.key_size) ≡ true = ground (arith, k_own.same_key_size) in
      let iv_test : (key.iv_length == c.iv_length) ≡ true = ground (arith, k_own.same_iv_length) in
      let key_test' : (master.key_size == c.key_size) ≡ true = ground (arith, own.same_key_size) in
      let iv_test' : (master.iv_length == c.iv_length) ≡ true =
        ground (arith, own.same_iv_length) in
      let (front, back) = stored_checksum checksum coded small in
      let whole' = take_all n coded (omega (arith, size, same)) in
      let matches : (checksum == checksum) ≡ true = ground arith in
      (
        write_be 4 checksum coded,
        record { key_size = c.key_size; iv_length = c.iv_length; buffer = key.buffer },
        rw (key_test, iv_test, key_test', iv_test', whole, mac, enc),
        rw (key_test', front, back, whole', dec, mac, matches),
        refl,
        record { same_key_size = refl; same_iv_length = refl; short_iv = own.short_iv },
      )
