-- ===== src/Cipher/Ssl.antt =====
-- encfs/SSL_Cipher.cpp, and the check values of encfs/Cipher.cpp. `none` is an `Error` thrown by
-- `rAssert`; a `bool` result stands beside the buffer that the call leaves.
pub mod RoundTrip
pub mod Mac
pub mod Key
use encfs.Base.{ℕ, zero, suc, ◌+◌, ◌-◌, ◌*◌, ◌/◌, ◌%◌, ◌^◌, Bool, true, false, ◌&&◌, not}
use encfs.Base.{
  List, [], ◌∷◌, ◌++◌, length, get_or, set, take, drop, replicate, u32, u64, ◌<<<◌, ◌>>>◌,
}
use encfs.Base.{bit_and, bit_xor, ltb, leb, ◌==◌, if◌then◌else◌, Option, none, some}
use encfs.Base.{write_be, read_be, write_le}
use mathlib.Core.Option
use encfs.Cipher.Evp.{Evp}
use encfs.Cipher.Mix.{shuffle_bytes, unshuffle_bytes, flip_bytes}

infixl 5 ◌>>=◌
abbrev pub ◌>>=◌ {ℓ κ} : {A : Type ℓ} {B : Type κ} → Option A → (A → Option B) → Option B
none >>= f = none
some a >>= f = f a

infixl 5 ◌>>◌
abbrev pub ◌>>◌ {ℓ} : {B : Type ℓ} → Option (Unit {0}) → Option B → Option B
m >> k = m >>= λ _. k

-- `rAssert(cond)`
abbrev pub r_assert : Bool → Option (Unit {0})
r_assert true = some tt
r_assert false = none

-- `SSLKey`: `buffer` holds `keySize` bytes of key and `ivLength` bytes of vector. The OpenSSL contexts
-- depend on these bytes alone.
pub record SslKey : Type 0 where
  pub key_size : ℕ
  pub iv_length : ℕ
  pub buffer : List ℕ

abbrev pub key_data : SslKey → List ℕ
key_data key = take key.key_size key.buffer

abbrev pub iv_data : SslKey → List ℕ
iv_data key = drop key.key_size key.buffer

-- `KEY_CHECKSUM_BYTES`
abbrev pub key_checksum_bytes : ℕ
key_checksum_bytes = 4

-- The fields of `SSL_Cipher` that its functions read: `iface.current()`, `_keySize` and `_ivLength`.
pub record SslCipher : Type 0 where
  pub iface_current : ℕ
  pub key_size : ℕ
  pub iv_length : ℕ

-- `memcpy` of a result over the start of a buffer.
pub overlay : List ℕ → List ℕ → List ℕ
overlay out buf = out ++ drop (length out) buf

-- `for (i = from; ...) h[i % 8] ^= md[i]`
pub fold_digest : List ℕ → ℕ → List ℕ → List ℕ
fold_digest [] i h = h
fold_digest (x ∷ md) i h = fold_digest md (i + 1) (set h (i % 8) (bit_xor (get_or h (i % 8) 0) x))

-- The exclusive ors of `setIVec_old`: byte `j` of `var` at place `i`.
abbrev pub xor_at : ℕ → ℕ → ℕ → List ℕ → List ℕ
xor_at i var shift ivec = set ivec i (bit_xor (get_or ivec i 0) (bit_and (var >>> shift) 0xff))

-- `setIVec_old`: `seed` is an `unsigned int`, so the upper half of the caller's value is lost.
pub set_ivec_old : SslCipher → ℕ → SslKey → List ℕ
set_ivec_old c seed64 key =
    let seed = u32 seed64 in
    let var1 = u32 (0x060a4011 * seed) in
    let var2 = u32 (0x0221040d * bit_xor seed 0xD3FEA11C) in
    let iv0 = take c.iv_length (iv_data key) in
    let iv1 = xor_at 3 var2 0 (xor_at 2 var1 8 (xor_at 1 var2 16 (xor_at 0 var1 24 iv0))) in
    let iv2 = xor_at 7 var1 0 (xor_at 6 var2 8 (xor_at 5 var1 16 (xor_at 4 var2 24 iv1))) in
    let iv3 = xor_at 11 var2 24 (xor_at 10 var1 16 (xor_at 9 var2 8 (xor_at 8 var1 0 iv2))) in
    let iv4 = xor_at 15 var2 0 (xor_at 14 var1 8 (xor_at 13 var2 16 (xor_at 12 var1 24 iv3))) in
    if ltb 8 c.iv_length then iv4 else iv2

-- The chained vector, lowest byte first; nothing for a null pointer.
abbrev pub chained_bytes : Option ℕ → List ℕ
chained_bytes none = []
chained_bytes (some iv) = write_le 8 iv

-- `MAC_32` and `MAC_16` fold the 64-bit value.
pub fold_32 : ℕ → ℕ
fold_32 mac64 = bit_xor (bit_and (mac64 >>> 32) 0xffffffff) (bit_and mac64 0xffffffff)

pub fold_16 : ℕ → ℕ
fold_16 mac64 =
    let mac32 = fold_32 mac64 in bit_xor (bit_and (mac32 >>> 16) 0xffff) (bit_and mac32 0xffff)

module _ (evp : Evp) where
  -- `_checksum_64`: all bytes of the digest but the last are folded into eight.
  pub checksum_64 : SslKey → List ℕ → Option ℕ → Option ℕ
  checksum_64 key data' chained_iv =
      let md = evp.hmac (key_data key) (data' ++ chained_bytes chained_iv) in
      do
        r_assert (ltb 0 (length data'))
        r_assert (leb 8 (length md))
        some (read_be 64 0 (fold_digest (take (length md - 1) md) 0 (replicate 8 0)))

  -- `MAC_64`: the value, and what `*chainedIV` is afterwards.
  pub mac_64 : SslKey → List ℕ → Option ℕ → Option (ℕ × Option ℕ)
  mac_64 key data' chained_iv = do
    tmp ← checksum_64 key data' chained_iv
    some (tmp, Option.map (λ _. tmp) chained_iv)

  pub mac_32 : SslKey → List ℕ → Option ℕ → Option (ℕ × Option ℕ)
  mac_32 key data' chained_iv = do
    (mac64, chained) ← mac_64 key data' chained_iv
    some (fold_32 mac64, chained)

  pub mac_16 : SslKey → List ℕ → Option ℕ → Option (ℕ × Option ℕ)
  mac_16 key data' chained_iv = do
    (mac64, chained) ← mac_64 key data' chained_iv
    some (fold_16 mac64, chained)

  module _ (c : SslCipher) where
    -- `setIVec`
    pub set_ivec : ℕ → SslKey → Option (List ℕ)
    set_ivec seed key =
        let md = evp.hmac (key_data key) (take c.iv_length (iv_data key) ++ write_le 8 seed) in
        let hashed : Option (List ℕ) =
          r_assert (leb c.iv_length (length md)) >> some (take c.iv_length md) in
        if leb 3 c.iface_current then hashed else some (set_ivec_old c seed key)

    -- The checks at the start of the four functions below.
    pub check_request : List ℕ → SslKey → Option (Unit {0})
    check_request buf key = do
      r_assert (ltb 0 (length buf))
      r_assert (key.key_size == c.key_size)
      r_assert (key.iv_length == c.iv_length)

    -- `streamEncode(buf, size, iv64, key)`, where `buf` is the first `size` bytes.
    pub stream_encode : List ℕ → ℕ → SslKey → Option (Bool × List ℕ)
    stream_encode buf iv64 key = do
      check_request buf key
      let buf1 = shuffle_bytes buf
      ivec1 ← set_ivec iv64 key
      let buf2 = overlay (evp.stream_encrypt (key_data key) ivec1 buf1) buf1
      let buf3 = shuffle_bytes (flip_bytes buf2)
      ivec2 ← set_ivec (u64 (iv64 + 1)) key
      let out = evp.stream_encrypt (key_data key) ivec2 buf3
      some (length out == length buf, overlay out buf3)

    pub stream_decode : List ℕ → ℕ → SslKey → Option (Bool × List ℕ)
    stream_decode buf iv64 key = do
      check_request buf key
      ivec1 ← set_ivec (u64 (iv64 + 1)) key
      let buf1 = overlay (evp.stream_decrypt (key_data key) ivec1 buf) buf
      let buf2 = flip_bytes (unshuffle_bytes buf1)
      ivec2 ← set_ivec iv64 key
      let out = evp.stream_decrypt (key_data key) ivec2 buf2
      some (length out == length buf, unshuffle_bytes (overlay out buf2))

    -- `blockEncode` refuses what is not a whole number of blocks.
    pub block_encode : List ℕ → ℕ → SslKey → Option (Bool × List ℕ)
    block_encode buf iv64 key = do
      check_request buf key
      let coded : Option (Bool × List ℕ) = do
        ivec ← set_ivec iv64 key
        let out = evp.block_encrypt (key_data key) ivec buf
        some (length out == length buf, overlay out buf)
      if not (length buf % evp.block_size == 0) then some (false, buf) else coded

    pub block_decode : List ℕ → ℕ → SslKey → Option (Bool × List ℕ)
    block_decode buf iv64 key = do
      check_request buf key
      let coded : Option (Bool × List ℕ) = do
        ivec ← set_ivec iv64 key
        let out = evp.block_decrypt (key_data key) ivec buf
        some (length out == length buf, overlay out buf)
      if not (length buf % evp.block_size == 0) then some (false, buf) else coded

    -- `writeKey`: what is left in `data`, `KEY_CHECKSUM_BYTES` and the encoded buffer. The result of
    -- `streamEncode` is not looked at.
    pub write_key : SslKey → SslKey → Option (List ℕ)
    write_key key master = do
      r_assert (key.key_size == c.key_size)
      r_assert (key.iv_length == c.iv_length)
      r_assert (master.key_size == c.key_size)
      r_assert (master.iv_length == c.iv_length)
      let buf = take (c.key_size + c.iv_length) key.buffer
      (checksum, _) ← mac_32 master buf none
      (done, coded) ← stream_encode buf checksum master
      some (write_be key_checksum_bytes checksum coded)

    -- `readKey`: `some none` is the null key that a failed check returns.
    pub read_key : List ℕ → SslKey → Bool → Option (Option SslKey)
    read_key data' master check_key = do
      r_assert (master.key_size == c.key_size)
      let checksum = read_be 32 0 (take key_checksum_bytes data')
      let buf = take (c.key_size + c.iv_length) (drop key_checksum_bytes data')
      (done, plain) ← stream_decode buf checksum master
      (checksum2, _) ← mac_32 master plain none
      let key : SslKey = record { key_size = c.key_size; iv_length = c.iv_length; buffer = plain }
      if not (checksum2 == checksum) && check_key then some none else some (some key)
