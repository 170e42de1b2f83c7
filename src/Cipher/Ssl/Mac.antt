-- ===== src/Cipher/Ssl/Mac.antt =====
-- The check values: always there on data, and within their widths.
use encfs.Base.{ℕ, ◌-◌, ◌/◌, ◌^◌, ◌<◌, true, List, ◌++◌, length, take, replicate}
use encfs.Base.{◌≡◌, refl, arith, ltb, leb, Option, none, some, read_be}
use encfs.Base.Bits.{and_mask, xor-lt}
use mathlib.Core.Option
use encfs.Cipher.Evp.{Evp, IsEvp}
use encfs.Cipher.Ssl.{
  SslKey, key_data, chained_bytes, fold_digest, fold_32, fold_16, checksum_64, mac_64, mac_32,
  mac_16,
}

pub fold_32-lt : (mac64 : ℕ) → fold_32 mac64 < 2 ^ 32
unfolding fold_32
fold_32-lt mac64 =
    xor-lt 32 _ _ (omega (arith, and_mask 32 (mac64 / 2 ^ 32))) (omega (arith, and_mask 32 mac64))

pub fold_16-lt : (mac64 : ℕ) → fold_16 mac64 < 2 ^ 16
unfolding fold_16
fold_16-lt mac64 =
    xor-lt 16 _ _ (omega (arith, and_mask 16 (fold_32 mac64 / 2 ^ 16)))
      (omega (arith, and_mask 16 (fold_32 mac64)))

module _ (evp : Evp) (laws : IsEvp evp) (key : SslKey) where
  pub checksum_64_total :
      (data' : List ℕ) (chained_iv : Option ℕ)
      → 0 < length data'
      → (v : ℕ) × (checksum_64 evp key data' chained_iv ≡ some v)
  unfolding checksum_64
  checksum_64_total data' chained_iv pos =
      let md = evp.hmac (key_data key) (data' ++ chained_bytes chained_iv) in
      let long : leb 8 (length md) ≡ true =
        ground (arith, laws.length-hmac (key_data key) (data' ++ chained_bytes chained_iv)) in
      let some_data : ltb 0 (length data') ≡ true = ground arith in
      rw (some_data, long)
        (read_be 64 0 (fold_digest (take (length md - 1) md) 0 (replicate 8 0)), refl)

  -- Where OpenSSL keeps its laws: `MAC_64` returns a value on data that is not empty, with a
  -- chained vector or a null pointer. `MAC_32` and `MAC_16` are folded from it into 32 and 16
  -- bits, and all three leave it in `*chainedIV`.
  pub mac_fold :
      (data' : List ℕ) (chained_iv : Option ℕ)
      → 0 < length data'
      → (v : ℕ) × (mac_64 evp key data' chained_iv ≡ some (v, Option.map (λ _. v) chained_iv))
        × (mac_32 evp key data' chained_iv ≡ some (fold_32 v, Option.map (λ _. v) chained_iv))
        × (mac_16 evp key data' chained_iv ≡ some (fold_16 v, Option.map (λ _. v) chained_iv))
        × (fold_32 v < 2 ^ 32)
        × (fold_16 v < 2 ^ 16)
  unfolding mac_64 mac_32 mac_16
  mac_fold data' iv pos =
      let (v, e) = checksum_64_total data' iv pos in
      (v, rw e, rw e, rw e, fold_32-lt v, fold_16-lt v)

  -- The same with a null pointer.
  pub mac_32_total :
      (data' : List ℕ)
      → 0 < length data'
      → (v : ℕ) × (mac_32 evp key data' none ≡ some (v, none)) × (v < 2 ^ 32)
  mac_32_total data' pos =
      let (v, _, e, _, small, _) = mac_fold data' none pos in (fold_32 v, e, small)
