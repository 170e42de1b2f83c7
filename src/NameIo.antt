-- ===== src/NameIo.antt =====
-- The coding of file names: encfs/StreamNameIO.cpp, encfs/BlockNameIO.cpp and encfs/NullNameIO.cpp, over
-- a cipher with its key. `Stream` and `Block` have the two coders, this file what they share.
pub mod Stream
pub mod Block
pub mod Path
pub mod Tests
use encfs.Base.{
  ℕ, suc, ◌+◌, ◌*◌, ◌/◌, ◌%◌, ◌^◌, ◌<◌, Bool, true, false, List, [], ◌∷◌, ◌++◌, length, drop,
  get_or, bit_and, bit_or, ◌<<<◌, ◌>>>◌,
}
use encfs.Base.{
  Option, none, some, if◌then◌else◌, ◌≡◌, refl, ap, ◌∙◌, arith, IsByte, All, All-append,
}
use encfs.Base.Bits.{and_mask, or_join_high}

-- `encodedName[i] = (mac >> 8) & 0xff; encodedName[i + 1] = (mac)&0xff;`
unfoldable pub mac_bytes : ℕ → List ℕ
mac_bytes mac = bit_and (mac >>> 8) 0xff ∷ bit_and mac 0xff ∷ []

-- The same two bytes read back at place `i`.
unfoldable pub read_mac : List ℕ → ℕ → ℕ
read_mac bytes i = bit_or (get_or bytes i 0 <<< 8) (get_or bytes (i + 1) 0)

-- `tmpIV`: the chained vector, in the versions that use it.
unfoldable pub tmp_iv : Option ℕ → Bool → ℕ
tmp_iv none chains = 0
tmp_iv (some iv) chains = if chains then iv else 0

pub read_mac-mac_bytes :
    (mac : ℕ) (rest : List ℕ) → mac < 2 ^ 16 → read_mac (mac_bytes mac ++ rest) 0 ≡ mac
unfolding read_mac mac_bytes
read_mac-mac_bytes mac rest h =
    ap (λ (t : ℕ). bit_or (t <<< 8) (bit_and mac 0xff)) (and_mask 8 (mac / 256))
    ∙ ap (bit_or ((mac / 256 % 256) <<< 8)) (and_mask 8 mac)
    ∙ or_join_high 8 (mac / 256 % 256) (mac % 256) (omega arith)
    ∙ omega arith

pub read_mac-mac_bytes_behind :
    (front : List ℕ) (mac : ℕ)
    → mac < 2 ^ 16
    → read_mac (front ++ mac_bytes mac) (length front) ≡ mac
unfolding read_mac mac_bytes
read_mac-mac_bytes_behind [] mac h = read_mac-mac_bytes mac [] h
read_mac-mac_bytes_behind (x ∷ front) mac h =
    let bytes = x ∷ front ++ mac_bytes mac in
    let next : suc (length front) + 1 ≡ suc (length front + 1) = omega arith in
    ap (λ (i : ℕ). bit_or (get_or bytes (suc (length front)) 0 <<< 8) (get_or bytes i 0)) next
    ∙ read_mac-mac_bytes_behind front mac h

pub mac_bytes-IsByte : (mac : ℕ) → All IsByte (mac_bytes mac)
unfolding mac_bytes
mac_bytes-IsByte mac = (omega (arith, and_mask 8 (mac / 256)), (omega (arith, and_mask 8 mac), tt))

pub length-mac_bytes : (mac : ℕ) (rest : List ℕ) → length (mac_bytes mac ++ rest) ≡ length rest + 2
unfolding mac_bytes
length-mac_bytes mac rest = omega arith

pub drop-mac_bytes : (mac : ℕ) (rest : List ℕ) → drop 2 (mac_bytes mac ++ rest) ≡ rest
unfolding mac_bytes
drop-mac_bytes mac rest = refl
