-- ===== src/Base64/Standard.antt =====
-- `B64StandardEncode` and `B64StandardDecode` of encfs/base64.cpp: the base 64 of configuration files.
pub mod RoundTrip
mod Tests
use encfs.Base.{ℕ, zero, suc, ◌+◌, ◌-◌, ◌*◌, ◌/◌, ◌%◌, ◌^◌, ◌≤◌, ◌<◌, Bool, true, false, ◌&&◌, not}
use encfs.Base.{List, [], ◌∷◌, ◌++◌, All, get_or, replicate, u8, u64, bit_and, bit_or, ◌<<<◌, ◌>>>◌}
use encfs.Base.{◌≡◌, refl, ap, ◌∙◌, arith, ltb, leb, ◌==◌, if◌then◌else◌, IsByte}
use encfs.Base.{Option, none, some, all_below, all_below-at}
use encfs.Base.Bits.{or_join_high, and_bit, and_shifted, and_mask}
use native.Mathlib.Nat.{mod-eq_of_lt}

abbrev pub whitespace : ℕ
whitespace = 64

abbrev pub equals : ℕ
equals = 65

abbrev pub invalid : ℕ
invalid = 66

-- The numbers from `n` on, `count` of them.
abbrev pub count_from : ℕ → ℕ → List ℕ
count_from zero n = []
count_from (suc count) n = n ∷ count_from count (n + 1)

-- The table `d`, of the 123 characters up to 'z'.
abbrev pub decode_table : List ℕ
decode_table =
    replicate 9 66
    ++ (64 ∷ replicate 33 66)
    ++ (62 ∷ replicate 3 66)
    ++ (63 ∷ count_from 10 52)
    ++ replicate 3 66
    ++ (65 ∷ replicate 3 66)
    ++ count_from 26 0
    ++ replicate 6 66
    ++ count_from 26 26

-- `encodeLookup`
abbrev pub encode_lookup : List ℕ
encode_lookup = count_from 26 b'A' ++ count_from 26 b'a' ++ count_from 10 b'0' ++ (b'+' ∷ b'/' ∷ [])

pub lookup_char : ℕ → ℕ
lookup_char i = get_or encode_lookup i 0

-- `d[v]`
pub decode_char : ℕ → ℕ
decode_char v = get_or decode_table v 0

-- `buf << 6 | c`, on a 64-bit `size_t`.
pub next_buf : ℕ → ℕ → ℕ
next_buf c buf = bit_or (u64 (buf <<< 6)) c

-- `(buf & 0x1000000) != 0u`
pub is_full : ℕ → Bool
is_full buf = not (bit_and buf 0x1000000 == 0)

-- The three bytes of a full buffer.
abbrev pub three_bytes : ℕ → List ℕ
three_bytes buf = u8 (buf >>> 16) ∷ u8 (buf >>> 8) ∷ u8 buf ∷ []

-- The bytes that are written, before what the later rounds write; `none` is `return false`.
abbrev pub prepend : List ℕ → Option (List ℕ) → Option (List ℕ)
prepend out none = none
prepend out (some rest) = some (out ++ rest)

-- What is left in `buf` after the loop.
pub decode_rest : ℕ → List ℕ
decode_rest buf =
    if not (bit_and buf 0x40000 == 0)
    then u8 (buf >>> 10) ∷ u8 (buf >>> 2) ∷ []
    else (if not (bit_and buf 0x1000 == 0) then u8 (buf >>> 4) ∷ [] else [])

-- The loop of `B64StandardDecode`. `buf` holds a 1 above the bits read since it was last emptied.
pub decode_loop : List ℕ → ℕ → Option (List ℕ)
decode_loop [] buf = some (decode_rest buf)
decode_loop (v ∷ rest) buf =
    let c = decode_char v in
    let buf' = next_buf c buf in
    let skipped = decode_loop rest buf in
    let later = decode_loop rest (if is_full buf' then 1 else buf') in
    let digit = prepend (if is_full buf' then three_bytes buf' else []) later in
    let stop = some (decode_rest buf) in
    if ltb b'z' v
    then none
    else (if c == whitespace
        then skipped
        else (if c == invalid then none else (if c == equals then stop else digit)))

pub b64_standard_decode : List ℕ → Option (List ℕ)
b64_standard_decode input = decode_loop input 1

-- The four characters that the bits of `temp` stand for.
abbrev pub char_1 : ℕ → ℕ
char_1 temp = lookup_char (bit_and temp 0x00FC0000 >>> 18)

abbrev pub char_2 : ℕ → ℕ
char_2 temp = lookup_char (bit_and temp 0x0003F000 >>> 12)

abbrev pub char_3 : ℕ → ℕ
char_3 temp = lookup_char (bit_and temp 0x00000FC0 >>> 6)

abbrev pub char_4 : ℕ → ℕ
char_4 temp = lookup_char (bit_and temp 0x0000003F)

-- `B64StandardEncode`: the loop over groups of three bytes, then the one or two bytes that are left.
pub b64_standard_encode : List ℕ → List ℕ
b64_standard_encode [] = []
b64_standard_encode (x ∷ []) = let temp = x <<< 16 in char_1 temp ∷ char_2 temp ∷ b'=' ∷ b'=' ∷ []
b64_standard_encode (x ∷ y ∷ []) =
    let temp = x <<< 16 + y <<< 8 in char_1 temp ∷ char_2 temp ∷ char_3 temp ∷ b'=' ∷ []
b64_standard_encode (x ∷ y ∷ z ∷ rest) =
    let temp = x <<< 16 + y <<< 8 + z in
    char_1 temp ∷ char_2 temp ∷ char_3 temp ∷ char_4 temp ∷ b64_standard_encode rest

prepend-nil : (o : Option (List ℕ)) → prepend [] o ≡ o
prepend-nil none = refl
prepend-nil (some rest) = refl
