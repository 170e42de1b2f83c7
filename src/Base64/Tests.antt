-- ===== src/Base64/Tests.antt =====
-- Runs of the base 64 code on small inputs, and its theorems at such inputs.
use encfs.Base.{ℕ, true, false, List, [], ◌∷◌, length, take, map, All}
use encfs.Base.{◌≡◌, refl, arith, some}
use encfs.Base64.{change_base2_inline, change_base2, b64_to_b256_bytes}
use encfs.Base64.RoundTrip.{change_base2_inline-round_trip}
use encfs.Base64.Plain.{change_base2-eq-change_base2_inline}
use encfs.Base64.Ascii.{IsNameChar, to_lower}
use encfs.Base64.Name.{encode_b64, decode_b64, encode_b32, decode_b32}
use encfs.Base64.Name.{length-encode_b64, decode_b64-encode_b64, decode_b32-encode_b32}
use encfs.Base64.Standard.{b64_standard_encode, b64_standard_decode}
use encfs.Base64.Standard.RoundTrip.{b64_standard_decode-encode}

abbrev two_bytes : List ℕ
two_bytes = 200 ∷ 7 ∷ []

regroup_two : change_base2_inline 8 6 two_bytes true ≡ 8 ∷ 31 ∷ 0 ∷ []
unfolding change_base2_inline
regroup_two = refl

-- The copying version makes the same digits.
regroup_two_copy : change_base2 8 6 two_bytes 3 ≡ 8 ∷ 31 ∷ 0 ∷ []
unfolding change_base2
regroup_two_copy = refl

change_base2_inline-round_trip_example :
    take 2 (change_base2_inline 6 8 (change_base2_inline 8 6 two_bytes true) false) ≡ two_bytes
change_base2_inline-round_trip_example =
    change_base2_inline-round_trip 6 two_bytes (omega arith) (omega arith) (omega arith)
      (omega arith)

length-encode_b64_example :
    (length (encode_b64 two_bytes) ≡ 3) × (b64_to_b256_bytes (length (encode_b64 two_bytes)) ≡ 2)
length-encode_b64_example = length-encode_b64 two_bytes (omega arith) (omega arith)

decode_b64-encode_b64_example :
    (decode_b64 (encode_b64 two_bytes) ≡ two_bytes) × All IsNameChar (encode_b64 two_bytes)
decode_b64-encode_b64_example = decode_b64-encode_b64 two_bytes (omega arith) (omega arith)

decode_b32-encode_b32_example :
    (decode_b32 (encode_b32 two_bytes) ≡ two_bytes)
    × (decode_b32 (map to_lower (encode_b32 two_bytes)) ≡ two_bytes)
    × All IsNameChar (encode_b32 two_bytes)
decode_b32-encode_b32_example = decode_b32-encode_b32 two_bytes (omega arith) (omega arith)

b64_standard_decode-encode_example :
    b64_standard_decode (b64_standard_encode two_bytes) ≡ some two_bytes
b64_standard_decode-encode_example = b64_standard_decode-encode two_bytes (omega arith)

change_base2-eq-change_base2_inline_example :
    change_base2 8 6 two_bytes 3 ≡ change_base2_inline 8 6 two_bytes true
change_base2-eq-change_base2_inline_example =
    change_base2-eq-change_base2_inline 8 6 3 two_bytes (omega arith) (omega arith) (omega arith)
      (omega arith) (omega arith) (omega arith) (omega arith)
