-- ===== src/Base64/Standard/Tests.antt =====
-- Runs of the standard base 64 on small inputs.
use encfs.Base.{[], ◌∷◌, ◌≡◌, refl, some}
use encfs.Base64.Standard.{b64_standard_encode, b64_standard_decode, decode_loop, decode_rest}
use encfs.Base64.Standard.{decode_char, next_buf, is_full, lookup_char}

encode_abcd :
    b64_standard_encode (b'a' ∷ b'b' ∷ b'c' ∷ b'd' ∷ [])
    ≡ b'Y' ∷ b'W' ∷ b'J' ∷ b'j' ∷ b'Z' ∷ b'A' ∷ b'=' ∷ b'=' ∷ []
unfolding b64_standard_encode lookup_char
encode_abcd = refl

-- A tab is skipped.
decode_abcd :
    b64_standard_decode (b'Y' ∷ b'W' ∷ 9 ∷ b'J' ∷ b'j' ∷ b'Z' ∷ b'A' ∷ b'=' ∷ b'=' ∷ [])
    ≡ some (b'a' ∷ b'b' ∷ b'c' ∷ b'd' ∷ [])
unfolding b64_standard_decode decode_loop decode_rest decode_char next_buf is_full
decode_abcd = refl
