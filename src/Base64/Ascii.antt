-- ===== src/Base64/Ascii.antt =====
-- The translations of encfs/base64.cpp between digits and the characters of encoded names. The
-- functions work on the first `length` bytes of a buffer: the lists are those bytes.
use encfs.Base.{ℕ, ◌+◌, ◌-◌, ◌<◌, Bool, true, ◌&&◌, not}
use encfs.Base.{List, [], ◌∷◌, ◌++◌, map, All, get_or, replicate, u8}
use encfs.Base.{length, length-map}
use encfs.Base.{◌≡◌, ◌≢◌, refl, ap₂, arith, ltb, leb, ◌==◌, if◌then◌else◌}
use encfs.Base.{all_below, all_below-at}

-- `B642AsciiTable`
abbrev pub b64_to_ascii_table : List ℕ
b64_to_ascii_table =
    b',' ∷ b'-' ∷ b'0' ∷ b'1' ∷ b'2' ∷ b'3' ∷ b'4' ∷ b'5' ∷ b'6' ∷ b'7' ∷ b'8' ∷ b'9' ∷ []

-- One round of `B64ToAscii`.
pub b64_to_ascii_char : ℕ → ℕ
b64_to_ascii_char ch = u8 (
    if ltb 11 ch
    then (if ltb 37 ch then ch + b'a' - 38 else ch + b'A' - 12)
    else get_or b64_to_ascii_table ch 0)

pub b64_to_ascii : List ℕ → List ℕ
unfolding b64_to_ascii_char
b64_to_ascii = map b64_to_ascii_char

-- `Ascii2B64Table`, of 65 characters.
abbrev pub ascii_to_b64_table : List ℕ
ascii_to_b64_table =
    replicate 44 b' '
    ++ (b'0'
        ∷ b'1'
        ∷ b' '
        ∷ b' '
        ∷ b'2'
        ∷ b'3'
        ∷ b'4'
        ∷ b'5'
        ∷ b'6'
        ∷ b'7'
        ∷ b'8'
        ∷ b'9'
        ∷ b':'
        ∷ b';'
        ∷ replicate 7 b' ')

-- One round of `AsciiToB64`. The additions are to an `unsigned char`; 256 stands in for its wrap.
pub ascii_to_b64_char : ℕ → ℕ
ascii_to_b64_char ch =
    if leb b'A' ch
    then (if leb b'a' ch then u8 (ch + 256 + 38 - b'a') else u8 (ch + 256 + 12 - b'A'))
    else u8 (get_or ascii_to_b64_table ch 0 + 256 - b'0')

pub ascii_to_b64 : List ℕ → List ℕ
unfolding ascii_to_b64_char
ascii_to_b64 = map ascii_to_b64_char

-- One round of `B32ToAscii`.
pub b32_to_ascii_char : ℕ → ℕ
b32_to_ascii_char ch = u8 (if ltb ch 26 then ch + b'A' else ch + b'2' - 26)

pub b32_to_ascii : List ℕ → List ℕ
unfolding b32_to_ascii_char
b32_to_ascii = map b32_to_ascii_char

-- `toupper` and `tolower` of the C library, in the C locale.
abbrev pub to_upper : ℕ → ℕ
to_upper ch = if leb b'a' ch && leb ch b'z' then ch - 32 else ch

abbrev pub to_lower : ℕ → ℕ
to_lower ch = if leb b'A' ch && leb ch b'Z' then ch + 32 else ch

-- One round of `AsciiToB32`.
pub ascii_to_b32_char : ℕ → ℕ
ascii_to_b32_char ch =
    let lch = to_upper ch in if leb b'A' lch then u8 (lch - b'A') else u8 (lch + 256 + 26 - b'2')

pub ascii_to_b32 : List ℕ → List ℕ
unfolding ascii_to_b32_char
ascii_to_b32 = map ascii_to_b32_char

-- A character that may stand in a file name and that keeps its meaning there: no NUL, no slash, and
-- no dot, which EncFS leaves to special names.
abbrev pub IsNameChar : ℕ → Type 0
IsNameChar c = (c ≢ 0) × (c ≢ b'/') × (c ≢ b'.') × (c < 128)

abbrev is_name_char : ℕ → Bool
is_name_char c = not (c == 0) && (not (c == b'/') && (not (c == b'.') && ltb c 128))

is_name_char-IsNameChar : (c : ℕ) → is_name_char c ≡ true → IsNameChar c
is_name_char-IsNameChar c h = ground arith

b64_table :
    all_below 64
      (λ x. (ascii_to_b64_char (b64_to_ascii_char x) == x) && is_name_char (b64_to_ascii_char x))
    ≡ true
unfolding all_below ascii_to_b64_char b64_to_ascii_char
b64_table = refl

b32_table :
    all_below 32 (λ x.
      (ascii_to_b32_char (b32_to_ascii_char x) == x)
      && ((ascii_to_b32_char (to_lower (b32_to_ascii_char x)) == x)
          && is_name_char (b32_to_ascii_char x)))
    ≡ true
unfolding all_below ascii_to_b32_char b32_to_ascii_char
b32_table = refl

b64_char :
    (x : ℕ)
    → x < 64
    → (ascii_to_b64_char (b64_to_ascii_char x) ≡ x) × IsNameChar (b64_to_ascii_char x)
b64_char x h =
    let t =
      all_below-at 64
        (λ x. (ascii_to_b64_char (b64_to_ascii_char x) == x) && is_name_char (b64_to_ascii_char x))
        x b64_table h in
    (ground arith, is_name_char-IsNameChar _ (ground arith))

b32_char :
    (x : ℕ)
    → x < 32
    → (ascii_to_b32_char (b32_to_ascii_char x) ≡ x)
      × (ascii_to_b32_char (to_lower (b32_to_ascii_char x)) ≡ x)
      × IsNameChar (b32_to_ascii_char x)
b32_char x h =
    let t =
      all_below-at 32
        (λ x.
          (ascii_to_b32_char (b32_to_ascii_char x) == x)
          && ((ascii_to_b32_char (to_lower (b32_to_ascii_char x)) == x)
              && is_name_char (b32_to_ascii_char x)))
        x b32_table h in
    (ground arith, ground arith, is_name_char-IsNameChar _ (ground arith))

pub length-b64_to_ascii : (xs : List ℕ) → length (b64_to_ascii xs) ≡ length xs
unfolding b64_to_ascii
length-b64_to_ascii xs = length-map b64_to_ascii_char xs

-- `B64ToAscii` turns 6-bit digits into characters that may stand in a file name, and `AsciiToB64`
-- turns these back.
pub ascii_to_b64-b64_to_ascii :
    (xs : List ℕ)
    → All (λ x. x < 64) xs
    → (ascii_to_b64 (b64_to_ascii xs) ≡ xs) × All IsNameChar (b64_to_ascii xs)
unfolding ascii_to_b64 b64_to_ascii
ascii_to_b64-b64_to_ascii [] h = (refl, tt)
ascii_to_b64-b64_to_ascii (x ∷ xs) h =
    let c = b64_char x h.0 in
    let rest = ascii_to_b64-b64_to_ascii xs h.1 in (ap₂ ◌∷◌ c.0 rest.0, (c.1, rest.1))

pub length-b32_to_ascii : (xs : List ℕ) → length (b32_to_ascii xs) ≡ length xs
unfolding b32_to_ascii
length-b32_to_ascii xs = length-map b32_to_ascii_char xs

-- `B32ToAscii` turns 5-bit digits into characters that may stand in a file name, and `AsciiToB32`
-- turns these back, also after a file system has put the name in lower case.
pub ascii_to_b32-b32_to_ascii :
    (xs : List ℕ)
    → All (λ x. x < 32) xs
    → (ascii_to_b32 (b32_to_ascii xs) ≡ xs)
      × (ascii_to_b32 (map to_lower (b32_to_ascii xs)) ≡ xs)
      × All IsNameChar (b32_to_ascii xs)
unfolding ascii_to_b32 b32_to_ascii
ascii_to_b32-b32_to_ascii [] h = (refl, refl, tt)
ascii_to_b32-b32_to_ascii (x ∷ xs) h =
    let c = b32_char x h.0 in
    let rest = ascii_to_b32-b32_to_ascii xs h.1 in
    (ap₂ ◌∷◌ c.0 rest.0, ap₂ ◌∷◌ c.1 rest.1, (c.2, rest.2))
