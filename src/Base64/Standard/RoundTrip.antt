-- ===== src/Base64/Standard/RoundTrip.antt =====
-- `B64StandardDecode` undoes `B64StandardEncode`.
use encfs.Base.{ℕ, ◌+◌, ◌*◌, ◌/◌, ◌%◌, ◌^◌, ◌≤◌, ◌<◌, true, false, ◌&&◌}
use encfs.Base.{List, [], ◌∷◌, ◌++◌, All, bit_and, bit_or, ◌<<<◌, ◌>>>◌}
use encfs.Base.{◌≡◌, refl, ap, ap₂, ◌∙◌, arith, ltb, leb, ◌==◌, IsByte}
use encfs.Base.{Option, none, some, pow_pos, all_below, all_below-at}
use encfs.Base.Bits.{or_join_high, and_bit, and_shifted, and_mask}
use native.Mathlib.Nat.{mod-eq_of_lt, mul-div_cancel}
use encfs.Base64.Standard.{lookup_char, decode_char, next_buf, is_full, three_bytes}
use encfs.Base64.Standard.{
  prepend, decode_rest, decode_loop, b64_standard_decode, char_1, char_2, char_3, char_4,
  b64_standard_encode,
}

prepend-nil : (o : Option (List ℕ)) → prepend [] o ≡ o
prepend-nil none = refl
prepend-nil (some rest) = refl

lookup_table :
    all_below 64 (λ i. (decode_char (lookup_char i) == i) && leb (lookup_char i) b'z') ≡ true
unfolding all_below decode_char lookup_char
lookup_table = refl

lookup_char-decode :
    (i : ℕ) → i < 64 → (decode_char (lookup_char i) ≡ i) × (ltb b'z' (lookup_char i) ≡ false)
lookup_char-decode i h =
    let t =
      all_below-at 64 (λ i. (decode_char (lookup_char i) == i) && leb (lookup_char i) b'z') i
        lookup_table h in
    (ground arith, ground arith)

next_buf-add : (c buf : ℕ) → c < 64 → buf < 2 ^ 58 → next_buf c buf ≡ buf * 64 + c
unfolding next_buf
next_buf-add c buf hc hb =
    ap (λ (t : ℕ). bit_or t c) (mod-eq_of_lt {n = buf * 64} {m = 2 ^ 64} (omega arith))
    ∙ or_join_high 6 buf c hc

is_full-false : (buf : ℕ) → buf < 2 ^ 24 → is_full buf ≡ false
unfolding is_full
is_full-false buf h = ground (arith, and_bit 24 buf)

is_full-true : (buf : ℕ) → 2 ^ 24 ≤ buf → buf < 2 ^ 25 → is_full buf ≡ true
unfolding is_full
is_full-true buf h g = ground (arith, and_bit 24 buf)

-- A digit that does not fill the buffer.
decode_more :
    (i buf : ℕ) (rest : List ℕ)
    → i < 64
    → buf * 64 + i < 2 ^ 24
    → decode_loop (lookup_char i ∷ rest) buf ≡ decode_loop rest (buf * 64 + i)
unfolding decode_loop
decode_more i buf rest hi small =
    let (c, low) = lookup_char-decode i hi in
    ground (
      arith,
      c,
      low,
      ap (λ (k : ℕ). next_buf k buf) c,
      next_buf-add i buf hi (omega arith),
      is_full-false (buf * 64 + i) small,
      prepend-nil (decode_loop rest (buf * 64 + i)),
    )

-- The fourth digit of a group.
decode_full :
    (i buf : ℕ) (rest : List ℕ)
    → i < 64
    → 2 ^ 18 ≤ buf
    → buf < 2 ^ 19
    → decode_loop (lookup_char i ∷ rest) buf
      ≡ prepend (three_bytes (buf * 64 + i)) (decode_loop rest 1)
unfolding decode_loop
decode_full i buf rest hi above below =
    let (c, low) = lookup_char-decode i hi in
    ground (
      arith,
      c,
      low,
      ap (λ (k : ℕ). next_buf k buf) c,
      next_buf-add i buf hi (omega arith),
      is_full-true (buf * 64 + i) (omega arith) (omega arith),
    )

-- A pad character ends the input.
decode_pad : (buf : ℕ) (rest : List ℕ) → decode_loop (b'=' ∷ rest) buf ≡ some (decode_rest buf)
unfolding decode_loop decode_char
decode_pad buf rest = refl

-- The six bits from bit `k` on.
six_bits : (k a : ℕ) → bit_and a (63 * 2 ^ k) >>> k ≡ a / 2 ^ k % 64
six_bits k a =
    ap (λ (t : ℕ). t / 2 ^ k) (and_shifted k a 63)
    ∙ mul-div_cancel _ (pow_pos k)
    ∙ and_mask 6 (a / 2 ^ k)

chars_1_2 :
    (temp : ℕ) (rest : List ℕ)
    → temp < 2 ^ 24
    → decode_loop (char_1 temp ∷ char_2 temp ∷ rest) 1 ≡ decode_loop rest (2 ^ 12 + temp / 2 ^ 12)
chars_1_2 temp rest h =
    rw (six_bits 18 temp, six_bits 12 temp)
      (decode_more (temp / 2 ^ 18 % 64) 1 (lookup_char (temp / 2 ^ 12 % 64) ∷ rest) (omega arith)
          (omega arith)
        ∙ decode_more (temp / 2 ^ 12 % 64) (1 * 64 + temp / 2 ^ 18 % 64) rest (omega arith)
            (omega arith)
        ∙ ap (decode_loop rest) (omega arith))

chars_1_2_3 :
    (temp : ℕ) (rest : List ℕ)
    → temp < 2 ^ 24
    → decode_loop (char_1 temp ∷ char_2 temp ∷ char_3 temp ∷ rest) 1
      ≡ decode_loop rest (2 ^ 18 + temp / 2 ^ 6)
chars_1_2_3 temp rest h =
    chars_1_2 temp (char_3 temp ∷ rest) h
    ∙ ap (λ (c : ℕ). decode_loop (lookup_char c ∷ rest) (2 ^ 12 + temp / 2 ^ 12)) (six_bits 6 temp)
    ∙ decode_more (temp / 2 ^ 6 % 64) (2 ^ 12 + temp / 2 ^ 12) rest (omega arith) (omega arith)
    ∙ ap (decode_loop rest) (omega arith)

decode_group :
    (temp : ℕ) (rest : List ℕ)
    → temp < 2 ^ 24
    → decode_loop (char_1 temp ∷ char_2 temp ∷ char_3 temp ∷ char_4 temp ∷ rest) 1
      ≡ prepend (three_bytes (2 ^ 24 + temp)) (decode_loop rest 1)
decode_group temp rest h =
    chars_1_2_3 temp (char_4 temp ∷ rest) h
    ∙ ap (λ (c : ℕ). decode_loop (lookup_char c ∷ rest) (2 ^ 18 + temp / 2 ^ 6)) (and_mask 6 temp)
    ∙ decode_full (temp % 64) (2 ^ 18 + temp / 2 ^ 6) rest (omega arith) (omega arith) (omega arith)
    ∙ ap (λ (t : ℕ). prepend (three_bytes t) (decode_loop rest 1)) (omega arith)

-- What `decode_rest` writes after two and after three digits of a group.
decode_rest_one : (x : ℕ) → x < 256 → decode_rest (2 ^ 12 + x <<< 16 / 2 ^ 12) ≡ x ∷ []
unfolding decode_rest
decode_rest_one x h =
    ground (arith, and_bit 18 (2 ^ 12 + x <<< 16 / 2 ^ 12), and_bit 12 (2 ^ 12 + x <<< 16 / 2 ^ 12))

decode_rest_two :
    (x y : ℕ) → x < 256 → y < 256 → decode_rest (2 ^ 18 + (x <<< 16 + y <<< 8) / 2 ^ 6) ≡ x ∷ y ∷ []
unfolding decode_rest
decode_rest_two x y h g = ground (arith, and_bit 18 (2 ^ 18 + (x <<< 16 + y <<< 8) / 2 ^ 6))

three_bytes_lem :
    (x y z : ℕ)
    → x < 256
    → y < 256
    → z < 256
    → three_bytes (2 ^ 24 + (x <<< 16 + y <<< 8 + z)) ≡ x ∷ y ∷ z ∷ []
three_bytes_lem x y z h g k =
    ap₂ ◌∷◌ (omega arith) (ap₂ ◌∷◌ (omega arith) (ap (λ (t : ℕ). t ∷ []) (omega arith)))

-- `B64StandardDecode` accepts what `B64StandardEncode` makes of any bytes, and gives them back.
pub b64_standard_decode-encode :
    (xs : List ℕ) → All IsByte xs → b64_standard_decode (b64_standard_encode xs) ≡ some xs
unfolding b64_standard_decode b64_standard_encode
b64_standard_decode-encode [] h = unfold decode_loop decode_rest in refl
b64_standard_decode-encode (x ∷ []) h =
    chars_1_2 (x <<< 16) (b'=' ∷ b'=' ∷ []) (omega (arith, h.0))
    ∙ decode_pad (2 ^ 12 + x <<< 16 / 2 ^ 12) (b'=' ∷ [])
    ∙ ap some (decode_rest_one x h.0)
b64_standard_decode-encode (x ∷ y ∷ []) h =
    chars_1_2_3 (x <<< 16 + y <<< 8) (b'=' ∷ []) (omega (arith, h.0, h.1.0))
    ∙ decode_pad (2 ^ 18 + (x <<< 16 + y <<< 8) / 2 ^ 6) []
    ∙ ap some (decode_rest_two x y h.0 h.1.0)
b64_standard_decode-encode (x ∷ y ∷ z ∷ rest) h =
    let temp = x <<< 16 + y <<< 8 + z in
    let ih = b64_standard_decode-encode rest h.1.1.1 in
    decode_group temp (b64_standard_encode rest) (omega (arith, h.0, h.1.0, h.1.1.0))
    ∙ ap (prepend (three_bytes (2 ^ 24 + temp))) ih
    ∙ ap (λ (b : List ℕ). some (b ++ rest)) (three_bytes_lem x y z h.0 h.1.0 h.1.1.0)
