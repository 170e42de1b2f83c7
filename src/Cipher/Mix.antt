-- ===== src/Cipher/Mix.antt =====
-- The passes of encfs/SSL_Cipher.cpp that spread each byte of a partial block over the whole:
-- `shuffleBytes`, `unshuffleBytes` and `flipBytes`, in place on the first `size` bytes of a buffer.
-- The list is these bytes.
use encfs.Base.{ℕ, zero, suc, ◌+◌, ◌-◌, ◌≤◌, ◌<◌, bit_xor, min}
use encfs.Base.{List, [], ◌∷◌, ◌++◌, length, get_or, set, take, drop, reverse, All, IsByte}
use encfs.Base.{false, ◌≡◌, refl, ap, ap₂, ◌∙◌, arith, ◌==◌, if◌then◌else◌, inl, inr, ◌⊎◌}
use encfs.Base.{All-set, All-get_or, All-append, All-reverse, All-take, All-drop}
use encfs.Base.{
  length-set, length-append, length-take, length-drop, length-reverse, take_all, drop_all,
}
use encfs.Base.{take-append_left, drop-append_left, take-append-drop, append-nil}
use encfs.Base.Bits.{xor_cancel, xor-lt}
use mathlib.Core.List.{reverse-reverse}

-- `buf[i + 1] ^= buf[i]`
abbrev pub mix_byte : ℕ → List ℕ → List ℕ
mix_byte i buf = set buf (suc i) (bit_xor (get_or buf (suc i) 0) (get_or buf i 0))

-- `for (i = from; i < size - 1; ++i)`, with `left` rounds to go.
pub shuffle_loop : ℕ → ℕ → List ℕ → List ℕ
shuffle_loop zero i buf = buf
shuffle_loop (suc left) i buf = shuffle_loop left (suc i) (mix_byte i buf)

pub shuffle_bytes : List ℕ → List ℕ
unfolding shuffle_loop
shuffle_bytes buf = shuffle_loop (length buf - 1) 0 buf

-- `for (i = size - 1; i != 0; --i) buf[i] ^= buf[i - 1]`
pub unshuffle_loop : ℕ → List ℕ → List ℕ
unshuffle_loop zero buf = buf
unshuffle_loop (suc i) buf = unshuffle_loop i (mix_byte i buf)

-- `unshuffleBytes` of at least one byte; with the size 0 the source's loop leaves its buffer.
pub unshuffle_bytes : List ℕ → List ℕ
unfolding unshuffle_loop
unshuffle_bytes buf = unshuffle_loop (length buf - 1) buf

-- `while (bytesLeft != 0)`: runs of 64 bytes are reversed, each in its place. A round takes a byte
-- at least, so `bytesLeft` rounds are enough.
pub flip_loop : ℕ → List ℕ → List ℕ
flip_loop zero buf = buf
flip_loop (suc fuel) buf =
    let rest = flip_loop fuel (drop 64 buf) in
    if length buf == 0 then [] else reverse (take 64 buf) ++ rest

pub flip_bytes : List ℕ → List ℕ
unfolding flip_loop
flip_bytes buf = flip_loop (length buf) buf

-- Mixing a byte in twice takes it out.
mix_byte_twice : (i : ℕ) (buf : List ℕ) → mix_byte i (mix_byte i buf) ≡ buf
mix_byte_twice i [] = refl
mix_byte_twice zero (x ∷ []) = refl
mix_byte_twice zero (x ∷ y ∷ buf) = ap (λ (z : ℕ). x ∷ z ∷ buf) (xor_cancel y x)
mix_byte_twice (suc i) (x ∷ buf) = ap (◌∷◌ x) (mix_byte_twice i buf)

-- The last round of `shuffle_loop`.
shuffle_loop-last :
    (left i k : ℕ) (buf : List ℕ)
    → k ≡ left + i
    → shuffle_loop (suc left) i buf ≡ mix_byte k (shuffle_loop left i buf)
unfolding shuffle_loop
shuffle_loop-last zero i k buf e = ap (λ (t : ℕ). mix_byte t buf) (omega arith)
shuffle_loop-last (suc left) i k buf e =
    shuffle_loop-last left (suc i) k (mix_byte i buf) (omega arith)

unshuffle-shuffle_loop : (n : ℕ) (buf : List ℕ) → unshuffle_loop n (shuffle_loop n 0 buf) ≡ buf
unfolding unshuffle_loop
unshuffle-shuffle_loop zero buf = unfold shuffle_loop in refl
unshuffle-shuffle_loop (suc n) buf =
    ap (λ (b : List ℕ). unshuffle_loop n (mix_byte n b)) (shuffle_loop-last n 0 n buf (omega arith))
    ∙ ap (unshuffle_loop n) (mix_byte_twice n (shuffle_loop n 0 buf))
    ∙ unshuffle-shuffle_loop n buf

pub length-shuffle_loop :
    (left i : ℕ) (buf : List ℕ) → length (shuffle_loop left i buf) ≡ length buf
unfolding shuffle_loop
length-shuffle_loop zero i buf = refl
length-shuffle_loop (suc left) i buf =
    length-shuffle_loop left (suc i) (mix_byte i buf) ∙ length-set buf (suc i) _

pub length-shuffle_bytes : (buf : List ℕ) → length (shuffle_bytes buf) ≡ length buf
unfolding shuffle_bytes
length-shuffle_bytes buf = length-shuffle_loop (length buf - 1) 0 buf

-- `unshuffleBytes` undoes `shuffleBytes` on at least one byte, whatever the bytes are.
pub unshuffle_bytes-shuffle_bytes :
    (buf : List ℕ) → 0 < length buf → unshuffle_bytes (shuffle_bytes buf) ≡ buf
unfolding unshuffle_bytes shuffle_bytes
unshuffle_bytes-shuffle_bytes buf some_data =
    ap (λ (n : ℕ). unshuffle_loop (n - 1) (shuffle_bytes buf)) (length-shuffle_bytes buf)
    ∙ unshuffle-shuffle_loop (length buf - 1) buf

flip_loop-nil : (n : ℕ) → flip_loop n [] ≡ []
unfolding flip_loop
flip_loop-nil zero = refl
flip_loop-nil (suc n) = refl

flip_loop-step :
    (n : ℕ) (buf : List ℕ)
    → 0 < length buf
    → flip_loop (suc n) buf ≡ reverse (take 64 buf) ++ flip_loop n (drop 64 buf)
unfolding flip_loop
flip_loop-step n [] h = elim h [ ]
flip_loop-step n (x ∷ buf) h = let e : (suc (length buf) == 0) ≡ false = ground arith in rw e

pub length-flip_loop :
    (n : ℕ) (buf : List ℕ) → length buf ≤ n → length (flip_loop n buf) ≡ length buf
length-flip_loop n [] h = ap length (flip_loop-nil n)
length-flip_loop zero (x ∷ buf) h = absurd (omega arith)
length-flip_loop (suc n) (x ∷ buf) h =
    let b : List ℕ = x ∷ buf in
    ap length (flip_loop-step n b (omega arith))
    ∙ length-append (reverse (take 64 b)) (flip_loop n (drop 64 b))
    ∙ omega (
      arith,
      length-reverse (take 64 b),
      length-take 64 b,
      length-drop 64 b,
      length-flip_loop n (drop 64 b) (omega (arith, length-drop 64 b)),
    )

-- A run that is not the last is whole, so the second pass cuts the buffer where the first did.
flip_run :
    (n : ℕ) (run rest : List ℕ)
    → 0 < length run
    → length run ≤ 64
    → (length rest ≡ 0) ⊎ (length run ≡ 64)
    → flip_loop (suc n) (run ++ rest) ≡ reverse run ++ flip_loop n rest
flip_run n run rest pos le (inr whole) =
    flip_loop-step n (run ++ rest) (omega (arith, length-append run rest))
    ∙ ap₂ (λ (a b : List ℕ). reverse a ++ flip_loop n b) (take-append_left 64 run rest whole)
        (drop-append_left 64 run rest whole)
flip_run n run [] pos le (inl empty) =
    ap (flip_loop (suc n)) (append-nil run)
    ∙ flip_loop-step n run pos
    ∙ ap₂ (λ (a b : List ℕ). reverse a ++ flip_loop n b) (take_all 64 run le) (drop_all 64 run le)
flip_run n run (x ∷ rest) pos le (inl empty) = absurd (omega arith)

flip_loop-flip_loop : (n : ℕ) (buf : List ℕ) → length buf ≤ n → flip_loop n (flip_loop n buf) ≡ buf
flip_loop-flip_loop n [] h = ap (flip_loop n) (flip_loop-nil n) ∙ flip_loop-nil n
flip_loop-flip_loop zero (x ∷ buf) h = absurd (omega arith)
flip_loop-flip_loop (suc n) (x ∷ buf) h =
    let b : List ℕ = x ∷ buf in
    let run = reverse (take 64 b) in
    let rest = flip_loop n (drop 64 b) in
    let short : length (drop 64 b) ≤ n = omega (arith, length-drop 64 b) in
    let size : length run ≡ min 64 (length b) = length-reverse (take 64 b) ∙ length-take 64 b in
    let left = length-flip_loop n (drop 64 b) short ∙ length-drop 64 b in
    ap (flip_loop (suc n)) (flip_loop-step n b (omega arith))
    ∙ flip_run n run rest (omega (arith, size)) (omega (arith, size)) (omega (arith, size, left))
    ∙ ap₂ ◌++◌ (reverse-reverse (take 64 b)) (flip_loop-flip_loop n (drop 64 b) short)
    ∙ take-append-drop 64 b

pub length-flip_bytes : (buf : List ℕ) → length (flip_bytes buf) ≡ length buf
unfolding flip_bytes
length-flip_bytes buf = length-flip_loop (length buf) buf (omega arith)

-- `flipBytes` undoes itself.
pub flip_bytes-flip_bytes : (buf : List ℕ) → flip_bytes (flip_bytes buf) ≡ buf
unfolding flip_bytes
flip_bytes-flip_bytes buf =
    ap (λ (n : ℕ). flip_loop n (flip_bytes buf)) (length-flip_bytes buf)
    ∙ flip_loop-flip_loop (length buf) buf (omega arith)

-- The passes turn bytes into bytes.
mix_byte-IsByte : (i : ℕ) (buf : List ℕ) → All IsByte buf → All IsByte (mix_byte i buf)
mix_byte-IsByte i buf h = All-set IsByte buf (suc i) _ h (
    xor-lt 8 _ _ (All-get_or IsByte buf (suc i) 0 h (omega arith))
      (All-get_or IsByte buf i 0 h (omega arith)))

shuffle_loop-IsByte :
    (left i : ℕ) (buf : List ℕ) → All IsByte buf → All IsByte (shuffle_loop left i buf)
unfolding shuffle_loop
shuffle_loop-IsByte zero i buf h = h
shuffle_loop-IsByte (suc left) i buf h =
    shuffle_loop-IsByte left (suc i) (mix_byte i buf) (mix_byte-IsByte i buf h)

pub shuffle_bytes-IsByte : (buf : List ℕ) → All IsByte buf → All IsByte (shuffle_bytes buf)
unfolding shuffle_bytes
shuffle_bytes-IsByte buf h = shuffle_loop-IsByte (length buf - 1) 0 buf h

flip_loop-IsByte : (n : ℕ) (buf : List ℕ) → All IsByte buf → All IsByte (flip_loop n buf)
flip_loop-IsByte n [] h = rw (flip_loop-nil n) tt
flip_loop-IsByte zero (x ∷ buf) h = unfold flip_loop in h
flip_loop-IsByte (suc n) (x ∷ buf) h =
    let b : List ℕ = x ∷ buf in
    rw (flip_loop-step n b (omega arith)) (
      All-append IsByte (reverse (take 64 b)) _
        (All-reverse IsByte (take 64 b) (All-take IsByte 64 b h))
        (flip_loop-IsByte n (drop 64 b) (All-drop IsByte 64 b h)))

pub flip_bytes-IsByte : (buf : List ℕ) → All IsByte buf → All IsByte (flip_bytes buf)
unfolding flip_bytes
flip_bytes-IsByte buf h = flip_loop-IsByte (length buf) buf h
