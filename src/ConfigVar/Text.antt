-- ===== src/ConfigVar/Text.antt =====
-- Numbers and strings in a buffer: what was written at its end is read at its place.
use encfs.Base.{
  ℕ, ◌+◌, ◌-◌, ◌/◌, ◌%◌, ◌^◌, ◌<◌, min, Bool, true, false, List, [], ◌∷◌, ◌++◌, length, take, drop,
  drop-append_left, take-append_left, length-append, append_assoc, Option, some, if◌then◌else◌, ltb,
  ◌==◌, ◌≡◌, refl, sym, ap, ap₂, ◌∙◌, arith, ==_iff,
}
use mathlib.Core.Path.{subst}
use encfs.Cipher.Ssl.{r_assert, ◌>>=◌, ◌>>◌}
use encfs.ConfigVar.{
  ConfigVar, digits, skip_zeros, read_digits, read, write, write_int, read_int, write_string,
  read_string,
}
use encfs.ConfigVar.Int.{digits_lem, digits-Reads}

-- The bytes of a number.
abbrev pub code : ℕ → List ℕ
code n = skip_zeros (digits n)

skip_zeros_pos : (ds : List ℕ) (r : ℕ) → r < 128 → 0 < length (skip_zeros (ds ++ r ∷ []))
skip_zeros_pos [] r h = by_test (r == 0x80) refl
  where
    by_test : (b : Bool) → (r == 0x80) ≡ b → 0 < length (if b then [] else r ∷ [])
    by_test true e = absurd (omega (arith, (==_iff r 0x80).0 e, h))
    by_test false e = omega arith
skip_zeros_pos (d ∷ ds) r h = by_test (d == 0x80) (skip_zeros_pos ds r h)
  where
    by_test :
        (b : Bool)
        → 0 < length (skip_zeros (ds ++ r ∷ []))
        → 0 < length (if b then skip_zeros (ds ++ r ∷ []) else d ∷ (ds ++ r ∷ []))
    by_test true k = k
    by_test false k = omega arith

code_pos : (n : ℕ) → 0 < length (code n)
code_pos n =
    subst (λ (ds : List ℕ). 0 < length (skip_zeros ds)) (sym (digits_lem n))
      (skip_zeros_pos
        ((128 + n / 2 ^ 28 % 16)
          ∷ (128 + n / 2 ^ 21 % 128)
          ∷ (128 + n / 2 ^ 14 % 128)
          ∷ (128 + n / 2 ^ 7 % 128)
          ∷ [])
        (n % 128) (omega arith))

-- A buffer with the place that is read next.
abbrev pub at_place : List ℕ → List ℕ → ConfigVar
at_place front rest = record { buffer = front ++ rest; offset = length front }

-- A buffer with its end as the place.
abbrev pub at_end : List ℕ → ConfigVar
at_end buf = record { buffer = buf; offset = length buf }

pub write-at_end : (buf data' : List ℕ) → write (at_end buf) data' ≡ at_end (buf ++ data')
unfolding write
write-at_end buf data' =
    ap
      (λ (b : Bool).
        if b
        then (let v : ConfigVar = record {
          buffer = buf ++ data';
          offset = length buf + length data';
        } in
            v)
        else record {
          buffer = take (length buf) buf ++ (data' ++ drop (length buf) buf);
          offset = length buf + length data';
        })
      ((==_iff (length buf) (length buf)).1 refl)
    ∙ ap (λ (n : ℕ). let v : ConfigVar = record { buffer = buf ++ data'; offset = n } in v)
        (sym (length-append buf data'))

pub write_int-at_end : (buf : List ℕ) (n : ℕ) → write_int (at_end buf) n ≡ at_end (buf ++ code n)
unfolding write_int
write_int-at_end buf n = write-at_end buf (code n)

-- `front` and what was read of the rest.
moved :
    (front x rest : List ℕ) (n : ℕ)
    → n ≡ length x
    → (let v : ConfigVar = record { buffer = front ++ (x ++ rest); offset = length front + n } in v)
      ≡ at_place (front ++ x) rest
moved front x rest n e =
    ap₂ (λ (b : List ℕ) (o : ℕ). let v : ConfigVar = record { buffer = b; offset = o } in v)
      (sym (append_assoc front x rest))
      (ap (λ (k : ℕ). length front + k) e ∙ sym (length-append front x))

pub read_int_lem :
    (front rest : List ℕ) (n : ℕ)
    → n < 0x80000000
    → read_int (at_place front (code n ++ rest)) ≡ some (at_place (front ++ code n) rest, n)
unfolding read_int
read_int_lem front rest n small =
    let buf = front ++ (code n ++ rest) in
    let got : read_digits 0 0 (drop (length front) buf) ≡ (n, length (code n)) =
      ap (read_digits 0 0) (drop-append_left (length front) front (code n ++ rest) refl)
      ∙ digits-Reads n rest small in
    let inside : ltb (length front) (length buf) ≡ true =
      ground
        (arith, length-append front (code n ++ rest), length-append (code n) rest, code_pos n) in
    let positive : ltb n 0x80000000 ≡ true = ground arith in
    ap
      (λ (p : ℕ × ℕ).
        r_assert (ltb (length front) (length buf))
        >> (r_assert (ltb p.0 0x80000000)
            >> some (
                let q : ConfigVar × ℕ =
                  (record { buffer = buf; offset = length front + p.1 }, p.0) in
                q)))
      got
    ∙ ap₂
        (λ (a b : Bool).
          r_assert a
          >> (r_assert b
              >> some (
                  let q : ConfigVar × ℕ =
                    (record { buffer = buf; offset = length front + length (code n) }, n) in
                  q)))
        inside positive
    ∙ ap (λ (v : ConfigVar). some (let q : ConfigVar × ℕ = (v, n) in q))
        (moved front (code n) rest (length (code n)) refl)

-- The size and the bytes of a string.
abbrev pub text_code : List ℕ → List ℕ → List ℕ
text_code str rest = code (length str) ++ (str ++ rest)

read_lem :
    (front rest str : List ℕ)
    → read (at_place front (str ++ rest)) (length str) ≡ (at_place (front ++ str) rest, str)
unfolding read
read_lem front rest str =
    let buf = front ++ (str ++ rest) in
    let all : min (length str) (length buf - length front) ≡ length str =
      omega (arith, length-append front (str ++ rest), length-append str rest) in
    let got : take (length str) (drop (length front) buf) ≡ str =
      ap (take (length str)) (drop-append_left (length front) front (str ++ rest) refl)
      ∙ take-append_left (length str) str rest refl in
    ap
      (λ (n : ℕ).
        let p : ConfigVar × List ℕ =
          (record { buffer = buf; offset = length front + n }, take n (drop (length front) buf)) in
        p)
      all
    ∙ ap₂ (λ (v : ConfigVar) (t : List ℕ). let p : ConfigVar × List ℕ = (v, t) in p)
        (moved front str rest (length str) refl) got

pub read_string_lem :
    (front rest str : List ℕ)
    → length str < 0x80000000
    → read_string (at_place front (text_code str rest))
      ≡ some (at_place ((front ++ code (length str)) ++ str) rest, str)
unfolding read_string
read_string_lem front rest str small =
    ap
      (λ (o : Option (ConfigVar × ℕ)). o >>= λ p.
        r_assert (length (read p.0 p.1).1 == p.1)
        >> some (let q : ConfigVar × List ℕ = ((read p.0 p.1).0, (read p.0 p.1).1) in q))
      (read_int_lem front (str ++ rest) (length str) small)
    ∙ ap
        (λ (p : ConfigVar × List ℕ).
          r_assert (length p.1 == length str)
          >> some (let q : ConfigVar × List ℕ = (p.0, p.1) in q))
        (read_lem (front ++ code (length str)) rest str)
    ∙ ap
        (λ (b : Bool).
          r_assert b
          >> some (
              let q : ConfigVar × List ℕ =
                (at_place ((front ++ code (length str)) ++ str) rest, str) in
              q))
        ((==_iff (length str) (length str)).1 refl)

-- What `writeInt` and `operator<<` write at the end of a buffer, `readInt` and `operator>>` read at that
-- place, in the same order and whatever follows: a number below 2^31, and a string of fewer bytes than
-- that. Both leave the place behind what was read.
pub read-write_var :
    (buf rest str : List ℕ) (n : ℕ)
    → n < 0x80000000
    → length str < 0x80000000
    → (bytes : List ℕ) × (write_string (write_int (at_end buf) n) str ≡ at_end (buf ++ bytes))
      × (v : ConfigVar) × (read_int (at_place buf (bytes ++ rest)) ≡ some (v, n))
      × (read_string v ≡ some (at_place (buf ++ bytes) rest, str))
unfolding write_string
read-write_var buf rest str n small short =
    let bytes = code n ++ (code (length str) ++ str) in
    (
      bytes,
      ap (λ (v : ConfigVar). write (write_int v (length str)) str) (write_int-at_end buf n)
          ∙ ap (λ (v : ConfigVar). write v str) (write_int-at_end (buf ++ code n) (length str))
          ∙ write-at_end ((buf ++ code n) ++ code (length str)) str
          ∙ ap at_end (
              append_assoc (buf ++ code n) (code (length str)) str
              ∙ append_assoc buf (code n) (code (length str) ++ str)),
      at_place (buf ++ code n) ((code (length str) ++ str) ++ rest),
      ap (λ (t : List ℕ). read_int (at_place buf t))
            (append_assoc (code n) (code (length str) ++ str) rest)
          ∙ read_int_lem buf ((code (length str) ++ str) ++ rest) n small,
      ap (λ (t : List ℕ). read_string (at_place (buf ++ code n) t))
            (append_assoc (code (length str)) str rest)
          ∙ read_string_lem (buf ++ code n) rest str short
          ∙ ap (λ (t : List ℕ). some (let q : ConfigVar × List ℕ = (at_place t rest, str) in q))
              (append_assoc (buf ++ code n) (code (length str)) str
                ∙ append_assoc buf (code n) (code (length str) ++ str)),
    )
