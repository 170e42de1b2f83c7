-- ===== src/NameIo/Path/Loop.antt =====
-- The loop of `recodePath`, turn by turn: what the encoder's loop writes, the decoder's loop reads back.
use encfs.Base.{
  ℕ, zero, suc, ◌+◌, ◌-◌, ◌<◌, Bool, true, false, List, [], ◌∷◌, ◌++◌, length, append-nil,
  append_assoc,
}
use encfs.Base.{
  Option, some, if◌then◌else◌, ◌==◌, ◌≡◌, ◌≢◌, refl, sym, ap, ◌∙◌, arith, All, Bool-cases, inl, inr,
  length-append,
}
use mathlib.Core.Path.{subst}
use mathlib.Core.Bool.{false≢true}
use encfs.Base64.Ascii.{IsNameChar}
use encfs.Cipher.Ssl.{◌>>=◌}
use encfs.NameIo.Path.Steps.{
  IsPathChar, IsPlainChar, before_slash-append, before_slash-from_slash, IsPathChar-parts,
  is_dots-replicate, is_dots-IsNameChar, IsNameChar-no_slash, next_step-name, next_step-slash,
}
use encfs.NameIo.Path.{
  NameCoder, NameIo, before_slash, from_slash, is_dots, Step, dots, named, next_step, is_empty,
  recode_name, take_step, recode_loop,
}

-- What the name coders keep: a name comes back, along with the vector of the chain, and its code has
-- characters that no path takes for anything else.
abbrev pub IsCodedName : NameIo → List ℕ → Option ℕ → Type 0
IsCodedName io name iv =
    (coded : List ℕ) × (iv' : Option ℕ) × (recode_name io.encoder name iv ≡ some (coded, iv'))
    × (recode_name io.decoder coded iv ≡ some (name, iv'))
    × (0 < length coded)
    × All IsNameChar coded

pub record IsNameIo (io : NameIo) : Type 0 where
  pub name_undone :
      (name : List ℕ) (iv : Option ℕ)
      → 0 < length name
      → All IsPlainChar name
      → IsCodedName io name iv

-- The path without the slashes at its start.
unfoldable pub strip_slashes : List ℕ → List ℕ
strip_slashes [] = []
strip_slashes (x ∷ path) = if x == b'/' then strip_slashes path else x ∷ path

-- What a loop with this output adds to it.
abbrev pub shown : List ℕ → List ℕ → List ℕ
shown output path = if is_empty output then strip_slashes path else path

-- One turn of the loop.
module _ (coder : NameCoder) (fuel : ℕ) (output : List ℕ) (iv : Option ℕ) where
  loop_end : recode_loop coder (suc fuel) [] output iv ≡ some (output, iv)
  unfolding next_step
  loop_end = refl

  loop-slash :
      (x : ℕ) (rest : List ℕ)
      → (x == b'/') ≡ true
      → recode_loop coder (suc fuel) (x ∷ rest) output iv
        ≡ recode_loop coder fuel rest (if is_empty output then output else output ++ (b'/' ∷ [])) iv
  loop-slash x rest e =
      ap (λ (s : Step). take_step coder (recode_loop coder fuel) s output iv)
        (next_step-slash x rest e)

  loop-dots :
      (name rest : List ℕ)
      → 0 < length name
      → All (λ x. x ≢ b'/') name
      → before_slash rest ≡ []
      → is_dots name ≡ true
      → recode_loop coder (suc fuel) (name ++ rest) output iv
        ≡ recode_loop coder fuel rest (output ++ name) iv
  loop-dots name rest pos h clean e =
      let step : next_step (name ++ rest) ≡ dots name rest =
        next_step-name name rest pos h clean ∙ rw e in
      ap (λ (s : Step). take_step coder (recode_loop coder fuel) s output iv) step
      ∙ ap (λ (t : List ℕ). recode_loop coder fuel rest (output ++ t) iv)
          (is_dots-replicate name pos e)

  loop-name :
      (name rest coded : List ℕ) (iv' : Option ℕ)
      → 0 < length name
      → All (λ x. x ≢ b'/') name
      → before_slash rest ≡ []
      → is_dots name ≡ false
      → recode_name coder name iv ≡ some (coded, iv')
      → recode_loop coder (suc fuel) (name ++ rest) output iv
        ≡ recode_loop coder fuel rest (output ++ coded) iv'
  loop-name name rest coded iv' pos h clean e r =
      let step : next_step (name ++ rest) ≡ named name rest =
        next_step-name name rest pos h clean ∙ rw e in
      ap (λ (s : Step). take_step coder (recode_loop coder fuel) s output iv) step
      ∙ ap
          (λ (t : Option (List ℕ × Option ℕ)).
            t >>= λ coded'. recode_loop coder fuel rest (output ++ coded'.0) coded'.1)
          r

before_slash_pos :
    (x : ℕ) (path : List ℕ) → (x == b'/') ≡ false → 0 < length (before_slash (x ∷ path))
before_slash_pos x path other = rw other (omega arith)

-- What encoding a path from a loop's state on promises: the code `q`, and that decoding it gives what
-- the loop shows of the path, from any output that is as empty as the encoder's.
abbrev pub Undone : NameIo → ℕ → List ℕ → List ℕ → Option ℕ → Type 0
Undone io fuel path output iv =
    (q : List ℕ) × (iv' : Option ℕ) × (recode_loop io.encoder fuel path output iv
      ≡ some (output ++ q, iv'))
    × (before_slash path ≡ [] → is_empty output ≡ false → before_slash q ≡ [])
    × ((more : ℕ) (output' : List ℕ)
        → is_empty output' ≡ is_empty output
        → recode_loop io.decoder (suc (length q + more)) q output' iv
          ≡ some (output' ++ shown output path, iv'))

is_empty-append : (xs ys : List ℕ) → 0 < length ys → is_empty (xs ++ ys) ≡ false
is_empty-append [] [] h = absurd (omega arith)
is_empty-append [] (y ∷ ys) h = refl
is_empty-append (x ∷ xs) ys h = refl

-- A name at the front is shown whole, whatever the output.
shown-name :
    (output name rest : List ℕ)
    → 0 < length name
    → All (λ x. x ≢ b'/') name
    → shown output (name ++ rest) ≡ name ++ rest
unfolding strip_slashes
shown-name [] [] rest pos h = absurd (omega arith)
shown-name [] (x ∷ name) rest pos h =
    let other : (x == b'/') ≡ false = ground (arith, h.0) in rw other refl
shown-name (y ∷ output) name rest pos h = refl

shown-nil : (output : List ℕ) → shown output [] ≡ []
unfolding strip_slashes
shown-nil [] = refl
shown-nil (y ∷ output) = refl

module _ (io : NameIo) (laws : IsNameIo io) where
  -- A turn that takes a name, coded or not.
  Undone-name :
      (fuel : ℕ) (name rest coded output : List ℕ) (iv iv1 : Option ℕ)
      → 0 < length name
      → 0 < length coded
      → All (λ x. x ≢ b'/') name
      → All (λ x. x ≢ b'/') coded
      → before_slash rest ≡ []
      → recode_loop io.encoder (suc fuel) (name ++ rest) output iv
        ≡ recode_loop io.encoder fuel rest (output ++ coded) iv1
      → ((fuel' : ℕ) (tail output' : List ℕ)
          → before_slash tail ≡ []
          → recode_loop io.decoder (suc fuel') (coded ++ tail) output' iv
            ≡ recode_loop io.decoder fuel' tail (output' ++ name) iv1)
      → Undone io fuel rest (output ++ coded) iv1
      → Undone io (suc fuel) (name ++ rest) output iv
  Undone-name fuel name rest coded output iv iv1 pos pos' plain plain' clean enc dec
        (q, iv', e, tail_clean, back) =
      let later : is_empty (output ++ coded) ≡ false = is_empty-append output coded pos' in
      (
        coded ++ q,
        iv',
        enc ∙ e ∙ ap (λ (t : List ℕ). some (t, iv')) (append_assoc output coded q),
        λ none_first _. absurd (
            omega
              (arith, ap length (sym none_first ∙ before_slash-append name rest plain clean), pos)),
        λ more output' same.
            let next : length (coded ++ q) + more ≡ suc (length q + (length coded - 1 + more)) =
              omega (arith, length-append coded q) in
            ap (λ (f : ℕ). recode_loop io.decoder (suc f) (coded ++ q) output' iv) next
            ∙ dec (suc (length q + (length coded - 1 + more))) q output' (tail_clean clean later)
            ∙ back (length coded - 1 + more) (output' ++ name)
                (is_empty-append output' name pos ∙ sym later)
            ∙ ap
                (λ (b : Bool).
                  some ((output' ++ name) ++ (if b then strip_slashes rest else rest), iv'))
                later
            ∙ ap (λ (t : List ℕ). some (t, iv'))
                (append_assoc output' name rest
                  ∙ ap (◌++◌ output') (sym (shown-name output name rest pos plain))),
      )

  -- A turn that takes a slash.
  Undone-slash :
      (fuel x : ℕ) (path output : List ℕ) (iv : Option ℕ)
      → (x == b'/') ≡ true
      → ((output2 : List ℕ) → Undone io fuel path output2 iv)
      → Undone io (suc fuel) (x ∷ path) output iv
  unfolding strip_slashes
  Undone-slash fuel x path output iv e rest =
      let turn = λ (b : Bool).
        recode_loop io.encoder fuel path (if b then output else output ++ (b'/' ∷ [])) iv in
      elim (Bool-cases (is_empty output)) [
        | inl start ↦
            let (q, iv', enc, _, back) = rest output in
            (
              q,
              iv',
              loop-slash io.encoder fuel output iv x path e ∙ ap turn start ∙ enc,
              λ _ later. absurd (false≢true (sym later ∙ start)),
              λ more output' same.
                  back more output' same
                  ∙ ap (λ (t : List ℕ). some (output' ++ t, iv')) (rw (start, e) refl),
            )
        | inr later ↦
            let (q, iv', enc, clean, back) = rest (output ++ (b'/' ∷ [])) in
            (
              b'/' ∷ q,
              iv',
              loop-slash io.encoder fuel output iv x path e
                  ∙ ap turn later
                  ∙ enc
                  ∙ ap (λ (t : List ℕ). some (t, iv')) (append_assoc output (b'/' ∷ []) q),
              λ _ _. refl,
              λ more output' same.
                  let next : length (b'/' ∷ q) + more ≡ suc (length q + more) = omega arith in
                  let x_is : x ≡ b'/' = ground arith in
                  let later' = is_empty-append output (b'/' ∷ []) (omega arith) in
                  ap (λ (f : ℕ). recode_loop io.decoder (suc f) (b'/' ∷ q) output' iv) next
                  ∙ loop-slash io.decoder (suc (length q + more)) output' iv b'/' q refl
                  ∙ ap
                      (λ (b : Bool).
                        recode_loop io.decoder (suc (length q + more)) q
                          (if b then output' else output' ++ (b'/' ∷ [])) iv)
                      (same ∙ later)
                  ∙ back more (output' ++ (b'/' ∷ []))
                      (is_empty-append output' (b'/' ∷ []) (omega arith) ∙ sym later')
                  ∙ ap
                      (λ (b : Bool).
                        some (
                          (output' ++ (b'/' ∷ [])) ++ (if b then strip_slashes path else path),
                          iv',
                        ))
                      later'
                  ∙ ap (λ (t : List ℕ). some (t, iv'))
                      (append_assoc output' (b'/' ∷ []) path
                        ∙ ap (λ (c : ℕ). output' ++ c ∷ path) (sym x_is)
                        ∙ ap
                            (λ (b : Bool).
                              output' ++ (if b then strip_slashes (x ∷ path) else x ∷ path))
                            (sym later)),
            )
      ]

  name_turn :
      (fuel : ℕ) (name rest output : List ℕ) (iv : Option ℕ)
      → 0 < length name
      → All IsPlainChar name
      → All (λ x. x ≢ b'/') name
      → before_slash rest ≡ []
      → ((output2 : List ℕ) (iv2 : Option ℕ) → Undone io fuel rest output2 iv2)
      → Undone io (suc fuel) (name ++ rest) output iv
  name_turn fuel name rest output iv pos chars plain clean later =
      elim (Bool-cases (is_dots name)) [
        | inl special ↦
            Undone-name fuel name rest name output iv iv pos pos plain plain clean
              (loop-dots io.encoder fuel output iv name rest pos plain clean special)
              (λ fuel' tail output' clean'.
                loop-dots io.decoder fuel' output' iv name tail pos plain clean' special)
              (later (output ++ name) iv)
        | inr ordinary ↦
            let (coded, iv1, enc, dec, pos', nice) = laws.name_undone name iv pos chars in
            let plain' = IsNameChar-no_slash coded nice in
            Undone-name fuel name rest coded output iv iv1 pos pos' plain plain' clean
              (loop-name io.encoder fuel output iv name rest coded iv1 pos plain clean ordinary enc)
              (λ fuel' tail output' clean'.
                loop-name io.decoder fuel' output' iv coded tail name iv1 pos' plain' clean'
                  (is_dots-IsNameChar coded pos' nice) dec)
              (later (output ++ coded) iv1)
      ]

  pub loop-Undone :
      (fuel : ℕ) (path output : List ℕ) (iv : Option ℕ)
      → length path < fuel
      → All IsPathChar path
      → Undone io fuel path output iv
  loop-Undone zero path output iv h chars = absurd (omega arith)
  loop-Undone (suc fuel) [] output iv h chars = (
    [],
    iv,
    loop_end io.encoder fuel output iv
        ∙ ap (λ (t : List ℕ). some (t, iv)) (sym (append-nil output)),
    λ _ _. refl,
    λ more output' same.
        loop_end io.decoder (0 + more) output' iv
        ∙ ap (λ (t : List ℕ). some (t, iv))
            (sym (ap (◌++◌ output') (shown-nil output) ∙ append-nil output')),
  )
  loop-Undone (suc fuel) (x ∷ path) output iv h chars = elim (Bool-cases (x == b'/')) [
    | inl found ↦
        Undone-slash fuel x path output iv found
          (λ output2. loop-Undone fuel path output2 iv (omega (arith, h)) chars.1)
    | inr other ↦
        let name = before_slash (x ∷ path) in
        let rest = from_slash (x ∷ path) in
        let (whole, clean, plain) = before_slash-from_slash (x ∷ path) in
        let (plain_chars, rest_chars) = IsPathChar-parts (x ∷ path) chars in
        let pos : 0 < length name = before_slash_pos x path other in
        let sizes = sym (length-append name rest) ∙ ap length whole in
        let later = λ (output2 : List ℕ) (iv2 : Option ℕ).
          loop-Undone fuel rest output2 iv2 (omega (arith, sizes, pos, h)) rest_chars in
        subst (λ (p : List ℕ). Undone io (suc fuel) p output iv) whole
          (name_turn fuel name rest output iv pos plain_chars plain clean later)
  ]
