-- ===== src/NameIo/Path/Steps.antt =====
-- What one turn of the loop of `recodePath` meets.
use encfs.Base.{ℕ, ◌<◌, Bool, true, false, List, [], ◌∷◌, ◌++◌, length, replicate}
use encfs.Base.{if◌then◌else◌, ◌==◌, ◌≡◌, ◌≢◌, refl, sym, ap, ap₂, arith, All, Bool-cases, inl, inr}
use mathlib.Core.Path.{subst}
use mathlib.Core.Bool.{false≢true}
use encfs.Base64.Ascii.{IsNameChar}
use encfs.NameIo.Path.{before_slash, from_slash, is_dots, slash, dots, named, next_step, is_empty}

-- A character of a path on the plain side: a byte, and no NUL.
abbrev pub IsPathChar : ℕ → Type 0
IsPathChar x = (0 < x) × (x < 256)

-- A character of a name on the plain side.
abbrev pub IsPlainChar : ℕ → Type 0
IsPlainChar x = (0 < x) × (x < 256) × (x ≢ b'/')

-- A name before a slash or the end is found whole.
pub before_slash-append :
    (name rest : List ℕ)
    → All (λ x. x ≢ b'/') name
    → before_slash rest ≡ []
    → before_slash (name ++ rest) ≡ name
before_slash-append [] rest h e = e
before_slash-append (x ∷ name) rest h e =
    let other : (x == b'/') ≡ false = ground (arith, h.0) in
    rw other (ap (◌∷◌ x) (before_slash-append name rest h.1 e))

pub from_slash-append :
    (name rest : List ℕ)
    → All (λ x. x ≢ b'/') name
    → before_slash rest ≡ []
    → from_slash (name ++ rest) ≡ rest
from_slash-append [] [] h e = refl
from_slash-append [] (x ∷ rest) h e = elim (Bool-cases (x == b'/')) [
  | inl found ↦ rw found refl
  | inr other ↦
      let bad : (if false then [] else x ∷ before_slash rest) ≡ [] =
        subst (λ (b : Bool). (if b then [] else x ∷ before_slash rest) ≡ []) other e in
      absurd (false≢true (ap is_empty bad))
]
from_slash-append (x ∷ name) rest h e =
    let other : (x == b'/') ≡ false = ground (arith, h.0) in
    rw other (from_slash-append name rest h.1 e)

pub before_slash-from_slash :
    (path : List ℕ)
    → (before_slash path ++ from_slash path ≡ path)
      × (before_slash (from_slash path) ≡ [])
      × All (λ x. x ≢ b'/') (before_slash path)
before_slash-from_slash [] = (refl, refl, tt)
before_slash-from_slash (x ∷ path) =
    let (whole, clean, plain) = before_slash-from_slash path in
    elim (Bool-cases (x == b'/')) [
      | inl found ↦ rw found (refl, rw found refl, tt)
      | inr other ↦ rw other (ap (◌∷◌ x) whole, clean, (ground arith, plain))
    ]

-- Whole names of dots are the dots that the code appends.
pub is_dots-replicate :
    (name : List ℕ) → 0 < length name → is_dots name ≡ true → replicate (length name) b'.' ≡ name
is_dots-replicate [] pos h = refl
is_dots-replicate (x ∷ []) pos h = let e : x ≡ b'.' = ground arith in ap (λ (t : ℕ). t ∷ []) (sym e)
is_dots-replicate (x ∷ y ∷ []) pos h =
    let e : x ≡ b'.' = ground arith in
    let e' : y ≡ b'.' = ground arith in ap₂ (λ (t u : ℕ). t ∷ u ∷ []) (sym e) (sym e')
is_dots-replicate (x ∷ y ∷ z ∷ name) pos h = absurd (ground arith)

pub is_dots-IsNameChar :
    (name : List ℕ) → 0 < length name → All IsNameChar name → is_dots name ≡ false
is_dots-IsNameChar [] pos h = absurd (omega arith)
is_dots-IsNameChar (x ∷ name) pos h =
    let other : (x == b'.') ≡ false = ground (arith, h.0.2) in rw other refl

pub IsNameChar-no_slash : (name : List ℕ) → All IsNameChar name → All (λ x. x ≢ b'/') name
IsNameChar-no_slash [] h = tt
IsNameChar-no_slash (x ∷ name) h = (h.0.1, IsNameChar-no_slash name h.1)

-- What the loop meets at the start of a name that a slash or the end follows.
pub next_step-name :
    (name rest : List ℕ)
    → 0 < length name
    → All (λ x. x ≢ b'/') name
    → before_slash rest ≡ []
    → next_step (name ++ rest) ≡ (if is_dots name then dots name rest else named name rest)
unfolding next_step
next_step-name [] rest pos h e = absurd (omega arith)
next_step-name (x ∷ name) rest pos h e =
    let other : (x == b'/') ≡ false = ground (arith, h.0) in
    rw (other, before_slash-append name rest h.1 e, from_slash-append name rest h.1 e) refl

pub next_step-slash :
    (x : ℕ) (rest : List ℕ) → (x == b'/') ≡ true → next_step (x ∷ rest) ≡ slash rest
unfolding next_step
next_step-slash x rest e = rw e

-- The characters of a path, before and from the first slash.
pub IsPathChar-parts :
    (path : List ℕ)
    → All IsPathChar path
    → All IsPlainChar (before_slash path) × All IsPathChar (from_slash path)
IsPathChar-parts [] h = (tt, tt)
IsPathChar-parts (x ∷ path) h =
    let (plain, rest) = IsPathChar-parts path h.1 in
    elim (Bool-cases (x == b'/')) [
      | inl found ↦ rw found (tt, h)
      | inr other ↦ rw other (((h.0.0, h.0.1, ground arith), plain), rest)
    ]
