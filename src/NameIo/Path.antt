-- ===== src/NameIo/Path.antt =====
-- encfs/NameIO.cpp: whole paths, coded name by name over any of the name coders. A path is its
-- characters without the final NUL; `none` is an `Error`.
pub mod Steps
pub mod Loop
pub mod RoundTrip
pub mod Coders
use encfs.Base.{
  ℕ, zero, suc, ◌+◌, ◌-◌, ◌≤◌, ◌<◌, max, Bool, true, false, ◌&&◌, List, [], ◌∷◌, ◌++◌, length,
  replicate, get_or,
}
use encfs.Base.{Option, none, some, if◌then◌else◌, ltb, leb, ◌==◌}
use encfs.Cipher.Ssl.{r_assert, ◌>>=◌, ◌>>◌}

-- A pair of virtual functions of `NameIO`: the length bound and the coding of one name into a buffer.
pub record NameCoder : Type 0 where
  pub max_len : ℕ → ℕ
  pub code : List ℕ → Option ℕ → ℕ → Option (List ℕ × Option ℕ)

pub record NameIo : Type 0 where
  pub encoder : NameCoder
  pub decoder : NameCoder
  pub chained_name_iv : Bool
  pub reverse_encryption : Bool

-- `strchr(path, '/')`: what stands before the first slash, and what from there on.
abbrev pub before_slash : List ℕ → List ℕ
before_slash [] = []
before_slash (x ∷ path) = if x == b'/' then [] else x ∷ before_slash path

abbrev pub from_slash : List ℕ → List ℕ
from_slash [] = []
from_slash (x ∷ path) = if x == b'/' then x ∷ path else from_slash path

-- `.` and `..` are left as they are.
abbrev pub is_dots : List ℕ → Bool
is_dots name =
    (get_or name 0 0 == b'.') && (get_or name (length name - 1) 0 == b'.') && leb (length name) 2

-- What the loop of `recodePath` meets next.
pub data Step : Type 0 where
  end : Step
  slash : List ℕ → Step
  dots : List ℕ → List ℕ → Step
  named : List ℕ → List ℕ → Step

unfoldable pub next_step : List ℕ → Step
next_step [] = end
next_step (x ∷ path) =
    if x == b'/'
    then slash path
    else if is_dots (before_slash (x ∷ path))
    then dots (before_slash (x ∷ path)) (from_slash (x ∷ path))
    else named (before_slash (x ∷ path)) (from_slash (x ∷ path))

-- Appending a character buffer stops at its NUL.
abbrev pub until_nul : List ℕ → List ℕ
until_nul [] = []
until_nul (x ∷ buf) = if x == 0 then [] else x ∷ until_nul buf

abbrev pub is_empty : List ℕ → Bool
is_empty [] = true
is_empty (x ∷ output) = false

-- One name in a buffer of 32 bytes or of the size that `_length` asks for. The check that a NUL follows the
-- code in the buffer is left out: both coders write one there.
pub recode_name : NameCoder → List ℕ → Option ℕ → Option (List ℕ × Option ℕ)
recode_name coder name iv = do
  let approx_len = coder.max_len (length name)
  r_assert (ltb 0 approx_len)
  (coded, iv') ← coder.code name iv (max 32 (approx_len + 1))
  r_assert (leb (length coded) approx_len)
  some (until_nul coded, iv')

-- The body of the loop of `recodePath`; `loop` goes on with the rest of the path.
abbrev pub take_step :
    NameCoder
    → (List ℕ → List ℕ → Option ℕ → Option (List ℕ × Option ℕ))
    → Step
    → List ℕ
    → Option ℕ
    → Option (List ℕ × Option ℕ)
take_step coder loop end output iv = some (output, iv)
take_step coder loop (slash rest) output iv =
    loop rest (if is_empty output then output else output ++ (b'/' ∷ [])) iv
take_step coder loop (dots name rest) output iv =
    loop rest (output ++ replicate (length name) b'.') iv
take_step coder loop (named name rest) output iv =
    recode_name coder name iv >>= λ coded. loop rest (output ++ coded.0) coded.1

-- Each turn consumes a character at least, so that fuel above the length of the path is enough.
abbrev pub recode_loop : NameCoder → ℕ → List ℕ → List ℕ → Option ℕ → Option (List ℕ × Option ℕ)
recode_loop coder zero path output iv = none
recode_loop coder (suc fuel) path output iv =
    take_step coder (recode_loop coder fuel) (next_step path) output iv

pub recode_path : NameCoder → List ℕ → Option ℕ → Option (List ℕ × Option ℕ)
recode_path coder path iv = recode_loop coder (suc (length path)) path [] iv

module _ (io : NameIo) where
  -- Without chaining the pointer is not passed on, and the caller's vector stays.
  abbrev pub with_chain : NameCoder → List ℕ → ℕ → Option (List ℕ × Option ℕ)
  with_chain coder path iv =
      if io.chained_name_iv
      then recode_path coder path (some iv)
      else (recode_path coder path none >>= λ r. some (r.0, some iv))

  -- `encodePath` and `decodePath`: the two change places in reverse mode.
  pub encode_path : List ℕ → ℕ → Option (List ℕ × Option ℕ)
  encode_path path iv =
      if io.reverse_encryption then with_chain io.decoder path iv else with_chain io.encoder path iv

  pub decode_path : List ℕ → ℕ → Option (List ℕ × Option ℕ)
  decode_path path iv =
      if io.reverse_encryption then with_chain io.encoder path iv else with_chain io.decoder path iv
