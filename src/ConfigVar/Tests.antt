-- ===== src/ConfigVar/Tests.antt =====
-- Two variables, and the witnesses.
use encfs.Base.{ℕ, true, List, [], ◌∷◌, ◌++◌, replicate, All, some, ◌≡◌, refl, arith}
use encfs.ConfigVar.{
  ConfigVar, Vars, digits, skip_zeros, write_int, read_int, write_string, read_string, to_var,
  load_from_var,
}
use encfs.ConfigVar.Text.{at_place, at_end, read-write_var}
use encfs.ConfigVar.Reader.{IsEntry, Apart, load_from_var-to_var}

-- 300 takes two digits.
two_digits : skip_zeros (digits 300) ≡ 0x82 ∷ 44 ∷ []
unfolding digits
two_digits = refl

read-write_var_example :
    (bytes : List ℕ) × (write_string (write_int (at_end (7 ∷ [])) 70000) (b'a' ∷ b'b' ∷ [])
      ≡ at_end ((7 ∷ []) ++ bytes))
    × (v : ConfigVar) × (read_int (at_place (7 ∷ []) (bytes ++ 9 ∷ [])) ≡ some (v, 70000))
    × (read_string v ≡ some (at_place ((7 ∷ []) ++ bytes) (9 ∷ []), b'a' ∷ b'b' ∷ []))
read-write_var_example =
    read-write_var (7 ∷ []) (9 ∷ []) (b'a' ∷ b'b' ∷ []) 70000 (omega arith) (omega arith)

abbrev two_vars : Vars
two_vars = (b'k' ∷ [], replicate 3 200) ∷ (b'k' ∷ b'2' ∷ [], []) ∷ []

two_vars-IsEntry : All IsEntry two_vars
two_vars-IsEntry = omega arith

two_vars-Apart : Apart [] two_vars
two_vars-Apart = (tt, ((refl, tt), tt))

load_from_var-to_var_example : load_from_var (to_var two_vars) [] ≡ some (two_vars, true)
load_from_var-to_var_example =
    load_from_var-to_var two_vars (omega arith) two_vars-IsEntry two_vars-Apart
