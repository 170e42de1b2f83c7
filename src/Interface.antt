-- ===== src/Interface.antt =====
-- encfs/Interface.cpp: the versioned interfaces that the configuration names and the registries of
-- ciphers and name coders look up. The numbers of a version are never negative.
pub mod Order
pub mod Tests
use encfs.Base.{
  ℕ, zero, suc, ◌+◌, ◌-◌, ◌*◌, Bool, true, false, ◌&&◌, not, List, [], ◌∷◌, if◌then◌else◌, ltb, leb,
  ◌==◌,
}

pub record Interface : Type 0 where
  pub name : List ℕ
  pub current : ℕ
  pub revision : ℕ
  pub age : ℕ

-- `operator==` and `operator<` of `std::string`.
abbrev pub same_name : List ℕ → List ℕ → Bool
same_name [] [] = true
same_name [] (y ∷ b) = false
same_name (x ∷ a) [] = false
same_name (x ∷ a) (y ∷ b) = (x == y) && same_name a b

abbrev pub less_name : List ℕ → List ℕ → Bool
less_name [] [] = false
less_name [] (y ∷ b) = true
less_name (x ∷ a) [] = false
less_name (x ∷ a) (y ∷ b) = if x == y then less_name a b else ltb x y

unfoldable pub sign : ℕ → ℕ → ℕ
sign a b = if ltb a b then 0 else if a == b then 1 else 2

unfoldable pub diff_sum : Interface → Interface → ℕ
diff_sum a b = (sign a.current b.current * 3 + sign a.age b.age) * 3 + sign a.revision b.revision

abbrev pub equal_version : ℕ
equal_version = (1 * 3 + 1) * 3 + 1

-- `operator==`
abbrev pub equal : Interface → Interface → Bool
equal a b =
    same_name a.name b.name
    && ((a.current == b.current) && ((a.revision == b.revision) && (a.age == b.age)))

-- `operator<`, `operator>`, `operator<=` and `operator>=`: on different names, all four ask for `<` of
-- the names.
abbrev pub by_version : Interface → Interface → Bool → Bool
by_version a b test = if same_name a.name b.name then test else less_name a.name b.name

abbrev pub less : Interface → Interface → Bool
less a b = by_version a b (ltb (diff_sum a b) equal_version)

abbrev pub greater : Interface → Interface → Bool
greater a b = by_version a b (ltb equal_version (diff_sum a b))

abbrev pub less_equal : Interface → Interface → Bool
less_equal a b = by_version a b (leb (diff_sum a b) equal_version)

abbrev pub greater_equal : Interface → Interface → Bool
greater_equal a b = by_version a b (leb equal_version (diff_sum a b))

-- `A.implements(B)`: the difference of the versions is a signed number in the code.
abbrev pub implements : Interface → Interface → Bool
implements a b =
    if not (same_name a.name b.name)
    then false
    else leb b.current a.current && leb (a.current - b.current) a.age
