-- ===== src/Interface/Order.antt =====
-- The order of interfaces: by the version, the age and the revision, in this order.
use encfs.Base.{ℕ, ◌<◌, true, false, ◌≡◌, ◌↔◌, ◌⊎◌, arith}
use encfs.Interface.{
  Interface, sign, diff_sum, equal_version, less, greater, less_equal, greater_equal, same_name,
}

-- What the code's base-3 number stands for.
abbrev pub IsOlder : Interface → Interface → Type 0
IsOlder a b =
    (a.current < b.current)
    ⊎ ((a.current ≡ b.current) × ((a.age < b.age) ⊎ ((a.age ≡ b.age) × (a.revision < b.revision))))

sign-cases :
    (a b : ℕ) → ((a < b) × (sign a b ≡ 0)) ⊎ ((a ≡ b) × (sign a b ≡ 1)) ⊎ ((b < a) × (sign a b ≡ 2))
unfolding sign
sign-cases a b = ground arith

-- The number is below, at or above the middle as the versions are.
diff_sum-cases :
    (a b : Interface)
    → (IsOlder a b × (diff_sum a b < equal_version))
      ⊎ ((a.current ≡ b.current)
          × (a.age ≡ b.age)
          × (a.revision ≡ b.revision)
          × (diff_sum a b ≡ equal_version))
      ⊎ (IsOlder b a × (equal_version < diff_sum a b))
unfolding diff_sum
diff_sum-cases a b =
    let current = sign-cases a.current b.current in
    let age = sign-cases a.age b.age in
    let revision = sign-cases a.revision b.revision in ground arith

-- On one name, the four operators are the lexicographic order of version, age and revision.
pub order-IsOlder :
    (a b : Interface)
    → same_name a.name b.name ≡ true
    → ((less a b ≡ true) ↔ IsOlder a b)
      × ((greater a b ≡ true) ↔ IsOlder b a)
      × ((less_equal a b ≡ false) ↔ IsOlder b a)
      × ((greater_equal a b ≡ false) ↔ IsOlder a b)
order-IsOlder a b same =
    let d = diff_sum-cases a b in rw same (ground arith, ground arith, ground arith, ground arith)
