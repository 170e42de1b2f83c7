-- ===== src/Context/Table.antt =====
-- The laws of a table, for every test of keys that decides equality.
use encfs.Base.{
  ℕ, Bool, true, false, ◌&&◌, List, [], ◌∷◌, Option, none, some, if◌then◌else◌, ◌==◌, ◌≡◌, refl,
  sym, ap, ap₂, ◌∙◌, ==_iff,
}
use encfs.Context.{same_path, find, erase, insert}

-- The test says yes exactly where the keys are equal.
pub record IsTest {K : Type 0} (same : K → K → Bool) : Type 0 where
  pub sound : (a b : K) → same a b ≡ true → a ≡ b
  pub complete : (a : K) → same a a ≡ true

same_path_sound : (a b : List ℕ) → same_path a b ≡ true → a ≡ b
same_path_sound [] [] e = refl
same_path_sound [] (y ∷ ys) e = absurd (cc e)
same_path_sound (x ∷ xs) [] e = absurd (cc e)
same_path_sound (x ∷ xs) (y ∷ ys) e = by_head (same_path_sound xs ys) (x == y) refl e
  where
    by_head :
        (same_path xs ys ≡ true → xs ≡ ys)
        → (b : Bool) → (x == y) ≡ b
        → (b && same_path xs ys) ≡ true
        → (x ∷ xs) ≡ (y ∷ ys)
    by_head tails false h e1 = absurd (cc e1)
    by_head tails true h e1 = ap₂ (◌∷◌) ((==_iff x y).0 h) (tails e1)

same_path_complete : (a : List ℕ) → same_path a a ≡ true
same_path_complete [] = refl
same_path_complete (x ∷ xs) =
    ap (λ (b : Bool). b && same_path xs xs) ((==_iff x x).1 refl) ∙ same_path_complete xs

pub same_path-IsTest : IsTest same_path
same_path-IsTest = record { sound = same_path_sound; complete = same_path_complete }

pub eq-IsTest : IsTest {K = ℕ} ◌==◌
eq-IsTest = record { sound = λ a b e. (==_iff a b).0 e; complete = λ a. (==_iff a a).1 refl }

module _ {K V : Type 0} (same : K → K → Bool) (test : IsTest same) where
  choose :
      (a b c : Bool) (v : V) (rest erased : Option V)
      → erased ≡ (if c then none else rest)
      → (a ≡ true → b ≡ c)
      → (a ≡ false → b ≡ true → c ≡ false)
      → (if a then erased else if b then some v else erased)
        ≡ (if c then none else if b then some v else rest)
  choose true true true v rest erased e same_key other = e
  choose true false true v rest erased e same_key other = e
  choose true false false v rest erased e same_key other = e
  choose true true false v rest erased e same_key other = absurd (cc (same_key refl))
  choose false true true v rest erased e same_key other = absurd (cc (other refl refl))
  choose false true false v rest erased e same_key other = refl
  choose false false c v rest erased e same_key other = e

  pub find-erase :
      (k j : K) (table : List (K × V))
      → find same j (erase same k table) ≡ (if same k j then none else find same j table)
  unfolding find erase
  find-erase k j [] = by_test (same k j)
    where
      by_test : (b : Bool) → ◌≡◌ {A = Option V} none (if b then none else none)
      by_test true = refl
      by_test false = refl
  find-erase k j ((i, v) ∷ table) =
      pushed (same i k)
      ∙ choose (same i k) (same i j) (same k j) v (find same j table)
          (find same j (erase same k table)) (find-erase k j table)
          (λ a. ap (λ (x : K). same x j) (test.sound i k a)) (λ a b. other a b (same k j) refl)
    where
      pushed :
          (a : Bool)
          → find same j (if a then erase same k table else (i, v) ∷ erase same k table) ≡ (
              if a
              then find same j (erase same k table)
              else if same i j
              then some v
              else find same j (erase same k table))
      pushed true = refl
      pushed false = refl

      other : same i k ≡ false → same i j ≡ true → (c : Bool) → same k j ≡ c → c ≡ false
      other a b false e = refl
      other a b true e = sym (
          sym a
          ∙ ap (λ (x : K). same x k) (test.sound i j b ∙ sym (test.sound k j e))
          ∙ test.complete k)

  pub find-insert :
      (k j : K) (v : V) (table : List (K × V))
      → find same j (insert same k v table) ≡ (if same k j then some v else find same j table)
  unfolding find insert
  find-insert k j v table =
      ap (λ (t : Option V). if same k j then some v else t) (find-erase k j table)
      ∙ by_test (same k j)
    where
      by_test :
          (b : Bool)
          → (if b then some v else if b then none else find same j table)
            ≡ (if b then some v else find same j table)
      by_test true = refl
      by_test false = refl
