-- ===== src/BlockFile/Write/Pad.antt =====
-- `padFile` before a write: the file is continued by zeros, up to the block of the request at most.
use encfs.Base.{
  ℕ, zero, suc, ◌+◌, ◌-◌, ◌*◌, ◌/◌, ◌%◌, ◌≤◌, ◌<◌, max, Bool, true, false, not, List, [], ◌∷◌, ◌++◌,
  length, take, replicate, slice, write_at, ◌==◌, if◌then◌else◌,
}
use encfs.Base.{
  write_at_end, write_at-write_at, length-write_at, length-slice, slice_all, length-append,
  length-replicate, append-nil, append_assoc,
}
use encfs.Base.{
  Option, some, ◌≡◌, ◌⊎◌, inl, inr, refl, sym, ap, ◌∙◌, arith, Bool-cases, ==_iff, IsByte,
  All-append, All-drop, All-take, All-replicate, drop,
}
use mathlib.Core.Path.{subst}
use native.Mathlib.Nat.{le-div_iff_mul-le, mod-lt, mod-add-div', mul-mod_left, mul-le-mul_right}
use encfs.BlockFile.Layer.{Result, ok, Lower, IsReader, IsWriter}
use encfs.BlockFile.{BlockFileIo, State}
use encfs.BlockFile.Cache.{IsCoherent}
use encfs.BlockFile.Write.{pad_block, zero_blocks, pad_rest, pad_file}
use encfs.BlockFile.Write.Steps.{Writes, succeeds, read_step, write_step, run_step}

-- The byte of a gap.
abbrev pub zeros : ℕ → List ℕ
zeros n = replicate n 0

pub length-zeros : (n : ℕ) → length (zeros n) ≡ n
length-zeros n = length-replicate n 0

pub zeros-append : (m n : ℕ) → zeros m ++ zeros n ≡ zeros (m + n)
zeros-append zero n = ap (λ (k : ℕ). replicate k 0) (omega arith)
zeros-append (suc m) n =
    let next : suc (m + n) ≡ suc m + n = omega arith in
    ap (◌∷◌ 0) (zeros-append m n) ∙ ap (λ (k : ℕ). replicate k 0) next

take-zeros : (n r : ℕ) → n ≤ r → take n (zeros r) ≡ zeros n
take-zeros zero r h = refl
take-zeros (suc n) zero h = absurd (omega arith)
take-zeros (suc n) (suc r) h = ap (◌∷◌ 0) (take-zeros n r (omega arith))

-- A buffer filled up with zeros.
take_filled :
    (n r : ℕ) (xs : List ℕ)
    → n ≤ r
    → length xs ≤ n
    → take n (xs ++ zeros r) ≡ xs ++ zeros (n - length xs)
take_filled n r [] h g = take-zeros n r h ∙ ap zeros (omega arith)
take_filled zero r (x ∷ xs) h g = absurd (omega arith)
take_filled (suc n) r (x ∷ xs) h g =
    ap (◌∷◌ x)
      (take_filled n r xs (omega arith) (omega arith) ∙ ap (λ (k : ℕ). xs ++ zeros k) (omega arith))

module _ {S : Type 0} (c : BlockFileIo) (layer : Lower S) (holds : S → List ℕ → Type 0)
    (reader : IsReader layer c.block_size holds)
    (writer : IsWriter layer c.block_size c.allow_holes holds) (pos : 0 < c.block_size) where
  -- Blocks of zeros behind a file of whole blocks.
  pub zero_blocks-Writes :
      (count : ℕ) (st : State S) (k : ℕ) (file : List ℕ)
      → IsCoherent c file st
      → holds st.lower file
      → length file ≡ k * c.block_size
      → Writes c layer holds reader writer
          (file ++ replicate (count * c.block_size) 0)
          (zero_blocks c layer count st k)
  zero_blocks-Writes zero st k file coherent same size =
      let none_left : 0 ≡ 0 * c.block_size = omega arith in
      let there = sym (append-nil file) ∙ ap (λ (n : ℕ). file ++ replicate n 0) none_left in
      succeeds c layer holds reader writer (file ++ replicate (0 * c.block_size) 0) st 0
        (subst (λ (t : List ℕ). IsCoherent c t st) there coherent)
        (subst (holds st.lower) there same)
  zero_blocks-Writes (suc count) st k file coherent same size =
      let bs = c.block_size in
      let block : List ℕ = replicate bs 0 in
      let full = length-zeros bs in
      let total : (file ++ block) ++ replicate (count * bs) 0
          ≡ file ++ replicate (suc count * bs) 0 =
        append_assoc file block (replicate (count * bs) 0)
        ∙ ap (◌++◌ file) (zeros-append bs (count * bs))
        ∙ ap (λ (n : ℕ). file ++ replicate n 0) (omega arith) in
      write_step c layer holds reader writer st file (k * bs) block (mul-mod_left k bs)
        (All-replicate IsByte bs 0 (omega arith)) (omega (arith, full, pos)) (omega (arith, full))
        (inl full) (inl (omega (arith, size))) same (file ++ replicate (suc count * bs) 0) _
        (λ st1 coherent1 same1.
          subst
            (λ (t : List ℕ).
              Writes c layer holds reader writer t (zero_blocks c layer count st1 (k + 1)))
            total
            (zero_blocks-Writes count st1 (k + 1) (file ++ block)
              (subst (λ (t : List ℕ). IsCoherent c t st1) (write_at_end file (k * bs) block size)
                coherent1)
              (subst (holds st1.lower) (write_at_end file (k * bs) block size) same1)
              (omega (arith, length-append file block, size, full))))

  -- The last block of the file, filled up.
  pub pad_block-Writes :
      (st : State S) (k last m : ℕ) (file : List ℕ)
      → last < m
      → m ≤ c.block_size
      → IsCoherent c file st
      → holds st.lower file
      → length file ≡ k * c.block_size + last
      → Writes c layer holds reader writer
          (file ++ replicate (m - last) 0)
          (pad_block c layer st k last m)
  pad_block-Writes st k last m file small fits coherent same size =
      let bs = c.block_size in
      let old = slice (k * bs) last file in
      let old_size : length old ≡ last = length-slice (k * bs) last file ∙ omega (arith, size) in
      let block_is : take m (old ++ zeros m) ≡ write_at old last (zeros (m - last)) =
        take_filled m m old (omega arith) (omega (arith, old_size))
        ∙ ap (λ (n : ℕ). old ++ zeros (m - n)) old_size
        ∙ sym (write_at_end old last (zeros (m - last)) old_size) in
      let zeros_size = length-zeros (m - last) in
      let full : length (take m (old ++ zeros m)) ≡ m =
        ap length block_is
        ∙ length-write_at old last (zeros (m - last))
        ∙ omega (arith, zeros_size, old_size) in
      let there : write_at file (k * bs) (take m (old ++ zeros m)) ≡ file ++ zeros (m - last) =
        ap (write_at file (k * bs)) (
          block_is
          ∙ ap (λ (t : List ℕ). write_at t last (zeros (m - last)))
              (slice_all (k * bs) last bs file (omega (arith, size)) (omega (arith, size))))
        ∙ write_at-write_at file (k * bs) bs last (k * bs + last) (zeros (m - last))
            (omega (arith, zeros_size)) refl
        ∙ write_at_end file (k * bs + last) (zeros (m - last)) size in
      let old_bytes = All-take IsByte m (old ++ zeros m) (
        All-append IsByte old (zeros m)
          (All-take IsByte last (drop (k * bs) file)
            (All-drop IsByte (k * bs) file (writer.bytes st.lower file same)))
          (All-replicate IsByte m 0 (omega arith))) in
      read_step c layer holds reader writer st file (file ++ zeros (m - last)) (k * bs) last _
        (omega arith) (mul-mod_left k bs) coherent same
        (λ st1 coherent1 same1.
          write_step c layer holds reader writer st1 file (k * bs) (take m (old ++ zeros m))
            (mul-mod_left k bs) old_bytes (omega (arith, full, small)) (omega (arith, full))
            (inr (omega (arith, size, full))) (inl (omega (arith, size))) same1 _ _
            (λ st2 coherent2 same2.
              succeeds c layer holds reader writer (file ++ zeros (m - last)) st2 0
                (subst (λ (t : List ℕ). IsCoherent c t st2) there coherent2)
                (subst (holds st2.lower) there same2)))

  pub finished :
      (file : List ℕ) (st : State S)
      → IsCoherent c file st
      → holds st.lower file
      → Writes c layer holds reader writer file (some (st, ok 0))
  finished file st coherent same = succeeds c layer holds reader writer file st 0 coherent same

  -- The gap that `padFile` fills leaves the file no longer than the limit, and without a gap before the
  -- start of the last block, unless holes are allowed.
  abbrev pub Gap : List ℕ → ℕ → ℕ → Option (State S × Result ℕ) → Type 0
  Gap file start limit run =
      (j : ℕ) × (length file + j ≤ limit)
      × ((start ≤ length file + j) ⊎ (c.allow_holes ≡ true))
      × Writes c layer holds reader writer (file ++ zeros j) run

  -- How many zeros follow the block that was filled up.
  abbrev rest_zeros : ℕ → ℕ → ℕ
  rest_zeros k new_size =
      if not c.allow_holes then (new_size / c.block_size - k) * c.block_size else 0

  rest_zeros-le :
      (k new_size : ℕ)
      → k ≤ new_size / c.block_size
      → k * c.block_size + rest_zeros k new_size ≤ new_size / c.block_size * c.block_size
  rest_zeros-le k new_size low =
      let bs = c.block_size in
      let count = new_size / bs - k in
      let fits = mul-le-mul_right bs low in
      let whole : count + k ≡ new_size / bs = omega arith in
      let total : count * bs + k * bs ≡ new_size / bs * bs =
        omega (arith, ap (λ (t : ℕ). t * bs) whole) in
      go c.allow_holes fits total
    where
      go :
          (holes : Bool)
          → k * c.block_size ≤ new_size / c.block_size * c.block_size
          → (new_size / c.block_size - k) * c.block_size + k * c.block_size
            ≡ new_size / c.block_size * c.block_size
          → k * c.block_size
              + (if not holes then (new_size / c.block_size - k) * c.block_size else 0)
            ≤ new_size / c.block_size * c.block_size
      go true fits total = omega (arith, fits)
      go false fits total = omega (arith, total)

  rest_zeros-reach :
      (k new_size : ℕ)
      → k ≤ new_size / c.block_size
      → (new_size / c.block_size * c.block_size ≤ k * c.block_size + rest_zeros k new_size)
        ⊎ (c.allow_holes ≡ true)
  rest_zeros-reach k new_size low =
      let bs = c.block_size in
      let count = new_size / bs - k in
      let whole : count + k ≡ new_size / bs = omega arith in
      let total : count * bs + k * bs ≡ new_size / bs * bs =
        omega (arith, ap (λ (t : ℕ). t * bs) whole) in
      go c.allow_holes total
    where
      go :
          (holes : Bool)
          → (new_size / c.block_size - k) * c.block_size + k * c.block_size
            ≡ new_size / c.block_size * c.block_size
          → (new_size / c.block_size * c.block_size
              ≤ k * c.block_size
                + (if not holes then (new_size / c.block_size - k) * c.block_size else 0))
            ⊎ (holes ≡ true)
      go true total = inr refl
      go false total = inl (omega (arith, total))

  -- From a file of whole blocks on.
  pad_rest-Writes :
      (st : State S) (k new_size : ℕ) (file : List ℕ)
      → IsCoherent c file st
      → holds st.lower file
      → length file ≡ k * c.block_size
      → Writes c layer holds reader writer
          (file ++ zeros (rest_zeros k new_size))
          (pad_rest c layer st k new_size false)
  pad_rest-Writes st k new_size file coherent same size =
      let filled = file ++ zeros (rest_zeros k new_size) in
      run_step c layer holds reader writer filled filled _ _ (go c.allow_holes)
        (λ st1 coherent1 same1. finished filled st1 coherent1 same1)
    where
      go :
          (holes : Bool)
          → Writes c layer holds reader writer
              (file
                ++ zeros (if not holes then (new_size / c.block_size - k) * c.block_size else 0))
              (if not holes
                then zero_blocks c layer (new_size / c.block_size - k) st k
                else some (st, ok 0))
      go true =
          finished (file ++ []) st
            (subst (λ (t : List ℕ). IsCoherent c t st) (sym (append-nil file)) coherent)
            (subst (holds st.lower) (sym (append-nil file)) same)
      go false = zero_blocks-Writes (new_size / c.block_size - k) st k file coherent same size

  -- `padFile` before a write behind the end: zeros are added, but not in the block of the write, whose
  -- gap the write itself fills.
  pub pad_file-Gap :
      (st : State S) (new_size : ℕ) (file : List ℕ)
      → IsCoherent c file st
      → holds st.lower file
      → length file < new_size
      → Gap file
          (new_size / c.block_size * c.block_size)
          (max (length file) (new_size / c.block_size * c.block_size))
          (pad_file c layer st (length file) new_size false)
  unfolding pad_file
  pad_file-Gap st new_size file coherent same behind =
      let bs = c.block_size in
      let old_size = length file in
      let last = old_size / bs in
      let parts = mod-add-div' old_size bs in
      let order : last ≤ new_size / bs = (le-div_iff_mul-le pos).1 (omega (arith, parts, behind)) in
      elim (Bool-cases (last == new_size / bs)) [
        | inl one_block ↦ rw one_block (
          0,
          omega arith,
          inl (
              omega
                (arith, parts, ap (λ (t : ℕ). t * bs) ((==_iff last (new_size / bs)).0 one_block))),
          finished (file ++ []) st
              (subst (λ (t : List ℕ). IsCoherent c t st) (sym (append-nil file)) coherent)
              (subst (holds st.lower) (sym (append-nil file)) same),
        )
        | inr several ↦ elim (Bool-cases (old_size % bs == 0)) [
          | inl whole ↦
              let none_left : old_size % bs ≡ 0 = ground arith in
              let size : length file ≡ last * bs = omega (arith, parts, none_left) in
              rw (several, whole)
                (
                  rest_zeros last new_size,
                  omega (arith, rest_zeros-le last new_size order, size),
                  (elim (rest_zeros-reach last new_size order) [
                    | inl reach ↦ inl (omega (arith, reach, size))
                    | inr holes ↦ inr holes
                  ]),
                  pad_rest-Writes st last new_size file coherent same size,
                )
          | inr part ↦
              let more : last + 1 ≤ new_size / bs = ground (arith, order) in
              let gap = bs - old_size % bs in
              let rest = rest_zeros (last + 1) new_size in
              let small = mod-lt old_size pos in
              let filled = file ++ zeros gap in
              let filled_size : length filled ≡ (last + 1) * bs =
                length-append file (zeros gap) ∙ omega (arith, length-zeros gap, parts, small) in
              let total : filled ++ zeros rest ≡ file ++ zeros (gap + rest) =
                append_assoc file (zeros gap) (zeros rest)
                ∙ ap (◌++◌ file) (zeros-append gap rest) in
              let bound = rest_zeros-le (last + 1) new_size more in
              rw (several, part)
                (
                  gap + rest,
                  omega (arith, bound, parts, small),
                  (elim (rest_zeros-reach (last + 1) new_size more) [
                    | inl reach ↦ inl (omega (arith, reach, parts, small))
                    | inr holes ↦ inr holes
                  ]),
                  run_step c layer holds reader writer filled (file ++ zeros (gap + rest)) _ _
                      (pad_block-Writes st last (old_size % bs) bs file small (omega arith) coherent
                        same (omega (arith, parts)))
                      (λ st1 coherent1 same1.
                        subst
                          (λ (t : List ℕ).
                            Writes c layer holds reader writer t
                              (pad_rest c layer st1 (last + 1) new_size false))
                          total
                          (pad_rest-Writes st1 (last + 1) new_size filled coherent1 same1
                            filled_size)),
                )
        ]
      ]
