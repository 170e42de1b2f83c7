-- ===== src/BlockFile/Truncate/Extend.antt =====
-- `truncateBase` to a size above that of the file: `padFile`, which is forced to write the last block.
use encfs.Base.{
  ℕ, ◌+◌, ◌-◌, ◌*◌, ◌/◌, ◌%◌, ◌≤◌, ◌<◌, Bool, true, false, not, ◌&&◌, List, ◌++◌, length, replicate,
  write_at_end, length-append, append-nil, append_assoc, All-replicate, IsByte, ltb, ◌==◌,
  if◌then◌else◌,
}
use encfs.Base.{Option, none, some, ◌≡◌, inl, inr, sym, ap, ◌∙◌, arith, Bool-cases, ==_iff}
use mathlib.Core.Path.{subst}
use native.Mathlib.Nat.{le-div_iff_mul-le, mod-lt, mod-add-div', mul-mod_left, mul-le-mul_right}
use encfs.Cipher.Ssl.{◌>>=◌}
use encfs.BlockFile.Layer.{Result, ok, Lower, IsReader, IsWriter}
use encfs.BlockFile.{BlockFileIo, State, cache_write_one_block}
use encfs.BlockFile.Cache.{IsCoherent}
use encfs.BlockFile.Write.{result_then, zero_blocks, pad_block, pad_rest, pad_file}
use encfs.BlockFile.Write.Steps.{IsWritten, Writes, succeeds, write_step, run_step}
use encfs.BlockFile.Write.Pad.{
  zeros, length-zeros, zeros-append, zero_blocks-Writes, pad_block-Writes,
}
use encfs.BlockFile.Truncate.{truncate_base, truncate_asked}

module _ {S : Type 0} (c : BlockFileIo) (layer : Lower S) (holds : S → List ℕ → Type 0)
    (reader : IsReader layer c.block_size holds)
    (writer : IsWriter layer c.block_size c.allow_holes holds) (pos : 0 < c.block_size)
    (no_holes : c.allow_holes ≡ false) where
  -- The last block, of `n` zeros behind a file of whole blocks.
  abbrev last_block : State S → ℕ → ℕ → Option (State S × Result ℕ)
  last_block st k n =
      if true && not (n == 0)
      then result_then c layer (λ st2. some (st2, ok 0))
          (cache_write_one_block c layer st (k * c.block_size) (replicate n 0))
      else some (st, ok 0)

  last_block-Writes :
      (st : State S) (k n : ℕ) (file : List ℕ)
      → n ≤ c.block_size
      → IsCoherent c file st
      → holds st.lower file
      → length file ≡ k * c.block_size
      → Writes c layer holds reader writer (file ++ zeros n) (last_block st k n)
  last_block-Writes st k n file small coherent same size = elim (Bool-cases (n == 0)) [
    | inl none_left ↦
        let e : file ≡ file ++ zeros n =
          sym (append-nil file)
          ∙ ap (λ (t : ℕ). file ++ zeros t) (sym ((==_iff n 0).0 none_left)) in
        rw none_left (
          succeeds c layer holds reader writer (file ++ zeros n) st 0
            (subst (λ (t : List ℕ). IsCoherent c t st) e coherent) (subst (holds st.lower) e same))
    | inr more ↦
        let full = length-zeros n in
        let some_data : 0 < n = ground (arith, more) in
        let there = write_at_end file (k * c.block_size) (zeros n) size in
        rw more (
          write_step c layer holds reader writer st file (k * c.block_size) (zeros n)
            (mul-mod_left k c.block_size) (All-replicate IsByte n 0 (omega arith))
            (omega (arith, full, some_data)) (omega (arith, full, small))
            (inr (omega (arith, size))) (inl (omega (arith, size))) same (file ++ zeros n) _
            (λ st1 coherent1 same1.
              succeeds c layer holds reader writer (file ++ zeros n) st1 0
                (subst (λ (t : List ℕ). IsCoherent c t st1) there coherent1)
                (subst (holds st1.lower) there same1)))
  ]

  -- From a file of whole blocks on.
  pad_rest-Extends :
      (st : State S) (k new_size : ℕ) (file : List ℕ)
      → k ≤ new_size / c.block_size
      → IsCoherent c file st
      → holds st.lower file
      → length file ≡ k * c.block_size
      → Writes c layer holds reader writer
          (file ++ zeros (new_size - length file))
          (pad_rest c layer st k new_size true)
  pad_rest-Extends st k new_size file low coherent same size =
      let bs = c.block_size in
      let n = new_size / bs in
      let count = n - k in
      let parts = mod-add-div' new_size bs in
      let filled = file ++ zeros (count * bs) in
      let whole : count + k ≡ n = omega arith in
      let blocks : count * bs + k * bs ≡ n * bs = omega (arith, ap (λ (t : ℕ). t * bs) whole) in
      let filled_size : length filled ≡ n * bs =
        length-append file (zeros (count * bs))
        ∙ omega (arith, length-zeros (count * bs), size, blocks) in
      let total : filled ++ zeros (new_size % bs) ≡ file ++ zeros (new_size - length file) =
        append_assoc file (zeros (count * bs)) (zeros (new_size % bs))
        ∙ ap (◌++◌ file) (zeros-append (count * bs) (new_size % bs))
        ∙ ap (λ (t : ℕ). file ++ zeros t) (omega (arith, parts, size, blocks)) in
      run_step c layer holds reader writer filled (file ++ zeros (new_size - length file)) _ _
        (subst
          (λ (b : Bool). Writes c layer holds reader writer filled (
            if not b
            then zero_blocks c layer count st k
            else some (let p : State S × Result ℕ = (st, ok 0) in p)))
          (sym no_holes)
          (zero_blocks-Writes c layer holds reader writer pos count st k file coherent same size))
        (λ st1 coherent1 same1.
          subst
            (λ (t : List ℕ).
              Writes c layer holds reader writer t (last_block st1 n (new_size % bs)))
            total
            (last_block-Writes st1 n (new_size % bs) filled (omega (arith, mod-lt new_size pos))
              coherent1 same1 filled_size))

  pad_file-Extends :
      (st : State S) (new_size : ℕ) (file : List ℕ)
      → IsCoherent c file st
      → holds st.lower file
      → length file < new_size
      → Writes c layer holds reader writer
          (file ++ zeros (new_size - length file))
          (pad_file c layer st (length file) new_size true)
  unfolding pad_file
  pad_file-Extends st new_size file coherent same more =
      let bs = c.block_size in
      let old_size = length file in
      let last = old_size / bs in
      let parts = mod-add-div' old_size bs in
      let new_parts = mod-add-div' new_size bs in
      let order : last ≤ new_size / bs = (le-div_iff_mul-le pos).1 (omega (arith, parts, more)) in
      let small = mod-lt old_size pos in
      elim (Bool-cases (last == new_size / bs)) [
        | inl one_block ↦
            let same_start = ap (λ (t : ℕ). t * bs) ((==_iff last (new_size / bs)).0 one_block) in
            let some_bytes : (new_size % bs == 0) ≡ false =
              ground (arith, parts, new_parts, same_start, more) in
            rw (one_block, some_bytes)
              (subst
                (λ (n : ℕ).
                  Writes c layer holds reader writer (file ++ zeros n)
                    (pad_block c layer st last (old_size % bs) (new_size % bs)))
                (omega (arith, parts, new_parts, same_start))
                (pad_block-Writes c layer holds reader writer pos st last (old_size % bs)
                  (new_size % bs) file (omega (arith, parts, new_parts, same_start, more))
                  (omega (arith, mod-lt new_size pos)) coherent same (omega (arith, parts))))
        | inr several ↦ elim (Bool-cases (old_size % bs == 0)) [
          | inl whole ↦
              let size : length file ≡ last * bs = ground (arith, parts, whole) in
              rw (several, whole) (pad_rest-Extends st last new_size file order coherent same size)
          | inr part ↦
              let next : last + 1 ≤ new_size / bs = ground (arith, order) in
              let gap = bs - old_size % bs in
              let filled = file ++ zeros gap in
              let filled_size : length filled ≡ (last + 1) * bs =
                length-append file (zeros gap) ∙ omega (arith, length-zeros gap, parts, small) in
              let reach = mul-le-mul_right bs next in
              let total : filled ++ zeros (new_size - length filled)
                  ≡ file ++ zeros (new_size - old_size) =
                append_assoc file (zeros gap) (zeros (new_size - length filled))
                ∙ ap (◌++◌ file) (zeros-append gap (new_size - length filled))
                ∙ ap (λ (t : ℕ). file ++ zeros t)
                    (omega (arith, filled_size, parts, small, reach, new_parts)) in
              rw (several, part)
                (run_step c layer holds reader writer filled (file ++ zeros (new_size - old_size)) _
                  _
                  (pad_block-Writes c layer holds reader writer pos st last (old_size % bs) bs file
                    small (omega arith) coherent same (omega (arith, parts)))
                  (λ st1 coherent1 same1.
                    subst
                      (λ (t : List ℕ).
                        Writes c layer holds reader writer t
                          (pad_rest c layer st1 (last + 1) new_size true))
                      total
                      (pad_rest-Extends st1 (last + 1) new_size filled next coherent1 same1
                        filled_size)))
        ]
      ]

  -- Over a layer that reads and writes blocks, where holes are not allowed, for a state that stands for a
  -- file that the cache agrees with and whose `getSize` returns the size of the file: `truncateBase`
  -- without a base, as MACFileIO and CipherFileIO with headers call it, to a size above the file's, ends.
  -- Unless it returns an error that a call from below has returned, the state stands for the file
  -- continued by zeros up to this size, and the cache agrees with it.
  pub truncate_base-IsWritten :
      (st : State S) (file : List ℕ) (size : ℕ) (s' : S)
      → IsCoherent c file st
      → layer.get_size st.lower ≡ some (s', ok (length file))
      → holds s' file
      → length file < size
      → (st' : State S) × (result : Result ℕ) × (truncate_base c layer none st size
          ≡ some (st', result))
        × IsWritten c layer holds (file ++ replicate (size - length file) 0) st' result
  unfolding truncate_base
  truncate_base-IsWritten st file size s' coherent known same more =
      let st1 : State S = record st { lower = s' } in
      let longer : ltb (length file) size ≡ true = ground (arith, more) in
      subst (Writes c layer holds reader writer (file ++ zeros (size - length file)))
        (sym (ap (λ (o : Option (S × Result ℕ)). o >>= truncate_asked c layer none st size) known))
        (rw longer (pad_file-Extends st1 size file (record { cached = coherent.cached }) same more))
