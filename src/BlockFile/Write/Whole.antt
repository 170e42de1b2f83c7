-- ===== src/BlockFile/Write/Whole.antt =====
-- `write` as a whole: the file afterwards is the file before with the request's bytes at its place.
use encfs.Base.{
  ℕ, suc, ◌+◌, ◌*◌, ◌/◌, ◌%◌, ◌≤◌, ◌<◌, max, List, [], ◌∷◌, ◌++◌, length, replicate, write_at, ltb,
  ◌==◌,
}
use encfs.Base.{write_at_padded, length-append, length-replicate}
use encfs.Base.{
  Option, All, IsByte, some, true, ◌≡◌, ◌⊎◌, inl, inr, refl, sym, ap, ◌∙◌, arith, Bool-cases,
}
use mathlib.Core.Path.{subst}
use encfs.Cipher.Ssl.{◌>>=◌}
use native.Mathlib.Nat.{mod-lt, mod-add-div'}
use encfs.BlockFile.Layer.{Result, ok, Lower, IsReader, IsWriter}
use encfs.BlockFile.{BlockFileIo, State}
use encfs.BlockFile.Cache.{IsCoherent}
use encfs.BlockFile.Write.{is_direct, write_loop, write_data, write_sized, write_asked, write}
use encfs.BlockFile.Write.Steps.{IsWritten, Writes, fails, write_end, run_step}
use encfs.BlockFile.Write.Loop.{written, write_loop-Writes}
use encfs.BlockFile.Write.Pad.{pad_file-Gap}

written_some :
    (file : List ℕ) (offset : ℕ) (data' : List ℕ)
    → 0 < length data'
    → written file offset data' ≡ write_at file offset data'
written_some file offset [] h = absurd (omega arith)
written_some file offset (x ∷ data') h = refl

module _ {S : Type 0} (c : BlockFileIo) (layer : Lower S) (holds : S → List ℕ → Type 0)
    (reader : IsReader layer c.block_size holds)
    (writer : IsWriter layer c.block_size c.allow_holes holds) (pos : 0 < c.block_size) where
  -- After the gap is filled.
  write_data-Writes :
      (file_size : ℕ) (st : State S) (offset : ℕ) (data' file : List ℕ)
      → 0 < length data'
      → IsCoherent c file st
      → holds st.lower file
      → length file ≤ max file_size (offset / c.block_size * c.block_size)
      → All IsByte data'
      → (offset / c.block_size * c.block_size ≤ length file) ⊎ (c.allow_holes ≡ true)
      → Writes c layer holds reader writer
          (write_at file offset data')
          (write_data c layer file_size st offset data')
  write_data-Writes file_size st offset data' file some_data coherent same room bytes near =
      let bs = c.block_size in
      let parts = mod-add-div' offset bs in
      let size_parts = mod-add-div' file_size bs in
      let place : offset / bs * bs + offset % bs ≡ offset = omega (arith, parts) in
      elim (Bool-cases (is_direct c layer file_size offset (length data'))) [
        | inl direct ↦
            let aligned : offset % bs ≡ 0 = ground arith in
            let small : length data' ≤ bs = ground arith in
            let fits : (length data' ≡ bs) ⊎ (length file ≤ offset + length data') =
              elim (Bool-cases (length data' == bs)) [
                | inl full ↦ inl (ground arith)
                | inr short ↦
                    let same_block : offset / bs ≡ file_size / bs = ground arith in
                    let covers : file_size % bs ≤ length data' = ground arith in
                    let blocks = ap (λ (t : ℕ). t * bs) same_block in
                    inr (omega (arith, room, parts, size_parts, blocks, covers))
              ] in
            rw direct (
              write_end c layer holds reader writer st file offset data' aligned bytes some_data
                small fits
                (elim near [
                  | inl reach ↦ inl (omega (arith, reach, parts, aligned))
                  | inr holes ↦ inr holes
                ])
                same)
        | inr split ↦ rw split (
            subst
              (λ (t : List ℕ). Writes c layer holds reader writer t (
                write_loop c layer (suc (length data')) st file_size (length data') data'
                  (offset / bs) (offset % bs)))
              (ap (λ (o : ℕ). written file o data') place
                ∙ written_some file offset data' some_data)
              (write_loop-Writes c layer holds reader writer (suc (length data')) st file_size
                (length data') (offset / bs) (offset % bs) data' file (omega arith)
                (mod-lt offset pos) coherent same room bytes (λ _. near)))
      ]

  write_sized-Writes :
      (st : State S) (file : List ℕ) (offset : ℕ) (data' : List ℕ)
      → 0 < length data'
      → All IsByte data'
      → IsCoherent c file st
      → holds st.lower file
      → Writes c layer holds reader writer
          (write_at file offset data')
          (write_sized c layer st offset data' (ok (length file)))
  write_sized-Writes st file offset data' some_data bytes coherent same =
      let parts = mod-add-div' offset c.block_size in
      elim (Bool-cases (ltb (length file) offset)) [
        | inl behind ↦
            let (j, fits, reach, w) =
              pad_file-Gap c layer holds reader writer pos st offset file coherent same
                (ground arith) in
            let gap : List ℕ = replicate j 0 in
            let filled = file ++ gap in
            let zeros_size : length gap ≡ j = length-replicate j 0 in
            let size : length filled ≡ length file + j =
              length-append file gap ∙ omega (arith, zeros_size) in
            let low : length file + j ≤ offset = ground (arith, parts, fits) in
            rw behind (
              run_step c layer holds reader writer filled (write_at file offset data') _ _ w
                (λ st1 coherent1 same1.
                  subst
                    (λ (t : List ℕ).
                      Writes c layer holds reader writer t
                        (write_data c layer (length file) st1 offset data'))
                    (write_at_padded file j offset data' low)
                    (write_data-Writes (length file) st1 offset data' filled some_data coherent1
                      same1 (omega (arith, size, fits)) bytes
                      (elim reach [
                        | inl near ↦ inl (omega (arith, near, size))
                        | inr holes ↦ inr holes
                      ]))))
        | inr inside ↦ rw inside (
            write_data-Writes (length file) st offset data' file some_data coherent same
              (omega arith) bytes (inl (ground (arith, parts))))
      ]

  -- Over a layer that reads and writes blocks, for a state that stands for a file that the cache agrees
  -- with: `write` of a request of bytes that is not empty, at any offset, also behind the end, ends.
  -- Unless it returns an error that a call from below has returned, the state stands for the file with
  -- the bytes of the request at its place and zeros in the gap, and the cache agrees with it. After an
  -- error the cache is empty or agrees with the file that the state stands for.
  pub write-IsWritten :
      (st : State S) (file : List ℕ) (offset : ℕ) (data' : List ℕ)
      → 0 < length data'
      → All IsByte data'
      → IsCoherent c file st
      → holds st.lower file
      → (st' : State S) × (result : Result ℕ) × (write c layer st offset data' ≡ some (st', result))
        × IsWritten c layer holds (write_at file offset data') st' result
  unfolding write
  write-IsWritten st file offset data' some_data bytes coherent same =
      let expected = write_at file offset data' in
      let (s', size, e, same', end) = writer.size_result st.lower file same in
      let st1 : State S = record st { lower = s' } in
      let coherent1 : IsCoherent c file st1 = record { cached = coherent.cached } in
      subst (Writes c layer holds reader writer expected)
        (sym (ap (λ (o : Option (S × Result ℕ)). o >>= write_asked c layer st offset data') e))
        (elim end [
          | inl known ↦
              subst
                (λ (t : Result ℕ).
                  Writes c layer holds reader writer expected
                    (write_sized c layer st1 offset data' t))
                (sym known)
                (write_sized-Writes st1 file offset data' some_data bytes coherent1 same')
          | inr failed ↦
              subst
                (λ (t : Result ℕ).
                  Writes c layer holds reader writer expected
                    (write_sized c layer st1 offset data' t))
                (sym failed.1)
                (fails c layer holds reader writer expected st1 failed.0
                  (inr (
                    inr (
                      st.lower,
                      s',
                      e
                          ∙ ap (λ (r : Result ℕ). some (let p : S × Result ℕ = (s', r) in p))
                              failed.1,
                    )))
                  (inr (file, same', coherent1)))
        ])
