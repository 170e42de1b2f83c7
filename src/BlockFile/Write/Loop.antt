-- ===== src/BlockFile/Write/Loop.antt =====
-- The loop of `write`: each piece of the request lands at its place, alone or merged into its block.
use encfs.Base.{
  ℕ, zero, suc, ◌+◌, ◌-◌, ◌*◌, ◌/◌, ◌%◌, ◌≤◌, ◌<◌, min, max, true, List, [], ◌∷◌, ◌++◌, length, All,
  IsByte, All-take, All-drop, All-write_at, take, drop, slice, write_at, leb, ◌==◌,
}
use encfs.Base.{
  write_at-write_at, write_at-append, length-write_at, length-slice, slice_nil, length-take,
  length-drop, take-append-drop, append-nil,
}
use encfs.Base.{Option, ◌≡◌, ◌⊎◌, inl, inr, refl, sym, ap, ◌∙◌, arith, Bool-cases}
use mathlib.Core.Path.{subst}
use native.Mathlib.Nat.{mod-lt, mod-add-div', mul-mod_left, mul-le-mul_right}
use encfs.BlockFile.Layer.{Result, Lower, IsReader, IsWriter}
use encfs.BlockFile.{BlockFileIo, State}
use encfs.BlockFile.Cache.{IsCoherent}
use encfs.BlockFile.Write.{is_behind, is_alone, with_block, write_loop}
use encfs.BlockFile.Write.Steps.{Writes, succeeds, read_step, write_step}

-- Writing nothing changes nothing.
abbrev pub written : List ℕ → ℕ → List ℕ → List ℕ
written file offset [] = file
written file offset (x ∷ data') = write_at file offset (x ∷ data')

written-write_at :
    (file : List ℕ) (offset next : ℕ) (piece rest : List ℕ)
    → (length rest ≡ 0) ⊎ (next ≡ offset + length piece)
    → written (write_at file offset piece) next rest ≡ write_at file offset (piece ++ rest)
written-write_at file offset next piece [] h = ap (write_at file offset) (sym (append-nil piece))
written-write_at file offset next piece (x ∷ rest) h =
    write_at-append file offset next piece (x ∷ rest)
      (elim h [ inl e ↦ absurd (omega (arith, e)) | inr e ↦ e ])

module _ {S : Type 0} (c : BlockFileIo) (layer : Lower S) (holds : S → List ℕ → Type 0)
    (reader : IsReader layer c.block_size holds)
    (writer : IsWriter layer c.block_size c.allow_holes holds) where
  is_behind-le :
      (file_size k : ℕ)
      → 0 < c.block_size
      → is_behind c layer file_size k ≡ true
      → file_size ≤ k * c.block_size
  is_behind-le file_size k pos h =
      let parts = mod-add-div' file_size c.block_size in
      let rest = mod-lt file_size pos in
      elim (Bool-cases (file_size % c.block_size == 0)) [
        | inl whole ↦
            let low : file_size / c.block_size ≤ k = ground arith in
            let none_left : file_size % c.block_size ≡ 0 = ground arith in
            omega (arith, parts, none_left, mul-le-mul_right c.block_size low)
        | inr part ↦
            let low : file_size / c.block_size + 1 ≤ k = ground arith in
            omega (arith, parts, rest, mul-le-mul_right c.block_size low)
      ]

  -- What a block that is handed on to be written does to the file.
  abbrev IsMerged : List ℕ → ℕ → ℕ → List ℕ → List ℕ → Type 0
  IsMerged file k p piece block =
      (length block ≤ c.block_size)
      × ((length block ≡ c.block_size) ⊎ (length file ≤ k * c.block_size + length block))
      × (write_at file (k * c.block_size) block ≡ write_at file (k * c.block_size + p) piece)
      × All IsByte block
      × (0 < length block)

  -- Where a block may start.
  abbrev IsNear : List ℕ → ℕ → Type 0
  IsNear file k = (k * c.block_size ≤ length file) ⊎ (c.allow_holes ≡ true)

  merged :
      (file : List ℕ) (k p : ℕ) (piece : List ℕ)
      → p + length piece ≤ c.block_size
      → All IsByte file
      → All IsByte piece
      → 0 < length piece
      → IsMerged file k p piece (write_at (slice (k * c.block_size) c.block_size file) p piece)
  merged file k p piece h bytes piece_bytes some_data =
      let bs = c.block_size in
      let old = slice (k * bs) bs file in
      let size = length-write_at old p piece in
      let old_size = length-slice (k * bs) bs file in
      (
        omega (arith, size, old_size, h),
        (elim (Bool-cases (leb bs (length file - k * bs))) [
          | inl full ↦ inl (ground (arith, size, old_size, h))
          | inr short ↦ inr (ground (arith, size, old_size, h))
        ]),
        write_at-write_at file (k * bs) bs p (k * bs + p) piece h refl,
        All-write_at IsByte old p piece (omega arith)
            (All-take IsByte bs (drop (k * bs) file) (All-drop IsByte (k * bs) file bytes))
            piece_bytes,
        omega (arith, size, some_data),
      )

  alone :
      (file_size : ℕ) (file : List ℕ) (k p : ℕ) (piece : List ℕ)
      → p + length piece ≤ c.block_size
      → length file ≤ max file_size (k * c.block_size)
      → is_alone c layer file_size k p (length piece) ≡ true
      → All IsByte piece
      → 0 < length piece
      → IsMerged file k p piece piece
  alone file_size file k p piece h room test piece_bytes some_data =
      let start : p ≡ 0 = ground arith in
      (
        omega (arith, h),
        (elim (Bool-cases (length piece == c.block_size)) [
          | inl full ↦ inl (ground arith)
          | inr short ↦ inr (ground arith)
        ]),
        ap (λ (o : ℕ). write_at file o piece) (omega (arith, start)),
        piece_bytes,
        some_data,
      )

  with_block-Writes :
      (st : State S) (file_size k p : ℕ) (piece file expected : List ℕ)
      (f : State S → List ℕ → Option (State S × Result ℕ))
      → 0 < c.block_size
      → p + length piece ≤ c.block_size
      → IsCoherent c file st
      → holds st.lower file
      → length file ≤ max file_size (k * c.block_size)
      → All IsByte piece
      → 0 < length piece
      → ((st1 : State S) (block : List ℕ)
          → IsCoherent c file st1
          → holds st1.lower file
          → IsMerged file k p piece block
          → Writes c layer holds reader writer expected (f st1 block))
      → Writes c layer holds reader writer expected (with_block c layer st file_size k p piece f)
  with_block-Writes st file_size k p piece file expected f pos h coherent same room piece_bytes
        some_data next =
      let bs = c.block_size in
      let bytes = writer.bytes st.lower file same in
      elim (Bool-cases (is_alone c layer file_size k p (length piece))) [
        | inl single ↦ rw single (
            next st piece coherent same
              (alone file_size file k p piece h room single piece_bytes some_data))
        | inr more ↦ elim (Bool-cases (is_behind c layer file_size k)) [
          | inl behind ↦
              let low = is_behind-le file_size k pos behind in
              let empty = slice_nil (k * bs) bs file (omega (arith, room, low)) in
              rw (more, behind)
                (next st (write_at [] p piece) coherent same (
                  subst (λ (t : List ℕ). IsMerged file k p piece (write_at t p piece)) empty
                    (merged file k p piece h bytes piece_bytes some_data)))
          | inr inside ↦
              rw (more, inside)
                (read_step c layer holds reader writer st file expected (k * bs) bs
                  (λ st1 block. f st1 (write_at block p piece)) (omega arith) (mul-mod_left k bs)
                  coherent same
                  (λ st1 coherent1 same1.
                    next st1 (write_at (slice (k * bs) bs file) p piece) coherent1 same1
                      (merged file k p piece h bytes piece_bytes some_data)))
        ]
      ]

  -- The loop writes what is left of the request at its place, on any fuel above its size.
  pub write_loop-Writes :
      (fuel : ℕ) (st : State S) (file_size data_len k p : ℕ) (data' file : List ℕ)
      → length data' < fuel
      → p < c.block_size
      → IsCoherent c file st
      → holds st.lower file
      → length file ≤ max file_size (k * c.block_size)
      → All IsByte data'
      → (0 < length data' → IsNear file k)
      → Writes c layer holds reader writer
          (written file (k * c.block_size + p) data')
          (write_loop c layer fuel st file_size data_len data' k p)
  write_loop-Writes zero st file_size data_len k p data' file h inside coherent same room bytes
        near =
      absurd (omega arith)
  write_loop-Writes (suc fuel) st file_size data_len k p [] file h inside coherent same room bytes
        near =
      succeeds c layer holds reader writer file st data_len coherent same
  write_loop-Writes (suc fuel) st file_size data_len k p (x ∷ data') file h inside coherent same
        room bytes near =
      let bs = c.block_size in
      let request = x ∷ data' in
      let to_copy = min (bs - p) (length request) in
      let piece = take to_copy request in
      let rest = drop to_copy request in
      let size : length piece ≡ to_copy = length-take to_copy request ∙ omega arith in
      let rest_size = length-drop to_copy request in
      let next_place : (k + 1) * bs + 0 ≡ k * bs + bs = omega arith in
      let meets : (length rest ≡ 0) ⊎ ((k + 1) * bs + 0 ≡ k * bs + p + length piece) =
        elim (Bool-cases (leb (length request) (bs - p))) [
          | inl last ↦ inl (ground (arith, rest_size))
          | inr full ↦ inr (ground (arith, size, next_place))
        ] in
      let total =
        written-write_at file (k * bs + p) ((k + 1) * bs + 0) piece rest meets
        ∙ ap (write_at file (k * bs + p)) (take-append-drop to_copy request) in
      with_block-Writes st file_size k p piece file (write_at file (k * bs + p) request) _
        (omega arith) (omega (arith, size)) coherent same room
        (All-take IsByte to_copy request bytes) (omega (arith, size, inside))
        (λ st1 block coherent1 same1 merge.
          write_step c layer holds reader writer st1 file (k * bs) block (mul-mod_left k bs) merge.3
            merge.4 merge.0 merge.1 (near (omega arith)) same1 _ _
            (λ st2 coherent2 same2.
              let file2 = write_at file (k * bs + p) piece in
              subst
                (λ (t : List ℕ).
                  Writes c layer holds reader writer t
                    (write_loop c layer fuel st2 file_size data_len rest (k + 1) 0))
                total
                (write_loop-Writes fuel st2 file_size data_len (k + 1) 0 rest file2
                  (omega (arith, rest_size, h)) (omega arith)
                  (subst (λ (t : List ℕ). IsCoherent c t st2) merge.2 coherent2)
                  (subst (holds st2.lower) merge.2 same2)
                  (omega (arith, length-write_at file (k * bs + p) piece, size, room, next_place))
                  (All-drop IsByte to_copy request bytes)
                  (λ more. elim meets [
                    | inl none_left ↦ absurd (omega (arith, none_left, more))
                    | inr at ↦
                        inl (omega (arith, length-write_at file (k * bs + p) piece, at, next_place))
                  ]))))
