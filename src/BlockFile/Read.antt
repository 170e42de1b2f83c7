-- ===== src/BlockFile/Read.antt =====
-- `read` gives the bytes of the file at any offset, however the request lies across the blocks.
use encfs.Base.{
  ℕ, zero, suc, ◌+◌, ◌-◌, ◌*◌, ◌/◌, ◌%◌, ◌≤◌, ◌<◌, min, Bool, ◌&&◌, List, [], ◌++◌, length, take,
  drop, slice, slice-slice, slice-add, slice_nil, slice_all, length-slice, append-nil, append_assoc,
}
use encfs.Base.{
  Option, some, ltb, leb, ◌==◌, ◌≡◌, inl, inr, refl, sym, ap, ap₂, ◌∙◌, arith, Bool-cases,
}
use mathlib.Core.Path.{subst}
use native.Mathlib.Nat.{mod-lt, mod-add-div', mul-mod_left}
use encfs.Cipher.Ssl.{◌>>=◌}
use encfs.BlockFile.Layer.{Result, fail, ok, Lower, IsReader}
use encfs.BlockFile.{BlockFileIo, State, end_turn, copy_block, read_loop, read}
use encfs.BlockFile.Cache.{IsCoherent, IsRead, cache_read_one_block-Reads}

-- What a turn copies, `cpy` bytes of the block from `partial` on.
module _ (bs k partial size : ℕ) (file : List ℕ) (inside : partial < bs) where
  abbrev block : List ℕ
  block = slice (k * bs) bs file

  abbrev cpy : ℕ
  cpy = min (length block - partial) size

  length-block : length block ≡ min bs (length file - k * bs)
  length-block = length-slice (k * bs) bs file

  piece : take cpy (drop partial block) ≡ slice (k * bs + partial) cpy file
  piece = slice-slice (k * bs) bs partial cpy file (omega (arith, length-block, inside))

  -- A block that ends before `partial` ends the file.
  no_piece : length block ≤ partial → slice (k * bs + partial) size file ≡ []
  no_piece h = slice_nil (k * bs + partial) size file (omega (arith, length-block, inside))

  -- A block that is not full ends the file.
  last_piece :
      length block < bs
      → partial < length block
      → take cpy (drop partial block) ≡ slice (k * bs + partial) size file
  last_piece short more = piece ∙ elim (Bool-cases (leb size (length block - partial))) [
    | inl fits ↦
        let e : cpy ≡ size = ground arith in ap (λ (n : ℕ). slice (k * bs + partial) n file) e
    | inr over ↦
        slice_all (k * bs + partial) cpy size file (ground (arith, length-block))
          (ground (arith, length-block))
  ]

  -- A full block is followed by the rest of the request, from the next block on.
  next_piece :
      length block ≡ bs
      → take cpy (drop partial block) ++ slice ((k + 1) * bs + 0) (size - cpy) file
        ≡ slice (k * bs + partial) size file
  next_piece full = elim (Bool-cases (leb size (bs - partial))) [
    | inl fits ↦
        let e : cpy ≡ size = ground (arith, full) in
        let rest : size - cpy ≡ 0 = omega (arith, e) in
        ap (λ (t : List ℕ). t ++ slice ((k + 1) * bs + 0) (size - cpy) file) piece
        ∙ ap (λ (n : ℕ). slice (k * bs + partial) cpy file ++ slice ((k + 1) * bs + 0) n file) rest
        ∙ append-nil (slice (k * bs + partial) cpy file)
        ∙ ap (λ (n : ℕ). slice (k * bs + partial) n file) e
    | inr over ↦
        let e : cpy ≡ bs - partial = ground (arith, full, inside) in
        let place : (k + 1) * bs + 0 ≡ k * bs + partial + cpy = omega (arith, e, inside) in
        let total : cpy + (size - cpy) ≡ size = omega arith in
        ap (λ (t : List ℕ). t ++ slice ((k + 1) * bs + 0) (size - cpy) file) piece
        ∙ ap (λ (i : ℕ). slice (k * bs + partial) cpy file ++ slice i (size - cpy) file) place
        ∙ sym (slice-add (k * bs + partial) cpy (size - cpy) file)
        ∙ ap (λ (n : ℕ). slice (k * bs + partial) n file) total
  ]

module _ {S : Type 0} (c : BlockFileIo) (layer : Lower S) (holds : S → List ℕ → Type 0)
    (reader : IsReader layer c.block_size holds) where
  -- A run of the loop ends, and adds the expected bytes to those copied before.
  abbrev Ends : List ℕ → List ℕ → Option (State S × Result (List ℕ)) → Type 0
  Ends file expected run =
      (st' : State S) × (result : Result (List ℕ)) × (run ≡ some (st', result))
      × IsRead c layer holds file expected st' result

  reads :
      (file expected : List ℕ) (st' : State S) (got : List ℕ) (result : Result (List ℕ))
      → IsRead c layer holds file got st' result
      → (answer : List ℕ) → answer ≡ expected
      → IsRead c layer holds file expected st' (ok answer)
  reads file expected st' got result h answer e = record {
    same_content = h.same_content;
    coherent = h.coherent;
    bytes = inl (ap ok e);
  }

  -- One turn, from the block on.
  module _ (loop : State S → ℕ → List ℕ → Option (State S × Result (List ℕ))) (k partial size : ℕ)
      (file out : List ℕ) (inside : partial < c.block_size) where
    abbrev here : List ℕ
    here = block c.block_size k partial size file inside

    abbrev out' : List ℕ
    out' = out ++ take (cpy c.block_size k partial size file inside) (drop partial here)

    abbrev expected_bytes : List ℕ
    expected_bytes = out ++ slice (k * c.block_size + partial) size file

    abbrev turn_end : State S → Bool → Bool → Option (State S × Result (List ℕ))
    turn_end st' =
        end_turn c layer loop (size - cpy c.block_size k partial size file inside) st' out out'

    ok_turn :
        (st' : State S)
        → IsRead c layer holds file here st' (ok here)
        → (length here ≡ c.block_size
            → Ends file
                (out'
                  ++ slice
                      ((k + 1) * c.block_size + 0)
                      (size - cpy c.block_size k partial size file inside)
                      file)
                (loop st' (size - cpy c.block_size k partial size file inside) out'))
        → Ends file expected_bytes (copy_block c layer loop size partial out (st', ok here))
    ok_turn st' h next = elim (Bool-cases (leb (length here) partial)) [
      | inl short ↦ (
        st',
        ok out,
        ap (λ (b : Bool). turn_end st' b (ltb (length here) c.block_size)) short,
        reads file expected_bytes st' here (ok here) h out (
            sym (
              ap (◌++◌ out) (no_piece c.block_size k partial size file inside (ground arith))
              ∙ append-nil out)),
      )
      | inr more ↦ elim (Bool-cases (ltb (length here) c.block_size)) [
        | inl last ↦ (
          st',
          ok out',
          ap₂ (turn_end st') more last,
          reads file expected_bytes st' here (ok here) h out' (
              ap (◌++◌ out)
                (last_piece c.block_size k partial size file inside (ground arith) (ground arith))),
        )
        | inr whole ↦
            let full : length here ≡ c.block_size =
              ground (arith, length-block c.block_size k partial size file inside) in
            let (st2, result, e, r) = next full in
            (
              st2,
              result,
              ap₂ (turn_end st') more whole ∙ e,
              subst (λ (x : List ℕ). IsRead c layer holds file x st2 result)
                  (append_assoc out _ _
                    ∙ ap (◌++◌ out) (next_piece c.block_size k partial size file inside full))
                  r,
            )
      ]
    ]

    turn :
        (st' : State S) (result : Result (List ℕ))
        → IsRead c layer holds file here st' result
        → (length here ≡ c.block_size
            → Ends file
                (out'
                  ++ slice
                      ((k + 1) * c.block_size + 0)
                      (size - cpy c.block_size k partial size file inside)
                      file)
                (loop st' (size - cpy c.block_size k partial size file inside) out'))
        → Ends file expected_bytes (copy_block c layer loop size partial out (st', result))
    turn st' result h next = elim h.bytes [
      | inl e ↦
          subst
            (λ (r : Result (List ℕ)).
              Ends file expected_bytes (copy_block c layer loop size partial out (st', r)))
            (sym e)
            (ok_turn st' (subst (λ (r : Result (List ℕ)). IsRead c layer holds file here st' r) e h)
              next)
      | inr failed ↦
          subst
            (λ (r : Result (List ℕ)).
              Ends file expected_bytes (copy_block c layer loop size partial out (st', r)))
            (sym failed.1)
            (
              st',
              fail failed.0,
              refl,
              record {
                same_content = h.same_content;
                coherent = h.coherent;
                bytes = inr (failed.0, refl, failed.2, failed.3, failed.4, failed.5);
              },
            )
    ]

  -- The loop ends with the rest of the request, on any fuel above its size.
  read_loop-Ends :
      (fuel : ℕ) (st : State S) (size k partial : ℕ) (out file : List ℕ)
      → size < fuel
      → partial < c.block_size
      → IsCoherent c file st
      → holds st.lower file
      → Ends file
          (out ++ slice (k * c.block_size + partial) size file)
          (read_loop c layer fuel st size k partial out)
  read_loop-Ends zero st size k partial out file h inside coherent same = absurd (omega arith)
  read_loop-Ends (suc fuel) st zero k partial out file h inside coherent same = (
    st,
    ok out,
    refl,
    record { same_content = same; coherent = coherent; bytes = inl (ap ok (sym (append-nil out))) },
  )
  read_loop-Ends (suc fuel) st (suc size) k partial out file h inside coherent same =
      let bs = c.block_size in
      let loop = λ (st1 : State S) (size1 : ℕ) (out1 : List ℕ).
        read_loop c layer fuel st1 size1 (k + 1) 0 out1 in
      let (st', result, e, r) =
        cache_read_one_block-Reads c layer holds reader st file (k * bs) bs (omega arith)
          (mul-mod_left k bs) coherent same in
      subst (Ends file (out ++ slice (k * bs + partial) (suc size) file))
        (sym (
          ap
            (λ (t : Option (State S × Result (List ℕ))).
              t >>= copy_block c layer loop (suc size) partial out)
            e))
        (turn loop k partial (suc size) file out inside st' result r (λ full.
          read_loop-Ends fuel st' (suc size - cpy bs k partial (suc size) file inside) (k + 1) 0 _
            file (omega (arith, full, inside, h)) (omega arith) r.coherent r.same_content))

  -- Over a layer that reads blocks, from a coherent cache: `read` of any request, at any offset
  -- and of any size, ends with exactly the bytes of the file from there on, as far as there are
  -- any. It changes no byte of the file and leaves the cache coherent. It returns an error only if
  -- a read of a block from below has returned it.
  pub read-IsRead :
      (st : State S) (file : List ℕ) (offset data_len : ℕ)
      → 0 < c.block_size
      → IsCoherent c file st
      → holds st.lower file
      → (st' : State S) × (result : Result (List ℕ)) × (read c layer st offset data_len
          ≡ some (st', result))
        × IsRead c layer holds file (slice offset data_len file) st' result
  unfolding read
  read-IsRead st file offset data_len pos coherent same =
      let bs = c.block_size in
      let place : offset / bs * bs + offset % bs ≡ offset = omega (arith, mod-add-div' offset bs) in
      elim (Bool-cases ((offset % bs == 0) && leb data_len bs)) [
        | inl one_block ↦ rw one_block (
            cache_read_one_block-Reads c layer holds reader st file offset data_len (ground arith)
              (ground arith) coherent same)
        | inr several ↦
            let (st', result, e, r) =
              read_loop-Ends (suc data_len) st data_len (offset / bs) (offset % bs) [] file
                (omega arith) (mod-lt offset pos) coherent same in
            (
              st',
              result,
              rw several e,
              subst (λ (i : ℕ). IsRead c layer holds file (slice i data_len file) st' result) place
                  r,
            )
      ]
