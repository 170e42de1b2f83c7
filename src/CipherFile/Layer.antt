-- ===== src/CipherFile/Layer.antt =====
-- `CipherFileIO` as the layer below `BlockFileIO`, whose cache, `read` and `write` it inherits.
use encfs.Base.{
  ℕ, ◌+◌, ◌-◌, ◌*◌, ◌/◌, ◌%◌, ◌≤◌, ◌<◌, Bool, true, false, not, ◌&&◌, List, [], ◌++◌, length, slice,
  All, IsByte, write_at, length-append, Option, some, if◌then◌else◌, ltb, leb, ◌≡◌, ◌⊎◌, inl, inr,
  refl, sym, ap, ◌∙◌, arith,
}
use mathlib.Core.Path.{subst}
use native.Mathlib.Nat.{mod-add-div'}
use encfs.Cipher.Ssl.{r_assert, ◌>>=◌, ◌>>◌}
use encfs.Cipher.Ops.{CipherOps, IsCipher}
use encfs.BlockFile.Layer.{Result, fail, ok, Lower, IsReader, IsWriter}
use encfs.BlockFile
use encfs.BlockFile.{BlockFileIo, read}
use encfs.BlockFile.Cache.{IsCoherent}
use encfs.BlockFile.Read.{read-IsRead}
use encfs.BlockFile.Write.{write}
use encfs.BlockFile.Write.Whole.{write-IsWritten}
use encfs.FileIo.{FileIo}
use encfs.FileIo.Laws.{IsFileIo}
use encfs.CipherFile.{
  CipherFileIo, State, header_size, read_one_block, write_one_block, get_size, sized, upper_size,
}
use encfs.CipherFile.Block.{IsStored, Holds, read_one_block_lem}
use encfs.CipherFile.Write.{write_one_block_lem}

-- The virtual functions that `BlockFileIO` calls.
unfoldable pub cipher_lower : {S : Type 0} → CipherFileIo → CipherOps → FileIo S → Lower (State S)
cipher_lower c ops io = record {
  read_one_block = read_one_block c ops io;
  write_one_block = write_one_block c ops io;
  get_size = get_size c ops io;
}

-- The part of a `CipherFileIO` that it inherits.
abbrev pub block_file : CipherFileIo → Bool → BlockFileIo
block_file c no_cache = record {
  block_size = c.block_size;
  allow_holes = c.allow_holes;
  no_cache = no_cache;
}

module _ (c : CipherFileIo) (ops : CipherOps) (cipher : IsCipher ops) {S : Type 0} (io : FileIo S)
    (holds : S → List ℕ → Type 0) (laws : IsFileIo io holds) (normal : c.reverse_encryption ≡ false)
    (pos : 0 < c.block_size) where
  abbrev pub Stands : State S → List ℕ → Type 0
  Stands = Holds c ops io holds

  block_start :
      (offset : ℕ) → offset % c.block_size ≡ 0 → offset / c.block_size * c.block_size ≡ offset
  block_start offset aligned = omega (arith, mod-add-div' offset c.block_size, aligned)

  pub cipher_lower-IsReader : IsReader (cipher_lower c ops io) c.block_size Stands
  unfolding cipher_lower
  cipher_lower-IsReader = record {
    read_result = λ st file offset h aligned.
        subst
          (λ (at : ℕ).
            (s' : State S) × (result : Result (List ℕ)) × (read_one_block c ops io st at
                c.block_size
              ≡ some (s', result))
            × Stands s' file
            × ((result ≡ ok (slice at c.block_size file)) ⊎ ((errno : ℕ) × (result ≡ fail errno))))
          (block_start offset aligned)
          (let (s', result, e, (h', end)) =
              read_one_block_lem c ops cipher io holds laws normal pos st file
                (offset / c.block_size) h in
            (s', result, e, h', end));
  }

  size_of :
      (size : ℕ)
      → (headers : Bool) → (headers ≡ true → header_size ≤ size)
      → (if headers && ltb 0 size
          then (if not false
              then r_assert (leb header_size size) >> some (size - header_size)
              else some (size + header_size))
          else some size)
        ≡ some (if headers then size - header_size else size)
  size_of size false enough = refl
  size_of size true enough =
      let h = enough refl in
      let some_bytes : ltb 0 size ≡ true = ground (arith, h) in
      let fits : leb header_size size ≡ true = ground (arith, h) in rw (some_bytes, fits)

  size_result :
      (st : State S) (file : List ℕ)
      → Stands st file
      → (s' : State S) × (result : Result ℕ) × (get_size c ops io st ≡ some (s', result))
        × Stands s' file
        × ((result ≡ ok (length file)) ⊎ ((errno : ℕ) × (result ≡ fail errno)))
  unfolding get_size
  size_result st file h = elim h.view [
    | inl view ↦
        let v = view.3 in
        let (b, e, held) = laws.size_result st.base (view.0 ++ view.1) v.stored in
        let st1 : State S = record st { base = b } in
        (
          st1,
          ok (length file),
          sized_lem b (length (view.0 ++ view.1)) (length file) e (by_head view.0 view.1 view.2 v),
          record {
            bytes = h.bytes;
            view = inl (
              view.0,
              view.1,
              view.2,
              record { stored = held; head = v.head; body_of = v.body_of },
            );
          },
          inl refl,
        )
    | inr fresh ↦
        let (b, e, held) = laws.size_result st.base [] fresh.stored in
        (
          record st { base = b },
          ok (length file),
          sized_lem b 0 (length file) e (
              ap
                (λ (x : Bool).
                  if x && false
                  then (if not c.reverse_encryption
                      then r_assert false >> some (0 - header_size)
                      else some (0 + header_size))
                  else (let p : Option ℕ = some 0 in p))
                fresh.headers
              ∙ ap some (sym fresh.empty)),
          record {
            bytes = h.bytes;
            view = inr (record {
              headers = fresh.headers;
              empty = fresh.empty;
              stored = held;
              unknown = fresh.unknown;
              answers = fresh.answers;
              fill = fresh.fill;
            });
          },
          inl refl,
        )
  ]
    where
      sized_lem :
          (b : S) (below above : ℕ)
          → io.get_size st.base ≡ some (b, ok below)
          → upper_size c ops io below ≡ some above
          → (io.get_size st.base >>= sized c ops io st) ≡ some (record st { base = b }, ok above)
      sized_lem b below above e f =
          ap (λ (o : Option (S × Result ℕ)). o >>= sized c ops io st) e
          ∙ ap
              (λ (o : Option ℕ). o >>= λ upper.
                some (let p : State S × Result ℕ = (record st { base = b }, ok upper) in p))
              f

      by_head :
          (hdr body : List ℕ) (iv : ℕ)
          → IsStored c ops io holds st file hdr body iv
          → upper_size c ops io (length (hdr ++ body)) ≡ some (length file)
      by_head hdr body iv v =
          let size = length-append hdr body in
          let same = v.body_of.same_length in
          ap
            (λ (r : Bool).
              if c.have_header && ltb 0 (length (hdr ++ body))
              then (if not r
                  then r_assert (leb header_size (length (hdr ++ body)))
                    >> some (length (hdr ++ body) - header_size)
                  else some (length (hdr ++ body) + header_size))
              else some (length (hdr ++ body)))
            normal
          ∙ elim v.head [
            | inl plain ↦
                size_of (length (hdr ++ body)) c.have_header
                  (λ yes_header. absurd (cc (plain.0, yes_header)))
                ∙ ap
                    (λ (b : Bool).
                      some (if b then length (hdr ++ body) - header_size else length (hdr ++ body)))
                    plain.0
                ∙ ap some (omega (arith, size, same, plain.1))
            | inr headed ↦
                size_of (length (hdr ++ body)) c.have_header
                  (λ yes_header. omega (arith, size, headed.1.1))
                ∙ ap
                    (λ (b : Bool).
                      some (if b then length (hdr ++ body) - header_size else length (hdr ++ body)))
                    headed.0
                ∙ ap some (omega (arith, size, same, headed.1.1))
          ]

  module _ (whole : c.block_size % ops.cipher_block_size ≡ 0)
      (no_holes : c.allow_holes ≡ false) where
    pub cipher_lower-IsWriter : IsWriter (cipher_lower c ops io) c.block_size c.allow_holes Stands
    unfolding cipher_lower
    cipher_lower-IsWriter = record {
      bytes = λ st file h. h.bytes;
      write_result = λ st file offset block h aligned block_bytes some_data small fits near.
          let at = block_start offset aligned in
          subst
            (λ (o : ℕ).
              (s' : State S) × (result : Result ℕ) × (write_one_block c ops io st o block
                ≡ some (s', result))
              × (((n : ℕ) × (result ≡ ok n) × Stands s' (write_at file o block))
                  ⊎ ((errno : ℕ) × (result ≡ fail errno))))
            at
            (write_one_block_lem c ops cipher io holds laws normal pos whole st file
              (offset / c.block_size) block h block_bytes some_data small
              (elim fits [ inl full ↦ inl full | inr last ↦ inr (omega (arith, last, at)) ])
              (elim near [
                | inl reach ↦ omega (arith, reach, at)
                | inr holes ↦ absurd (cc (holes, no_holes))
              ])
              (λ holes. absurd (cc (holes, no_holes))));
      size_result = size_result;
    }

    -- Over a cipher and a base file that keep their laws, the base open for reading and writing, in a file
    -- system that is not reverse and does not allow holes, whose block size is a multiple of the
    -- cipher's, for a state that stands for a file that the cache agrees with: `write` of some bytes at
    -- any offset, through the cache and the cipher, ends with an error, or with a state that stands for
    -- the file with the bytes at their place and zeros in the gap; and then every `read` gives the bytes
    -- of this file, or an error, and leaves a state that stands for it.
    pub write-read :
        (no_cache : Bool) (st : BlockFile.State (State S)) (file : List ℕ) (offset : ℕ)
        (data' : List ℕ)
        → 0 < length data'
        → All IsByte data'
        → IsCoherent (block_file c no_cache) file st
        → Stands st.lower file
        → (st1 : BlockFile.State (State S)) × (result : Result ℕ) × (write
              (block_file c no_cache)
              (cipher_lower c ops io)
              st
              offset
              data'
            ≡ some (st1, result))
          × (((errno : ℕ) × (result ≡ fail errno))
              ⊎ (((n : ℕ) × (result ≡ ok n))
                  × Stands st1.lower (write_at file offset data')
                  × ((at n : ℕ)
                      → (st2 : BlockFile.State (State S)) × (got : Result (List ℕ)) × (read
                            (block_file c no_cache)
                            (cipher_lower c ops io)
                            st1
                            at
                            n
                          ≡ some (st2, got))
                        × Stands st2.lower (write_at file offset data')
                        × ((got ≡ ok (slice at n (write_at file offset data')))
                            ⊎ ((errno : ℕ) × (got ≡ fail errno))))))
    write-read no_cache st file offset data' some_data bytes coherent h =
        let b = block_file c no_cache in
        let layer = cipher_lower c ops io in
        let (st1, result, e, w) =
          write-IsWritten b layer Stands cipher_lower-IsReader cipher_lower-IsWriter pos st file
            offset data' some_data bytes coherent h in
        (
          st1,
          result,
          e,
          elim w.outcome [
            | inr failed ↦ inl (failed.0, failed.1)
            | inl done ↦ inr (
              done.0,
              done.1,
              λ at n.
                  let (st2, got, e2, r) =
                    read-IsRead b layer Stands cipher_lower-IsReader st1
                      (write_at file offset data') at n pos done.2 done.1 in
                  (
                    st2,
                    got,
                    e2,
                    r.same_content,
                    elim r.bytes [ inl all ↦ inl all | inr failed ↦ inr (failed.0, failed.1) ],
                  ),
            )
          ],
        )
