-- ===== src/CipherFile/Header.antt =====
-- The header of a file: what `initHeader` writes is what it reads, and `setIV` keeps the vector.
use encfs.Base.{
  ℕ, ◌+◌, ◌^◌, ◌<◌, Bool, true, false, not, List, [], ◌∷◌, ◌++◌, length, take, replicate, slice,
  All, IsByte, write_at_end, append-nil, take-append_left, read_be-lt,
}
use encfs.Base.{
  length-append, Option, none, some, if◌then◌else◌, leb, ◌==◌, ◌≡◌, ◌≢◌, ◌⊎◌, inl, inr, refl, sym,
  ap, ◌∙◌, arith, Bool-cases, ==_iff,
}
use mathlib.Core.Path.{subst}
use encfs.Cipher.Ssl.{r_assert, ◌>>=◌, ◌>>◌}
use encfs.Cipher.Ops.{CipherOps, IsCipher}
use encfs.BlockFile.Layer.{Result, fail, ok}
use encfs.FileIo.{FileIo}
use encfs.FileIo.Laws.{IsFileIo, put}
use encfs.CipherFile.{
  CipherFileIo, State, Random, header_size, iv_of, new_file_iv, coded, header_decoded, header_read,
  read_header, header_written, store_header, header_made, create_header, by_raw_size, init_header,
}

-- Among the answers is a failure, or a vector that is not zero.
abbrev pub Answers : Random → Type 0
Answers [] = ⊥
Answers (none ∷ random) = Unit
Answers (some buf ∷ random) = (iv_of buf ≢ 0) ⊎ Answers random

-- Each answer fills the buffer with bytes.
abbrev pub FillsHeader : Option (List ℕ) → Type 0
FillsHeader none = Unit
FillsHeader (some buf) = (length buf ≡ header_size) × All IsByte buf

-- How the loop for a new vector ends.
abbrev pub IsNewIv : ℕ → Result (List ℕ) → Type 0
IsNewIv iv (fail errno) = Unit
IsNewIv iv (ok buf) = (iv_of buf ≡ iv) × (iv ≢ 0) × (length buf ≡ header_size) × All IsByte buf

pub new_file_iv_ends :
    (random : Random) (file_iv : ℕ)
    → Answers random
    → All FillsHeader random
    → (random' : Random) × (iv : ℕ) × (result : Result (List ℕ)) × (new_file_iv random file_iv
        ≡ some (random', iv, result))
      × IsNewIv iv result
      × All FillsHeader random'
unfolding new_file_iv
new_file_iv_ends [] file_iv h fill = absurd h
new_file_iv_ends (none ∷ random) file_iv h fill = (random, file_iv, fail 74, refl, tt, fill.1)
new_file_iv_ends (some buf ∷ random) file_iv h fill = elim (Bool-cases (iv_of buf == 0)) [
  | inl is_zero ↦
      let again : Answers random = elim h [
        | inl more ↦ absurd (more ((==_iff (iv_of buf) 0).0 is_zero))
        | inr later ↦ later
      ] in
      let (random', iv, result, e, new, rest) = new_file_iv_ends random 0 again fill.1 in
      (
        random',
        iv,
        result,
        ap (λ (b : Bool). if b then new_file_iv random 0 else some (random, iv_of buf, ok buf))
              is_zero
            ∙ e,
        new,
        rest,
      )
  | inr more ↦ (
    random,
    iv_of buf,
    ok buf,
    ap (λ (b : Bool). if b then new_file_iv random 0 else some (random, iv_of buf, ok buf)) more,
    (refl, (λ e. absurd (cc (more, (==_iff (iv_of buf) 0).1 e))), fill.0.0, fill.0.1),
    fill.1,
  )
]

-- The bytes `hdr` are a header, from which the vector `iv` is read under the external vector.
abbrev pub IsHeader : CipherOps → List ℕ → ℕ → ℕ → Type 0
IsHeader ops hdr external_iv iv =
    (plain : List ℕ) × (length hdr ≡ header_size)
    × (ops.stream_decode hdr external_iv ≡ some (true, plain))
    × (iv_of plain ≡ iv)
    × (iv ≢ 0)
    × (iv < 256 ^ 8)

-- What no call of `initHeader` changes.
pub record IsSameSettings {S : Type 0} (st st' : State S) : Type 0 where
  pub same_external : st'.external_iv ≡ st.external_iv
  pub same_flags : st'.last_flags ≡ st.last_flags

module _ (c : CipherFileIo) (ops : CipherOps) (cipher : IsCipher ops) {S : Type 0} (io : FileIo S)
    (holds : S → List ℕ → Type 0) (laws : IsFileIo io holds) where
  -- A header is read back.
  decoded_lem :
      (st : State S) (plain : List ℕ) (iv : ℕ)
      → iv_of plain ≡ iv
      → iv ≢ 0
      → header_decoded c ops io st (ok plain) ≡ some (record st { file_iv = iv }, ok 0)
  decoded_lem st plain iv e more =
      let not_zero : (iv_of plain == 0) ≡ false = elim (Bool-cases (iv_of plain == 0)) [
        | inl z ↦ absurd (more (sym e ∙ (==_iff (iv_of plain) 0).0 z))
        | inr m ↦ m
      ] in
      ap
        (λ (b : Bool).
          r_assert (not b)
          >> (let p : State S × Result ℕ = (record st { file_iv = iv_of plain }, ok 0) in some p))
        not_zero
      ∙ ap (λ (n : ℕ). let p : State S × Result ℕ = (record st { file_iv = n }, ok 0) in some p) e

  -- Over a base that holds a header and more: `initHeader` reads the vector of the header and changes
  -- no byte, or returns an error of the base.
  pub init_header_found :
      (st : State S) (hdr body : List ℕ) (iv : ℕ)
      → holds st.base (hdr ++ body)
      → IsHeader ops hdr st.external_iv iv
      → (st' : State S) × (result : Result ℕ) × (init_header c ops io st ≡ some (st', result))
        × IsSameSettings st st'
        × (st'.random ≡ st.random)
        × holds st'.base (hdr ++ body)
        × (((result ≡ ok 0) × (st'.file_iv ≡ iv))
            ⊎ ((errno : ℕ) × (result ≡ fail errno) × (st'.file_iv ≡ st.file_iv)))
  unfolding init_header read_header
  init_header_found st hdr body iv h (plain, size, decodes, is_iv, more, _) =
      let (b1, e1, h1) = laws.size_result st.base (hdr ++ body) h in
      let (b2, r2, e2, h2, got) = laws.read_result b1 (hdr ++ body) 0 header_size h1 in
      let long : leb header_size (length (hdr ++ body)) ≡ true =
        ground (arith, length-append hdr body) in
      let steps : init_header c ops io st
          ≡ header_read c ops io (record st { base = b1 }) (b2, r2) =
        ap (λ (o : Option (S × Result ℕ)). o >>= by_raw_size c ops io st) e1
        ∙ ap
            (λ (b : Bool).
              if b
              then read_header c ops io (record st { base = b1 })
              else create_header c ops io (record st { base = b1 }))
            long
        ∙ ap
            (λ (o : Option (S × Result (List ℕ))).
              o >>= header_read c ops io (record st { base = b1 }))
            e2 in
      elim got [
        | inl bytes ↦
            let whole : slice 0 header_size (hdr ++ body) ≡ hdr =
              take-append_left header_size hdr body size in
            let filled : take header_size (hdr ++ replicate header_size 0) ≡ hdr =
              take-append_left header_size hdr (replicate header_size 0) size in
            (
              record st { file_iv = iv; base = b2 },
              ok 0,
              steps
                  ∙ ap
                      (λ (r : Result (List ℕ)).
                        header_read c ops io (record st { base = b1 }) (b2, r))
                      (bytes ∙ ap ok whole)
                  ∙ ap
                      (λ (t : List ℕ). ops.stream_decode t st.external_iv >>= λ p.
                        header_decoded c ops io (record st { base = b2 }) (coded c ops io p))
                      filled
                  ∙ ap
                      (λ (o : Option (Bool × List ℕ)). o >>= λ p.
                        header_decoded c ops io (record st { base = b2 }) (coded c ops io p))
                      decodes
                  ∙ decoded_lem (record st { base = b2 }) plain iv is_iv more,
              record { same_external = refl; same_flags = refl },
              refl,
              h2,
              inl (refl, refl),
            )
        | inr failed ↦ (
          record st { base = b2 },
          fail failed.0,
          steps
              ∙ ap (λ (r : Result (List ℕ)). header_read c ops io (record st { base = b1 }) (b2, r))
                  failed.1,
          record { same_external = refl; same_flags = refl },
          refl,
          h2,
          inr (failed.0, refl, refl),
        )
      ]

  -- After `initHeader` on an empty file: a header is there, and `fileIV` is its vector.
  abbrev pub IsNewHeader : State S → Result ℕ → Type 0
  IsNewHeader st' result =
      ((result ≡ ok 0)
        × (hdr : List ℕ) × holds st'.base hdr
        × IsHeader ops hdr st'.external_iv st'.file_iv)
      ⊎ ((errno : ℕ) × (result ≡ fail errno))

  store_header_lem :
      (st : State S) (out plain : List ℕ)
      → holds st.base []
      → IsHeader ops out st.external_iv st.file_iv
      → (st' : State S) × (result : Result ℕ) × (store_header c ops io st (ok out)
          ≡ some (st', result))
        × IsSameSettings st st'
        × (st'.random ≡ st.random)
        × IsNewHeader st' result
  store_header_lem st out plain h is_header =
      let (b, r, e, end) = laws.write_result st.base [] 0 out h (omega (arith, is_header.1)) in
      let step =
        ap (λ (o : Option (S × Result ℕ)). o >>= λ w. some (header_written c ops io st w)) e in
      elim end [
        | inl done ↦ (
          record st { base = b },
          ok 0,
          step ∙ ap (λ (t : Result ℕ). some (header_written c ops io st (b, t))) done.1,
          record { same_external = refl; same_flags = refl },
          refl,
          inl (refl, out, subst (holds b) (put_first out) done.2, is_header),
        )
        | inr failed ↦ (
          record st { base = b },
          fail failed.0,
          step ∙ ap (λ (t : Result ℕ). some (header_written c ops io st (b, t))) failed.1,
          record { same_external = refl; same_flags = refl },
          refl,
          inr (failed.0, refl),
        )
      ]
    where
      put_first : (xs : List ℕ) → put [] 0 xs ≡ xs
      put_first [] = refl
      put_first (x ∷ xs) = write_at_end [] 0 (x ∷ xs) refl

  header_made_lem :
      (st : State S) (random' : Random) (iv : ℕ) (r : Result (List ℕ))
      → holds st.base []
      → IsNewIv iv r
      → (st' : State S) × (result : Result ℕ) × (header_made c ops io st (random', iv, r)
          ≡ some (st', result))
        × IsSameSettings st st'
        × (st'.random ≡ random')
        × IsNewHeader st' result
  header_made_lem st random' iv (fail errno) h new = (
    record st { file_iv = iv; random = random' },
    fail errno,
    refl,
    record { same_external = refl; same_flags = refl },
    refl,
    inr (errno, refl),
  )
  header_made_lem st random' iv (ok buf) h (is_iv, more, size, bytes) =
      let (out, encodes, same_size, _, decodes) =
        cipher.stream_undone buf st.external_iv (omega (arith, size)) bytes in
      let st1 : State S = record st { file_iv = iv; random = random' } in
      let is_header : IsHeader ops out st.external_iv iv = (
        buf,
        same_size ∙ size,
        decodes,
        is_iv,
        more,
        subst (λ (n : ℕ). n < 256 ^ 8) is_iv
            (subst (λ (n : ℕ). iv_of buf < 256 ^ n)
              (let e : 0 + length buf ≡ 8 = omega (arith, size) in e)
              (read_be-lt 0 0 buf bytes (omega arith) (omega (arith, size)))),
      ) in
      let (st', result, e, same, same_random, new) = store_header_lem st1 out buf h is_header in
      (
        st',
        result,
        ap
              (λ (b : Bool).
                if b
                then (ops.stream_encode buf st.external_iv >>= λ o.
                    store_header c ops io st1 (coded c ops io o))
                else some (let p : State S × Result ℕ = (st1, ok 0) in p))
              (laws.writable st.base [] h)
            ∙ ap
                (λ (o : Option (Bool × List ℕ)).
                  o >>= λ x. store_header c ops io st1 (coded c ops io x))
                encodes
            ∙ e,
        record { same_external = same.same_external; same_flags = same.same_flags },
        same_random,
        new,
      )

  -- Over an empty base file, with a cipher that keeps its laws and a `randomize` that fails or gives a
  -- vector that is not zero at last: `initHeader` ends. It writes eight bytes, from which `fileIV` is
  -- read back, or it returns an error.
  pub init_header_new :
      (st : State S)
      → holds st.base []
      → Answers st.random
      → All FillsHeader st.random
      → (st' : State S) × (result : Result ℕ) × (init_header c ops io st ≡ some (st', result))
        × IsSameSettings st st'
        × All FillsHeader st'.random
        × IsNewHeader st' result
  unfolding init_header create_header
  init_header_new st h answers fill =
      let (b1, e1, h1) = laws.size_result st.base [] h in
      let (random', iv, r, e2, new, fill') = new_file_iv_ends st.random st.file_iv answers fill in
      let (st', result, e3, same, same_random, made) =
        header_made_lem (record st { base = b1 }) random' iv r h1 new in
      (
        st',
        result,
        ap (λ (o : Option (S × Result ℕ)). o >>= by_raw_size c ops io st) e1
            ∙ ap
                (λ (o : Option (Random × ℕ × Result (List ℕ))).
                  o >>= header_made c ops io (record st { base = b1 }))
                e2
            ∙ e3,
        record { same_external = same.same_external; same_flags = same.same_flags },
        subst (All FillsHeader) (sym same_random) fill',
        made,
      )

  -- `initHeader` of a new file and `initHeader` of the same file opened anew agree on the vector:
  -- where the first returns 0, the second, from any state with the same external vector over what the
  -- first has written, reads the same `fileIV`, or returns an error of the base. It holds over a base
  -- file that is open for reading and writing (else the vector is not written), a cipher that keeps its laws and a `randomize` that fails or gives a vector that is not zero at last.
  pub init_header_again :
      (st : State S)
      → holds st.base []
      → Answers st.random
      → All FillsHeader st.random
      → (st1 : State S) × (result : Result ℕ) × (init_header c ops io st ≡ some (st1, result))
        × (((errno : ℕ) × (result ≡ fail errno))
            ⊎ ((st1.file_iv ≢ 0)
                × ((later : State S)
                    → later.base ≡ st1.base
                    → later.external_iv ≡ st.external_iv
                    → (st2 : State S) × (result2 : Result ℕ) × (init_header c ops io later
                        ≡ some (st2, result2))
                      × (((result2 ≡ ok 0) × (st2.file_iv ≡ st1.file_iv))
                          ⊎ ((errno : ℕ) × (result2 ≡ fail errno))))))
  init_header_again st h answers fill =
      let (st1, result, e, same, _, made) = init_header_new st h answers fill in
      (
        st1,
        result,
        e,
        elim made [
          | inr failed ↦ inl failed
          | inl done ↦ inr (
            done.3.4,
            λ later same_base same_external.
                let (st2, result2, e2, _, _, _, end) =
                  init_header_found later done.1 [] st1.file_iv
                    (subst (λ (b : S). holds b (done.1 ++ [])) (sym same_base)
                      (subst (holds st1.base) (sym (append-nil done.1)) done.2))
                    (subst (λ (x : ℕ). IsHeader ops done.1 x st1.file_iv)
                      (same.same_external ∙ sym same_external) done.3) in
                (
                  st2,
                  result2,
                  e2,
                  elim end [ inl read ↦ inl read | inr refused ↦ inr (refused.0, refused.1) ],
                ),
          )
        ],
      )
