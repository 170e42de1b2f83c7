-- ===== src/CipherFile/Move.antt =====
-- `setIV` under a new external vector: the header is written again, and the file stays.
use encfs.Base.{
  ℕ, ◌+◌, ◌^◌, ◌*◌, ◌<◌, Bool, true, false, List, [], ◌∷◌, ◌++◌, length, All, IsByte, write_be,
  read_be, write_at_over, length-write_be, write_be-IsByte, read_be-write_be, ◌>>>◌, Option, some,
  if◌then◌else◌, ◌≡◌, ◌≢◌, ◌⊎◌, inl, inr, refl, sym, ap, ◌∙◌, arith,
}
use mathlib.Core.Path.{subst}
use encfs.Cipher.Ssl.{◌>>=◌}
use encfs.Cipher.Ops.{CipherOps, IsCipher}
use encfs.BlockFile.Layer.{Result, ok}
use encfs.FileIo.{FileIo}
use encfs.FileIo.Laws.{IsFileIo, put}
use encfs.CipherFile.{
  CipherFileIo, State, header_size, ensure_file_iv, write_header, put_header, is_ok, header_moved,
  move_header,
}
use encfs.CipherFile.Block.{IsBody, IsStored, Holds, ensure_header-Ensured}

put_over :
    (front buf data' : List ℕ)
    → length data' ≡ length front
    → put (front ++ buf) 0 data' ≡ data' ++ buf
put_over [] buf [] e = refl
put_over (x ∷ front) buf [] e = absurd (omega arith)
put_over front buf (y ∷ data') e = write_at_over front buf (y ∷ data') e

module _ (c : CipherFileIo) (ops : CipherOps) (cipher : IsCipher ops) {S : Type 0} (io : FileIo S)
    (holds : S → List ℕ → Type 0) (laws : IsFileIo io holds) (file : List ℕ)
    (bytes : All IsByte file) (headers : c.have_header ≡ true) where
  abbrev Ends : Option (State S × Bool) → ℕ → Type 0
  Ends run iv =
      (st' : State S) × (done : Bool) × (run ≡ some (st', done))
      × (((done ≡ true) × (st'.external_iv ≡ iv) × Holds c ops io holds st' file) ⊎ (done ≡ false))

  -- The header, written again under the vector of the state.
  write_header_lem :
      (st : State S) (hdr body : List ℕ) (iv old_iv : ℕ)
      → holds st.base (hdr ++ body)
      → length hdr ≡ header_size
      → st.file_iv ≡ iv
      → iv ≢ 0
      → iv < 256 ^ 8
      → IsBody c ops io holds iv file body
      → Ends
          (write_header c ops io st >>= header_moved c ops io old_iv st.external_iv)
          st.external_iv
  unfolding write_header read_be
  write_header_lem st hdr body iv old_iv h size known more bound body_of =
      let buf = write_be header_size st.file_iv [] in
      let buf_size : length buf ≡ header_size =
        length-write_be header_size st.file_iv [] ∙ omega arith in
      let (out, encodes, same_size, _, decodes) =
        cipher.stream_undone buf st.external_iv (omega (arith, buf_size))
          (write_be-IsByte header_size st.file_iv [] tt) in
      let (b, r, e, end) =
        laws.write_result st.base (hdr ++ body) 0 out h (omega (arith, same_size, buf_size)) in
      let st1 : State S = record st { file_iv = st.file_iv >>> 64; base = b } in
      let steps =
        ap
          (λ (o : Option (Bool × List ℕ)).
            o
            >>= put_header c ops io (record st { file_iv = st.file_iv >>> 64 })
            >>= header_moved c ops io old_iv st.external_iv)
          encodes
        ∙ ap
            (λ (o : Option (S × Result ℕ)).
              o
              >>= (λ w. some (
                  let p : State S × Bool =
                    (record st { file_iv = st.file_iv >>> 64; base = w.0 }, is_ok c ops io w.1) in
                  p))
              >>= header_moved c ops io old_iv st.external_iv)
            e in
      elim end [
        | inl done ↦
            let (b2, e2, h2) =
              laws.set_iv_result b (put (hdr ++ body) 0 out) st.external_iv done.2 in
            (
              record st1 { base = b2 },
              true,
              steps
                  ∙ ap
                      (λ (t : Result ℕ).
                        header_moved c ops io old_iv st.external_iv
                          (let p : State S × Bool = (st1, is_ok c ops io t) in p))
                      done.1
                  ∙ ap
                      (λ (o : Option (S × Bool)). o >>= λ w.
                        some (let p : State S × Bool = (record st1 { base = w.0 }, w.1) in p))
                      e2,
              inl (
                refl,
                refl,
                record {
                  bytes = bytes;
                  view = inl (
                    out,
                    body,
                    iv,
                    record {
                      stored =
                          subst (holds b2) (put_over hdr body out (same_size ∙ buf_size ∙ sym size))
                            h2;
                      head = inr (
                        headers,
                        (
                          buf,
                          same_size ∙ buf_size,
                          decodes,
                          read_be-write_be 64 8 st.file_iv 0 [] (omega (arith, known, bound))
                                (omega (arith, known, bound))
                              ∙ known',
                          more,
                          bound,
                        ),
                        inl (omega (arith, known, bound)),
                      );
                      body_of = body_of;
                    },
                  );
                },
              ),
            )
        | inr failed ↦ (
          record st1 { external_iv = old_iv },
          false,
          steps
              ∙ ap
                  (λ (t : Result ℕ).
                    header_moved c ops io old_iv st.external_iv
                      (let p : State S × Bool = (st1, is_ok c ops io t) in p))
                  failed.1,
          inr refl,
        )
      ]
    where
      known' : 0 * 256 ^ 8 + st.file_iv ≡ iv
      known' = omega (arith, known)

  moved :
      (st : State S) (hdr body : List ℕ) (file_iv iv : ℕ)
      → IsStored c ops io holds st file hdr body file_iv
      → Ends (ensure_file_iv c ops io st >>= move_header c ops io iv) iv
  moved st hdr body file_iv iv v =
      let (st1, r, e, (stored, end)) =
        ensure_header-Ensured c ops cipher io holds laws st file hdr body file_iv v in
      let started =
        ap
          (λ (b : Bool).
            (if b
              then ensure_file_iv c ops io st
              else some (let p : State S × Result ℕ = (st, ok 0) in p))
            >>= move_header c ops io iv)
          (sym headers)
        ∙ ap (λ (o : Option (State S × Result ℕ)). o >>= move_header c ops io iv) e in
      elim end [
        | inr failed ↦ (
          st1,
          false,
          started ∙ ap (λ (t : Result ℕ). move_header c ops io iv (st1, t)) failed.1,
          inr refl,
        )
        | inl ready ↦ elim stored.head [
          | inl plain ↦ absurd (cc (plain.0, headers))
          | inr headed ↦
              let (st', done, e1, end1) =
                write_header_lem (record st1 { external_iv = iv }) hdr body file_iv st1.external_iv
                  stored.stored headed.1.1 ready.1 headed.1.4 headed.1.5 stored.body_of in
              (
                st',
                done,
                started ∙ ap (λ (t : Result ℕ). move_header c ops io iv (st1, t)) ready.0 ∙ e1,
                end1,
              )
        ]
      ]
