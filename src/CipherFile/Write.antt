-- ===== src/CipherFile/Write.antt =====
-- A block that is written is in the file, and the others stay.
use encfs.Base.{
  ℕ, ◌+◌, ◌*◌, ◌/◌, ◌%◌, ◌≤◌, ◌<◌, max, Bool, true, false, ◌&&◌, List, [], ◌∷◌, ◌++◌, length, take,
  slice, All, IsByte, write_at, length-write_at, slice-write_at, drop_behind-write_at,
  slice_before-write_at, write_at_behind, All-write_at, Option, some, if◌then◌else◌, ◌==◌, ◌≡◌, ◌⊎◌,
  inl, inr, refl, sym, ap, ◌∙◌, arith, append-nil, dec_lt,
}
use mathlib.Core.Path.{subst}
use native.Mathlib.Nat.{mul-div_cancel}
use encfs.Cipher.Ssl.{◌>>=◌}
use encfs.Cipher.Ops.{CipherOps, IsCipher}
use encfs.BlockFile.Layer.{Result, fail, ok}
use encfs.FileIo.{FileIo}
use encfs.FileIo.Laws.{IsFileIo, put}
use encfs.CipherFile.{
  CipherFileIo, State, coded, init_header, ensure_file_iv, ensure_header, encode_data,
  block_written, write_coded, encode_with, write_one_block,
}
use encfs.CipherFile.Header.{init_header_new}
use encfs.CipherFile.Code.{HolesApart, decode_data-encode_data}
use encfs.CipherFile.Block.{
  plain_block, decode_data-plain_block, IsBody, IsStored, IsFresh, Holds, ensure_header-Ensured,
  place_lem,
}

block_order : (j k bs : ℕ) → j < k → j * bs + bs ≤ k * bs
block_order j k bs h = grind arith

order_cases : (j k : ℕ) → (j < k) ⊎ ((j ≡ k) ⊎ (k < j))
order_cases j k = elim (dec_lt j k) [
  | yes below ↦ inl below
  | no above ↦ elim (dec_lt k j) [ yes h ↦ inr (inr h) | no h ↦ inr (inl (omega arith)) ]
]

put_some :
    (file : List ℕ) (offset : ℕ) (buf : List ℕ)
    → 0 < length buf
    → put file offset buf ≡ write_at file offset buf
put_some file offset [] h = absurd (omega arith)
put_some file offset (x ∷ buf) h = refl

module _ (c : CipherFileIo) (ops : CipherOps) (cipher : IsCipher ops) {S : Type 0} (io : FileIo S)
    (holds : S → List ℕ → Type 0) (laws : IsFileIo io holds) (normal : c.reverse_encryption ≡ false)
    (pos : 0 < c.block_size) (whole : c.block_size % ops.cipher_block_size ≡ 0) where
  -- One block of the body is replaced.
  module _ (iv k : ℕ) (file body buf out : List ℕ) (body_of : IsBody c ops io holds iv file body)
      (same_size : length out ≡ length buf) (small : length buf ≤ c.block_size)
      (fits : (length buf ≡ c.block_size) ⊎ (length file ≤ k * c.block_size + length buf))
      (no_gap : k * c.block_size ≤ length file)
      (decodes : plain_block c ops io holds iv k out ≡ some (true, buf)) where
    abbrev bs : ℕ
    bs = c.block_size

    abbrev body' : List ℕ
    body' = write_at body (k * bs) out

    abbrev file' : List ℕ
    file' = write_at file (k * bs) buf

    -- A block that both writes leave as it is.
    kept :
        (j : ℕ)
        → j * bs < length body
        → slice (j * bs) bs body' ≡ slice (j * bs) bs body
        → slice (j * bs) bs file' ≡ slice (j * bs) bs file
        → plain_block c ops io holds iv j (slice (j * bs) bs body')
          ≡ some (true, slice (j * bs) bs file')
    kept j inside e f =
        ap (plain_block c ops io holds iv j) e
        ∙ body_of.decoded j inside
        ∙ ap (λ (t : List ℕ). some (let p : Bool × List ℕ = (true, t) in p)) (sym f)

    replaced-IsBody : IsBody c ops io holds iv file' body'
    replaced-IsBody = record {
      same_length =
          length-write_at body (k * bs) out
          ∙ ap (λ (n : ℕ). max n (k * bs + length out)) body_of.same_length
          ∙ ap (λ (n : ℕ). max (length file) (k * bs + n)) same_size
          ∙ sym (length-write_at file (k * bs) buf);
      decoded = λ j inside. elim (order_cases j k) [
        | inl before ↦
            let apart_by = block_order j k bs before in
            kept j (omega (arith, apart_by, body_of.same_length, pos, no_gap))
              (slice_before-write_at body (j * bs) bs (k * bs) out (omega (arith, apart_by))
                (omega (arith, body_of.same_length, no_gap)))
              (slice_before-write_at file (j * bs) bs (k * bs) buf (omega (arith, apart_by)) no_gap)
        | inr (inl here) ↦
            subst
              (λ (i : ℕ).
                plain_block c ops io holds iv i (slice (i * bs) bs body')
                ≡ some (true, slice (i * bs) bs file'))
              (sym here)
              (ap (plain_block c ops io holds iv k)
                  (slice-write_at (k * bs) bs body out (omega (arith, same_size, small)) fits')
                ∙ decodes
                ∙ ap (λ (t : List ℕ). some (let p : Bool × List ℕ = (true, t) in p))
                    (sym (slice-write_at (k * bs) bs file buf small fits)))
        | inr (inr behind) ↦
            let apart_by = block_order k j bs behind in
            kept j
              (omega (arith, apart_by, inside, length-write_at body (k * bs) out, same_size, small))
              (ap (take bs) (
                drop_behind-write_at body (j * bs) (k * bs) out
                  (omega (arith, apart_by, same_size, small))))
              (ap (take bs)
                (drop_behind-write_at file (j * bs) (k * bs) buf (omega (arith, apart_by, small))))
      ];
    }
      where
        fits' : (length out ≡ c.block_size) ⊎ (length body ≤ k * c.block_size + length out)
        fits' = elim fits [
          | inl full ↦ inl (same_size ∙ full)
          | inr last ↦ inr (omega (arith, last, same_size, body_of.same_length))
        ]

  -- How a block is written.
  abbrev pub IsWrittenBlock : List ℕ → State S → Result ℕ → Type 0
  IsWrittenBlock file st' result =
      ((n : ℕ) × (result ≡ ok n) × Holds c ops io holds st' file)
      ⊎ ((errno : ℕ) × (result ≡ fail errno))

  abbrev Ends : Option (State S × Result ℕ) → List ℕ → Type 0
  Ends run file =
      (st' : State S) × (result : Result ℕ) × (run ≡ some (st', result))
      × IsWrittenBlock file st' result

  module _ (file : List ℕ) (k : ℕ) (buf : List ℕ) (bytes : All IsByte file)
      (buf_bytes : All IsByte buf) (some_data : 0 < length buf) (small : length buf ≤ c.block_size)
      (fits : (length buf ≡ c.block_size) ⊎ (length file ≤ k * c.block_size + length buf))
      (no_gap : k * c.block_size ≤ length file) (apart : HolesApart c ops buf) where
    abbrev offset : ℕ
    offset = k * c.block_size

    write_coded_lem :
        (st : State S) (hdr body : List ℕ) (iv : ℕ) (out : List ℕ)
        → IsStored c ops io holds st file hdr body iv
        → length out ≡ length buf
        → plain_block c ops io holds iv k out ≡ some (true, buf)
        → Ends (write_coded c ops io st offset (ok out)) (write_at file offset buf)
    write_coded_lem st hdr body iv out v same_size decodes =
        let (b, r, e, end) =
          laws.write_result st.base (hdr ++ body) (length hdr + offset) out v.stored
            (omega (arith, same_size, some_data)) in
        let st1 : State S = record st { base = b } in
        let steps =
          ap (λ (i : ℕ). io.write st.base i out >>= λ w. some (block_written c ops io st w))
            (place_lem c ops cipher io holds laws st hdr iv offset v.head)
          ∙ ap (λ (o : Option (S × Result ℕ)). o >>= λ w. some (block_written c ops io st w)) e in
        elim end [
          | inl done ↦ (
            st1,
            ok done.0,
            steps ∙ ap (λ (t : Result ℕ). some (block_written c ops io st (b, t))) done.1,
            inl (
              done.0,
              refl,
              record {
                bytes = All-write_at IsByte file offset buf (omega arith) bytes buf_bytes;
                view = inl (
                  hdr,
                  write_at body offset out,
                  iv,
                  record {
                    stored =
                        subst (holds b)
                          (put_some (hdr ++ body) (length hdr + offset) out
                              (omega (arith, same_size, some_data))
                            ∙ write_at_behind hdr body offset out)
                          done.2;
                    head = v.head;
                    body_of =
                        replaced-IsBody iv k file body buf out v.body_of same_size small fits no_gap
                          decodes;
                  },
                );
              },
            ),
          )
          | inr failed ↦ (
            st1,
            fail failed.0,
            steps ∙ ap (λ (t : Result ℕ). some (block_written c ops io st (b, t))) failed.1,
            inr (failed.0, refl),
          )
        ]

    encode_with_lem :
        (st : State S) (hdr body : List ℕ) (iv : ℕ) (done : ℕ)
        → IsStored c ops io holds st file hdr body iv
        → st.file_iv ≡ iv
        → Ends (encode_with c ops io offset buf (st, ok done)) (write_at file offset buf)
    encode_with_lem st hdr body iv done v known =
        let (out, encodes, same_size, decodes) =
          decode_data-encode_data c ops cipher io normal whole iv k buf apart some_data buf_bytes in
        let (st', result, e, end) =
          write_coded_lem st hdr body iv out v same_size
            (sym (decode_data-plain_block c ops io holds iv k out normal) ∙ decodes) in
        (
          st',
          result,
          ap
                (λ (o : Option (Bool × List ℕ)).
                  o >>= λ x. write_coded c ops io st offset (coded c ops io x))
                (ap (λ (i : ℕ). encode_data c ops io i (offset / c.block_size) buf) known
                  ∙ ap (λ (j : ℕ). encode_data c ops io iv j buf) (mul-div_cancel k pos)
                  ∙ encodes)
              ∙ e,
          end,
        )

    -- A file that has no header yet gets one, and the block is its first.
    fresh_lem :
        (st : State S)
        → IsFresh c ops io holds st file
        → Ends (write_one_block c ops io st offset buf) (write_at file offset buf)
    unfolding write_one_block
    fresh_lem st v =
        let (st1, r, e, same, fill, made) =
          init_header_new c ops cipher io holds laws st v.stored v.answers v.fill in
        let started =
          ap
            (λ (r : Bool).
              if c.have_header && r
              then some (let p : State S × Result ℕ = (st, fail 1) in p)
              else (ensure_header c ops io st >>= encode_with c ops io offset buf))
            normal
          ∙ ap
              (λ (b : Bool).
                if b && false
                then some (let p : State S × Result ℕ = (st, fail 1) in p)
                else ((if b
                      then ensure_file_iv c ops io st
                      else some (let p : State S × Result ℕ = (st, ok 0) in p))
                    >>= encode_with c ops io offset buf))
              v.headers
          ∙ ap
              (λ (n : ℕ).
                (if n == 0
                  then init_header c ops io st
                  else some (let p : State S × Result ℕ = (st, ok 0) in p))
                >>= encode_with c ops io offset buf)
              v.unknown
          ∙ ap (λ (o : Option (State S × Result ℕ)). o >>= encode_with c ops io offset buf) e in
        elim made [
          | inl done ↦
              let stored : IsStored c ops io holds st1 file done.1 [] st1.file_iv = record {
                stored = subst (holds st1.base) (sym (append-nil done.1)) done.2;
                head = inr (v.headers, done.3, inr refl);
                body_of = record {
                  same_length = sym v.empty;
                  decoded = λ j inside. absurd (omega (arith, inside));
                };
              } in
              let (st', result, e1, end) =
                encode_with_lem st1 done.1 [] st1.file_iv 0 stored refl in
              (
                st',
                result,
                started
                    ∙ ap (λ (t : Result ℕ). encode_with c ops io offset buf (st1, t)) done.0
                    ∙ e1,
                end,
              )
          | inr failed ↦ (
            st1,
            fail failed.0,
            started ∙ ap (λ (t : Result ℕ). encode_with c ops io offset buf (st1, t)) failed.1,
            inr (failed.0, refl),
          )
        ]

    stored_lem :
        (st : State S) (hdr body : List ℕ) (iv : ℕ)
        → IsStored c ops io holds st file hdr body iv
        → Ends (write_one_block c ops io st offset buf) (write_at file offset buf)
    unfolding write_one_block
    stored_lem st hdr body iv v =
        let (st1, r, e, (stored, end)) =
          ensure_header-Ensured c ops cipher io holds laws st file hdr body iv v in
        let started =
          ap
            (λ (r : Bool).
              if c.have_header && r
              then some (let p : State S × Result ℕ = (st, fail 1) in p)
              else (ensure_header c ops io st >>= encode_with c ops io offset buf))
            normal
          ∙ forward c.have_header
          ∙ ap (λ (o : Option (State S × Result ℕ)). o >>= encode_with c ops io offset buf) e in
        elim end [
          | inl ready ↦
              let (st', result, e1, end1) = encode_with_lem st1 hdr body iv 0 stored ready.1 in
              (
                st',
                result,
                started
                    ∙ ap (λ (t : Result ℕ). encode_with c ops io offset buf (st1, t)) ready.0
                    ∙ e1,
                end1,
              )
          | inr failed ↦ (
            st1,
            fail failed.0,
            started ∙ ap (λ (t : Result ℕ). encode_with c ops io offset buf (st1, t)) failed.1,
            inr (failed.0, refl),
          )
        ]
      where
        forward :
            (b : Bool)
            → (if b && false
                then some (let p : State S × Result ℕ = (st, fail 1) in p)
                else (ensure_header c ops io st >>= encode_with c ops io offset buf))
              ≡ (ensure_header c ops io st >>= encode_with c ops io offset buf)
        forward true = refl
        forward false = refl

  -- Over a base file that is open for reading and writing, with a cipher that keeps its laws, in a file
  -- system that is not reverse, whose block size is a multiple of the cipher's: `writeOneBlock` of some
  -- bytes as block `k`, full or at the end of the file, with no gap before it, leaves a state that
  -- stands for the file with these bytes, or returns an error. The first write makes the header. If
  -- holes are allowed, the bytes must not be coded to zeros under any vector, unless they are zeros.
  pub write_one_block_lem :
      (st : State S) (file : List ℕ) (k : ℕ) (buf : List ℕ)
      → Holds c ops io holds st file
      → All IsByte buf
      → 0 < length buf
      → length buf ≤ c.block_size
      → (length buf ≡ c.block_size) ⊎ (length file ≤ k * c.block_size + length buf)
      → k * c.block_size ≤ length file
      → HolesApart c ops buf
      → (st' : State S) × (result : Result ℕ) × (write_one_block c ops io st (k * c.block_size) buf
          ≡ some (st', result))
        × IsWrittenBlock (write_at file (k * c.block_size) buf) st' result
  write_one_block_lem st file k buf h buf_bytes some_data small fits no_gap apart = elim h.view [
    | inl view ↦
        stored_lem file k buf h.bytes buf_bytes some_data small fits no_gap apart st view.0 view.1
          view.2 view.3
    | inr fresh ↦ fresh_lem file k buf h.bytes buf_bytes some_data small fits no_gap apart st fresh
  ]
