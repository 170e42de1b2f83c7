-- ===== src/CipherFile/Block.antt =====
-- The file that a `CipherFileIO` stands for: a block that is read is the one of the file, and a block
-- that is written is in the file.
use encfs.Base.{
  ℕ, ◌+◌, ◌*◌, ◌/◌, ◌≤◌, ◌<◌, Bool, true, false, not, ◌&&◌, List, [], ◌∷◌, ◌++◌, length, take, drop,
  slice, All, IsByte, bit_xor, length-slice, drop-append_left, slice_nil, drop-drop,
}
use encfs.Base.{
  Option, some, if◌then◌else◌, ◌==◌, ◌≡◌, ◌⊎◌, inl, inr, refl, sym, ap, ◌∙◌, arith, ==_iff,
}
use mathlib.Core.Path.{subst}
use native.Mathlib.Nat.{mul-div_cancel}
use encfs.Cipher.Ssl.{◌>>=◌}
use encfs.Cipher.Ops.{CipherOps, IsCipher}
use encfs.BlockFile.Layer.{Result, fail, ok}
use encfs.MacFile.{all_zero}
use encfs.FileIo.{FileIo}
use encfs.FileIo.Laws.{IsFileIo}
use encfs.CipherFile.{
  CipherFileIo, State, header_size, coded, init_header, ensure_file_iv, ensure_header, decode_data,
  block_read, stream_read, decode_with, decode_read, read_one_block,
}
use encfs.CipherFile.Header.{Answers, FillsHeader, IsHeader, init_header_found}

module _ (c : CipherFileIo) (ops : CipherOps) {S : Type 0} (io : FileIo S)
    (holds : S → List ℕ → Type 0) where
  -- What block `k` of a file with the vector `iv` stands for, by the cipher alone: a whole block goes
  -- through the block cipher, but for a hole, and what is shorter through the stream cipher.
  abbrev pub plain_block : ℕ → ℕ → List ℕ → Option (Bool × List ℕ)
  plain_block iv k block =
      if length block == c.block_size
      then (if c.allow_holes && all_zero block
          then some (true, block)
          else ops.block_decode block (bit_xor k iv))
      else ops.stream_decode block (bit_xor k iv)

  -- In a file system that is not reverse, this is what `readOneBlock` makes of it.
  pub decode_data-plain_block :
      (iv k : ℕ) (block : List ℕ)
      → c.reverse_encryption ≡ false
      → decode_data c ops io iv k block ≡ plain_block iv k block
  unfolding decode_data block_read stream_read
  decode_data-plain_block iv k block normal =
      by_tests (length block == c.block_size) c.reverse_encryption (c.allow_holes && all_zero block)
        normal
    where
      iv64 : ℕ
      iv64 = bit_xor k iv

      by_tests :
          (full reverse hole : Bool)
          → reverse ≡ false
          → (if not full
              then (if reverse then ops.stream_encode block iv64 else ops.stream_decode block iv64)
              else if reverse
              then ops.block_encode block iv64
              else if hole
              then (let p : Option (Bool × List ℕ) = some (true, block) in p)
              else ops.block_decode block iv64)
            ≡ (if full
                then (if hole then some (true, block) else ops.block_decode block iv64)
                else ops.stream_decode block iv64)
      by_tests full true hole e = absurd (cc e)
      by_tests true false hole e = refl
      by_tests false false hole e = refl

  -- Behind the header, each block of `body` stands for the block of `file`.
  pub record IsBody (iv : ℕ) (file body : List ℕ) : Type 0 where
    pub same_length : length body ≡ length file
    pub decoded :
        (k : ℕ)
        → k * c.block_size < length body
        → plain_block iv k (slice (k * c.block_size) c.block_size body)
          ≡ some (true, slice (k * c.block_size) c.block_size file)

  -- The header gives the vector, which `fileIV` is as soon as it is known; a file without headers has no
  -- header, and a vector that stays.
  abbrev pub IsHead : State S → List ℕ → ℕ → Type 0
  IsHead st hdr iv =
      ((c.have_header ≡ false) × (length hdr ≡ 0) × (st.file_iv ≡ iv))
      ⊎ ((c.have_header ≡ true)
          × IsHeader ops hdr st.external_iv iv
          × ((st.file_iv ≡ 0) ⊎ (st.file_iv ≡ iv)))

  pub record IsStored (st : State S) (file hdr body : List ℕ) (iv : ℕ) : Type 0 where
    pub stored : holds st.base (hdr ++ body)
    pub head : IsHead st hdr iv
    pub body_of : IsBody iv file body

  -- An empty file that has no header yet.
  pub record IsFresh (st : State S) (file : List ℕ) : Type 0 where
    pub headers : c.have_header ≡ true
    pub empty : length file ≡ 0
    pub stored : holds st.base []
    pub unknown : st.file_iv ≡ 0
    pub answers : Answers st.random
    pub fill : All FillsHeader st.random

  -- The state stands for the file.
  pub record Holds (st : State S) (file : List ℕ) : Type 0 where
    pub bytes : All IsByte file
    pub view :
        ((hdr : List ℕ) × (body : List ℕ) × (iv : ℕ) × IsStored st file hdr body iv)
        ⊎ IsFresh st file

module _ (c : CipherFileIo) (ops : CipherOps) (cipher : IsCipher ops) {S : Type 0} (io : FileIo S)
    (holds : S → List ℕ → Type 0) (laws : IsFileIo io holds) where
  -- How a layer gets at the vector: `fileIV` is known, or the header could not be read.
  abbrev pub Ensured : List ℕ → List ℕ → List ℕ → ℕ → State S → Result ℕ → Type 0
  Ensured file hdr body iv st' result =
      IsStored c ops io holds st' file hdr body iv
      × (((result ≡ ok 0) × (st'.file_iv ≡ iv)) ⊎ ((errno : ℕ) × (result ≡ fail errno)))

  pub ensure_header-Ensured :
      (st : State S) (file hdr body : List ℕ) (iv : ℕ)
      → IsStored c ops io holds st file hdr body iv
      → (st' : State S) × (result : Result ℕ) × (ensure_header c ops io st ≡ some (st', result))
        × Ensured file hdr body iv st' result
  ensure_header-Ensured st file hdr body iv h = elim h.head [
    | inl plain ↦ (
      st,
      ok 0,
      ap
          (λ (b : Bool).
            if b
            then ensure_file_iv c ops io st
            else some (let p : State S × Result ℕ = (st, ok 0) in p))
          plain.0,
      (h, inl (refl, plain.2)),
    )
    | inr headed ↦
        let (st', result, e, ensured) = by_iv headed.0 headed.1 headed.2 (st.file_iv == 0) refl in
        (
          st',
          result,
          ap
                (λ (b : Bool).
                  if b
                  then ensure_file_iv c ops io st
                  else some (let p : State S × Result ℕ = (st, ok 0) in p))
                headed.0
              ∙ e,
          ensured,
        )
  ]
    where
      by_iv :
          c.have_header ≡ true
          → IsHeader ops hdr st.external_iv iv
          → (st.file_iv ≡ 0) ⊎ (st.file_iv ≡ iv)
          → (b : Bool) → (st.file_iv == 0) ≡ b
          → (st' : State S) × (result : Result ℕ) × ((if b
                then init_header c ops io st
                else some (let p : State S × Result ℕ = (st, ok 0) in p))
              ≡ some (st', result))
            × Ensured file hdr body iv st' result
      by_iv headers is_header known true z =
          let (st', result, e, same, _, h', end) =
            init_header_found c ops cipher io holds laws st hdr body iv h.stored is_header in
          let is_header' =
            subst (λ (x : ℕ). IsHeader ops hdr x iv) (sym same.same_external) is_header in
          (
            st',
            result,
            e,
            elim end [
              | inl read ↦ (
                record {
                  stored = h';
                  head = inr (headers, is_header', inr read.1);
                  body_of = h.body_of;
                },
                inl read,
              )
              | inr failed ↦ (
                record {
                  stored = h';
                  head = inr (headers, is_header', inl (failed.2 ∙ (==_iff st.file_iv 0).0 z));
                  body_of = h.body_of;
                },
                inr (failed.0, failed.1),
              )
            ],
          )
      by_iv headers is_header (inr known) false m = (st, ok 0, refl, (h, inl (refl, known)))
      by_iv headers is_header (inl unknown) false m =
          absurd (cc (m, (==_iff st.file_iv 0).1 unknown))

  -- Where the bytes behind the header stand in the base file.
  abbrev pub place : (offset : ℕ) → ℕ
  place offset = if c.have_header then offset + header_size else offset

  pub place_lem :
      (st : State S) (hdr : List ℕ) (iv offset : ℕ)
      → IsHead c ops io holds st hdr iv
      → place offset ≡ length hdr + offset
  place_lem st hdr iv offset head = elim head [
    | inl plain ↦
        ap (λ (b : Bool). if b then offset + header_size else offset) plain.0
        ∙ omega (arith, plain.1)
    | inr headed ↦
        ap (λ (b : Bool). if b then offset + header_size else offset) headed.0
        ∙ omega (arith, headed.1.1)
  ]

  slice_behind :
      (hdr body : List ℕ) (offset n : ℕ)
      → slice (length hdr + offset) n (hdr ++ body) ≡ slice offset n body
  slice_behind hdr body offset n = ap (take n) (
      sym (drop-drop offset (length hdr) (hdr ++ body))
      ∙ ap (drop offset) (drop-append_left (length hdr) hdr body refl))

  module _ (normal : c.reverse_encryption ≡ false) (pos : 0 < c.block_size) where
    -- How a block is read.
    abbrev IsReadBlock : List ℕ → List ℕ → State S → Result (List ℕ) → Type 0
    IsReadBlock file block st' result =
        Holds c ops io holds st' file
        × ((result ≡ ok block) ⊎ ((errno : ℕ) × (result ≡ fail errno)))

    read_place :
        (offset : ℕ)
        → (if c.have_header && not c.reverse_encryption then offset + header_size else offset)
          ≡ place offset
    read_place offset =
        ap (λ (r : Bool). if c.have_header && not r then offset + header_size else offset) normal
        ∙ by_header c.have_header
      where
        by_header :
            (b : Bool)
            → (if b && true then offset + header_size else offset)
              ≡ (if b then offset + header_size else offset)
        by_header true = refl
        by_header false = refl

    decode_read_lem :
        (st : State S) (file hdr body : List ℕ) (iv k : ℕ) (block : List ℕ)
        → All IsByte file
        → IsStored c ops io holds st file hdr body iv
        → slice (k * c.block_size) c.block_size body ≡ block
        → (st' : State S) × (result : Result (List ℕ)) × (decode_read c ops io st k
              (st.base, ok block)
            ≡ some (st', result))
          × IsReadBlock file (slice (k * c.block_size) c.block_size file) st' result
    decode_read_lem st file hdr body iv k [] bytes h e =
        let size = length-slice (k * c.block_size) c.block_size body in
        let behind : length file ≤ k * c.block_size =
          omega (arith, size, ap length e, h.body_of.same_length, pos) in
        (
          st,
          ok [],
          refl,
          (
            record { bytes = bytes; view = inl (hdr, body, iv, h) },
            inl (ap ok (sym (slice_nil (k * c.block_size) c.block_size file behind))),
          ),
        )
    decode_read_lem st file hdr body iv k (x ∷ buf) bytes h e =
        let size = length-slice (k * c.block_size) c.block_size body in
        let inside : k * c.block_size < length body = omega (arith, size, ap length e) in
        let (st', result, e1, (stored, end)) = ensure_header-Ensured st file hdr body iv h in
        let held : Holds c ops io holds st' file = record {
          bytes = bytes;
          view = inl (hdr, body, iv, stored);
        } in
        let step =
          ap (λ (o : Option (State S × Result ℕ)). o >>= decode_with c ops io k (x ∷ buf)) e1 in
        elim end [
          | inl ready ↦ (
            st',
            ok (slice (k * c.block_size) c.block_size file),
            step
                ∙ ap (λ (r : Result ℕ). decode_with c ops io k (x ∷ buf) (st', r)) ready.0
                ∙ ap
                    (λ (o : Option (Bool × List ℕ)). o >>= λ p.
                      some (let q : State S × Result (List ℕ) = (st', coded c ops io p) in q))
                    (ap (λ (i : ℕ). decode_data c ops io i k (x ∷ buf)) ready.1
                      ∙ ap (decode_data c ops io iv k) (sym e)
                      ∙ decode_data-plain_block c ops io holds iv k
                          (slice (k * c.block_size) c.block_size body) normal
                      ∙ h.body_of.decoded k inside),
            (held, inl refl),
          )
          | inr failed ↦ (
            st',
            fail failed.0,
            step ∙ ap (λ (r : Result ℕ). decode_with c ops io k (x ∷ buf) (st', r)) failed.1,
            (held, inr (failed.0, refl)),
          )
        ]

    by_place :
        (st : State S) (offset at n k : ℕ)
        → (if c.have_header && not c.reverse_encryption then offset + header_size else offset) ≡ at
        → offset / c.block_size ≡ k
        → read_one_block c ops io st offset n ≡ (io.read st.base at n >>= decode_read c ops io st k)
    unfolding read_one_block
    by_place st offset at n k e f =
        ap (λ (i : ℕ). io.read st.base i n >>= decode_read c ops io st (offset / c.block_size)) e
        ∙ ap (λ (j : ℕ). io.read st.base at n >>= decode_read c ops io st j) f

    -- Over a base file that is open for reading and writing, with a cipher that keeps its laws, in a file
    -- system that is not reverse: `readOneBlock` of block `k` gives the bytes of the block in the file that the state stands
    -- for, as far as there are any, or an error. The state stands for the same file after it.
    pub read_one_block_lem :
        (st : State S) (file : List ℕ) (k : ℕ)
        → Holds c ops io holds st file
        → (st' : State S) × (result : Result (List ℕ)) × (read_one_block c ops io st
              (k * c.block_size)
              c.block_size
            ≡ some (st', result))
          × IsReadBlock file (slice (k * c.block_size) c.block_size file) st' result
    read_one_block_lem st file k h = elim h.view [
      | inl view ↦ stored_lem view.0 view.1 view.2 view.3
      | inr fresh ↦ fresh_lem fresh
    ]
      where
        bs : ℕ
        bs = c.block_size

        number : k * bs / bs ≡ k
        number = mul-div_cancel k pos

        stored_lem :
            (hdr body : List ℕ) (iv : ℕ)
            → IsStored c ops io holds st file hdr body iv
            → (st' : State S) × (result : Result (List ℕ)) × (read_one_block c ops io st (k * bs) bs
                ≡ some (st', result))
              × IsReadBlock file (slice (k * bs) bs file) st' result
        stored_lem hdr body iv v =
            let at = read_place (k * bs) ∙ place_lem st hdr iv (k * bs) v.head in
            let (b, r, e, h1, got) =
              laws.read_result st.base (hdr ++ body) (length hdr + k * bs) bs v.stored in
            let st1 : State S = record st { base = b } in
            let v1 : IsStored c ops io holds st1 file hdr body iv = record {
              stored = h1;
              head = v.head;
              body_of = v.body_of;
            } in
            let steps =
              by_place st (k * bs) (length hdr + k * bs) bs k at number
              ∙ ap (λ (o : Option (S × Result (List ℕ))). o >>= decode_read c ops io st k) e in
            elim got [
              | inl read ↦
                  let (st', result, e1, held) =
                    decode_read_lem st1 file hdr body iv k (slice (k * bs) bs body) h.bytes v1
                      refl in
                  (
                    st',
                    result,
                    steps
                        ∙ ap (λ (t : Result (List ℕ)). decode_read c ops io st k (b, t))
                            (read ∙ ap ok (slice_behind hdr body (k * bs) bs))
                        ∙ same_step b (slice (k * bs) bs body)
                        ∙ e1,
                    held,
                  )
              | inr failed ↦ (
                st1,
                fail failed.0,
                steps ∙ ap (λ (t : Result (List ℕ)). decode_read c ops io st k (b, t)) failed.1,
                (record { bytes = h.bytes; view = inl (hdr, body, iv, v1) }, inr (failed.0, refl)),
              )
            ]
          where
            same_step :
                (b : S) (block : List ℕ)
                → decode_read c ops io st k (b, ok block)
                  ≡ decode_read c ops io (record st { base = b }) k (b, ok block)
            same_step b [] = refl
            same_step b (x ∷ block) = refl

        fresh_lem :
            IsFresh c ops io holds st file
            → (st' : State S) × (result : Result (List ℕ)) × (read_one_block c ops io st (k * bs) bs
                ≡ some (st', result))
              × IsReadBlock file (slice (k * bs) bs file) st' result
        fresh_lem v =
            let (b, r, e, h1, got) = laws.read_result st.base [] (place (k * bs)) bs v.stored in
            let st1 : State S = record st { base = b } in
            let v1 : IsFresh c ops io holds st1 file = record {
              headers = v.headers;
              empty = v.empty;
              stored = h1;
              unknown = v.unknown;
              answers = v.answers;
              fill = v.fill;
            } in
            let held : Holds c ops io holds st1 file = record { bytes = h.bytes; view = inr v1 } in
            let steps =
              by_place st (k * bs) (place (k * bs)) bs k (read_place (k * bs)) number
              ∙ ap (λ (o : Option (S × Result (List ℕ))). o >>= decode_read c ops io st k) e in
            elim got [
              | inl read ↦ (
                st1,
                ok [],
                steps
                    ∙ ap (λ (t : Result (List ℕ)). decode_read c ops io st k (b, t))
                        (read ∙ ap ok (slice_nil (place (k * bs)) bs [] (omega arith))),
                (held, inl (ap ok (sym (slice_nil (k * bs) bs file (omega (arith, v.empty)))))),
              )
              | inr failed ↦ (
                st1,
                fail failed.0,
                steps ∙ ap (λ (t : Result (List ℕ)). decode_read c ops io st k (b, t)) failed.1,
                (held, inr (failed.0, refl)),
              )
            ]
