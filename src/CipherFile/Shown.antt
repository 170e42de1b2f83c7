-- ===== src/CipherFile/Shown.antt =====
-- A reverse file system: `BlockFileIO::read` over `CipherFileIO::readOneBlock` gives the coded file, which
-- `read` shows behind the header.
use encfs.Base.{
  ℕ, ◌+◌, ◌-◌, ◌*◌, ◌/◌, ◌≤◌, ◌<◌, Bool, true, false, not, ◌&&◌, List, [], ◌∷◌, ◌++◌, length, take,
  slice, All, IsByte, bit_xor, write_le, length-slice, slice_nil, Option, some, if◌then◌else◌, ltb,
  ◌==◌, ◌≡◌, ◌≢◌, ◌⊎◌, inl, inr, refl, sym, ap, ◌∙◌, arith, ==_iff, Bool-cases,
}
use mathlib.Core.Path.{subst}
use native.Mathlib.Nat.{mod-add-div'}
use encfs.Cipher.Ssl.{◌>>=◌}
use encfs.Cipher.Ops.{CipherOps, IsCipher}
use encfs.BlockFile.Layer.{Result, fail, ok, IsReader}
use encfs.BlockFile
use encfs.BlockFile.Read.{read-IsRead}
use encfs.MacFile.{all_zero}
use encfs.FileIo.{Attr, FileIo}
use encfs.FileIo.Laws.{IsFileIo}
use encfs.CipherFile.{
  CipherFileIo, State, header_size, iv_of, coded, get_attr, init_header, ensure_header, decode_data,
  block_read, stream_read, decode_with, decode_read, read_one_block, reverse_read,
}
use encfs.CipherFile.Layer.{block_file, cipher_lower}
use encfs.CipherFile.Reverse.{IsShownHeader, Gives, reverse_read_lem}

-- `BlockFileIO::read` without the cache, as a reverse file system calls it.
pub inherited_read :
    {S : Type 0} (c : CipherFileIo)
    → CipherOps
    → FileIo S
    → State S
    → ℕ
    → ℕ
    → Option (State S × Result (List ℕ))
inherited_read c ops io st offset data_len = do
  (st', result) ←
      BlockFile.read (block_file c true) (cipher_lower c ops io)
        (record { cache_offset = 0; cache_data = []; lower = st }) offset data_len
  some (st'.lower, result)

module _ (c : CipherFileIo) (ops : CipherOps) {S : Type 0} (io : FileIo S)
    (holds : S → List ℕ → Type 0) where
  -- How block `k` is coded with the vector `iv`, by the cipher alone.
  abbrev pub coded_block : ℕ → ℕ → List ℕ → Option (Bool × List ℕ)
  coded_block iv k block =
      if length block == c.block_size
      then ops.block_encode block (bit_xor k iv)
      else ops.stream_encode block (bit_xor k iv)

  -- Block for block, `file` is `plain` coded with the vector.
  pub record IsCoded (iv : ℕ) (plain file : List ℕ) : Type 0 where
    pub same_length : length plain ≡ length file
    pub coded_as :
        (k : ℕ)
        → k * c.block_size < length plain
        → coded_block iv k (slice (k * c.block_size) c.block_size plain)
          ≡ some (true, slice (k * c.block_size) c.block_size file)

  -- The base holds a plain file, and `file` is what is shown of it.
  pub record Shows (st : State S) (file : List ℕ) : Type 0 where
    pub plain : List ℕ
    pub stored : holds st.base plain
    pub known : st.file_iv ≢ 0
    pub coded_file : IsCoded st.file_iv plain file

  decode_data-coded_block :
      (iv k : ℕ) (block : List ℕ)
      → c.reverse_encryption ≡ true
      → decode_data c ops io iv k block ≡ coded_block iv k block
  unfolding decode_data block_read stream_read
  decode_data-coded_block iv k block reverse =
      by_tests (length block == c.block_size) c.reverse_encryption (c.allow_holes && all_zero block)
        reverse
    where
      iv64 : ℕ
      iv64 = bit_xor k iv

      by_tests :
          (full reverse hole : Bool)
          → reverse ≡ true
          → (if not full
              then (if reverse then ops.stream_encode block iv64 else ops.stream_decode block iv64)
              else if reverse
              then ops.block_encode block iv64
              else if hole
              then (let p : Option (Bool × List ℕ) = some (true, block) in p)
              else ops.block_decode block iv64)
            ≡ (if full then ops.block_encode block iv64 else ops.stream_encode block iv64)
      by_tests full false hole e = absurd (cc e)
      by_tests true true hole e = refl
      by_tests false true hole e = refl

module _ (c : CipherFileIo) (ops : CipherOps) {S : Type 0} (io : FileIo S)
    (holds : S → List ℕ → Type 0) (laws : IsFileIo io holds) (reverse : c.reverse_encryption ≡ true)
    (pos : 0 < c.block_size) where
  abbrev Given : State S → List ℕ → ℕ → Option (State S × Result (List ℕ)) → Type 0
  Given st file k run =
      (st' : State S) × (result : Result (List ℕ)) × (run ≡ some (st', result))
      × ((Shows c ops io holds st' file × (st'.file_iv ≡ st.file_iv))
          × ((result ≡ ok (slice (k * c.block_size) c.block_size file))
              ⊎ ((errno : ℕ) × (result ≡ fail errno))))

  -- `fileIV` is known, so that no header is looked for.
  ensured : (st : State S) → st.file_iv ≢ 0 → ensure_header c ops io st ≡ some (st, ok 0)
  ensured st known =
      let some_iv : (st.file_iv == 0) ≡ false = elim (Bool-cases (st.file_iv == 0)) [
        | inl z ↦ absurd (known ((==_iff st.file_iv 0).0 z))
        | inr m ↦ m
      ] in
      by_header c.have_header (st.file_iv == 0) some_iv
    where
      by_header :
          (b z : Bool)
          → z ≡ false
          → (if b
              then (if z
                  then init_header c ops io st
                  else some (let p : State S × Result ℕ = (st, ok 0) in p))
              else some (let p : State S × Result ℕ = (st, ok 0) in p))
            ≡ some (st, ok 0)
      by_header true true e = absurd (cc e)
      by_header true false e = refl
      by_header false z e = refl

  decoded_lem :
      (st : State S) (b : S) (file : List ℕ) (k : ℕ) (block : List ℕ)
      → (h : Shows c ops io holds st file) → holds b h.plain
      → slice (k * c.block_size) c.block_size h.plain ≡ block
      → Given st file k (decode_read c ops io st k (b, ok block))
  decoded_lem st b file k [] h stored e =
      let size = length-slice (k * c.block_size) c.block_size h.plain in
      let behind : length file ≤ k * c.block_size =
        omega (arith, size, ap length e, h.coded_file.same_length, pos) in
      (
        record st { base = b },
        ok [],
        refl,
        (
          (
            record { plain = h.plain; stored = stored; known = h.known; coded_file = h.coded_file },
            refl,
          ),
          inl (ap ok (sym (slice_nil (k * c.block_size) c.block_size file behind))),
        ),
      )
  decoded_lem st b file k (x ∷ buf) h stored e =
      let size = length-slice (k * c.block_size) c.block_size h.plain in
      let inside : k * c.block_size < length h.plain = omega (arith, size, ap length e) in
      let st1 : State S = record st { base = b } in
      (
        st1,
        ok (slice (k * c.block_size) c.block_size file),
        ap (λ (o : Option (State S × Result ℕ)). o >>= decode_with c ops io k (x ∷ buf))
              (ensured st1 h.known)
            ∙ ap
                (λ (o : Option (Bool × List ℕ)). o >>= λ p.
                  some (let q : State S × Result (List ℕ) = (st1, coded c ops io p) in q))
                (ap (decode_data c ops io st.file_iv k) (sym e)
                  ∙ decode_data-coded_block c ops io holds st.file_iv k
                      (slice (k * c.block_size) c.block_size h.plain) reverse
                  ∙ h.coded_file.coded_as k inside),
        (
          (
            record { plain = h.plain; stored = stored; known = h.known; coded_file = h.coded_file },
            refl,
          ),
          inl refl,
        ),
      )

  Shows-block :
      (st : State S) (file : List ℕ) (offset k : ℕ)
      → offset / c.block_size ≡ k
      → k * c.block_size ≡ offset
      → Shows c ops io holds st file
      → Given st file k (read_one_block c ops io st offset c.block_size)
  unfolding read_one_block
  Shows-block st file offset k number start h =
      let bs = c.block_size in
      let (b, r, e, stored, end) = laws.read_result st.base h.plain (k * bs) bs h.stored in
      let steps =
        by_header c.have_header c.reverse_encryption reverse
        ∙ ap (λ (j : ℕ). io.read st.base offset bs >>= decode_read c ops io st j) number
        ∙ ap (λ (i : ℕ). io.read st.base i bs >>= decode_read c ops io st k) (sym start)
        ∙ ap (λ (o : Option (S × Result (List ℕ))). o >>= decode_read c ops io st k) e in
      subst (Given st file k) (sym steps) (elim end [
        | inl got ↦
            subst (λ (t : Result (List ℕ)). Given st file k (decode_read c ops io st k (b, t)))
              (sym got) (decoded_lem st b file k (slice (k * bs) bs h.plain) h stored refl)
        | inr failed ↦
            subst (λ (t : Result (List ℕ)). Given st file k (decode_read c ops io st k (b, t)))
              (sym failed.1)
              (
                record st { base = b },
                fail failed.0,
                refl,
                (
                  (
                    record {
                      plain = h.plain;
                      stored = stored;
                      known = h.known;
                      coded_file = h.coded_file;
                    },
                    refl,
                  ),
                  inr (failed.0, refl),
                ),
              )
      ])
    where
      by_header :
          (headers r : Bool)
          → r ≡ true
          → (io.read st.base
                (if headers && not r then offset + header_size else offset)
                c.block_size
              >>= decode_read c ops io st (offset / c.block_size))
            ≡ (io.read st.base offset c.block_size
                >>= decode_read c ops io st (offset / c.block_size))
      by_header headers false e = absurd (cc e)
      by_header true true e = refl
      by_header false true e = refl

  pub shown-IsReader : IsReader (cipher_lower c ops io) c.block_size (Shows c ops io holds)
  unfolding cipher_lower
  shown-IsReader = record {
    read_result = λ st file offset h aligned.
        let start : offset / c.block_size * c.block_size ≡ offset =
          omega (arith, mod-add-div' offset c.block_size, aligned) in
        let (st', result, e, ((h', _), end)) =
          Shows-block st file offset (offset / c.block_size) refl start h in
        (
          st',
          result,
          e,
          h',
          elim end [
            | inl got ↦ inl (got ∙ ap (λ (i : ℕ). ok (slice i c.block_size file)) start)
            | inr failed ↦ inr failed
          ],
        );
  }

  module _ (cipher : IsCipher ops) (sha1 : List ℕ → List ℕ)
      (digest : (inode : List ℕ) → (length (sha1 inode) ≡ 20) × All IsByte (sha1 inode)) where
    inherited_read-Gives :
        (st : State S) (file : List ℕ) (offset data_len : ℕ)
        → Shows c ops io holds st file
        → Gives c ops cipher io sha1 digest
            (inherited_read c ops io st offset data_len)
            (slice offset data_len file)
    unfolding inherited_read
    inherited_read-Gives st file offset data_len h =
        let (st', result, e, r) =
          read-IsRead (block_file c true) (cipher_lower c ops io) (Shows c ops io holds)
            shown-IsReader (record { cache_offset = 0; cache_data = []; lower = st }) file offset
            data_len pos (record { cached = λ some_data. absurd (some_data refl) }) h in
        (
          st'.lower,
          result,
          ap
              (λ (o : Option (BlockFile.State (State S) × Result (List ℕ))).
                o >>= λ p. some (let q : State S × Result (List ℕ) = (p.0.lower, p.1) in q))
              e,
          elim r.bytes [ inl got ↦ inl got | inr failed ↦ inr (failed.0, failed.1) ],
        )

    -- In a reverse file system with headers, over a base file that is open for reading and writing and
    -- a cipher, which keep their laws, and a digest of twenty bytes, where the attributes of the base file are known, its inode is not 0, and
    -- neither is the vector made of it, and `coded_with iv` is the base file coded block for block with
    -- a vector that is not 0: `read` shows a header of eight bytes, which are decoded to the vector, and
    -- behind it the base file coded with this vector, or it returns an error. A request that reaches the
    -- end of the header or starts behind it gets the bytes from its offset on; one that ends before gets
    -- the last bytes of the header, as many as it asks for, whatever its offset.
    pub reverse_read_shows :
        (st : State S) (stbuf : Attr) (plain : List ℕ) (coded_with : ℕ → List ℕ)
        → holds st.base plain
        → ((iv : ℕ) → iv ≢ 0 → IsCoded c ops io holds iv plain (coded_with iv))
        → get_attr c ops io st ≡ some (ok stbuf)
        → stbuf.ino ≢ 0
        → iv_of (take header_size (sha1 (write_le 8 stbuf.ino))) ≢ 0
        → (st1 : State S) × (hdr : List ℕ) × IsShownHeader c ops cipher io sha1 digest st st1
            stbuf.ino hdr
          × ((offset data_len : ℕ)
              → Gives c ops cipher io sha1 digest
                  (reverse_read c ops io sha1 (inherited_read c ops io) st offset data_len)
                  (if ltb (offset + data_len) header_size
                    then slice (header_size - data_len) data_len hdr
                    else slice offset data_len (hdr ++ coded_with st1.file_iv)))
    reverse_read_shows st stbuf plain coded_with stored codes attr some_ino some_iv =
        reverse_read_lem c ops cipher io sha1 digest (inherited_read c ops io) st stbuf coded_with
          attr some_ino some_iv
          (λ st1 o n same_base known.
            inherited_read-Gives st1 (coded_with st1.file_iv) o n (record {
              plain = plain;
              stored = subst (λ (b : S). holds b plain) (sym same_base) stored;
              known = known;
              coded_file = codes st1.file_iv known;
            }))
