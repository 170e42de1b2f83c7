-- ===== src/CipherFile/Reverse.antt =====
-- Reading in a reverse file system with headers: the header, and then the coded file.
use encfs.Base.{
  ℕ, zero, suc, ◌+◌, ◌-◌, ◌≤◌, ◌<◌, Bool, true, false, not, List, [], ◌∷◌, ◌++◌, length, take, drop,
  slice, All, IsByte, All-take, write_le, length-take, take_all, drop-append_left, drop-drop,
  append-nil, length-drop, Option, some, if◌then◌else◌, ltb, ◌==◌, ◌≡◌, ◌≢◌, ◌⊎◌, inl, inr, refl,
  sym, ap, ap₂, ◌∙◌, arith, Bool-cases, ==_iff,
}
use mathlib.Core.Path.{subst}
use encfs.Cipher.Ssl.{r_assert, ◌>>=◌, ◌>>◌}
use encfs.Cipher.Ops.{CipherOps, IsCipher}
use encfs.BlockFile.Layer.{Result, fail, ok}
use encfs.FileIo.{Attr, FileIo}
use encfs.CipherFile.{
  CipherFileIo, State, header_size, iv_of, coded, get_attr, header_of_digest, header_of_attr,
  generate_reverse_header, behind_front, with_front, read_behind_header, reverse_read,
}

-- A slice over the seam of two sequences.
take-append : (n : ℕ) (xs ys : List ℕ) → take n (xs ++ ys) ≡ take n xs ++ take (n - length xs) ys
take-append n [] ys =
    let e : n ≡ n - 0 = omega arith in
    ap (λ (k : ℕ). take k ys) e
    ∙ ap (λ (t : List ℕ). t ++ take (n - 0) ys) (sym (take_all n [] (omega arith)))
take-append zero (x ∷ xs) ys =
    let e : 0 ≡ 0 - length (x ∷ xs) = omega arith in ap (λ (k : ℕ). take k ys) e
take-append (suc n) (x ∷ xs) ys =
    ap (◌∷◌ x) (take-append n xs ys)
    ∙ (let e : n - length xs ≡ suc n - length (x ∷ xs) = omega arith in
        ap (λ (k : ℕ). x ∷ take n xs ++ take k ys) e)

drop-append : (n : ℕ) (xs ys : List ℕ) → n ≤ length xs → drop n (xs ++ ys) ≡ drop n xs ++ ys
drop-append zero xs ys h = refl
drop-append (suc n) [] ys h = absurd (omega arith)
drop-append (suc n) (x ∷ xs) ys h = drop-append n xs ys (omega arith)

slice_seam :
    (offset n : ℕ) (hdr body : List ℕ)
    → offset ≤ length hdr
    → slice offset n (hdr ++ body) ≡ slice offset n hdr ++ take (n - (length hdr - offset)) body
slice_seam offset n hdr body h =
    ap (take n) (drop-append offset hdr body h)
    ∙ take-append n (drop offset hdr) body
    ∙ ap (λ (k : ℕ). slice offset n hdr ++ take (n - k) body) (length-drop offset hdr)

slice_behind :
    (offset n : ℕ) (hdr body : List ℕ)
    → length hdr ≤ offset
    → slice offset n (hdr ++ body) ≡ slice (offset - length hdr) n body
slice_behind offset n hdr body h =
    let e : offset ≡ length hdr + (offset - length hdr) = omega arith in
    ap (λ (i : ℕ). slice i n (hdr ++ body)) e
    ∙ ap (take n) (
        sym (drop-drop (offset - length hdr) (length hdr) (hdr ++ body))
        ∙ ap (drop (offset - length hdr)) (drop-append_left (length hdr) hdr body refl))

module _ (c : CipherFileIo) (ops : CipherOps) (cipher : IsCipher ops) {S : Type 0} (io : FileIo S)
    (sha1 : List ℕ → List ℕ)
    (digest : (inode : List ℕ) → (length (sha1 inode) ≡ 20) × All IsByte (sha1 inode)) where
  -- The header that is made of the inode: eight bytes, which are decoded to the front of the digest, and
  -- `fileIV` is what these say.
  pub record IsShownHeader (st st1 : State S) (ino : ℕ) (hdr : List ℕ) : Type 0 where
    pub size : length hdr ≡ header_size
    pub vector : st1.file_iv ≡ iv_of (take header_size (sha1 (write_le 8 ino)))
    pub shown :
        ops.stream_decode hdr st.external_iv ≡ some (true, take header_size (sha1 (write_le 8 ino)))

  generated :
      (st : State S) (stbuf : Attr)
      → get_attr c ops io st ≡ some (ok stbuf)
      → stbuf.ino ≢ 0
      → (st1 : State S) × (hdr : List ℕ) × (generate_reverse_header c ops io sha1 st
          ≡ some (st1, ok hdr))
        × IsShownHeader st st1 stbuf.ino hdr
        × (st1.base ≡ st.base)
  unfolding generate_reverse_header
  generated st stbuf attr some_ino =
      let md = sha1 (write_le 8 stbuf.ino) in
      let (size, md_bytes) = digest (write_le 8 stbuf.ino) in
      let cut : length (take header_size md) ≡ header_size =
        omega (arith, length-take header_size md, size) in
      let (out, encodes, same_size, _, decodes) =
        cipher.stream_undone (take header_size md) st.external_iv (omega (arith, cut))
          (All-take IsByte header_size md md_bytes) in
      let there : (stbuf.ino == 0) ≡ false = elim (Bool-cases (stbuf.ino == 0)) [
        | inl z ↦ absurd (some_ino ((==_iff stbuf.ino 0).0 z))
        | inr m ↦ m
      ] in
      let st1 : State S = record st { file_iv = iv_of (take header_size md) } in
      (
        st1,
        out,
        ap (λ (o : Option (Result Attr)). o >>= header_of_attr c ops io sha1 st) attr
            ∙ ap (λ (b : Bool). r_assert (not b) >> header_of_digest c ops io sha1 st md) there
            ∙ ap
                (λ (o : Option (Bool × List ℕ)). o >>= λ x.
                  some (let p : State S × Result (List ℕ) = (st1, coded c ops io x) in p))
                encodes,
        record { size = same_size ∙ cut; vector = refl; shown = decodes },
        refl,
      )

  -- The run ends with these bytes, or with an error.
  abbrev pub Gives : Option (State S × Result (List ℕ)) → List ℕ → Type 0
  Gives run bytes =
      (st2 : State S) × (result : Result (List ℕ)) × (run ≡ some (st2, result))
      × ((result ≡ ok bytes) ⊎ ((errno : ℕ) × (result ≡ fail errno)))

  module _ (payload : State S → ℕ → ℕ → Option (State S × Result (List ℕ))) (st : State S)
      (hdr body : List ℕ) (size : length hdr ≡ header_size)
      (payload_lem : (o n : ℕ) → Gives (payload st o n) (slice o n body)) where
    Gives-ok :
        (run : Option (State S × Result (List ℕ))) (bytes : List ℕ)
        → run ≡ some (st, ok bytes)
        → Gives run bytes
    Gives-ok run bytes e = (st, ok bytes, e, inl refl)

    -- A request that ends in the header, and one that goes over its end.
    inside_lem :
        (offset data_len : ℕ)
        → Gives
            (with_front c ops io sha1 payload st offset data_len data_len hdr)
            (slice (header_size - data_len) data_len hdr)
    inside_lem offset data_len = Gives-ok _ _ (
        ap
          (λ (b : Bool).
            if b
            then some (
                let p : State S × Result (List ℕ) =
                  (st, ok (slice (header_size - data_len) data_len hdr)) in
                p)
            else (r_assert (offset + data_len == header_size)
                >> (payload st 0 (data_len - data_len) >>= λ rest. some (
                    behind_front c ops io sha1 payload (slice (header_size - data_len) data_len hdr)
                      rest))))
          ((==_iff data_len data_len).1 refl))

    over_lem :
        (offset data_len : ℕ)
        → offset < header_size
        → header_size ≤ offset + data_len
        → Gives
            (with_front c ops io sha1 payload st offset data_len (header_size - offset) hdr)
            (slice offset data_len (hdr ++ body))
    over_lem offset data_len first over = by_end (header_size - offset == data_len) refl
      where
        front : List ℕ
        front = take (header_size - offset) (drop (header_size - (header_size - offset)) hdr)

        front_lem : front ≡ drop offset hdr
        front_lem =
            let e : header_size - (header_size - offset) ≡ offset = omega (arith, first) in
            ap (λ (i : ℕ). take (header_size - offset) (drop i hdr)) e
            ∙ take_all (header_size - offset) (drop offset hdr)
                (omega (arith, length-drop offset hdr, size))

        seam :
            slice offset data_len (hdr ++ body)
            ≡ drop offset hdr ++ take (data_len - (header_size - offset)) body
        seam =
            slice_seam offset data_len hdr body (omega (arith, size, first))
            ∙ ap₂ (λ (a b : List ℕ). a ++ b)
                (take_all data_len (drop offset hdr)
                  (omega (arith, length-drop offset hdr, size, over)))
                (ap (λ (n : ℕ). take (data_len - (n - offset)) body) size)

        rest_of : Option (State S × Result (List ℕ))
        rest_of =
            r_assert (offset + (header_size - offset) == header_size)
            >> (payload st 0 (data_len - (header_size - offset)) >>= λ rest.
                some (behind_front c ops io sha1 payload front rest))

        by_end :
            (b : Bool)
            → (header_size - offset == data_len) ≡ b
            → Gives
                (if b
                  then some (let p : State S × Result (List ℕ) = (st, ok front) in p)
                  else rest_of)
                (slice offset data_len (hdr ++ body))
        by_end true e =
            let none_left : data_len - (header_size - offset) ≡ 0 =
              omega (arith, (==_iff (header_size - offset) data_len).0 e) in
            Gives-ok _ _ (
              ap (λ (t : List ℕ). some (let p : State S × Result (List ℕ) = (st, ok t) in p))
                (front_lem
                  ∙ sym (
                      seam
                      ∙ ap (λ (n : ℕ). drop offset hdr ++ take n body) none_left
                      ∙ append-nil (drop offset hdr))))
        by_end false e =
            let (st2, result, read, end) = payload_lem 0 (data_len - (header_size - offset)) in
            let whole : offset + (header_size - offset) ≡ header_size = omega (arith, first) in
            let steps =
              ap
                (λ (b : Bool).
                  r_assert b
                  >> (payload st 0 (data_len - (header_size - offset)) >>= λ rest.
                      some (behind_front c ops io sha1 payload front rest)))
                ((==_iff (offset + (header_size - offset)) header_size).1 whole)
              ∙ ap
                  (λ (o : Option (State S × Result (List ℕ))).
                    o >>= λ rest. some (behind_front c ops io sha1 payload front rest))
                  read in
            let join = λ (r : Result (List ℕ)).
              (let p : Option (State S × Result (List ℕ)) =
                  some (behind_front c ops io sha1 payload front (st2, r)) in
                p) in
            elim end [
              | inl got ↦ (
                st2,
                ok (slice offset data_len (hdr ++ body)),
                steps
                    ∙ ap join got
                    ∙ ap
                        (λ (t : List ℕ).
                          some (let p : State S × Result (List ℕ) = (st2, ok t) in p))
                        (ap (λ (t : List ℕ). t ++ slice 0 (data_len - (header_size - offset)) body)
                            front_lem
                          ∙ sym seam),
                inl refl,
              )
              | inr failed ↦ (st2, fail failed.0, steps ∙ ap join failed.1, inr (failed.0, refl))
            ]

    -- What a request is given: the bytes from its offset on, or, where it ends in the header, the last
    -- bytes of the header, as many as were asked for.
    abbrev pub given : ℕ → ℕ → List ℕ
    given offset data_len =
        if ltb (offset + data_len) header_size
        then slice (header_size - data_len) data_len hdr
        else slice offset data_len (hdr ++ body)

    read_behind_header_lem :
        (offset data_len : ℕ)
        → Gives
            (read_behind_header c ops io sha1 payload offset data_len (st, ok hdr))
            (given offset data_len)
    read_behind_header_lem offset data_len =
        by_place (ltb offset header_size) refl (ltb (offset + data_len) header_size) refl
      where
        count : ℕ
        count = if ltb data_len (header_size - offset) then data_len else header_size - offset

        by_place :
            (first : Bool)
            → ltb offset header_size ≡ first
            → (short : Bool) → ltb (offset + data_len) header_size ≡ short
            → Gives
                (if first
                  then with_front c ops io sha1 payload st offset data_len count hdr
                  else payload st (offset - header_size) data_len)
                (if short
                  then slice (header_size - data_len) data_len hdr
                  else slice offset data_len (hdr ++ body))
        by_place true first true short =
            let e : count ≡ data_len = ground arith in
            subst
              (λ (n : ℕ).
                Gives (with_front c ops io sha1 payload st offset data_len n hdr)
                  (slice (header_size - data_len) data_len hdr))
              (sym e) (inside_lem offset data_len)
        by_place true first false over =
            let e : count ≡ header_size - offset = ground arith in
            subst
              (λ (n : ℕ).
                Gives (with_front c ops io sha1 payload st offset data_len n hdr)
                  (slice offset data_len (hdr ++ body)))
              (sym e) (over_lem offset data_len (ground arith) (ground arith))
        by_place false behind true short = absurd (ground arith)
        by_place false behind false over =
            let (st2, result, read, end) = payload_lem (offset - header_size) data_len in
            let there =
              ap (λ (n : ℕ). slice (offset - n) data_len body) (sym size)
              ∙ sym (slice_behind offset data_len hdr body (ground (arith, size))) in
            (
              st2,
              result,
              read,
              elim end [ inl got ↦ inl (got ∙ ap ok there) | inr failed ↦ inr failed ],
            )

  -- In a reverse file system with headers, over a cipher that keeps its laws and a digest of twenty
  -- bytes, where the attributes of the file below are known, its inode is not 0, and neither is the
  -- vector made of it: if `BlockFileIO::read`, on a state over this file, gives the bytes of the file
  -- coded with that state's `fileIV` or an error, then `read` shows a header of eight bytes, which are
  -- decoded to the vector, and behind it the file coded with this very vector. A request that reaches
  -- the end of the header or starts behind it gets the bytes from its offset on; one that ends before
  -- gets the last bytes of the header, as many as it asks for, whatever its offset. Either may end with
  -- an error.
  pub reverse_read_lem :
      (payload : State S → ℕ → ℕ → Option (State S × Result (List ℕ))) (st : State S) (stbuf : Attr)
      (coded_with : ℕ → List ℕ)
      → get_attr c ops io st ≡ some (ok stbuf)
      → stbuf.ino ≢ 0
      → iv_of (take header_size (sha1 (write_le 8 stbuf.ino))) ≢ 0
      → ((st1 : State S) (o n : ℕ)
          → st1.base ≡ st.base
          → st1.file_iv ≢ 0
          → Gives (payload st1 o n) (slice o n (coded_with st1.file_iv)))
      → (st1 : State S) × (hdr : List ℕ) × IsShownHeader st st1 stbuf.ino hdr
        × ((offset data_len : ℕ)
            → Gives (reverse_read c ops io sha1 payload st offset data_len) (
                if ltb (offset + data_len) header_size
                then slice (header_size - data_len) data_len hdr
                else slice offset data_len (hdr ++ coded_with st1.file_iv)))
  unfolding reverse_read
  reverse_read_lem payload st stbuf coded_with attr some_ino some_iv payload_lem =
      let (st1, hdr, e, shown, same_base) = generated st stbuf attr some_ino in
      (
        st1,
        hdr,
        shown,
        λ offset data_len.
            let (st2, result, read, end) =
              read_behind_header_lem payload st1 hdr (coded_with st1.file_iv) shown.size
                (λ o n. payload_lem st1 o n same_base (λ z. some_iv (sym shown.vector ∙ z))) offset
                data_len in
            (
              st2,
              result,
              ap
                    (λ (o : Option (State S × Result (List ℕ))).
                      o >>= read_behind_header c ops io sha1 payload offset data_len)
                    e
                  ∙ read,
              end,
            ),
      )
