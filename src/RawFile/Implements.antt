-- ===== src/RawFile/Implements.antt =====
-- `RawFileIO` keeps what the layers above rely on of a base file.
use encfs.Base.{
  ℕ, ◌<◌, Bool, true, not, ◌||◌, List, length, slice, Option, some, if◌then◌else◌, ◌≡◌, ◌⊎◌, inl,
  inr, refl, sym, ap, ◌∙◌,
}
use mathlib.Core.Path.{subst}
use encfs.Cipher.Ssl.{◌>>=◌}
use encfs.BlockFile.Layer.{Result, fail, ok}
use encfs.FileIo.{Attr}
use encfs.FileIo.Laws.{IsFileIo, put}
use encfs.RawFile.{
  Os, State, open_file, open_from, reopen, request_write, get_size, read, write, raw_file_io,
}
use encfs.RawFile.Laws.{IsOs}
use encfs.RawFile.Size.{write_lem, get_size-IsSized}
use encfs.RawFile.Life.{IsValid, kept-IsHeld}

-- The state is open for writing, and the file has these bytes.
pub record HoldsRaw {D : Type 0} (path : List ℕ) (content : D → List ℕ) (st : State D)
    (file : List ℕ) : Type 0 where
  pub valid : IsValid path content st
  pub same : content st.system ≡ file
  pub is_open : (fd : ℕ) × (st.fd ≡ some fd)
  pub can : st.can_write ≡ true

module _ {D : Type 0} (os : Os D) (path : List ℕ) (content : D → List ℕ)
    (laws : IsOs os path content)
    (there : (d : D) → (stbuf : Attr) × (os.lstat d path ≡ ok stbuf)) where
  raw_read :
      (st : State D) (file : List ℕ) (offset n : ℕ)
      → HoldsRaw path content st file
      → (s' : State D) × (result : Result (List ℕ)) × (read os st offset n ≡ some (s', result))
        × HoldsRaw path content s' file
        × ((result ≡ ok (slice offset n file)) ⊎ ((errno : ℕ) × (result ≡ fail errno)))
  unfolding read
  raw_read st file offset n h =
      let fd = h.is_open.0 in
      (
        st,
        os.pread st.system fd n offset,
        ap
            (λ (o : Option ℕ). o >>= λ f.
              some (let p : State D × Result (List ℕ) = (st, os.pread st.system f n offset) in p))
            h.is_open.1,
        h,
        subst
            (λ (f : List ℕ).
              (os.pread st.system fd n offset ≡ ok (slice offset n f))
              ⊎ ((errno : ℕ) × (os.pread st.system fd n offset ≡ fail errno)))
            h.same (laws.pread_bytes st.system fd n offset),
      )

  raw_write :
      (st : State D) (file : List ℕ) (offset : ℕ) (buf : List ℕ)
      → HoldsRaw path content st file
      → 0 < length buf
      → (s' : State D) × (result : Result ℕ) × (write os st offset buf ≡ some (s', result))
        × (((n : ℕ) × (result ≡ ok n) × HoldsRaw path content s' (put file offset buf))
            ⊎ ((errno : ℕ) × (result ≡ fail errno)))
  raw_write st file offset buf h some_data =
      let (s', result, e, w) =
        write_lem os path content laws st offset buf h.is_open.0 h.is_open.1 h.can some_data
          h.valid.sized in
      (
        s',
        result,
        e,
        elim w.bytes [
          | inl all ↦ inl (
            length buf,
            all.0,
            record {
              valid = record {
                named = w.same.same_name ∙ h.valid.named;
                sized = elim w.sized [
                  | inl sized ↦ sized
                  | inr stuck ↦ absurd (cc (all.0, stuck.0))
                ];
                still_held = kept-IsHeld os path content laws st s' w.same h.valid.still_held;
              };
              same = all.1 ∙ ap (λ (f : List ℕ). put f offset buf) h.same;
              is_open = (h.is_open.0, w.same.same_fd ∙ h.is_open.1);
              can = w.same.same_can_write ∙ h.can;
            },
          )
          | inr failed ↦ inr (failed.0, failed.2)
        ],
      )

  raw_size :
      (st : State D) (file : List ℕ)
      → HoldsRaw path content st file
      → (s' : State D) × ((let p : Option (State D × Result ℕ) = some (get_size os st) in p)
          ≡ some (s', ok (length file)))
        × HoldsRaw path content s' file
  raw_size st file h =
      let (sized, same, same_system, answer) =
        get_size-IsSized os path content laws st h.valid.named h.valid.sized in
      let st' = (get_size os st).0 in
      let held : HoldsRaw path content st' file = record {
        valid = record {
          named = same.same_name ∙ h.valid.named;
          sized = sized;
          still_held = kept-IsHeld os path content laws st st' same h.valid.still_held;
        };
        same = ap content same_system ∙ h.same;
        is_open = (h.is_open.0, same.same_fd ∙ h.is_open.1);
        can = same.same_can_write ∙ h.can;
      } in
      elim answer [
        | inl known ↦ (
          st',
          ap (λ (r : Result ℕ). some (let p : State D × Result ℕ = (st', r) in p))
              (known ∙ ap (λ (f : List ℕ). ok (length f)) h.same),
          held,
        )
        | inr failed ↦ absurd (cc (failed.1, (there st.system).1))
      ]

  raw_open :
      (st : State D) (file : List ℕ) (flags : ℕ)
      → HoldsRaw path content st file
      → HoldsRaw path content (open_file os st flags).0 file
        × (((fd : ℕ) × ((open_file os st flags).1 ≡ ok fd))
            ⊎ ((errno : ℕ) × ((open_file os st flags).1 ≡ fail errno)))
  unfolding open_file
  raw_open st file flags h =
      let stays : open_from os st flags st.fd
          ≡ (let p : State D × Result ℕ = (st, ok h.is_open.0) in p) =
        ap (open_from os st flags) h.is_open.1
        ∙ ap
            (λ (b : Bool).
              if b || not (request_write flags)
              then (let p : State D × Result ℕ = (st, ok h.is_open.0) in p)
              else reopen os st flags)
            h.can in
      subst
        (λ (p : State D × Result ℕ).
          HoldsRaw path content p.0 file
          × (((fd : ℕ) × (p.1 ≡ ok fd)) ⊎ ((errno : ℕ) × (p.1 ≡ fail errno))))
        (sym stays) (h, inl (h.is_open.0, refl))

  -- Over calls of the system as documented, on a file that is there: `RawFileIO`, open for writing,
  -- keeps the laws of a base file. What is read is what the file holds, a write that succeeds puts its
  -- bytes in their place, the size is that of the file, and opening it again keeps all this.
  pub raw_file_io-IsFileIo : IsFileIo (raw_file_io os) (HoldsRaw path content)
  unfolding raw_file_io
  raw_file_io-IsFileIo = record {
    read_result = raw_read;
    write_result = raw_write;
    size_result = raw_size;
    set_iv_result = λ st file iv h. (st, refl, h);
    open_result = raw_open;
    writable = λ st file h. h.can;
  }
