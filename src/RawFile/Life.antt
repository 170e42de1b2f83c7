-- ===== src/RawFile/Life.antt =====
-- The whole life of a file: what holds after any sequence of operations on it.
use encfs.Base.{
  ℕ, ◌<◌, Bool, true, false, List, length, Option, none, some, if◌then◌else◌, ◌≡◌, ◌≢◌, ◌⊎◌, inl,
  inr, refl, sym, ap, ◌∙◌, ◌||◌, ◌==◌, not, bit_or, suc,
}
use mathlib.Core.Path.{subst}
use encfs.Cipher.Ssl.{r_assert, ◌>>=◌, ◌>>◌}
use encfs.BlockFile.Layer.{Result, fail, ok}
use encfs.FileIo.{Attr}
use encfs.RawFile.{
  Os, State, eio, raw_file, open_file, open_from, reopen, adopt, or_workaround, open_with_mode,
  open_changed, open_readonly_workaround, request_write, final_flags, eacces, get_size, write,
  truncate, write_loop, grow,
}
use encfs.RawFile.Laws.{IsOs}
use encfs.RawFile.Loop.{IsSameFile}
use encfs.RawFile.Size.{IsSized, write_lem, get_size-IsSized, truncate-IsSized}
use encfs.RawFile.Descriptors.{IsHeld, open_file-IsOpened}

module _ {D : Type 0} (os : Os D) where
  -- One operation that changes the state; a `write` of some bytes counts where it returns, and, if it
  -- returns `EIO`, has forgotten the size.
  pub data Step : State D → State D → Type 0 where
    opened : (st : State D) (flags : ℕ) → Step st (open_file os st flags).0
    sized : (st : State D) → Step st (get_size os st).0
    truncated : (st : State D) (size : ℕ) → Step st (truncate os st size).0
    written :
        (st st' : State D) (offset : ℕ) (buf : List ℕ) (result : Result ℕ)
        → 0 < length buf
        → write os st offset buf ≡ some (st', result)
        → (result ≢ fail eio) ⊎ (st'.known_size ≡ false)
        → Step st st'

  pub data Reach (st : State D) : State D → Type 0 where
    here : Reach st st
    next : {st1 st2 : State D} → Reach st st1 → Step st1 st2 → Reach st st2

-- What a file keeps.
pub record IsValid {D : Type 0} (path : List ℕ) (content : D → List ℕ) (st : State D) : Type 0 where
  pub named : st.name ≡ path
  pub sized : IsSized content st
  pub still_held : IsHeld st

module _ {D : Type 0} (os : Os D) (path : List ℕ) (content : D → List ℕ)
    (laws : IsOs os path content) where
  mode_same :
      (file : List ℕ) (flags mode : ℕ) (p : D × Result ℕ)
      → content p.0 ≡ file
      → content (open_changed os path flags mode p).0 ≡ file
  mode_same file flags mode (d, fail errno) same = same
  mode_same file flags mode (d, ok done) same =
      laws.chmod_same (os.open_path d path flags).0 mode ∙ laws.open_same d flags ∙ same

  stat_same :
      (d : D) (flags : ℕ) (r : Result Attr)
      → content (open_with_mode os d path flags r).0 ≡ content d
  stat_same d flags (fail errno) = refl
  stat_same d flags (ok stbuf) =
      mode_same (content d) flags stbuf.mode (os.chmod d path (bit_or stbuf.mode 0x180))
        (laws.chmod_same d (bit_or stbuf.mode 0x180))

  asked_same :
      (file : List ℕ) (flags : ℕ) (p : D × Result ℕ)
      → content p.0 ≡ file
      → content (or_workaround os path flags p).0 ≡ file
  unfolding open_readonly_workaround
  asked_same file flags (d, ok fd) same = same
  asked_same file flags (d, fail errno) same = by_errno (errno == eacces)
    where
      by_errno :
          (b : Bool)
          → content
              (if b
                then open_with_mode os d path flags (os.lstat d path)
                else (let p : D × Result ℕ = (d, fail errno) in p)).0
            ≡ file
      by_errno true = stat_same d flags (os.lstat d path) ∙ same
      by_errno false = same

  reopen_same :
      (st : State D) (flags : ℕ) (file_name : List ℕ)
      → path ≡ file_name
      → content
          (or_workaround os file_name
            (final_flags os flags)
            (os.open_path st.system file_name (final_flags os flags))).0
        ≡ content st.system
  reopen_same st flags file_name e =
      subst
        (λ (p : List ℕ).
          content
            (or_workaround os p (final_flags os flags)
              (os.open_path st.system p (final_flags os flags))).0
          ≡ content st.system)
        e
        (asked_same (content st.system) (final_flags os flags)
          (os.open_path st.system path (final_flags os flags))
          (laws.open_same st.system (final_flags os flags)))

  -- Opening a file changes no byte of it.
  open_file_same :
      (st : State D) (flags : ℕ)
      → st.name ≡ path
      → content (open_file os st flags).0.system ≡ content st.system
  unfolding open_file
  open_file_same st flags named = go st.fd
    where
      adopted :
          (p : D × Result ℕ)
          → content p.0 ≡ content st.system
          → content (adopt os st (request_write flags) p).0.system ≡ content st.system
      adopted (d, fail errno) same = same
      adopted (d, ok fd) same = same

      by_use :
          (fd : ℕ) (b : Bool)
          → content
              (if b
                then (let p : State D × Result ℕ = (st, ok fd) in p)
                else reopen os st flags).0.system
            ≡ content st.system
      by_use fd true = refl
      by_use fd false = adopted _ (reopen_same st flags st.name (sym named))

      go : (o : Option ℕ) → content (open_from os st flags o).0.system ≡ content st.system
      go none = adopted _ (reopen_same st flags st.name (sym named))
      go (some fd) = by_use fd (st.can_write || not (request_write flags))

  open_file-IsValid :
      (st : State D) (flags : ℕ)
      → IsValid path content st
      → IsValid path content (open_file os st flags).0
  open_file-IsValid st flags v =
      let o = open_file-IsOpened os st flags v.still_held in
      record {
        named = o.same_name ∙ v.named;
        sized = record {
          sized = λ known.
              o.same_size.1
              ∙ v.sized.sized (sym o.same_size.0 ∙ known)
              ∙ sym (ap length (open_file_same st flags v.named));
        };
        still_held = o.still_held;
      }

  -- A step that keeps the descriptor keeps what holds of the descriptors, if it keeps the second too.
  write-open :
      (st st' : State D) (offset : ℕ) (buf : List ℕ) (result : Result ℕ)
      → write os st offset buf ≡ some (st', result)
      → (fd : ℕ) × (st.fd ≡ some fd) × (st.can_write ≡ true)
  unfolding write
  write-open st st' offset buf result e = by_fd st.fd st.can_write refl refl e
    where
      rest : ℕ → Option (State D × Result ℕ)
      rest f = write_loop os (suc (length buf)) f st buf offset >>= λ ended.
          some (grow os offset (length buf) ended)

      by_fd :
          (o : Option ℕ) (b : Bool)
          → st.fd ≡ o
          → st.can_write ≡ b
          → (o >>= λ f. r_assert b >> rest f) ≡ some (st', result)
          → (fd : ℕ) × (st.fd ≡ some fd) × (st.can_write ≡ true)
      by_fd none b fd can e1 = absurd (cc e1)
      by_fd (some f) false fd can e1 = absurd (cc e1)
      by_fd (some f) true fd can e1 = (f, fd, can)

  pub kept-IsHeld : (st st' : State D) → IsSameFile st st' → IsHeld st → IsHeld st'
  kept-IsHeld st st' same h = elim h [
    | inl no_old ↦ inl (same.same_old_fd ∙ no_old)
    | inr both ↦ inr (both.0, same.same_fd ∙ both.1, same.same_can_write ∙ both.2)
  ]

  -- Over calls of the system as documented: each operation of a file keeps the file's name, a cached
  -- size that is the size of the file while it is known, and the rule of the two descriptors, whatever
  -- the calls of the system return. A `write` counts where it has some bytes to write and returns,
  -- and, if it returns `EIO`, has forgotten the size.
  pub Step-IsValid :
      {st st' : State D} → Step os st st' → IsValid path content st → IsValid path content st'
  Step-IsValid (opened st flags) v = open_file-IsValid st flags v
  Step-IsValid (sized st) v =
      let (sized', same, _, _) = get_size-IsSized os path content laws st v.named v.sized in
      record {
        named = same.same_name ∙ v.named;
        sized = sized';
        still_held = kept-IsHeld st (get_size os st).0 same v.still_held;
      }
  Step-IsValid (truncated st size) v =
      let (sized', same, _) = truncate-IsSized os path content laws st size v.named in
      record {
        named = same.same_name ∙ v.named;
        sized = sized';
        still_held = kept-IsHeld st (truncate os st size).0 same v.still_held;
      }
  Step-IsValid (written st st' offset buf result some_data e forgets) v =
      let (fd, is_open, can) = write-open st st' offset buf result e in
      let (st2, result2, e2, w) =
        write_lem os path content laws st offset buf fd is_open can some_data v.sized in
      let same_st : st2 ≡ st' = cc (e, e2) in
      let same_result : result2 ≡ result = cc (e, e2) in
      subst (IsValid path content) same_st (record {
        named = w.same.same_name ∙ v.named;
        sized = elim w.sized [
          | inl right ↦ right
          | inr stuck ↦ elim forgets [
            | inl other ↦ absurd (other (sym same_result ∙ stuck.0))
            | inr unknown ↦ record {
              sized =
                  λ known. absurd (cc (ap (λ (x : State D). x.known_size) same_st, unknown, known));
            }
          ]
        ];
        still_held = kept-IsHeld st st2 w.same v.still_held;
      })

  -- Over calls of the system as documented: in every state that a new `RawFileIO` reaches by any
  -- sequence of opening, asking for the size, truncating, and writing at least one byte, failed ones
  -- among them, the cached size is the size of the file while it is known, and a second descriptor is
  -- held only beside one that can write. A write that returns `EIO` and keeps the size in the cache, as
  -- after a `pwrite` that answers 0, is not one of these steps.
  pub raw_file-IsValid :
      (d : D) (st : State D) → Reach os (raw_file d path) st → IsValid path content st
  unfolding raw_file
  raw_file-IsValid d st here = record {
    named = refl;
    sized = record { sized = λ known. absurd (cc known) };
    still_held = inl refl;
  }
  raw_file-IsValid d st (next {st1} {st2} reached step) =
      Step-IsValid step (raw_file-IsValid d st1 reached)
