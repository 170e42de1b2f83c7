-- ===== src/RawFile/Size.antt =====
-- The cached size of a file, through every operation that changes the file or the cache.
use encfs.Base.{
  ℕ, suc, ◌+◌, ◌-◌, ◌≤◌, ◌<◌, max, true, false, List, [], ◌∷◌, length, take, replicate, length-take,
  length-append, length-replicate, length-write_at,
}
use encfs.Base.{
  Option, none, some, if◌then◌else◌, ◌≡◌, ◌⊎◌, inl, inr, refl, sym, ap, ◌∙◌, arith, Bool,
  Bool-cases,
}
use mathlib.Core.Path.{subst}
use encfs.Cipher.Ssl.{r_assert, ◌>>=◌, ◌>>◌}
use encfs.BlockFile.Layer.{Result, fail, ok}
use encfs.FileIo.{Attr}
use encfs.RawFile.{
  Os, State, eio, write, write_loop, grow, truncate, truncate_by, resized, get_size, keep_size,
}
use encfs.RawFile.Laws.{IsOs}
use encfs.FileIo.Laws.{put, resize}
use encfs.RawFile.Loop.{IsSameFile, refl-IsSameFile, IsLooped, write_loop-Loops}

-- The cached size, while it is known, is the size of the file.
pub record IsSized {D : Type 0} (content : D → List ℕ) (st : State D) : Type 0 where
  pub sized : st.known_size ≡ true → st.file_size ≡ length (content st.system)

module _ {D : Type 0} (os : Os D) (path : List ℕ) (content : D → List ℕ)
    (laws : IsOs os path content) where
  -- How `write` ends.
  pub record IsWritten (file : List ℕ) (offset : ℕ) (buf : List ℕ) (st st' : State D)
      (result : Result ℕ) : Type 0 where
    pub same : IsSameFile st st'
    pub sized :
        IsSized content st'
        ⊎ ((result ≡ fail eio) × (st'.known_size ≡ st.known_size) × (st'.file_size ≡ st.file_size))
    pub bytes :
        ((result ≡ ok (length buf)) × (content st'.system ≡ put file offset buf))
        ⊎ ((errno : ℕ) × (k : ℕ) × (result ≡ fail errno)
            × (k ≤ length buf)
            × (content st'.system ≡ put file offset (take k buf)))

  length-put :
      (file : List ℕ) (offset : ℕ) (buf : List ℕ)
      → 0 < length buf
      → length (put file offset buf) ≡ max (length file) (offset + length buf)
  length-put file offset [] some_data = absurd (omega arith)
  length-put file offset (x ∷ buf) some_data = length-write_at file offset (x ∷ buf)

  grow-IsWritten :
      (offset : ℕ) (buf : List ℕ) (st st' : State D) (result : Result ℕ)
      → 0 < length buf
      → IsSized content st
      → IsLooped os path content laws (content st.system) offset buf st st' result
      → IsWritten
          (content st.system)
          offset
          buf
          st
          (grow os offset (length buf) (st', result)).0
          (grow os offset (length buf) (st', result)).1
  grow-IsWritten offset buf st st' (fail errno) some_data sized h = record {
    same = h.same;
    sized = elim h.ended [
      | inl done ↦ absurd (cc (done.0))
      | inr failed ↦ elim failed.5 [
        | inl forgotten ↦ inl (record { sized = λ known. absurd (cc (forgotten, known)) })
        | inr left ↦ inr (failed.2 ∙ ap fail left.0, left.1, left.2)
      ]
    ];
    bytes = elim h.ended [
      | inl done ↦ absurd (cc (done.0))
      | inr failed ↦ inr (errno, failed.1, refl, failed.3, failed.4)
    ];
  }
  grow-IsWritten offset buf st st' (ok done) some_data sized h = elim h.ended [
    | inr failed ↦ absurd (cc (failed.2))
    | inl ended ↦ elim (Bool-cases st'.known_size) [
      | inl known ↦
          let before = sized.sized (sym ended.2 ∙ known) in
          subst
            (λ (b : Bool).
              IsWritten (content st.system) offset buf st
                (if b
                  then record st' { file_size = max st'.file_size (offset + length buf) }
                  else st')
                (ok (length buf)))
            (sym known)
            (record {
              same = record {
                same_name = h.same.same_name;
                same_fd = h.same.same_fd;
                same_can_write = h.same.same_can_write;
                same_old_fd = h.same.same_old_fd;
              };
              sized = inl (record {
                sized = λ _.
                    ap (λ (n : ℕ). max n (offset + length buf)) (ended.3 ∙ before)
                    ∙ sym (length-put (content st.system) offset buf some_data)
                    ∙ sym (ap length ended.1);
              });
              bytes = inl (refl, ended.1);
            })
      | inr unknown ↦
          subst
            (λ (b : Bool).
              IsWritten (content st.system) offset buf st
                (if b
                  then record st' { file_size = max st'.file_size (offset + length buf) }
                  else st')
                (ok (length buf)))
            (sym unknown)
            (record {
              same = h.same;
              sized = inl (record { sized = λ known. absurd (cc (unknown, known)) });
              bytes = inl (refl, ended.1);
            })
    ]
  ]

  -- Over calls of the system as documented, on a file that is open for writing, with a right cached
  -- size: `write` of some bytes, at least one, ends, on any answers of `pwrite`. It writes all of them at
  -- their place and returns their number, or it returns an error, with a front of them written. The
  -- descriptor is the same. The cached size is right again or unknown, but for one case: when `pwrite`
  -- answers 0, `EIO` is returned and the cached size is the one from before.
  pub write_lem :
      (st : State D) (offset : ℕ) (buf : List ℕ) (fd : ℕ)
      → st.fd ≡ some fd
      → st.can_write ≡ true
      → 0 < length buf
      → IsSized content st
      → (st' : State D) × (result : Result ℕ) × (write os st offset buf ≡ some (st', result))
        × IsWritten (content st.system) offset buf st st' result
  unfolding write
  write_lem st offset buf fd is_open writable some_data sized =
      let (st', result, e, looped) =
        write_loop-Loops os path content laws (suc (length buf)) fd st buf offset (omega arith) in
      (
        (grow os offset (length buf) (st', result)).0,
        (grow os offset (length buf) (st', result)).1,
        ap (λ (o : Option ℕ). o >>= λ f. r_assert st.can_write >> ended_by f) is_open
            ∙ ap (λ (b : Bool). r_assert b >> ended_by fd) writable
            ∙ ap
                (λ (run : Option (State D × Result ℕ)).
                  run >>= λ ended. some (grow os offset (length buf) ended))
                e,
        grow-IsWritten offset buf st st' result some_data sized looped,
      )
    where
      ended_by : ℕ → Option (State D × Result ℕ)
      ended_by f = write_loop os (suc (length buf)) f st buf offset >>= λ ended.
          some (grow os offset (length buf) ended)

  -- `getSize` gives the size of the file, from the cache or from `lstat`, and keeps it.
  pub get_size-IsSized :
      (st : State D)
      → st.name ≡ path
      → IsSized content st
      → IsSized content (get_size os st).0
        × IsSameFile st (get_size os st).0
        × ((get_size os st).0.system ≡ st.system)
        × (((get_size os st).1 ≡ ok (length (content st.system)))
            ⊎ ((errno : ℕ) × (os.lstat st.system path ≡ fail errno)
                × ((get_size os st).1 ≡ fail errno)))
  unfolding get_size
  get_size-IsSized st named sized = go st.known_size sized.sized
    where
      asked :
          (r : Result Attr)
          → os.lstat st.system path ≡ r
          → IsSized content (keep_size os st r).0
            × IsSameFile st (keep_size os st r).0
            × ((keep_size os st r).0.system ≡ st.system)
            × (((keep_size os st r).1 ≡ ok (length (content st.system)))
                ⊎ ((errno : ℕ) × (os.lstat st.system path ≡ fail errno)
                    × ((keep_size os st r).1 ≡ fail errno)))
      asked (fail errno) e = (sized, refl-IsSameFile st, refl, inr (errno, e, refl))
      asked (ok stbuf) e =
          let size = laws.lstat_size st.system stbuf e in
          (
            record { sized = λ _. size },
            record { same_name = refl; same_fd = refl; same_can_write = refl; same_old_fd = refl },
            refl,
            inl (ap ok size),
          )

      go :
          (b : Bool)
          → (b ≡ true → st.file_size ≡ length (content st.system))
          → let next =
              if b then (st, ok st.file_size) else keep_size os st (os.lstat st.system st.name) in
            IsSized content next.0
            × IsSameFile st next.0
            × (next.0.system ≡ st.system)
            × ((next.1 ≡ ok (length (content st.system)))
                ⊎ ((errno : ℕ) × (os.lstat st.system path ≡ fail errno) × (next.1 ≡ fail errno)))
      go true size = (sized, refl-IsSameFile st, refl, inl (ap ok (size refl)))
      go false size =
          subst
            (λ (r : Result Attr).
              IsSized content (keep_size os st r).0
              × IsSameFile st (keep_size os st r).0
              × ((keep_size os st r).0.system ≡ st.system)
              × (((keep_size os st r).1 ≡ ok (length (content st.system)))
                  ⊎ ((errno : ℕ) × (os.lstat st.system path ≡ fail errno)
                      × ((keep_size os st r).1 ≡ fail errno))))
            (ap (os.lstat st.system) (sym named)) (asked (os.lstat st.system path) refl)

  length-resize : (size : ℕ) (file : List ℕ) → length (resize size file) ≡ size
  length-resize size file = omega (
    arith,
    length-append (take size file) (replicate (size - length file) 0),
    length-take size file,
    length-replicate (size - length file) (let z : ℕ = 0 in z),
  )

  -- `truncate` gives the file its size, or leaves it as it is on an error; in both cases the cached size
  -- is right again or unknown.
  pub truncate-IsSized :
      (st : State D) (size : ℕ)
      → st.name ≡ path
      → IsSized content (truncate os st size).0
        × IsSameFile st (truncate os st size).0
        × ((((truncate os st size).1 ≡ ok 0)
              × (content (truncate os st size).0.system ≡ resize size (content st.system)))
            ⊎ ((errno : ℕ) × ((truncate os st size).1 ≡ fail errno)
                × (content (truncate os st size).0.system ≡ content st.system)))
  unfolding truncate
  truncate-IsSized st size named =
      resized-IsSized (truncate_by os st size st.fd st.can_write).0
        (truncate_by os st size st.fd st.can_write).1 (by_law st.fd st.can_write)
    where
      Truncated : D → Result ℕ → Type 0
      Truncated d r =
          ((n : ℕ) × (r ≡ ok n) × (content d ≡ resize size (content st.system)))
          ⊎ ((errno : ℕ) × (r ≡ fail errno) × (content d ≡ content st.system))

      truncated_by_name :
          Truncated
            (os.truncate_path st.system st.name size).0
            (os.truncate_path st.system st.name size).1
      truncated_by_name =
          subst
            (λ (file_name : List ℕ).
              Truncated (os.truncate_path st.system file_name size).0
                (os.truncate_path st.system file_name size).1)
            (sym named) (laws.truncate_bytes st.system size)

      by_law :
          (fd : Option ℕ) (writes : Bool)
          → Truncated (truncate_by os st size fd writes).0 (truncate_by os st size fd writes).1
      by_law none writes = truncated_by_name
      by_law (some fd) true = laws.ftruncate_bytes st.system fd size
      by_law (some fd) false = truncated_by_name

      resized-IsSized :
          (d : D) (r : Result ℕ)
          → Truncated d r
          → IsSized content (resized os st size (d, r)).0
            × IsSameFile st (resized os st size (d, r)).0
            × ((((resized os st size (d, r)).1 ≡ ok 0)
                  × (content (resized os st size (d, r)).0.system
                      ≡ resize size (content st.system)))
                ⊎ ((errno : ℕ) × ((resized os st size (d, r)).1 ≡ fail errno)
                    × (content (resized os st size (d, r)).0.system ≡ content st.system)))
      resized-IsSized d (fail errno) (inl h) = absurd (cc (h.1))
      resized-IsSized d (ok done) (inr h) = absurd (cc (h.1))
      resized-IsSized d (fail errno) (inr h) = (
        record { sized = λ known. absurd (cc known) },
        record { same_name = refl; same_fd = refl; same_can_write = refl; same_old_fd = refl },
        inr (errno, refl, h.2),
      )
      resized-IsSized d (ok done) (inl h) = (
        record {
          sized = λ known. sym (length-resize size (content st.system)) ∙ sym (ap length h.2);
        },
        record { same_name = refl; same_fd = refl; same_can_write = refl; same_old_fd = refl },
        inl (refl, h.2),
      )
