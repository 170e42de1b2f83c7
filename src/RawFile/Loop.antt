-- ===== src/RawFile/Loop.antt =====
-- The loop of `write`: on any answers of `pwrite` it ends with a front of the bytes in their place.
use encfs.Base.{
  ℕ, zero, suc, ◌+◌, ◌≤◌, ◌<◌, false, List, [], ◌∷◌, ◌++◌, length, take, drop, length-take,
  length-drop, take-add, take-append-drop,
}
use encfs.Base.{Option, some, ◌≡◌, ◌⊎◌, inl, inr, refl, sym, ap, ◌∙◌, arith}
use mathlib.Core.Path.{subst}
use encfs.BlockFile.Layer.{Result, fail, ok}
use encfs.RawFile.{Os, State, eio, write_loop, wrote}
use encfs.RawFile.Laws.{IsOs}
use encfs.FileIo.Laws.{put, put-append}

-- The name, the descriptors and the permission to write are as before.
pub record IsSameFile {D : Type 0} (st st' : State D) : Type 0 where
  pub same_name : st'.name ≡ st.name
  pub same_fd : st'.fd ≡ st.fd
  pub same_can_write : st'.can_write ≡ st.can_write
  pub same_old_fd : st'.old_fd ≡ st.old_fd

pub refl-IsSameFile : {D : Type 0} (st : State D) → IsSameFile st st
refl-IsSameFile st = record {
  same_name = refl;
  same_fd = refl;
  same_can_write = refl;
  same_old_fd = refl;
}

module _ {D : Type 0} (os : Os D) (path : List ℕ) (content : D → List ℕ)
    (laws : IsOs os path content) where
  -- How the loop of `write` ends: with all bytes written, or with an error and a front of them. Then the
  -- size is forgotten, or, after a `pwrite` that answered 0, left as it was.
  pub record IsLooped (file : List ℕ) (offset : ℕ) (buf : List ℕ) (st st' : State D)
      (result : Result ℕ) : Type 0 where
    pub same : IsSameFile st st'
    pub ended :
        ((result ≡ ok 0)
          × (content st'.system ≡ put file offset buf)
          × (st'.known_size ≡ st.known_size)
          × (st'.file_size ≡ st.file_size))
        ⊎ ((errno : ℕ) × (k : ℕ) × (result ≡ fail errno)
            × (k ≤ length buf)
            × (content st'.system ≡ put file offset (take k buf))
            × ((st'.known_size ≡ false)
                ⊎ ((errno ≡ eio)
                    × (st'.known_size ≡ st.known_size)
                    × (st'.file_size ≡ st.file_size))))

  abbrev pub Loops : List ℕ → ℕ → List ℕ → State D → Option (State D × Result ℕ) → Type 0
  Loops file offset buf st run =
      (st' : State D) × (result : Result ℕ) × (run ≡ some (st', result))
      × IsLooped file offset buf st st' result

  -- Two parts of the bytes, one after the other.
  joined :
      (file : List ℕ) (offset n : ℕ) (buf back : List ℕ)
      → n ≤ length buf
      → put (put file offset (take n buf)) (offset + n) back ≡ put file offset (take n buf ++ back)
  joined file offset n buf back small =
      let e : offset + n ≡ offset + length (take n buf) = omega (arith, length-take n buf) in
      ap (λ (i : ℕ). put (put file offset (take n buf)) i back) e
      ∙ put-append file offset (take n buf) back

  take_more : (n k : ℕ) (buf : List ℕ) → take n buf ++ take k (drop n buf) ≡ take (n + k) buf
  take_more n k buf = sym (take-add n k buf)

  -- The rest of the loop, behind the first `n` bytes.
  rest_IsLooped :
      (file : List ℕ) (offset n : ℕ) (buf : List ℕ) (d : D) (st st' : State D) (result : Result ℕ)
      → n ≤ length buf
      → IsLooped
          (put file offset (take n buf))
          (offset + n)
          (drop n buf)
          (record st { system = d })
          st'
          result
      → IsLooped file offset buf st st' result
  rest_IsLooped file offset n buf d st st' result small h = record {
    same = record {
      same_name = h.same.same_name;
      same_fd = h.same.same_fd;
      same_can_write = h.same.same_can_write;
      same_old_fd = h.same.same_old_fd;
    };
    ended = elim h.ended [
      | inl done ↦ inl (
        done.0,
        done.1
            ∙ joined file offset n buf (drop n buf) small
            ∙ ap (put file offset) (take-append-drop n buf),
        done.2,
        done.3,
      )
      | inr failed ↦ inr (
        failed.0,
        n + failed.1,
        failed.2,
        omega (arith, failed.3, length-drop n buf, small),
        failed.4
            ∙ joined file offset n buf (take failed.1 (drop n buf)) small
            ∙ ap (put file offset) (take_more n failed.1 buf),
        failed.5,
      )
    ];
  }

  turn :
      (loop : State D → List ℕ → ℕ → Option (State D × Result ℕ)) (st : State D) (buf : List ℕ)
      (offset : ℕ) (d : D) (r : Result ℕ)
      → ((n : ℕ) × (r ≡ ok n)
          × (n ≤ length buf)
          × (content d ≡ put (content st.system) offset (take n buf)))
        ⊎ ((errno : ℕ) × (r ≡ fail errno) × (content d ≡ content st.system))
      → ((n : ℕ)
          → suc n ≤ length buf
          → Loops
              (content d)
              (offset + suc n)
              (drop (suc n) buf)
              (record st { system = d })
              (loop (record st { system = d }) (drop (suc n) buf) (offset + suc n)))
      → Loops (content st.system) offset buf st (wrote os loop st buf offset (d, r))
  turn loop st buf offset d (fail errno) (inl h) next = absurd (cc (h.1))
  turn loop st buf offset d (fail errno) (inr h) next = (
    record st { known_size = false; system = d },
    fail errno,
    refl,
    record {
      same = record { same_name = refl; same_fd = refl; same_can_write = refl; same_old_fd = refl };
      ended = inr (errno, 0, refl, omega arith, h.2, inl refl);
    },
  )
  turn loop st buf offset d (ok zero) (inl h) next =
      let none_written : h.0 ≡ 0 = cc (h.1) in
      (
        record st { system = d },
        fail eio,
        refl,
        record {
          same = record {
            same_name = refl;
            same_fd = refl;
            same_can_write = refl;
            same_old_fd = refl;
          };
          ended = inr (
            eio,
            0,
            refl,
            omega arith,
            h.3 ∙ ap (λ (k : ℕ). put (content st.system) offset (take k buf)) none_written,
            inr (refl, refl, refl),
          );
        },
      )
  turn loop st buf offset d (ok zero) (inr h) next = absurd (cc (h.1))
  turn loop st buf offset d (ok (suc n)) (inr h) next = absurd (cc (h.1))
  turn loop st buf offset d (ok (suc n)) (inl h) next =
      let same_n : suc n ≡ h.0 = cc (h.1) in
      let small : suc n ≤ length buf = omega (arith, same_n, h.2) in
      let (st', result, e, looped) = next n small in
      (
        st',
        result,
        e,
        rest_IsLooped (content st.system) offset (suc n) buf d st st' result small (
            subst
              (λ (f : List ℕ).
                IsLooped f (offset + suc n) (drop (suc n) buf) (record st { system = d }) st'
                  result)
              (h.3 ∙ ap (λ (k : ℕ). put (content st.system) offset (take k buf)) (sym same_n))
              looped),
      )

  pub write_loop-Loops :
      (fuel fd : ℕ) (st : State D) (buf : List ℕ) (offset : ℕ)
      → length buf < fuel
      → Loops (content st.system) offset buf st (write_loop os fuel fd st buf offset)
  unfolding write_loop
  write_loop-Loops zero fd st buf offset h = absurd (omega arith)
  write_loop-Loops (suc fuel) fd st [] offset h =
      (st, ok 0, refl, record { same = refl-IsSameFile st; ended = inl (refl, refl, refl, refl) })
  write_loop-Loops (suc fuel) fd st (x ∷ buf) offset h =
      turn (write_loop os fuel fd) st (x ∷ buf) offset (os.pwrite st.system fd (x ∷ buf) offset).0
        (os.pwrite st.system fd (x ∷ buf) offset).1
        (laws.pwrite_bytes st.system fd offset (x ∷ buf) (omega arith))
        (λ n small.
          write_loop-Loops fuel fd
            (record st { system = (os.pwrite st.system fd (x ∷ buf) offset).0 })
            (drop (suc n) (x ∷ buf)) (offset + suc n)
            (omega (arith, h, length-drop (suc n) (x ∷ buf))))
