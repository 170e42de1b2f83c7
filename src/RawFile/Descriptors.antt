-- ===== src/RawFile/Descriptors.antt =====
-- The descriptors of a file, and its whole life: what holds after any sequence of operations.
use encfs.Base.{
  ℕ, Bool, true, false, not, ◌||◌, List, [], ◌∷◌, ◌++◌, Option, none, some, if◌then◌else◌, ◌≡◌, ◌⊎◌,
  inl, inr, refl, ap,
}
use encfs.BlockFile.Layer.{Result, fail, ok}
use encfs.RawFile.{
  Os, State, held, descriptors, open_file, open_from, reopen, adopt, or_workaround, request_write,
  final_flags,
}

-- A second descriptor is kept only beside one that can write, so that no third is asked for.
abbrev pub IsHeld : {D : Type 0} → State D → Type 0
IsHeld st = (st.old_fd ≡ none) ⊎ ((fd : ℕ) × (st.fd ≡ some fd) × (st.can_write ≡ true))

module _ {D : Type 0} (os : Os D) where
  -- How `open` ends: with a descriptor that allows what was asked for, and all descriptors as before, but
  -- for a new one at the end; or with an error and the descriptors as before.
  pub record IsOpened (flags : ℕ) (st st' : State D) (result : Result ℕ) : Type 0 where
    pub still_held : IsHeld st'
    pub same_name : st'.name ≡ st.name
    pub same_size : (st'.known_size ≡ st.known_size) × (st'.file_size ≡ st.file_size)
    pub opened :
        ((fd : ℕ) × (result ≡ ok fd)
          × (st'.fd ≡ some fd)
          × (request_write flags ≡ true → st'.can_write ≡ true)
          × ((descriptors st' ≡ descriptors st) ⊎ (descriptors st' ≡ descriptors st ++ fd ∷ [])))
        ⊎ ((errno : ℕ) × (result ≡ fail errno) × (descriptors st' ≡ descriptors st))

  held_more : (old : Option ℕ) (fd : Option ℕ) → old ≡ none → held fd ≡ held old ++ held fd
  held_more none fd e = refl
  held_more (some x) fd e = absurd (cc e)

  adopt-IsOpened :
      (st : State D) (flags : ℕ) (d : D) (r : Result ℕ)
      → IsHeld st
      → st.old_fd ≡ none
      → (st.fd ≡ none) ⊎ (request_write flags ≡ true)
      → IsOpened flags st
          (adopt os st (request_write flags) (d, r)).0
          (adopt os st (request_write flags) (d, r)).1
  unfolding descriptors
  adopt-IsOpened st flags d (fail errno) h no_old needed = record {
    still_held = h;
    same_name = refl;
    same_size = (refl, refl);
    opened = inr (errno, refl, refl);
  }
  adopt-IsOpened st flags d (ok fd) h no_old needed = record {
    still_held = elim needed [ inl first ↦ inl first | inr writes ↦ inr (fd, refl, writes) ];
    same_name = refl;
    same_size = (refl, refl);
    opened = inl (
      fd,
      refl,
      refl,
      λ writes. writes,
      inr (ap (λ (ds : List ℕ). ds ++ fd ∷ []) (held_more st.old_fd st.fd no_old)),
    );
  }

  pub open_file-IsOpened :
      (st : State D) (flags : ℕ)
      → IsHeld st
      → IsOpened flags st (open_file os st flags).0 (open_file os st flags).1
  unfolding open_file
  open_file-IsOpened st flags h = go st.fd refl
    where
      asked : D × Result ℕ
      asked =
          or_workaround os st.name (final_flags os flags)
            (os.open_path st.system st.name (final_flags os flags))

      again :
          st.old_fd ≡ none
          → (st.fd ≡ none) ⊎ (request_write flags ≡ true)
          → IsOpened flags st (reopen os st flags).0 (reopen os st flags).1
      again no_old needed = adopt-IsOpened st flags asked.0 asked.1 h no_old needed

      kept :
          (fd : ℕ)
          → st.fd ≡ some fd
          → (st.can_write ≡ true) ⊎ (request_write flags ≡ false)
          → IsOpened flags st st (ok fd)
      kept fd e allowed = record {
        still_held = h;
        same_name = refl;
        same_size = (refl, refl);
        opened = inl (
          fd,
          refl,
          e,
          λ writes. elim allowed [ inl can ↦ can | inr reads ↦ absurd (cc (writes, reads)) ],
          inl refl,
        );
      }

      by_flags :
          (fd : ℕ)
          → st.fd ≡ some fd
          → (can : Bool) → st.can_write ≡ can
          → (writes : Bool) → request_write flags ≡ writes
          → let next = if can || not writes then (st, ok fd) else reopen os st flags in
            IsOpened flags st next.0 next.1
      by_flags fd e true can writes asks = kept fd e (inl can)
      by_flags fd e false can false asks = kept fd e (inr asks)
      by_flags fd e false can true asks =
          again (elim h [ inl no_old ↦ no_old | inr both ↦ absurd (cc (both.2, can)) ]) (inr asks)

      go :
          (o : Option ℕ)
          → st.fd ≡ o
          → IsOpened flags st (open_from os st flags o).0 (open_from os st flags o).1
      go none e =
          again (elim h [ inl no_old ↦ no_old | inr both ↦ absurd (cc (both.1, e)) ]) (inl e)
      go (some fd) e = by_flags fd e st.can_write refl (request_write flags) refl
