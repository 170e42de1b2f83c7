-- ===== src/BlockFile/Write/Steps.antt =====
-- Single steps of writing: a block that is written is in the file and in the cache.
use encfs.Base.{
  ℕ, ◌+◌, ◌%◌, ◌≤◌, ◌<◌, true, List, [], length, slice, write_at, slice-write_at, All, IsByte,
}
use encfs.Base.{Option, some, ◌≡◌, ◌⊎◌, inl, inr, refl, sym, ap, ◌∙◌}
use mathlib.Core.Path.{subst}
use encfs.Cipher.Ssl.{◌>>=◌}
use encfs.BlockFile.Layer.{Result, fail, ok, Lower, IsReader, IsWriter}
use encfs.BlockFile.{BlockFileIo, State, cache_read_one_block, cache_write_one_block, keep_written}
use encfs.BlockFile.Cache.{IsCoherent, cache_read_one_block-Reads}
use encfs.BlockFile.Write.{read_then, write_then, result_then}

-- A call of the layer below has returned this error.
abbrev pub BelowFailed : {S : Type 0} → BlockFileIo → Lower S → ℕ → Type 0
BelowFailed {S = S} c layer errno =
    ((s : S) × (s' : S) × (offset : ℕ) × (layer.read_one_block s offset c.block_size
        ≡ some (s', fail errno)))
    ⊎ ((s : S) × (s' : S) × (offset : ℕ) × (block : List ℕ) × (layer.write_one_block s offset block
          ≡ some (s', fail errno)))
    ⊎ ((s : S) × (s' : S) × (layer.get_size s ≡ some (s', fail errno)))

-- The cache is empty, or it agrees with the file that the state stands for.
abbrev pub IsClean : {S : Type 0} → BlockFileIo → (S → List ℕ → Type 0) → State S → Type 0
IsClean c holds st =
    (length st.cache_data ≡ 0) ⊎ ((f : List ℕ) × holds st.lower f × IsCoherent c f st)

-- The file is the expected one, and the cache agrees with it, unless a call of the layer below failed:
-- then the cache has nothing wrong.
pub record IsWritten {S : Type 0} (c : BlockFileIo) (layer : Lower S) (holds : S → List ℕ → Type 0)
    (expected : List ℕ) (st' : State S) (result : Result ℕ) : Type 0 where
  pub outcome :
      (((n : ℕ) × (result ≡ ok n)) × holds st'.lower expected × IsCoherent c expected st')
      ⊎ ((errno : ℕ) × (result ≡ fail errno) × BelowFailed c layer errno × IsClean c holds st')

module _ {S : Type 0} (c : BlockFileIo) (layer : Lower S) (holds : S → List ℕ → Type 0)
    (reader : IsReader layer c.block_size holds)
    (writer : IsWriter layer c.block_size c.allow_holes holds) where
  abbrev pub Writes : List ℕ → Option (State S × Result ℕ) → Type 0
  Writes expected run =
      (st' : State S) × (result : Result ℕ) × (run ≡ some (st', result))
      × IsWritten c layer holds expected st' result

  pub fails :
      (expected : List ℕ) (st : State S) (errno : ℕ)
      → BelowFailed c layer errno
      → IsClean c holds st
      → Writes expected (some (st, fail errno))
  fails expected st errno why clean =
      (st, fail errno, refl, record { outcome = inr (errno, refl, why, clean) })

  pub succeeds :
      (expected : List ℕ) (st : State S) (n : ℕ)
      → IsCoherent c expected st
      → holds st.lower expected
      → Writes expected (some (st, ok n))
  succeeds expected st n coherent same =
      (st, ok n, refl, record { outcome = inl ((n, refl), same, coherent) })

  -- A block is read, and the rest goes on from a state that is as good.
  pub read_step :
      (st : State S) (file expected : List ℕ) (offset n : ℕ)
      (f : State S → List ℕ → Option (State S × Result ℕ))
      → n ≤ c.block_size
      → offset % c.block_size ≡ 0
      → IsCoherent c file st
      → holds st.lower file
      → ((st1 : State S)
          → IsCoherent c file st1
          → holds st1.lower file
          → Writes expected (f st1 (slice offset n file)))
      → Writes expected (cache_read_one_block c layer st offset n >>= read_then c layer f)
  read_step st file expected offset n f small aligned coherent same next =
      let (st1, result, e, r) =
        cache_read_one_block-Reads c layer holds reader st file offset n small aligned coherent
          same in
      subst (Writes expected)
        (sym (ap (λ (t : Option (State S × Result (List ℕ))). t >>= read_then c layer f) e))
        (elim r.bytes [
          | inl got ↦
              subst (λ (t : Result (List ℕ)). Writes expected (read_then c layer f (st1, t)))
                (sym got) (next st1 r.coherent r.same_content)
          | inr failed ↦
              subst (λ (t : Result (List ℕ)). Writes expected (read_then c layer f (st1, t)))
                (sym failed.1)
                (fails expected st1 failed.0 (inl (failed.2, failed.3, failed.4, failed.5))
                  (inr (file, r.same_content, r.coherent)))
        ])

  -- What the cache holds of a block that was written is in the file.
  kept-IsCoherent :
      (file : List ℕ) (offset : ℕ) (block : List ℕ) (s : S)
      → length block ≤ c.block_size
      → (length block ≡ c.block_size) ⊎ (length file ≤ offset + length block)
      → IsCoherent c
          (write_at file offset block)
          (record { cache_offset = offset; cache_data = block; lower = s })
  kept-IsCoherent file offset block s small fits = record {
    cached = λ _. sym (slice-write_at offset c.block_size file block small fits);
  }

  module _ (st : State S) (file : List ℕ) (offset : ℕ) (block : List ℕ)
      (aligned : offset % c.block_size ≡ 0) (block_bytes : All IsByte block)
      (some_data : 0 < length block) (small : length block ≤ c.block_size)
      (fits : (length block ≡ c.block_size) ⊎ (length file ≤ offset + length block))
      (no_gap : (offset ≤ length file) ⊎ (c.allow_holes ≡ true)) (same : holds st.lower file) where
    -- The ways on from `cacheWriteOneBlock`.
    pub write_cases :
        (P : Option (State S × Result ℕ) → Type 0)
        → ((n : ℕ) (st1 : State S)
            → IsCoherent c (write_at file offset block) st1
            → holds st1.lower (write_at file offset block)
            → P (some (st1, ok n)))
        → ((errno : ℕ) (st1 : State S)
            → BelowFailed c layer errno
            → IsClean c holds st1
            → P (some (st1, fail errno)))
        → P (cache_write_one_block c layer st offset block)
    unfolding cache_write_one_block
    write_cases P good bad =
        let (s', result, e, end) =
          writer.write_result st.lower file offset block same aligned block_bytes some_data small
            fits no_gap in
        let after = λ (r : Result ℕ).
          (let p : Option (State S × Result ℕ) =
              some (keep_written c layer st offset block (s', r)) in
            p) in
        subst P
          (sym (
            ap
              (λ (o : Option (S × Result ℕ)).
                o >>= λ w. some (keep_written c layer st offset block w))
              e))
          (elim end [
            | inl done ↦
                subst (λ (r : Result ℕ). P (after r)) (sym done.1)
                  (good done.0 (record { cache_offset = offset; cache_data = block; lower = s' })
                    (kept-IsCoherent file offset block s' small fits) done.2)
            | inr failed ↦
                subst (λ (r : Result ℕ). P (after r)) (sym failed.1)
                  (bad failed.0
                    (record { cache_offset = st.cache_offset; cache_data = []; lower = s' })
                    (inr (
                      inl (
                        st.lower,
                        s',
                        offset,
                        block,
                        e
                            ∙ ap (λ (r : Result ℕ). some (let p : S × Result ℕ = (s', r) in p))
                                failed.1,
                      )))
                    (inl refl))
          ])

    -- A block is written, and the rest goes on with the file that it leaves.
    pub write_step :
        (expected : List ℕ) (f : State S → Option (State S × Result ℕ))
        → ((st1 : State S)
            → IsCoherent c (write_at file offset block) st1
            → holds st1.lower (write_at file offset block)
            → Writes expected (f st1))
        → Writes expected (result_then c layer f (cache_write_one_block c layer st offset block))
    write_step expected f next =
        write_cases (λ r. Writes expected (result_then c layer f r)) (λ n st1 h e. next st1 h e)
          (λ errno st1 why clean. fails expected st1 errno why clean)

    -- A block is written, and that is all.
    pub write_end :
        Writes (write_at file offset block) (cache_write_one_block c layer st offset block)
    write_end =
        write_cases (Writes (write_at file offset block))
          (λ n st1 h e. succeeds (write_at file offset block) st1 n h e)
          (λ errno st1 why clean. fails (write_at file offset block) st1 errno why clean)

  -- A run that wrote what it should is followed by another.
  pub run_step :
      (middle expected : List ℕ) (run : Option (State S × Result ℕ))
      (f : State S → Option (State S × Result ℕ))
      → Writes middle run
      → ((st1 : State S)
          → IsCoherent c middle st1
          → holds st1.lower middle
          → Writes expected (f st1))
      → Writes expected (result_then c layer f run)
  run_step middle expected run f (st1, result, e, w) next =
      subst (λ (t : Option (State S × Result ℕ)). Writes expected (result_then c layer f t)) (sym e)
        (elim w.outcome [
          | inl done ↦
              subst (λ (t : Result ℕ). Writes expected (write_then c layer f (st1, t)))
                (sym done.0.1) (next st1 done.2 done.1)
          | inr failed ↦
              subst (λ (t : Result ℕ). Writes expected (write_then c layer f (st1, t)))
                (sym failed.1) (fails expected st1 failed.0 failed.2 failed.3)
        ])
