-- ===== src/BlockFile/Cache.antt =====
-- The cache of one block: it never holds anything but the file's bytes, so that reading through it is
-- reading the file.
use encfs.Base.{
  ℕ, ◌%◌, ◌≤◌, min, true, List, [], ◌∷◌, length, take, drop, slice, take-take, take_all,
}
use encfs.Base.{
  Option, some, leb, ◌==◌, ◌≡◌, ◌≢◌, ◌⊎◌, inl, inr, refl, sym, ap, ◌∙◌, arith, Bool-cases,
}
use mathlib.Core.Path.{subst}
use encfs.BlockFile.Layer.{Result, fail, ok, Lower, IsReader}
use encfs.BlockFile.{
  BlockFileIo, State, cache_read_one_block, keep_block, loaded, load_block, is_cached,
}
use encfs.Cipher.Ssl.{◌>>=◌}

-- The cache is empty or holds the file's block at its offset.
pub record IsCoherent {S : Type 0} (c : BlockFileIo) (file : List ℕ) (st : State S) : Type 0 where
  pub cached : length st.cache_data ≢ 0 → st.cache_data ≡ slice st.cache_offset c.block_size file

-- The layer below has returned this error.
abbrev pub HasFailed : {S : Type 0} → BlockFileIo → Lower S → Result (List ℕ) → Type 0
HasFailed {S = S} c layer result =
    (errno : ℕ) × (result ≡ fail errno)
    × (s : S) × (s' : S) × (offset : ℕ) × (layer.read_one_block s offset c.block_size
        ≡ some (s', fail errno))

-- The file is as it was, the cache holds nothing else, and the bytes are the expected ones, unless the
-- layer below failed.
pub record IsRead {S : Type 0} (c : BlockFileIo) (layer : Lower S) (holds : S → List ℕ → Type 0)
    (file expected : List ℕ) (st' : State S) (result : Result (List ℕ)) : Type 0 where
  pub same_content : holds st'.lower file
  pub coherent : IsCoherent c file st'
  pub bytes : (result ≡ ok expected) ⊎ HasFailed c layer result

module _ {S : Type 0} (c : BlockFileIo) (layer : Lower S) (holds : S → List ℕ → Type 0)
    (reader : IsReader layer c.block_size holds) where
  -- The front of a block.
  front :
      (file : List ℕ) (offset n : ℕ) (block : List ℕ)
      → n ≤ c.block_size
      → block ≡ slice offset c.block_size file
      → take n block ≡ slice offset n file
  front file offset n block small e =
      ap (take n) e
      ∙ take-take n c.block_size (drop offset file)
      ∙ ap (λ (k : ℕ). take k (drop offset file)) shorter
    where
      shorter : min n c.block_size ≡ n
      shorter = omega arith

  -- What is kept of a block is what is in the file, from a cache that was emptied.
  module _ (st : State S) (file : List ℕ) (offset n : ℕ) (small : n ≤ c.block_size)
      (same : holds st.lower file) (empty : st.cache_data ≡ []) where
    abbrev Kept : Result (List ℕ) → Type 0
    Kept result =
        IsRead c layer holds file (slice offset n file) (keep_block c layer st offset n result).0
          (keep_block c layer st offset n result).1

    empty-IsCoherent : IsCoherent c file st
    empty-IsCoherent = record { cached = λ some_data. absurd (some_data (ap length empty)) }

    ok-Kept : (block : List ℕ) → block ≡ slice offset c.block_size file → Kept (ok block)
    ok-Kept [] e = record {
      same_content = same;
      coherent = empty-IsCoherent;
      bytes = inl (ap ok (sym (take_all n [] (omega arith)) ∙ front file offset n [] small e));
    }
    ok-Kept (x ∷ block) e = record {
      same_content = same;
      coherent = record { cached = λ _. e };
      bytes = inl (ap ok (front file offset n (x ∷ block) small e));
    }

    fail-Kept :
        (errno : ℕ) (s s' : S) (o : ℕ)
        → layer.read_one_block s o c.block_size ≡ some (s', fail errno)
        → Kept (fail errno)
    fail-Kept errno s s' o e = record {
      same_content = same;
      coherent = empty-IsCoherent;
      bytes = inr (errno, refl, s, s', o, e);
    }

    keep_block-IsRead :
        (result : Result (List ℕ))
        → (result ≡ ok (slice offset c.block_size file)) ⊎ HasFailed c layer result
        → Kept result
    keep_block-IsRead result h = elim h [
      | inl e ↦ subst Kept (sym e) (ok-Kept (slice offset c.block_size file) refl)
      | inr failed ↦
          subst Kept (sym failed.1) (fail-Kept failed.0 failed.2 failed.3 failed.4 failed.5)
    ]

  -- A call that reads `n` bytes at `offset` of the file.
  abbrev Reads : List ℕ → ℕ → ℕ → Option (State S × Result (List ℕ)) → Type 0
  Reads file offset n run =
      (st' : State S) × (result : Result (List ℕ)) × (run ≡ some (st', result))
      × IsRead c layer holds file (slice offset n file) st' result

  load_block-Reads :
      (st : State S) (file : List ℕ) (offset n : ℕ)
      → n ≤ c.block_size
      → offset % c.block_size ≡ 0
      → holds st.lower file
      → Reads file offset n (load_block c layer st offset n)
  load_block-Reads st file offset n small aligned same =
      let (s', read, e, same', result) = reader.read_result st.lower file offset same aligned in
      let st1 : State S = record { cache_offset = st.cache_offset; cache_data = []; lower = s' } in
      let from_below : (read ≡ ok (slice offset c.block_size file)) ⊎ HasFailed c layer read =
        elim result [
          | inl got ↦ inl got
          | inr failed ↦ inr (
            failed.0,
            failed.1,
            st.lower,
            s',
            offset,
            e
                ∙ ap (λ (r : Result (List ℕ)). some (let p : S × Result (List ℕ) = (s', r) in p))
                    failed.1,
          )
        ] in
      (
        (keep_block c layer st1 offset n read).0,
        (keep_block c layer st1 offset n read).1,
        ap (λ (o : Option (S × Result (List ℕ))). o >>= λ r. some (loaded c layer st offset n r)) e,
        keep_block-IsRead st1 file offset n small same' refl read from_below,
      )

  -- From the cache the same bytes come as from the file.
  cached-IsRead :
      (st : State S) (file : List ℕ) (offset n : ℕ)
      → n ≤ c.block_size
      → IsCoherent c file st
      → holds st.lower file
      → is_cached c layer st offset ≡ true
      → IsRead c layer holds file (slice offset n file) st (ok (take n st.cache_data))
  cached-IsRead st file offset n small coherent same hit =
      let here : offset ≡ st.cache_offset = ground arith in
      let some_data : length st.cache_data ≢ 0 = ground arith in
      let e = coherent.cached some_data ∙ ap (λ (k : ℕ). slice k c.block_size file) (sym here) in
      record {
        same_content = same;
        coherent = coherent;
        bytes = inl (ap ok (front file offset n st.cache_data small e));
      }

  -- `cacheReadOneBlock` at the start of a block reads the file, from the cache or from below, and
  -- changes no byte of it. It fails only when the layer below does.
  pub cache_read_one_block-Reads :
      (st : State S) (file : List ℕ) (offset n : ℕ)
      → n ≤ c.block_size
      → offset % c.block_size ≡ 0
      → IsCoherent c file st
      → holds st.lower file
      → Reads file offset n (cache_read_one_block c layer st offset n)
  unfolding cache_read_one_block
  cache_read_one_block-Reads st file offset n small aligned coherent same =
      let fits : leb n c.block_size ≡ true = ground arith in
      let whole : (offset % c.block_size == 0) ≡ true = ground arith in
      elim (Bool-cases (is_cached c layer st offset)) [
        | inl hit ↦
            rw (fits, whole, hit)
              (
                st,
                ok (take n st.cache_data),
                refl,
                cached-IsRead st file offset n small coherent same hit,
              )
        | inr miss ↦ rw (fits, whole, miss) (load_block-Reads st file offset n small aligned same)
      ]
