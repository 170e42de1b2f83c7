-- ===== src/NameIo/Path/RoundTrip.antt =====
-- A path that was encoded name by name decodes to itself.
use encfs.Base.{ℕ, suc, true, false, List, [], length}
use encfs.Base.{Option, none, some, ◌≡◌, refl, ap, ◌∙◌, arith, All, Bool-cases, inl, inr, ◌⊎◌}
use encfs.NameIo.Path.Loop.{IsNameIo, strip_slashes, loop-Undone}
use encfs.NameIo.Path.Steps.{IsPathChar}
use encfs.NameIo.Path.{NameIo, recode_loop, recode_path, with_chain, encode_path, decode_path}

module _ (io : NameIo) (laws : IsNameIo io) where
  -- A path of bytes is always encoded, from the loop to the end of the fuel, and decoding the result
  -- gives the path without the slashes at its start, since these are dropped. Both leave the same
  -- vector of the chain.
  pub recode_path-recode_path :
      (path : List ℕ) (iv : Option ℕ)
      → All IsPathChar path
      → (q : List ℕ) × (iv' : Option ℕ) × (recode_path io.encoder path iv ≡ some (q, iv'))
        × (recode_path io.decoder q iv ≡ some (strip_slashes path, iv'))
  unfolding recode_path
  recode_path-recode_path path iv chars =
      let (q, iv', enc, _, back) =
        loop-Undone io laws (suc (length path)) path [] iv (omega arith) chars in
      (
        q,
        iv',
        enc,
        ap (λ (f : ℕ). recode_loop io.decoder (suc f) q [] iv) (omega arith) ∙ back 0 [] refl,
      )

  -- The same with the caller's vector, which is passed on only under chaining.
  with_chain-with_chain :
      (path : List ℕ) (iv : ℕ)
      → All IsPathChar path
      → (q : List ℕ) × (iv' : Option ℕ) × (with_chain io io.encoder path iv ≡ some (q, iv'))
        × (with_chain io io.decoder q iv ≡ some (strip_slashes path, iv'))
  with_chain-with_chain path iv chars = elim (Bool-cases io.chained_name_iv) [
    | inl chained ↦
        let (q, iv', enc, dec) = recode_path-recode_path path (some iv) chars in
        rw chained (q, iv', enc, dec)
    | inr single ↦
        let (q, iv', enc, dec) = recode_path-recode_path path none chars in
        rw single (q, some iv, rw enc refl, rw dec refl)
  ]

  -- Over a name coder that keeps its laws: `encodePath` of a path of bytes other than NUL always
  -- succeeds, and `decodePath` gives the path back without the slashes at its start; in reverse
  -- mode the two change places. Chained or not, both leave the same vector.
  pub decode_path-encode_path :
      (path : List ℕ) (iv : ℕ)
      → All IsPathChar path
      → (q : List ℕ) × (iv' : Option ℕ) × ((io.reverse_encryption ≡ false)
            × (encode_path io path iv ≡ some (q, iv'))
            × (decode_path io q iv ≡ some (strip_slashes path, iv'))
          ⊎ ((io.reverse_encryption ≡ true)
              × (decode_path io path iv ≡ some (q, iv'))
              × (encode_path io q iv ≡ some (strip_slashes path, iv'))))
  unfolding encode_path decode_path
  decode_path-encode_path path iv chars =
      let (q, iv', enc, dec) = with_chain-with_chain path iv chars in
      elim (Bool-cases io.reverse_encryption) [
        | inl reverse ↦ (q, iv', inr (reverse, rw reverse enc, rw reverse dec))
        | inr forward ↦ (q, iv', inl (forward, rw forward enc, rw forward dec))
      ]
