-- ===== src/MacFile/Block.antt =====
-- A block with its header: what was sealed is accepted, and what is accepted bears the MAC.
use encfs.Base.{
  ℕ, zero, suc, ◌+◌, ◌<◌, Bool, true, false, not, ◌&&◌, List, [], ◌∷◌, ◌++◌, length, take, drop,
  replicate, write_le, if◌then◌else◌, ltb,
}
use encfs.Base.{
  Option, none, some, ◌≡◌, ◌≢◌, ◌⊎◌, inl, inr, refl, sym, ap, ◌∙◌, arith, Bool-cases, length-append,
  length-replicate, take-append-drop, drop-append_left, drop-drop, length-drop, append_assoc,
}
use encfs.Cipher.Ops.{CipherOps, IsCipher}
use encfs.BlockFile.Layer.{fail, ok}
use encfs.MacFile.{
  MacFileIo, header_size, skip_block, differences, check_block, with_random, with_mac, seal_block,
  ebadmsg,
}
use encfs.MacFile.Compare.{differences_sound, differences_complete, length-write_le}

refuse :
    {A : Type 0} (warn_only : Bool) (a b : A)
    → some (if true && not warn_only then a else b) ≡ some (if warn_only then b else a)
refuse true a b = refl
refuse false a b = refl

differences-same :
    (n mac : ℕ) (data' : List ℕ) → take n data' ≡ write_le n mac → differences n mac data' 0 ≡ 0
differences-same n mac data' e =
    ap (λ (t : List ℕ). differences n mac t 0)
      (sym (take-append-drop n data') ∙ ap (λ (t : List ℕ). t ++ drop n data') e)
    ∙ differences_complete n mac (drop n data')

-- The steps of `readOneBlock` on a block with a MAC.
check_block-steps :
    (c : MacFileIo) (ops : CipherOps) (data' : List ℕ) (mac : ℕ) (iv : Option ℕ)
    → header_size c < length data'
    → skip_block c data' ≡ false
    → ops.mac_64 (drop c.mac_bytes data') none ≡ some (mac, iv)
    → check_block c ops data'
      ≡ some (
          if ltb 0 (differences c.mac_bytes mac data' 0) && not c.warn_only
          then fail ebadmsg
          else ok (drop (header_size c) data'))
unfolding check_block
check_block-steps c ops data' mac iv long no_skip e =
    let long' : ltb (header_size c) (length data') ≡ true = ground arith in rw (long', no_skip, e)

mac_data_pos : (m h : ℕ) (data' : List ℕ) → m + h < length data' → 0 < length (drop m data')
mac_data_pos m h data' long = omega (arith, length-drop m data')

module _ (c : MacFileIo) (ops : CipherOps) (laws : IsCipher ops) where
  -- Over a cipher that keeps its laws: a block longer than its header, where the MAC is not
  -- skipped, is accepted exactly when its first bytes are those of the MAC of the rest, and then
  -- gives its user data; else it is refused with `EBADMSG`, but gives its user data all the same
  -- in a file opened with `forceDecode`.
  pub check_block-cases :
      (data' : List ℕ)
      → header_size c < length data'
      → skip_block c data' ≡ false
      → (mac : ℕ) × (iv : Option ℕ) × (ops.mac_64 (drop c.mac_bytes data') none ≡ some (mac, iv))
        × (((take c.mac_bytes data' ≡ write_le c.mac_bytes mac)
              × (check_block c ops data' ≡ some (ok (drop (header_size c) data'))))
            ⊎ ((take c.mac_bytes data' ≢ write_le c.mac_bytes mac)
                × (check_block c ops data'
                    ≡ some
                        (if c.warn_only then ok (drop (header_size c) data') else fail ebadmsg))))
  check_block-cases data' long no_skip =
      let (mac, iv, e) =
        laws.mac_64_total (drop c.mac_bytes data') none
          (mac_data_pos c.mac_bytes c.rand_bytes data' long) in
      (mac, iv, e, answer mac (check_block-steps c ops data' mac iv long no_skip e))
    where
      answer :
          (mac : ℕ)
          → check_block c ops data'
            ≡ some (
                if ltb 0 (differences c.mac_bytes mac data' 0) && not c.warn_only
                then fail ebadmsg
                else ok (drop (header_size c) data'))
          → ((take c.mac_bytes data' ≡ write_le c.mac_bytes mac)
              × (check_block c ops data' ≡ some (ok (drop (header_size c) data'))))
            ⊎ ((take c.mac_bytes data' ≢ write_le c.mac_bytes mac)
                × (check_block c ops data'
                    ≡ some (if c.warn_only then ok (drop (header_size c) data') else fail ebadmsg)))
      answer mac steps = elim (Bool-cases (ltb 0 (differences c.mac_bytes mac data' 0))) [
        | inl forged ↦ inr (
          λ same. absurd (ground (arith, differences-same c.mac_bytes mac data' same)),
          steps ∙ rw forged (refuse c.warn_only _ _),
        )
        | inr genuine ↦ inl (
          differences_sound c.mac_bytes mac data' 0 (omega arith) (ground arith),
          steps ∙ rw genuine refl,
        )
      ]

-- Without a MAC there is nothing to fill in.
no_header : (m mac : ℕ) (rest : List ℕ) → m ≡ 0 → replicate m 0 ++ rest ≡ write_le m mac ++ rest
unfolding write_le
no_header zero mac rest e = refl
no_header (suc m) mac rest e = absurd (omega (arith, e))

module _ (c : MacFileIo) (ops : CipherOps) (laws : IsCipher ops) (bytes data' : List ℕ)
    (random_size : length bytes ≡ c.rand_bytes) (some_data : 0 < length data') where
  abbrev body : List ℕ
  body = bytes ++ data'

  random_body : with_random c ops (some bytes) data' ≡ ok (replicate c.mac_bytes 0 ++ body)
  random_body = elim (Bool-cases (ltb 0 c.rand_bytes)) [
    | inl some_random ↦ rw some_random (ap ok (append_assoc (replicate c.mac_bytes 0) bytes data'))
    | inr no_random ↦ rw no_random (
        ap (λ (t : List ℕ). ok (replicate c.mac_bytes 0 ++ (t ++ data')))
          (sym (nil bytes (ground (arith, random_size)))))
  ]
    where
      nil : (xs : List ℕ) → length xs ≡ 0 → xs ≡ []
      nil [] e = refl
      nil (x ∷ xs) e = absurd (omega (arith, e))

  behind_zeros : drop c.mac_bytes (replicate c.mac_bytes 0 ++ body) ≡ body
  behind_zeros =
      drop-append_left c.mac_bytes (replicate c.mac_bytes 0) body (length-replicate c.mac_bytes 0)

  mac_body :
      (mac : ℕ) (iv : Option ℕ)
      → ops.mac_64 body none ≡ some (mac, iv)
      → with_mac c ops (ok (replicate c.mac_bytes 0 ++ body))
        ≡ some (ok (write_le c.mac_bytes mac ++ body))
  mac_body mac iv e = elim (Bool-cases (ltb 0 c.mac_bytes)) [
    | inl some_mac ↦ rw (some_mac, behind_zeros, e) refl
    | inr no_mac ↦
        let none_bytes : c.mac_bytes ≡ 0 = ground arith in
        rw no_mac (ap (λ (t : List ℕ). some (ok t)) (no_header c.mac_bytes mac body none_bytes))
  ]

  behind_mac : (mac : ℕ) → drop c.mac_bytes (write_le c.mac_bytes mac ++ body) ≡ body
  behind_mac mac =
      drop-append_left c.mac_bytes (write_le c.mac_bytes mac) body (length-write_le c.mac_bytes mac)

  sealed_size : (mac : ℕ) → length (write_le c.mac_bytes mac ++ body) ≡ header_size c + length data'
  sealed_size mac =
      length-append (write_le c.mac_bytes mac) body
      ∙ omega (arith, length-write_le c.mac_bytes mac, length-append bytes data', random_size)

  accepted :
      (mac : ℕ) (iv : Option ℕ)
      → ops.mac_64 body none ≡ some (mac, iv)
      → check_block c ops (write_le c.mac_bytes mac ++ body) ≡ some (ok data')
  unfolding check_block
  accepted mac iv e =
      let block = write_le c.mac_bytes mac ++ body in
      let user : drop (header_size c) block ≡ data' =
        sym (drop-drop c.rand_bytes c.mac_bytes block)
        ∙ ap (drop c.rand_bytes) (behind_mac mac)
        ∙ drop-append_left c.rand_bytes bytes data' random_size in
      let size : length block ≡ header_size c + length data' = sealed_size mac in
      let long : ltb (header_size c) (length block) ≡ true = ground (arith, size) in
      elim (Bool-cases (skip_block c block)) [
        | inl skips ↦ rw (long, skips) (ap (λ (t : List ℕ). some (ok t)) user)
        | inr checks ↦
            check_block-steps c ops block mac iv (omega (arith, size)) checks
              (ap (λ (t : List ℕ). ops.mac_64 t none) (behind_mac mac) ∙ e)
            ∙ ap
                (λ (t : ℕ). some (
                  if ltb 0 t && not c.warn_only
                  then fail ebadmsg
                  else ok (drop (header_size c) block)))
                (differences_complete c.mac_bytes mac body)
            ∙ ap (λ (t : List ℕ). some (ok t)) user
      ]

  -- Over a cipher that keeps its laws: a block of data that is not empty, which `writeOneBlock`
  -- sealed with the random bytes and the MAC that the settings ask for, is accepted by
  -- `readOneBlock` and gives its data back. It is longer by the header.
  pub check_block-seal_block :
      (block : List ℕ) × (seal_block c ops (some bytes) data' ≡ some (ok block))
      × (length block ≡ header_size c + length data')
      × (check_block c ops block ≡ some (ok data'))
  unfolding seal_block
  check_block-seal_block =
      let (mac, iv, e) = laws.mac_64_total body none (omega (arith, length-append bytes data')) in
      (
        write_le c.mac_bytes mac ++ body,
        ap (with_mac c ops) random_body ∙ mac_body mac iv e,
        sealed_size mac,
        accepted mac iv e,
      )
