-- ===== src/Base/Overwrite.antt =====
-- Writing bytes into a sequence of bytes at a place, with zeros in a gap behind its end.
use Prim.Native.Nat.{ℕ, zero, suc, ◌+◌, ◌≤◌, max}
use mathlib.Core.Path.{◌≡◌, refl, sym, ap, ◌∙◌}
use mathlib.Core.Logic.{◌⊎◌, inl, inr}
use mathlib.Core.List.{List, [], ◌∷◌, ◌++◌}
use native.Mathlib.Omega.{arith}
use encfs.Base.Lists.{length, take, drop, replicate, drop_all, take_all}

-- `memcpy(buf + offset, data, length)`, where `buf` is zero behind its bytes; a file that is written
-- behind its end reads the same.
unfoldable pub write_at : List ℕ → ℕ → List ℕ → List ℕ
write_at [] zero data' = data'
write_at [] (suc offset) data' = 0 ∷ write_at [] offset data'
write_at (x ∷ buf) zero [] = x ∷ buf
write_at (x ∷ buf) zero (y ∷ data') = y ∷ write_at buf zero data'
write_at (x ∷ buf) (suc offset) data' = x ∷ write_at buf offset data'

pub length-write_at :
    (buf : List ℕ) (offset : ℕ) (data' : List ℕ)
    → length (write_at buf offset data') ≡ max (length buf) (offset + length data')
unfolding write_at
length-write_at [] zero data' = omega arith
length-write_at [] (suc offset) data' = omega (arith, length-write_at [] offset data')
length-write_at (x ∷ buf) zero [] = omega arith
length-write_at (x ∷ buf) zero (y ∷ data') = omega (arith, length-write_at buf zero data')
length-write_at (x ∷ buf) (suc offset) data' = omega (arith, length-write_at buf offset data')

write_at_nil : (buf data' : List ℕ) → length buf ≤ length data' → write_at buf 0 data' ≡ data'
unfolding write_at
write_at_nil [] data' h = refl
write_at_nil (x ∷ buf) [] h = absurd (omega arith)
write_at_nil (x ∷ buf) (y ∷ data') h = ap (◌∷◌ y) (write_at_nil buf data' (omega arith))

-- At its end, a buffer is continued.
pub write_at_end :
    (buf : List ℕ) (offset : ℕ) (data' : List ℕ)
    → length buf ≡ offset
    → write_at buf offset data' ≡ buf ++ data'
unfolding write_at
write_at_end [] zero data' e = refl
write_at_end [] (suc offset) data' e = absurd (omega arith)
write_at_end (x ∷ buf) zero data' e = absurd (omega arith)
write_at_end (x ∷ buf) (suc offset) data' e =
    ap (◌∷◌ x) (write_at_end buf offset data' (omega arith))

-- Two writes that meet are one.
pub write_at-append :
    (buf : List ℕ) (offset next : ℕ) (front back : List ℕ)
    → next ≡ offset + length front
    → write_at (write_at buf offset front) next back ≡ write_at buf offset (front ++ back)
unfolding write_at
write_at-append [] zero next front back e = write_at_end front next back (omega arith)
write_at-append [] (suc offset) zero front back e = absurd (omega arith)
write_at-append [] (suc offset) (suc next) front back e =
    ap (◌∷◌ 0) (write_at-append [] offset next front back (omega arith))
write_at-append (x ∷ buf) zero zero [] back e = refl
write_at-append (x ∷ buf) zero (suc next) [] back e = absurd (omega arith)
write_at-append (x ∷ buf) zero zero (y ∷ front) back e = absurd (omega arith)
write_at-append (x ∷ buf) zero (suc next) (y ∷ front) back e =
    ap (◌∷◌ y) (write_at-append buf zero next front back (omega arith))
write_at-append (x ∷ buf) (suc offset) zero front back e = absurd (omega arith)
write_at-append (x ∷ buf) (suc offset) (suc next) front back e =
    ap (◌∷◌ x) (write_at-append buf offset next front back (omega arith))

-- Zeros behind the end make no difference to a write that starts behind them.
pub write_at_padded :
    (buf : List ℕ) (k offset : ℕ) (data' : List ℕ)
    → length buf + k ≤ offset
    → write_at (buf ++ replicate k 0) offset data' ≡ write_at buf offset data'
unfolding write_at
write_at_padded [] zero offset data' h = refl
write_at_padded [] (suc k) zero data' h = absurd (omega arith)
write_at_padded [] (suc k) (suc offset) data' h =
    ap (◌∷◌ 0) (write_at_padded [] k offset data' (omega arith))
write_at_padded (x ∷ buf) k zero data' h = absurd (omega arith)
write_at_padded (x ∷ buf) k (suc offset) data' h =
    ap (◌∷◌ x) (write_at_padded buf k offset data' (omega arith))

write_at_self : (buf : List ℕ) (n : ℕ) → write_at buf 0 (take n buf) ≡ buf
unfolding write_at
write_at_self [] zero = refl
write_at_self [] (suc n) = refl
write_at_self (x ∷ buf) zero = refl
write_at_self (x ∷ buf) (suc n) = ap (◌∷◌ x) (write_at_self buf n)

write_at_front :
    (buf : List ℕ) (n p : ℕ) (data' : List ℕ)
    → p + length data' ≤ n
    → write_at buf 0 (write_at (take n buf) p data') ≡ write_at buf p data'
unfolding write_at
write_at_front [] zero p data' h = refl
write_at_front [] (suc n) p data' h = refl
write_at_front (x ∷ buf) zero zero [] h = refl
write_at_front (x ∷ buf) zero zero (y ∷ data') h = absurd (omega arith)
write_at_front (x ∷ buf) zero (suc p) data' h = absurd (omega arith)
write_at_front (x ∷ buf) (suc n) zero [] h = ap (◌∷◌ x) (write_at_self buf n)
write_at_front (x ∷ buf) (suc n) zero (y ∷ data') h =
    ap (◌∷◌ y) (write_at_front buf n zero data' (omega arith))
write_at_front (x ∷ buf) (suc n) (suc p) data' h =
    ap (◌∷◌ x) (write_at_front buf n p data' (omega arith))

-- Merging into a block and writing the block is writing into the file.
pub write_at-write_at :
    (buf : List ℕ) (b n p offset : ℕ) (data' : List ℕ)
    → p + length data' ≤ n
    → offset ≡ b + p
    → write_at buf b (write_at (take n (drop b buf)) p data') ≡ write_at buf offset data'
unfolding write_at
write_at-write_at buf zero n p offset data' h e =
    write_at_front buf n p data' h ∙ ap (λ (o : ℕ). write_at buf o data') (omega (arith, e))
write_at-write_at [] (suc b) n p zero data' h e = absurd (omega arith)
write_at-write_at [] (suc b) n p (suc offset) data' h e =
    ap (λ (t : List ℕ). 0 ∷ write_at [] b (write_at (take n t) p data'))
      (sym (drop_all b [] (omega arith)))
    ∙ ap (◌∷◌ 0) (write_at-write_at [] b n p offset data' h (omega arith))
write_at-write_at (x ∷ buf) (suc b) n p zero data' h e = absurd (omega arith)
write_at-write_at (x ∷ buf) (suc b) n p (suc offset) data' h e =
    ap (◌∷◌ x) (write_at-write_at buf b n p offset data' h (omega arith))

take-write_at :
    (n : ℕ) (buf data' : List ℕ)
    → length data' ≤ n
    → (length data' ≡ n) ⊎ (length buf ≤ length data')
    → take n (write_at buf 0 data') ≡ data'
unfolding write_at
take-write_at n [] data' h e = take_all n data' h
take-write_at zero (x ∷ buf) [] h e = refl
take-write_at (suc n) (x ∷ buf) [] h e =
    absurd (elim e [ inl s ↦ omega (arith, s) | inr s ↦ omega (arith, s) ])
take-write_at zero (x ∷ buf) (y ∷ data') h e = absurd (omega arith)
take-write_at (suc n) (x ∷ buf) (y ∷ data') h e = ap (◌∷◌ y) (
    take-write_at n buf data' (omega arith)
      (elim e [ inl s ↦ inl (omega (arith, s)) | inr s ↦ inr (omega (arith, s)) ]))

-- A block that was written is read back, when it is full or ends the file.
pub slice-write_at :
    (b n : ℕ) (buf data' : List ℕ)
    → length data' ≤ n
    → (length data' ≡ n) ⊎ (length buf ≤ b + length data')
    → take n (drop b (write_at buf b data')) ≡ data'
unfolding write_at
slice-write_at zero n buf data' h e =
    take-write_at n buf data' h (elim e [ inl s ↦ inl s | inr s ↦ inr (omega (arith, s)) ])
slice-write_at (suc b) n [] data' h e =
    slice-write_at b n [] data' h (elim e [ inl s ↦ inl s | inr s ↦ inr (omega arith) ])
slice-write_at (suc b) n (x ∷ buf) data' h e =
    slice-write_at b n buf data' h (elim e [ inl s ↦ inl s | inr s ↦ inr (omega (arith, s)) ])
