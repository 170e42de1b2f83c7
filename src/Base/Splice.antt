-- ===== src/Base/Splice.antt =====
-- What a write leaves as it is: the bytes before it, those behind it, and a header.
use Prim.Native.Nat.{ℕ, zero, suc, ◌+◌, ◌≤◌}
use mathlib.Core.Path.{◌≡◌, refl, sym, ap, ◌∙◌}
use mathlib.Core.List.{List, [], ◌∷◌, ◌++◌}
use native.Mathlib.Omega.{arith}
use encfs.Base.Lists.{length, take, drop, drop_all, All}
use encfs.Base.Overwrite.{write_at, length-write_at}

pub drop_behind-write_at :
    (buf : List ℕ) (i offset : ℕ) (data' : List ℕ)
    → offset + length data' ≤ i
    → drop i (write_at buf offset data') ≡ drop i buf
unfolding write_at
drop_behind-write_at [] i offset data' h =
    drop_all i (write_at [] offset data') (omega (arith, length-write_at [] offset data'))
    ∙ sym (drop_all i [] (omega arith))
drop_behind-write_at (x ∷ buf) i zero [] h = refl
drop_behind-write_at (x ∷ buf) zero zero (y ∷ data') h = absurd (omega arith)
drop_behind-write_at (x ∷ buf) (suc i) zero (y ∷ data') h =
    drop_behind-write_at buf i zero data' (omega arith)
drop_behind-write_at (x ∷ buf) zero (suc offset) data' h = absurd (omega arith)
drop_behind-write_at (x ∷ buf) (suc i) (suc offset) data' h =
    drop_behind-write_at buf i offset data' (omega arith)

pub slice_before-write_at :
    (buf : List ℕ) (i n offset : ℕ) (data' : List ℕ)
    → i + n ≤ offset
    → offset ≤ length buf
    → take n (drop i (write_at buf offset data')) ≡ take n (drop i buf)
unfolding write_at
slice_before-write_at buf zero zero offset data' h inside = refl
slice_before-write_at [] i n (suc offset) data' h inside = absurd (omega arith)
slice_before-write_at [] zero (suc n) zero data' h inside = absurd (omega arith)
slice_before-write_at [] (suc i) n zero data' h inside = absurd (omega arith)
slice_before-write_at (x ∷ buf) zero (suc n) zero data' h inside = absurd (omega arith)
slice_before-write_at (x ∷ buf) (suc i) n zero data' h inside = absurd (omega arith)
slice_before-write_at (x ∷ buf) zero (suc n) (suc offset) data' h inside =
    ap (◌∷◌ x) (slice_before-write_at buf zero n offset data' (omega arith) (omega arith))
slice_before-write_at (x ∷ buf) (suc i) n (suc offset) data' h inside =
    slice_before-write_at buf i n offset data' (omega arith) (omega arith)

pub write_at_behind :
    (front buf : List ℕ) (offset : ℕ) (data' : List ℕ)
    → write_at (front ++ buf) (length front + offset) data' ≡ front ++ write_at buf offset data'
unfolding write_at
write_at_behind [] buf offset data' = ap (λ (i : ℕ). write_at buf i data') (omega arith)
write_at_behind (x ∷ front) buf offset data' =
    let place : length (x ∷ front) + offset ≡ suc (length front + offset) = omega arith in
    ap (λ (i : ℕ). write_at (x ∷ (front ++ buf)) i data') place
    ∙ ap (◌∷◌ x) (write_at_behind front buf offset data')

pub write_at_over :
    (front buf data' : List ℕ)
    → length data' ≡ length front
    → write_at (front ++ buf) 0 data' ≡ data' ++ buf
unfolding write_at
write_at_over [] [] [] e = refl
write_at_over [] (x ∷ buf) [] e = refl
write_at_over [] buf (y ∷ data') e = absurd (omega arith)
write_at_over (x ∷ front) buf [] e = absurd (omega arith)
write_at_over (x ∷ front) buf (y ∷ data') e =
    ap (◌∷◌ y) (write_at_over front buf data' (omega arith))

pub All-write_at {κ} :
    (P : ℕ → Type κ) (buf : List ℕ) (offset : ℕ) (data' : List ℕ)
    → P 0
    → All P buf
    → All P data'
    → All P (write_at buf offset data')
unfolding write_at
All-write_at P [] zero data' z h k = k
All-write_at P [] (suc offset) data' z h k = (z, All-write_at P [] offset data' z h k)
All-write_at P (x ∷ buf) zero [] z h k = h
All-write_at P (x ∷ buf) zero (y ∷ data') z h k = (k.0, All-write_at P buf zero data' z h.1 k.1)
All-write_at P (x ∷ buf) (suc offset) data' z h k = (h.0, All-write_at P buf offset data' z h.1 k)
