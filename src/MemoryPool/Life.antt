-- ===== src/MemoryPool/Life.antt =====
-- No block is handed out twice, and none comes from the pool with bytes of an earlier use.
use encfs.Base.{
  ℕ, ◌+◌, ◌≤◌, ◌<◌, Bool, true, false, List, [], ◌∷◌, replicate, All, Option, none, some,
  if◌then◌else◌, ltb, ◌==◌, ◌≡◌, ◌⊎◌, inl, inr, refl, arith,
}
use mathlib.Core.Path.{subst}
use encfs.MemoryPool.{
  Block, Memory, pick_larger, take_block, handed, allocate, remove_block, release, destroy_all,
  set_bytes, fill,
}

-- How often a block at this address is in a list.
unfoldable pub count : ℕ → List Block → ℕ
count a [] = 0
count a (block ∷ blocks) = (if block.address == a then 1 else 0) + count a blocks

abbrev pub IsZeroed : Block → Type 0
IsZeroed block = block.bytes ≡ replicate block.size 0

pub record IsValid (m : Memory) : Type 0 where
  -- No address stands twice, in the pool and in use together.
  pub once : (a : ℕ) → count a m.pool + count a m.in_use ≤ 1
  -- The system gives new addresses.
  pub new_address : (a : ℕ) → m.next_address ≤ a → count a m.pool + count a m.in_use ≡ 0
  -- The bytes in the pool are zeros.
  pub zeroed : All IsZeroed m.pool

-- What is taken is large enough, and the rest stays.
record IsTaken (size : ℕ) (pool : List Block) (block : Block) (rest : List Block) : Type 0 where
  large : size ≤ block.size
  counts : (a : ℕ) → count a pool ≡ (if block.address == a then 1 else 0) + count a rest
  zeros : All IsZeroed pool → IsZeroed block × All IsZeroed rest

take_block-IsTaken :
    (size : ℕ) (pool : List Block) (block : Block) (rest : List Block)
    → take_block size pool ≡ some (block, rest)
    → IsTaken size pool block rest
unfolding take_block count
take_block-IsTaken size [] block rest e = absurd (cc e)
take_block-IsTaken size (first ∷ pool) block rest e =
    go (take_block size pool) (take_block-IsTaken size pool) (ltb first.size size) refl e
  where
    go :
        (o : Option (Block × List Block))
        → ((b : Block) (r : List Block) → o ≡ some (b, r) → IsTaken size pool b r)
        → (small : Bool) → ltb first.size size ≡ small
        → pick_larger first small pool o ≡ some (block, rest)
        → IsTaken size (first ∷ pool) block rest
    go o ih false s k =
        let same_block : first ≡ block = cc k in
        let same_rest : pool ≡ rest = cc k in
        subst (λ (b : Block). IsTaken size (first ∷ pool) b rest) same_block
          (subst (λ (r : List Block). IsTaken size (first ∷ pool) first r) same_rest
            (record { large = ground arith; counts = λ a. refl; zeros = λ z. (z.0, z.1) }))
    go none ih true s k = absurd (cc k)
    go (some (fit, more)) ih true s k =
        let same_block : fit ≡ block = cc k in
        let same_rest : (first ∷ more) ≡ rest = cc k in
        let t = ih fit more refl in
        subst (λ (b : Block). IsTaken size (first ∷ pool) b rest) same_block
          (subst (λ (r : List Block). IsTaken size (first ∷ pool) fit r) same_rest
            (record {
              large = t.large;
              counts = λ a. omega (arith, t.counts a);
              zeros = λ z. ((t.zeros z.1).0, (z.0, (t.zeros z.1).1));
            }))

module _ (contents : ℕ → List ℕ) where
  -- What `allocate` gives: a block that is large enough and was in nobody's hands, new or out of the
  -- pool with nothing but zeros in it.
  pub record IsHanded (m : Memory) (size : ℕ) (m' : Memory) (block : Block) : Type 0 where
    pub large : size ≤ block.size
    pub not_in_use : count block.address m.in_use ≡ 0
    pub clean : IsZeroed block ⊎ (block.bytes ≡ contents size)
    pub valid : IsValid m'

  allocate-IsHanded :
      (m : Memory) (size : ℕ)
      → IsValid m
      → IsHanded m size (allocate contents m size).0 (allocate contents m size).1
  unfolding allocate count
  allocate-IsHanded m size v = go (take_block size m.pool) refl
    where
      self : (a : ℕ) → (if a == a then 1 else 0) ≡ (let n : ℕ = 1 in n)
      self a = ground arith

      go :
          (o : Option (Block × List Block))
          → take_block size m.pool ≡ o
          → IsHanded m size (handed contents m size o).0 (handed contents m size o).1
      go (some (block, rest)) e =
          let t = take_block-IsTaken size m.pool block rest e in
          record {
            large = t.large;
            not_in_use =
                omega (arith, v.once block.address, t.counts block.address, self block.address);
            clean = inl (t.zeros v.zeroed).0;
            valid = record {
              once = λ a. omega (arith, v.once a, t.counts a);
              new_address = λ a h. omega (arith, v.new_address a h, t.counts a);
              zeroed = (t.zeros v.zeroed).1;
            };
          }
      go none e = record {
        large = omega arith;
        not_in_use = omega (arith, v.new_address m.next_address (omega arith));
        clean = inr refl;
        valid = record {
          once = λ a. ground (arith, v.once a, v.new_address a);
          new_address = λ a h. ground (arith, v.new_address a);
          zeroed = v.zeroed;
        };
      }

  count-remove_block :
      (a : ℕ) (block : Block) (blocks : List Block)
      → 0 < count block.address blocks
      → count a blocks
        ≡ (if block.address == a then 1 else 0) + count a (remove_block block.address blocks)
  unfolding count
  count-remove_block a block [] h = absurd (omega arith)
  count-remove_block a block (first ∷ blocks) h = ground (arith, count-remove_block a block blocks)

  count-set_bytes :
      (a address : ℕ) (bytes : List ℕ) (blocks : List Block)
      → count a (set_bytes address bytes blocks) ≡ count a blocks
  unfolding count
  count-set_bytes a address bytes [] = refl
  count-set_bytes a address bytes (first ∷ blocks) =
      ground (arith, count-set_bytes a address bytes blocks)

  -- One call, or a client that writes to its buffer. Only a block that is in use is released.
  pub data Step : Memory → Memory → Type 0 where
    allocated : (m : Memory) (size : ℕ) → Step m (allocate contents m size).0
    released :
        (m : Memory) (block : Block) → 0 < count block.address m.in_use → Step m (release m block)
    destroyed : (m : Memory) → Step m (destroy_all m).0
    filled : (m : Memory) (address : ℕ) (bytes : List ℕ) → Step m (fill m address bytes)

  pub data Reach (m : Memory) : Memory → Type 0 where
    here : Reach m m
    next : {m1 m2 : Memory} → Reach m m1 → Step m1 m2 → Reach m m2

  Step-IsValid : {m m' : Memory} → Step m m' → IsValid m → IsValid m'
  unfolding release destroy_all count
  Step-IsValid (allocated m size) v = (allocate-IsHanded m size v).valid
  Step-IsValid (released m block used) v = record {
    once = λ a. omega (arith, v.once a, count-remove_block a block m.in_use used);
    new_address = λ a h. omega (arith, v.new_address a h, count-remove_block a block m.in_use used);
    zeroed = (refl, v.zeroed);
  }
  Step-IsValid (destroyed m) v = record {
    once = λ a. omega (arith, v.once a);
    new_address = λ a h. omega (arith, v.new_address a h);
    zeroed = tt;
  }
  Step-IsValid (filled m address bytes) v = record {
    once = λ a. omega (arith, v.once a, count-set_bytes a address bytes m.in_use);
    new_address = λ a h. omega (arith, v.new_address a h, count-set_bytes a address bytes m.in_use);
    zeroed = v.zeroed;
  }

  abbrev pub no_memory : Memory
  no_memory = record { pool = []; in_use = []; next_address = 0 }

  reach-IsValid : (m : Memory) → Reach no_memory m → IsValid m
  unfolding count
  reach-IsValid m here = record { once = λ a. omega arith; new_address = λ a h. refl; zeroed = tt }
  reach-IsValid m (next {m1} {m2} reached step) = Step-IsValid step (reach-IsValid m1 reached)

  -- After any sequence of allocating, writing to what was allocated, releasing what is in use, and
  -- destroying the pool: `allocate` gives a block that is at least as large as asked for and that nobody
  -- has, and what it gives is a new block, or one of the pool with nothing but zeros in it. No
  -- address stands twice in the pool and among the blocks in use, before and after.
  pub pool-IsHanded :
      (m : Memory) (size : ℕ)
      → Reach no_memory m
      → IsValid m × IsHanded m size (allocate contents m size).0 (allocate contents m size).1
  pool-IsHanded m size reached = let v = reach-IsValid m reached in (v, allocate-IsHanded m size v)
