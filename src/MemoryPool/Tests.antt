-- ===== src/MemoryPool/Tests.antt =====
-- A block that is used, released and handed out again, and the witness.
use encfs.Base.{ℕ, List, [], ◌∷◌, replicate, arith}
use encfs.MemoryPool.{Block, Memory, allocate, release, take_block, fill}
use encfs.MemoryPool.Life.{
  IsValid, IsHanded, allocated, released, filled, Reach, here, next, no_memory, pool-IsHanded,
  count,
}

abbrev ones : ℕ → List ℕ
ones n = replicate n 1

abbrev used_block : Block
used_block = record { address = 0; size = 4; bytes = 9 ∷ 9 ∷ [] }

-- The block is in the pool again.
abbrev pooled : Memory
pooled = record {
  pool = record { address = 0; size = 4; bytes = replicate 4 0 } ∷ [];
  in_use = [];
  next_address = 1;
}

a_life : Reach ones (no_memory ones) pooled
unfolding allocate take_block release count
a_life =
    next
      (next (next here (allocated (no_memory ones) 4))
        (filled (allocate ones (no_memory ones) 4).0 0 (9 ∷ 9 ∷ [])))
      (released (fill (allocate ones (no_memory ones) 4).0 0 (9 ∷ 9 ∷ [])) used_block (omega arith))

pool-IsHanded_example :
    IsValid pooled × IsHanded ones pooled 3 (allocate ones pooled 3).0 (allocate ones pooled 3).1
pool-IsHanded_example = pool-IsHanded ones pooled 3 a_life
