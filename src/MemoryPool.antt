-- ===== src/MemoryPool.antt =====
-- encfs/MemoryPool.cpp: buffers that are handed out and taken back. Each function runs under the lock of
-- the source, so that calls of threads follow one another.
pub mod Life
pub mod Tests
use encfs.Base.{
  ℕ, ◌+◌, ◌<◌, Bool, true, false, List, [], ◌∷◌, length, replicate, Option, none, some,
  if◌then◌else◌, ltb, ◌==◌,
}

-- `BlockList`, with the address that tells blocks apart.
pub record Block : Type 0 where
  pub address : ℕ
  pub size : ℕ
  pub bytes : List ℕ

-- `gMemPool`, the blocks that are handed out, and the addresses that the system has not given yet.
pub record Memory : Type 0 where
  pub pool : List Block
  pub in_use : List Block
  pub next_address : ℕ

-- The first block that is large enough, and the list without it.
abbrev pub pick_larger :
    Block → Bool → List Block → Option (Block × List Block) → Option (Block × List Block)
pick_larger block false pool found = some (block, pool)
pick_larger block true pool none = none
pick_larger block true pool (some (fit, rest)) = some (fit, block ∷ rest)

pub take_block : ℕ → List Block → Option (Block × List Block)
take_block size [] = none
take_block size (block ∷ pool) = pick_larger block (ltb block.size size) pool (take_block size pool)

-- `allocBlock`; `contents` is what `BUF_MEM_grow` leaves in so many bytes.
abbrev pub alloc_block : (ℕ → List ℕ) → ℕ → ℕ → Block
alloc_block contents address size = record { address = address; size = size; bytes = contents size }

-- `allocate`
abbrev pub handed : (ℕ → List ℕ) → Memory → ℕ → Option (Block × List Block) → Memory × Block
handed contents m size (some (block, rest)) =
    (record m { pool = rest; in_use = block ∷ m.in_use }, block)
handed contents m size none =
    let block = alloc_block contents m.next_address size in
    (record m { in_use = block ∷ m.in_use; next_address = m.next_address + 1 }, block)

pub allocate : (ℕ → List ℕ) → Memory → ℕ → Memory × Block
allocate contents m size = handed contents m size (take_block size m.pool)

-- `release` of a block that is in use: its bytes are overwritten.
abbrev pub remove_block : ℕ → List Block → List Block
remove_block address [] = []
remove_block address (block ∷ blocks) =
    if block.address == address then blocks else block ∷ remove_block address blocks

pub release : Memory → Block → Memory
release m block = record m {
  pool = record block { bytes = replicate block.size 0 } ∷ m.pool;
  in_use = remove_block block.address m.in_use;
}

-- `destroyAll`: the blocks that are freed.
pub destroy_all : Memory → Memory × List Block
destroy_all m = (record m { pool = [] }, m.pool)

-- What a client does to its buffer.
abbrev pub set_bytes : ℕ → List ℕ → List Block → List Block
set_bytes address bytes [] = []
set_bytes address bytes (block ∷ blocks) =
    (if block.address == address then record block { bytes = bytes } else block)
    ∷ set_bytes address bytes blocks

abbrev pub fill : Memory → ℕ → List ℕ → Memory
fill m address bytes = record m { in_use = set_bytes address bytes m.in_use }
