-- ===== src/BlockFile/Tests.antt =====
-- A file in memory as the lower layer, and the witnesses.
use encfs.Base.{
  ℕ, ◌-◌, false, List, [], ◌∷◌, ◌++◌, length, slice, take, replicate, write_at, All, IsByte,
  All-write_at, none, some, ◌≡◌, inl, refl, ap, arith,
}
use encfs.BlockFile.Write.{write}
use encfs.BlockFile.Truncate.{truncate_base}
use encfs.BlockFile.Truncate.Extend.{truncate_base-IsWritten}
use encfs.BlockFile.Write.Steps.{IsWritten}
use encfs.BlockFile.Write.Whole.{write-IsWritten}
use encfs.BlockFile.Layer.{IsWriter, Result, ok, Lower, IsReader}
use encfs.BlockFile.{BlockFileIo, State, cache_read_one_block, read}
use encfs.BlockFile.Cache.{IsCoherent, IsRead}
use encfs.BlockFile.Read.{read-IsRead}

abbrev memory : Lower (List ℕ)
memory = record {
  read_one_block = λ file offset n. some (file, ok (slice offset n file));
  write_one_block = λ file offset bytes. some (write_at file offset bytes, ok (length bytes));
  get_size = λ file. some (file, ok (length file));
}

abbrev io : BlockFileIo
io = record { block_size = 3; allow_holes = false; no_cache = false }

-- The memory is the file.
abbrev InMemory : List ℕ → List ℕ → Type 0
InMemory s file = (s ≡ file) × All IsByte file

memory-IsReader : IsReader memory 3 InMemory
memory-IsReader = record {
  read_result = λ s file offset h aligned.
      (s, ok (slice offset 3 s), refl, h, inl (ap (λ (t : List ℕ). ok (slice offset 3 t)) h.0));
}

memory-IsWriter : IsWriter memory 3 false InMemory
memory-IsWriter = record {
  bytes = λ s file h. h.1;
  write_result = λ s file offset block h aligned bytes some_data small fits near. (
    write_at s offset block,
    ok (length block),
    refl,
    inl (
      length block,
      refl,
      (
        ap (λ (t : List ℕ). write_at t offset block) h.0,
        All-write_at IsByte file offset block (omega arith) h.1 bytes,
      ),
    ),
  );
  size_result =
      λ s file h. (s, ok (length s), refl, h, inl (ap (λ (t : List ℕ). ok (length t)) h.0));
}

abbrev some_file : List ℕ
some_file = 1 ∷ 2 ∷ 3 ∷ 4 ∷ 5 ∷ 6 ∷ 7 ∷ []

-- The second block of the file is in the cache.
abbrev a_file : State (List ℕ)
a_file = record {
  cache_offset = 3;
  cache_data = 4 ∷ 5 ∷ 6 ∷ [];
  lower = 1 ∷ 2 ∷ 3 ∷ 4 ∷ 5 ∷ 6 ∷ 7 ∷ [];
}

a_file-IsCoherent : IsCoherent io some_file a_file
a_file-IsCoherent = record { cached = λ _. refl }

read-IsRead_example :
    (st' : State (List ℕ)) × (result : Result (List ℕ)) × (read io memory a_file 2 4
      ≡ some (st', result))
    × IsRead io memory InMemory some_file (3 ∷ 4 ∷ 5 ∷ 6 ∷ []) st' result
read-IsRead_example =
    read-IsRead io memory InMemory memory-IsReader a_file some_file 2 4 (omega arith)
      a_file-IsCoherent (refl, omega arith)

-- Behind the end of the file, across two blocks.
write-IsWritten_example :
    (st' : State (List ℕ)) × (result : Result ℕ) × (write io memory a_file 11 (8 ∷ 9 ∷ [])
      ≡ some (st', result))
    × IsWritten io memory InMemory
        (1 ∷ 2 ∷ 3 ∷ 4 ∷ 5 ∷ 6 ∷ 7 ∷ 0 ∷ 0 ∷ 0 ∷ 0 ∷ 8 ∷ 9 ∷ [])
        st'
        result
unfolding write_at
write-IsWritten_example =
    write-IsWritten io memory InMemory memory-IsReader memory-IsWriter (omega arith) a_file
      some_file 11 (8 ∷ 9 ∷ []) (omega arith) (omega arith) a_file-IsCoherent (refl, omega arith)

-- To the middle of the fourth block.
truncate_base-IsWritten_example :
    (st' : State (List ℕ)) × (result : Result ℕ) × (truncate_base io memory none a_file 11
      ≡ some (st', result))
    × IsWritten io memory InMemory (some_file ++ replicate (11 - length some_file) 0) st' result
truncate_base-IsWritten_example =
    truncate_base-IsWritten io memory InMemory memory-IsReader memory-IsWriter (omega arith) refl
      a_file some_file 11 some_file a_file-IsCoherent refl (refl, omega arith) (omega arith)

abbrev memory_cut : List ℕ → ℕ → List ℕ × Result ℕ
memory_cut file size = (take size file, ok 0)

-- A cut on the bound of a block leaves the block behind it in the cache, and a read behind the new end
-- returns it.
abbrev cut_file : State (List ℕ)
cut_file = record { cache_offset = 3; cache_data = 4 ∷ 5 ∷ 6 ∷ []; lower = 1 ∷ 2 ∷ 3 ∷ [] }

cut_on_bound : truncate_base io memory (some memory_cut) a_file 3 ≡ some (cut_file, ok 0)
unfolding truncate_base
cut_on_bound = refl

read_behind_end : read io memory cut_file 3 3 ≡ some (cut_file, ok (4 ∷ 5 ∷ 6 ∷ []))
unfolding read cache_read_one_block
read_behind_end = refl
