-- ===== src/BlockFile/Layer.antt =====
-- The layer below a `BlockFileIO`: the virtual functions `readOneBlock`, `writeOneBlock` and `getSize`,
-- as an interface with a relation between states and files, which the coders of blocks fill.
use encfs.Base.{
  ℕ, ◌+◌, ◌<◌, ◌%◌, Bool, true, List, length, slice, write_at, All, IsByte, Option, some,
}
use encfs.Base.{◌≤◌, ◌≡◌, ◌⊎◌}

-- A result of `ssize_t`: a negative number is the code of an error.
pub data Result {ℓ} (A : Type ℓ) : Type ℓ where
  fail : ℕ → Result A
  ok : A → Result A

-- `none` is an `Error` that is thrown.
pub record Lower (S : Type 0) : Type 0 where
  -- The offset and the size asked for; the bytes read.
  pub read_one_block : S → ℕ → ℕ → Option (S × Result (List ℕ))
  -- The offset and the bytes to write; the number of bytes written.
  pub write_one_block : S → ℕ → List ℕ → Option (S × Result ℕ)
  pub get_size : S → Option (S × Result ℕ)

-- What a reader of whole blocks relies on: `holds s file` says that the state stands for these bytes.
pub record IsReader {S : Type 0} (layer : Lower S) (block_size : ℕ) (holds : S → List ℕ → Type 0)
    : Type 0 where
  -- A block that is read is the one of the file, up to its end, and the state stands for the same file
  -- after it. It may fail.
  pub read_result :
      (s : S) (file : List ℕ) (offset : ℕ)
      → holds s file
      → offset % block_size ≡ 0
      → (s' : S) × (result : Result (List ℕ)) × (layer.read_one_block s offset block_size
          ≡ some (s', result))
        × holds s' file
        × ((result ≡ ok (slice offset block_size file)) ⊎ ((errno : ℕ) × (result ≡ fail errno)))

-- A file of bytes whose blocks can be written, if the block is not empty, is full or ends the file, and
-- starts within the file or at its end, unless holes are allowed. Of a write that fails nothing is said.
pub record IsWriter {S : Type 0} (layer : Lower S) (block_size : ℕ) (allow_holes : Bool)
    (holds : S → List ℕ → Type 0) : Type 0 where
  pub bytes : (s : S) (file : List ℕ) → holds s file → All IsByte file
  pub write_result :
      (s : S) (file : List ℕ) (offset : ℕ) (block : List ℕ)
      → holds s file
      → offset % block_size ≡ 0
      → All IsByte block
      → 0 < length block
      → length block ≤ block_size
      → (length block ≡ block_size) ⊎ (length file ≤ offset + length block)
      → (offset ≤ length file) ⊎ (allow_holes ≡ true)
      → (s' : S) × (result : Result ℕ) × (layer.write_one_block s offset block ≡ some (s', result))
        × (((n : ℕ) × (result ≡ ok n) × holds s' (write_at file offset block))
            ⊎ ((errno : ℕ) × (result ≡ fail errno)))
  pub size_result :
      (s : S) (file : List ℕ)
      → holds s file
      → (s' : S) × (result : Result ℕ) × (layer.get_size s ≡ some (s', result))
        × holds s' file
        × ((result ≡ ok (length file)) ⊎ ((errno : ℕ) × (result ≡ fail errno)))
