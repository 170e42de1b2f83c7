-- ===== src/RawFile/Laws.antt =====
-- What `RawFileIO` relies on of the system: the calls on one file, whose bytes are `content`.
use encfs.Base.{ℕ, ◌≤◌, ◌<◌, List, length, take, slice, ◌≡◌, ◌⊎◌}
use encfs.BlockFile.Layer.{fail, ok}
use encfs.FileIo.{Attr}
use encfs.FileIo.Laws.{put, resize}
use encfs.RawFile.{Os}

-- The documented behaviour of the calls on the file at `path` and on its descriptors: `lstat` gives its
-- size, `pwrite` of some bytes writes as many of them as it answers, maybe none, or fails and writes
-- nothing, and `pread` gives all bytes asked for that there are.
pub record IsOs {D : Type 0} (os : Os D) (path : List ℕ) (content : D → List ℕ) : Type 0 where
  pub lstat_size :
      (d : D) (stbuf : Attr) → os.lstat d path ≡ ok stbuf → stbuf.size ≡ length (content d)
  pub open_same : (d : D) (flags : ℕ) → content (os.open_path d path flags).0 ≡ content d
  pub chmod_same : (d : D) (mode : ℕ) → content (os.chmod d path mode).0 ≡ content d
  pub pread_bytes :
      (d : D) (fd data_len offset : ℕ)
      → (os.pread d fd data_len offset ≡ ok (slice offset data_len (content d)))
        ⊎ ((errno : ℕ) × (os.pread d fd data_len offset ≡ fail errno))
  pub pwrite_bytes :
      (d : D) (fd offset : ℕ) (buf : List ℕ)
      → 0 < length buf
      → ((n : ℕ) × ((os.pwrite d fd buf offset).1 ≡ ok n)
          × (n ≤ length buf)
          × (content (os.pwrite d fd buf offset).0 ≡ put (content d) offset (take n buf)))
        ⊎ ((errno : ℕ) × ((os.pwrite d fd buf offset).1 ≡ fail errno)
            × (content (os.pwrite d fd buf offset).0 ≡ content d))
  pub ftruncate_bytes :
      (d : D) (fd size : ℕ)
      → ((n : ℕ) × ((os.ftruncate d fd size).1 ≡ ok n)
          × (content (os.ftruncate d fd size).0 ≡ resize size (content d)))
        ⊎ ((errno : ℕ) × ((os.ftruncate d fd size).1 ≡ fail errno)
            × (content (os.ftruncate d fd size).0 ≡ content d))
  pub truncate_bytes :
      (d : D) (size : ℕ)
      → ((n : ℕ) × ((os.truncate_path d path size).1 ≡ ok n)
          × (content (os.truncate_path d path size).0 ≡ resize size (content d)))
        ⊎ ((errno : ℕ) × ((os.truncate_path d path size).1 ≡ fail errno)
            × (content (os.truncate_path d path size).0 ≡ content d))
