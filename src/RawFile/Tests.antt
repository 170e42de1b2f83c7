-- ===== src/RawFile/Tests.antt =====
-- A file in memory as the system, which writes two bytes at a time, and the witnesses.
use encfs.Base.{
  ℕ, ◌<◌, false, true, List, [], ◌∷◌, take, length, slice, write_at, sym, ap, ◌≤◌, none, some, ◌≡◌,
  ◌⊎◌, inl, refl, arith,
}
use encfs.BlockFile.Layer.{Result, fail, ok}
use encfs.FileIo.{Attr}
use encfs.RawFile.{Os, State, raw_file, open_file, write, descriptors, get_size, write_loop}
use encfs.FileIo.Laws.{IsFileIo}
use encfs.RawFile.Implements.{HoldsRaw, raw_file_io-IsFileIo}
use encfs.RawFile.{raw_file_io}
use encfs.RawFile.Laws.{IsOs}
use encfs.FileIo.Laws.{put, resize}
use encfs.RawFile.Size.{IsWritten, write_lem}
use encfs.RawFile.Life.{opened, sized, written, Reach, here, next, IsValid, raw_file-IsValid}

abbrev write_two : List ℕ → List ℕ → ℕ → List ℕ × Result ℕ
write_two file [] offset = (file, ok 0)
write_two file (x ∷ []) offset = (put file offset (x ∷ []), ok 1)
write_two file (x ∷ y ∷ buf) offset = (put file offset (x ∷ y ∷ []), ok 2)

abbrev pub a_path : List ℕ
a_path = b'f' ∷ []

abbrev pub attr_of : List ℕ → Attr
attr_of file = record { mode = 0x180; is_reg = true; size = length file; ino = 7 }

abbrev pub memory_os : Os (List ℕ)
memory_os = record {
  o_largefile = 0;
  open_path = λ file path flags. (file, ok 4);
  lstat = λ file path. ok (attr_of file);
  chmod = λ file path mode. (file, ok 0);
  pread = λ file fd n offset. ok (slice offset n file);
  pwrite = λ file fd buf offset. write_two file buf offset;
  ftruncate = λ file fd size. (resize size file, ok 0);
  truncate_path = λ file path size. (resize size file, ok 0);
}

write_two_bytes :
    (file : List ℕ) (offset : ℕ) (buf : List ℕ)
    → 0 < length buf
    → ((n : ℕ) × ((write_two file buf offset).1 ≡ ok n)
        × (n ≤ length buf)
        × ((write_two file buf offset).0 ≡ put file offset (take n buf)))
      ⊎ ((errno : ℕ) × ((write_two file buf offset).1 ≡ fail errno)
          × ((write_two file buf offset).0 ≡ file))
write_two_bytes file offset [] h = absurd (omega arith)
write_two_bytes file offset (x ∷ []) h = inl (1, refl, omega arith, refl)
write_two_bytes file offset (x ∷ y ∷ buf) h = inl (2, refl, omega arith, refl)

pub memory_os-IsOs : IsOs memory_os a_path (λ file. file)
memory_os-IsOs = record {
  lstat_size = λ file stbuf e. ap size_of (sym e);
  open_same = λ file flags. refl;
  chmod_same = λ file mode. refl;
  pread_bytes = λ file fd n offset. inl refl;
  pwrite_bytes = λ file fd offset buf h. write_two_bytes file offset buf h;
  ftruncate_bytes = λ file fd size. inl (0, refl, refl);
  truncate_bytes = λ file size. inl (0, refl, refl);
}
  where
    size_of : Result Attr → ℕ
    size_of (fail errno) = 0
    size_of (ok stbuf) = stbuf.size

-- Open for reading and writing, with the size in the cache.
abbrev open_state : State (List ℕ)
open_state = record {
  name = a_path;
  known_size = true;
  file_size = 3;
  fd = some 4;
  old_fd = none;
  can_write = true;
  system = 1 ∷ 2 ∷ 3 ∷ [];
}

write_lem_example :
    (st' : State (List ℕ)) × (result : Result ℕ) × (write memory_os open_state 2 (7 ∷ 8 ∷ 9 ∷ [])
      ≡ some (st', result))
    × IsWritten memory_os a_path
        (λ file. file)
        memory_os-IsOs
        (1 ∷ 2 ∷ 3 ∷ [])
        2
        (7 ∷ 8 ∷ 9 ∷ [])
        open_state
        st'
        result
write_lem_example =
    write_lem memory_os a_path (λ file. file) memory_os-IsOs open_state 2 (7 ∷ 8 ∷ 9 ∷ []) 4 refl
      refl (omega arith) (record { sized = λ _. refl })

-- A file that was opened for reading is opened for writing: it holds both descriptors.
abbrev read_state : State (List ℕ)
read_state = record {
  name = a_path;
  known_size = false;
  file_size = 0;
  fd = some 3;
  old_fd = none;
  can_write = false;
  system = 1 ∷ 2 ∷ 3 ∷ [];
}

both_held : descriptors (open_file memory_os read_state 2).0 ≡ 3 ∷ 4 ∷ []
unfolding open_file descriptors
both_held = refl

abbrev sized_state : State (List ℕ)
unfolding raw_file open_file get_size
sized_state = (get_size memory_os (open_file memory_os (raw_file (1 ∷ 2 ∷ 3 ∷ []) a_path) 2).0).0

abbrev written_state : State (List ℕ)
written_state = record {
  name = a_path;
  known_size = true;
  file_size = 5;
  fd = some 4;
  old_fd = none;
  can_write = true;
  system = 1 ∷ 2 ∷ 7 ∷ 8 ∷ 9 ∷ [];
}

-- Opened, asked for its size, and written behind its end.
a_life : Reach memory_os (raw_file (1 ∷ 2 ∷ 3 ∷ []) a_path) written_state
unfolding raw_file sized_state open_file get_size write write_loop write_at
a_life =
    next
      (next (next here (opened (raw_file (1 ∷ 2 ∷ 3 ∷ []) a_path) 2))
        (sized (open_file memory_os (raw_file (1 ∷ 2 ∷ 3 ∷ []) a_path) 2).0))
      (written sized_state written_state 2 (7 ∷ 8 ∷ 9 ∷ []) (ok 3) (omega arith) refl
        (inl (λ e. cc e)))

raw_file-IsValid_example : IsValid a_path (λ file. file) written_state
raw_file-IsValid_example =
    raw_file-IsValid memory_os a_path (λ file. file) memory_os-IsOs (1 ∷ 2 ∷ 3 ∷ []) written_state
      a_life

raw_file_io-IsFileIo_example : IsFileIo (raw_file_io memory_os) (HoldsRaw a_path (λ file. file))
raw_file_io-IsFileIo_example =
    raw_file_io-IsFileIo memory_os a_path (λ file. file) memory_os-IsOs
      (λ file. (attr_of file, refl))
