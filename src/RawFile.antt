-- ===== src/RawFile.antt =====
-- encfs/RawFileIO.cpp: a file of the system below, with its descriptors and a cached size. The calls of
-- the system are parameters; `fdatasync` is left out.
pub mod Laws
pub mod Loop
pub mod Size
pub mod Descriptors
pub mod Life
pub mod Implements
pub mod Tests
use encfs.Base.{
  ℕ, zero, suc, ◌+◌, max, Bool, true, false, ◌&&◌, ◌||◌, not, List, [], ◌∷◌, ◌++◌, length, drop,
  bit_and, bit_or,
}
use encfs.Base.{Option, none, some, if◌then◌else◌, ◌==◌}
use encfs.Cipher.Ssl.{r_assert, ◌>>=◌, ◌>>◌}
use encfs.BlockFile.Layer.{Result, fail, ok}
use encfs.FileIo.{Attr, FileIo}

-- The calls of the system, on its state `D`: a failure carries `errno`.
pub record Os (D : Type 0) : Type 0 where
  pub o_largefile : ℕ
  pub open_path : D → List ℕ → ℕ → D × Result ℕ
  pub lstat : D → List ℕ → Result Attr
  pub chmod : D → List ℕ → ℕ → D × Result ℕ
  pub pread : D → ℕ → ℕ → ℕ → Result (List ℕ)
  pub pwrite : D → ℕ → List ℕ → ℕ → D × Result ℕ
  pub ftruncate : D → ℕ → ℕ → D × Result ℕ
  pub truncate_path : D → List ℕ → ℕ → D × Result ℕ

-- The fields of `RawFileIO`, and the system's state; `fd` and `oldfd` are `none` at -1.
pub record State (D : Type 0) : Type 0 where
  pub name : List ℕ
  pub known_size : Bool
  pub file_size : ℕ
  pub fd : Option ℕ
  pub old_fd : Option ℕ
  pub can_write : Bool
  pub system : D

-- `RawFileIO(fileName)`
pub raw_file : {D : Type 0} → D → List ℕ → State D
raw_file d file_name = record {
  name = file_name;
  known_size = false;
  file_size = 0;
  fd = none;
  old_fd = none;
  can_write = false;
  system = d;
}

-- `~RawFileIO`: the descriptors that are closed, in this order.
abbrev pub held : Option ℕ → List ℕ
held none = []
held (some fd) = fd ∷ []

pub descriptors : {D : Type 0} → State D → List ℕ
descriptors st = held st.old_fd ++ held st.fd

-- `O_RDONLY`, `O_WRONLY`, `O_RDWR`, `EACCES` and `EIO`
abbrev pub o_rdonly : ℕ
o_rdonly = 0

abbrev pub o_wronly : ℕ
o_wronly = 1

abbrev pub o_rdwr : ℕ
o_rdwr = 2

abbrev pub eacces : ℕ
eacces = 13

abbrev pub eio : ℕ
eio = 5

abbrev pub has_flag : ℕ → ℕ → Bool
has_flag flags flag = not (bit_and flags flag == 0)

abbrev pub request_write : ℕ → Bool
request_write flags = has_flag flags o_rdwr || has_flag flags o_wronly

module _ {D : Type 0} (os : Os D) where
  abbrev pub final_flags : ℕ → ℕ
  final_flags flags =
      let access = if request_write flags then o_rdwr else o_rdonly in
      if has_flag flags os.o_largefile then bit_or access os.o_largefile else access

  -- A second failed call leaves its own code in `errno`.
  abbrev pub last_errno : Result ℕ → Result ℕ → Result ℕ
  last_errno (ok fd) mode_back = ok fd
  last_errno (fail errno) (ok done) = fail errno
  last_errno (fail errno) (fail later) = fail later

  abbrev pub open_changed : List ℕ → ℕ → ℕ → D × Result ℕ → D × Result ℕ
  open_changed path flags mode (d, fail errno) = (d, fail errno)
  open_changed path flags mode (d, ok done) =
      let (d1, opened) = os.open_path d path flags in
      let (d2, mode_back) = os.chmod d1 path mode in (d2, last_errno opened mode_back)

  abbrev pub open_with_mode : D → List ℕ → ℕ → Result Attr → D × Result ℕ
  open_with_mode d path flags (fail errno) = (d, fail errno)
  open_with_mode d path flags (ok stbuf) =
      open_changed path flags stbuf.mode (os.chmod d path (bit_or stbuf.mode 0x180))

  -- `open_readonly_workaround`: 0600 is added to the mode for the time of the call.
  pub open_readonly_workaround : D → List ℕ → ℕ → D × Result ℕ
  open_readonly_workaround d path flags = open_with_mode d path flags (os.lstat d path)

  abbrev pub or_workaround : List ℕ → ℕ → D × Result ℕ → D × Result ℕ
  or_workaround path flags (d, ok fd) = (d, ok fd)
  or_workaround path flags (d, fail errno) =
      if errno == eacces then open_readonly_workaround d path flags else (d, fail errno)

  -- The new descriptor takes the place of the old one, which is kept.
  abbrev pub adopt : State D → Bool → D × Result ℕ → State D × Result ℕ
  adopt st writes (d, fail errno) = (record st { system = d }, fail errno)
  adopt st writes (d, ok new_fd) =
      (record st { can_write = writes; old_fd = st.fd; fd = some new_fd; system = d }, ok new_fd)

  abbrev pub reopen : State D → ℕ → State D × Result ℕ
  reopen st flags = adopt st (request_write flags) (
      or_workaround st.name (final_flags flags)
        (os.open_path st.system st.name (final_flags flags)))

  abbrev pub open_from : State D → ℕ → Option ℕ → State D × Result ℕ
  open_from st flags none = reopen st flags
  open_from st flags (some fd) =
      if st.can_write || not (request_write flags) then (st, ok fd) else reopen st flags

  -- `open`
  unfoldable pub open_file : State D → ℕ → State D × Result ℕ
  open_file st flags = open_from st flags st.fd

  -- `getSize`: the size is asked for once.
  abbrev pub keep_size : State D → Result Attr → State D × Result ℕ
  keep_size st (fail errno) = (st, fail errno)
  keep_size st (ok stbuf) = (record st { file_size = stbuf.size; known_size = true }, ok stbuf.size)

  pub get_size : State D → State D × Result ℕ
  get_size st =
      if st.known_size then (st, ok st.file_size) else keep_size st (os.lstat st.system st.name)

  -- `read`
  pub read : State D → ℕ → ℕ → Option (State D × Result (List ℕ))
  read st offset data_len = st.fd >>= λ fd. some (st, os.pread st.system fd data_len offset)

  -- One turn of the loop of `write`, after `pwrite`.
  abbrev pub wrote :
      (State D → List ℕ → ℕ → Option (State D × Result ℕ))
      → State D
      → List ℕ
      → ℕ
      → D × Result ℕ
      → Option (State D × Result ℕ)
  wrote loop st buf offset (d, fail errno) =
      some (record st { known_size = false; system = d }, fail errno)
  wrote loop st buf offset (d, ok zero) = some (record st { system = d }, fail eio)
  wrote loop st buf offset (d, ok (suc n)) =
      loop (record st { system = d }) (drop (suc n) buf) (offset + suc n)

  -- Each turn writes a byte at least, so that fuel above the number of bytes is enough.
  pub write_loop : ℕ → ℕ → State D → List ℕ → ℕ → Option (State D × Result ℕ)
  write_loop zero fd st buf offset = none
  write_loop (suc fuel) fd st [] offset = some (st, ok 0)
  write_loop (suc fuel) fd st (x ∷ buf) offset =
      wrote (write_loop fuel fd) st (x ∷ buf) offset (os.pwrite st.system fd (x ∷ buf) offset)

  -- The end of `write`: the cached size grows with the file.
  abbrev pub grow : ℕ → ℕ → State D × Result ℕ → State D × Result ℕ
  grow offset data_len (st, fail errno) = (st, fail errno)
  grow offset data_len (st, ok done) = (
    if st.known_size then record st { file_size = max st.file_size (offset + data_len) } else st,
    ok data_len,
  )

  -- `write`: the bytes written, or the code of the error.
  pub write : State D → ℕ → List ℕ → Option (State D × Result ℕ)
  write st offset buf = do
    fd ← st.fd
    r_assert st.can_write
    ended ← write_loop (suc (length buf)) fd st buf offset
    some (grow offset (length buf) ended)

  -- `truncate`, by the descriptor if it can write.
  abbrev pub resized : State D → ℕ → D × Result ℕ → State D × Result ℕ
  resized st size (d, fail errno) = (record st { known_size = false; system = d }, fail errno)
  resized st size (d, ok done) =
      (record st { file_size = size; known_size = true; system = d }, ok 0)

  abbrev pub truncate_by : State D → ℕ → Option ℕ → Bool → D × Result ℕ
  truncate_by st size (some fd) true = os.ftruncate st.system fd size
  truncate_by st size (some fd) false = os.truncate_path st.system st.name size
  truncate_by st size none writes = os.truncate_path st.system st.name size

  pub truncate : State D → ℕ → State D × Result ℕ
  truncate st size = resized st size (truncate_by st size st.fd st.can_write)

  -- `RawFileIO` as a `FileIO`; `FileIO::setIV` does nothing.
  unfoldable pub raw_file_io : FileIo (State D)
  raw_file_io = record {
    set_file_name = λ st file_name. record st { name = file_name };
    set_iv = λ st iv. some (st, true);
    open_file = open_file;
    get_attr = λ st. some (os.lstat st.system st.name);
    get_size = λ st. some (get_size st);
    read = read;
    write = write;
    truncate = λ st size. some (truncate st size);
    is_writable = λ st. st.can_write;
  }
