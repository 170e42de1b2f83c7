-- ===== src/CipherFile/Tests.antt =====
-- A coded file over a `RawFileIO` of a file in memory, and the witnesses.
use encfs.Base.{
  ℕ, length-replicate, All-replicate, ◌+◌, ◌-◌, ◌*◌, ◌%◌, ◌<◌, Bool, true, false, List, [], ◌∷◌,
  ◌++◌, length, replicate, slice, take, write_le, All, IsByte, read_be, write_at, none, some,
  if◌then◌else◌, ltb, ◌==◌, ◌≡◌, ◌≢◌, ◌⊎◌, inl, inr, refl, arith,
}
use encfs.Cipher.Ops.{ssl_cipher, null_cipher, null_cipher-IsCipher}
use encfs.Cipher.Tests.{test_ops, test_ops_laws}
use encfs.BlockFile.Layer.{Result, fail, ok}
use encfs.FileIo.{FileIo, Attr}
use encfs.FileIo.Laws.{IsFileIo}
use encfs.RawFile
use encfs.RawFile.{raw_file_io}
use encfs.RawFile.Implements.{HoldsRaw, raw_file_io-IsFileIo}
use encfs.RawFile.Tests.{memory_os, memory_os-IsOs, a_path, attr_of}
use encfs.CipherFile.{
  CipherFileIo, State, Random, header_size, iv_of, init_header, read_one_block, write_one_block,
  decode_data, block_read, stream_read, reverse_read, get_attr,
}
use encfs.CipherFile.Header.{Answers, FillsHeader, init_header_again}
use encfs.CipherFile.Block.{IsStored, Holds, read_one_block_lem}
use encfs.CipherFile.Code.{HolesApart}
use encfs.CipherFile.Write.{IsWrittenBlock, write_one_block_lem}
use encfs.BlockFile
use encfs.BlockFile.Write
use encfs.CipherFile.Layer.{block_file, cipher_lower, write-read}
use encfs.CipherFile.Reverse.{IsShownHeader, Gives}
use encfs.CipherFile.Shown.{inherited_read, IsCoded, reverse_read_shows}

abbrev Raw : Type 0
Raw = RawFile.State (List ℕ)

abbrev raw : FileIo Raw
raw = raw_file_io memory_os

abbrev RawHolds : Raw → List ℕ → Type 0
RawHolds = HoldsRaw a_path (λ file. file)

raw_laws : IsFileIo raw RawHolds
raw_laws =
    raw_file_io-IsFileIo memory_os a_path (λ file. file) memory_os-IsOs
      (λ file. (attr_of file, refl))

abbrev raw_state : List ℕ → Raw
raw_state file = record {
  name = a_path;
  known_size = false;
  file_size = 0;
  fd = some 4;
  old_fd = none;
  can_write = true;
  system = file;
}

raw_state-HoldsRaw : (file : List ℕ) → RawHolds (raw_state file) file
raw_state-HoldsRaw file = record {
  valid = record {
    named = refl;
    sized = record { sized = λ known. absurd (cc known) };
    still_held = inl refl;
  };
  same = refl;
  is_open = (4, refl);
  can = refl;
}

abbrev io : CipherFileIo
io = record { block_size = 4; have_header = true; reverse_encryption = false; allow_holes = false }

-- The first answer of `randomize` is refused.
abbrev answers : Random
answers = some (replicate 8 0) ∷ some (1 ∷ replicate 7 9) ∷ []

two_answers : Answers answers
unfolding read_be
two_answers = inr (inl (λ e. absurd (omega (arith, e))))

two_fill : All FillsHeader answers
two_fill = omega arith

abbrev new_state : State Raw
new_state = record {
  external_iv = 5;
  file_iv = 0;
  last_flags = 2;
  random = answers;
  base = raw_state [];
}

init_header_again_example :
    (st1 : State Raw) × (result : Result ℕ) × (init_header io test_ops raw new_state
      ≡ some (st1, result))
    × (((errno : ℕ) × (result ≡ fail errno))
        ⊎ ((st1.file_iv ≢ 0)
            × ((later : State Raw)
                → later.base ≡ st1.base
                → later.external_iv ≡ 5
                → (st2 : State Raw) × (result2 : Result ℕ) × (init_header io test_ops raw later
                    ≡ some (st2, result2))
                  × (((result2 ≡ ok 0) × (st2.file_iv ≡ st1.file_iv))
                      ⊎ ((errno : ℕ) × (result2 ≡ fail errno))))))
init_header_again_example =
    init_header_again io test_ops test_ops_laws raw RawHolds raw_laws new_state
      (raw_state-HoldsRaw []) two_answers two_fill

four_pos : 0 < 4
four_pos = omega arith

whole_blocks : 4 % test_ops.cipher_block_size ≡ 0
unfolding ssl_cipher
whole_blocks = refl

-- With holes allowed; the cipher codes nothing.
abbrev holes_io : CipherFileIo
holes_io = record io { allow_holes = true }

same_zeros : HolesApart holes_io null_cipher (1 ∷ 2 ∷ 3 ∷ 4 ∷ [])
unfolding null_cipher
same_zeros h iv64 out e z = cc e

whole_null_blocks : 4 % null_cipher.cipher_block_size ≡ 0
unfolding null_cipher
whole_null_blocks = refl

new_state-Holds : Holds holes_io null_cipher raw RawHolds new_state []
new_state-Holds = record {
  bytes = tt;
  view = inr (record {
    headers = refl;
    empty = refl;
    stored = raw_state-HoldsRaw [];
    unknown = refl;
    answers = two_answers;
    fill = two_fill;
  });
}

write_one_block_lem_example :
    (st' : State Raw) × (result : Result ℕ) × (write_one_block holes_io null_cipher raw new_state
        (0 * 4)
        (1 ∷ 2 ∷ 3 ∷ 4 ∷ [])
      ≡ some (st', result))
    × IsWrittenBlock holes_io null_cipher null_cipher-IsCipher raw RawHolds raw_laws refl four_pos
        whole_null_blocks
        (write_at [] (0 * 4) (1 ∷ 2 ∷ 3 ∷ 4 ∷ []))
        st'
        result
write_one_block_lem_example =
    write_one_block_lem holes_io null_cipher null_cipher-IsCipher raw RawHolds raw_laws refl
      four_pos whole_null_blocks new_state [] 0 (1 ∷ 2 ∷ 3 ∷ 4 ∷ []) new_state-Holds (omega arith)
      (omega arith) (omega arith) (inl refl) (omega arith) same_zeros

-- A file under the cipher that codes nothing, with its header.
abbrev a_header : List ℕ
a_header = replicate 7 0 ++ 9 ∷ []

abbrev a_file : List ℕ
a_file = 1 ∷ 2 ∷ 3 ∷ 4 ∷ 5 ∷ 6 ∷ []

abbrev stored_state : State Raw
stored_state = record {
  external_iv = 5;
  file_iv = 0;
  last_flags = 2;
  random = [];
  base = raw_state (a_header ++ a_file);
}

stored_state-IsStored : IsStored io null_cipher raw RawHolds stored_state a_file a_header a_file 9
unfolding null_cipher read_be decode_data block_read stream_read
stored_state-IsStored = record {
  stored = raw_state-HoldsRaw (a_header ++ a_file);
  head =
      inr (
        refl,
        (a_header, refl, refl, refl, (λ e. absurd (omega (arith, e))), omega arith),
        inl refl,
      );
  body_of = record {
    same_length = refl;
    decoded = λ k inside. by_size (slice (k * 4) 4 a_file) (length (slice (k * 4) 4 a_file) == 4);
  };
}
  where
    by_size :
        (block : List ℕ) (b : Bool)
        → (if b then some (let p : Bool × List ℕ = (true, block) in p) else some (true, block))
          ≡ some (true, block)
    by_size block true = refl
    by_size block false = refl

stored_state-Holds : Holds io null_cipher raw RawHolds stored_state a_file
stored_state-Holds = record {
  bytes = omega arith;
  view = inl (a_header, a_file, 9, stored_state-IsStored);
}

-- The second block, which ends the file.
read_one_block_lem_example :
    (st' : State Raw) × (result : Result (List ℕ)) × (read_one_block io null_cipher raw stored_state
        (1 * 4)
        4
      ≡ some (st', result))
    × (Holds io null_cipher raw RawHolds st' a_file
        × ((result ≡ ok (slice (1 * 4) 4 a_file)) ⊎ ((errno : ℕ) × (result ≡ fail errno))))
read_one_block_lem_example =
    read_one_block_lem io null_cipher null_cipher-IsCipher raw RawHolds raw_laws refl (omega arith)
      stored_state a_file 1 stored_state-Holds

-- A reverse file system: the file `raw_state` is shown coded, behind a header.
abbrev reverse_io : CipherFileIo
reverse_io = record {
  block_size = 4;
  have_header = true;
  reverse_encryption = true;
  allow_holes = false;
}

abbrev sha1 : List ℕ → List ℕ
sha1 inode = replicate 20 (length inode % 256)

abbrev plain_state : State Raw
plain_state = record {
  external_iv = 0;
  file_iv = 0;
  last_flags = 0;
  random = [];
  base = raw_state a_file;
}

abbrev shown_attr : Attr
shown_attr = record { mode = 0x180; is_reg = true; size = 14; ino = 7 }

sha1_digest : (inode : List ℕ) → (length (sha1 inode) ≡ 20) × All IsByte (sha1 inode)
sha1_digest inode = (
  length-replicate 20 (length inode % 256),
  All-replicate IsByte 20 (length inode % 256) (omega arith),
)

shown_attr_lem : get_attr reverse_io null_cipher raw plain_state ≡ some (ok shown_attr)
unfolding get_attr raw_file_io
shown_attr_lem = refl

some_vector : iv_of (take header_size (sha1 (write_le 8 7))) ≢ 0
unfolding read_be write_le
some_vector e = absurd (omega (arith, e))

-- The cipher codes nothing, so that the file is shown as it is.
a_file-IsCoded : (iv : ℕ) → iv ≢ 0 → IsCoded reverse_io null_cipher raw RawHolds iv a_file a_file
unfolding null_cipher
a_file-IsCoded iv known = record {
  same_length = refl;
  coded_as = λ k inside. by_size (slice (k * 4) 4 a_file) (length (slice (k * 4) 4 a_file) == 4);
}
  where
    by_size :
        (block : List ℕ) (b : Bool)
        → (if b then some (let p : Bool × List ℕ = (true, block) in p) else some (true, block))
          ≡ some (true, block)
    by_size block true = refl
    by_size block false = refl

reverse_read_shows_example :
    (st1 : State Raw) × (hdr : List ℕ) × IsShownHeader reverse_io null_cipher null_cipher-IsCipher
      raw sha1 sha1_digest plain_state st1 7 hdr
    × ((offset data_len : ℕ)
        → Gives reverse_io null_cipher null_cipher-IsCipher raw sha1 sha1_digest
            (reverse_read reverse_io null_cipher raw sha1
              (inherited_read reverse_io null_cipher raw)
              plain_state
              offset
              data_len)
            (if ltb (offset + data_len) header_size
              then slice (header_size - data_len) data_len hdr
              else slice offset data_len (hdr ++ a_file)))
reverse_read_shows_example =
    reverse_read_shows reverse_io null_cipher raw RawHolds raw_laws refl four_pos
      null_cipher-IsCipher sha1 sha1_digest plain_state shown_attr a_file (λ iv. a_file)
      (raw_state-HoldsRaw a_file) a_file-IsCoded shown_attr_lem (λ e. absurd (omega (arith, e)))
      some_vector

-- The stack of layers: the cache over the cipher over the file of the system.
abbrev cached_state : BlockFile.State (State Raw)
cached_state = record { cache_offset = 0; cache_data = []; lower = new_state }

new_state-Holds_coded : Holds io test_ops raw RawHolds new_state []
new_state-Holds_coded = record {
  bytes = tt;
  view = inr (record {
    headers = refl;
    empty = refl;
    stored = raw_state-HoldsRaw [];
    unknown = refl;
    answers = two_answers;
    fill = two_fill;
  });
}

write-read_example :
    (st1 : BlockFile.State (State Raw)) × (result : Result ℕ) × (BlockFile.Write.write
        (block_file io false)
        (cipher_lower io test_ops raw)
        cached_state
        6
        (7 ∷ 8 ∷ 9 ∷ [])
      ≡ some (st1, result))
    × (((errno : ℕ) × (result ≡ fail errno))
        ⊎ (((n : ℕ) × (result ≡ ok n))
            × Holds io test_ops raw RawHolds st1.lower (write_at [] 6 (7 ∷ 8 ∷ 9 ∷ []))
            × ((at n : ℕ)
                → (st2 : BlockFile.State (State Raw)) × (got : Result (List ℕ)) × (BlockFile.read
                      (block_file io false)
                      (cipher_lower io test_ops raw)
                      st1
                      at
                      n
                    ≡ some (st2, got))
                  × Holds io test_ops raw RawHolds st2.lower (write_at [] 6 (7 ∷ 8 ∷ 9 ∷ []))
                  × ((got ≡ ok (slice at n (write_at [] 6 (7 ∷ 8 ∷ 9 ∷ []))))
                      ⊎ ((errno : ℕ) × (got ≡ fail errno))))))
write-read_example =
    write-read io test_ops test_ops_laws raw RawHolds raw_laws refl four_pos whole_blocks refl false
      cached_state [] 6 (7 ∷ 8 ∷ 9 ∷ []) (omega arith) (omega arith)
      (record { cached = λ some_data. absurd (some_data refl) }) new_state-Holds_coded
