-- ===== src/FileIo/Laws.antt =====
-- What a layer of files relies on of the one below: a relation says which bytes a state holds.
use encfs.Base.{
  ℕ, ◌+◌, ◌-◌, ◌<◌, true, List, [], ◌∷◌, ◌++◌, length, take, replicate, slice, write_at, some, ◌≡◌,
  ◌⊎◌, refl, sym, ap, write_at-append, append-nil, arith,
}
use encfs.BlockFile.Layer.{Result, fail, ok}
use encfs.FileIo.{FileIo}

-- The bytes of a file after a write: a write of nothing leaves it as it is, at any offset.
abbrev pub put : List ℕ → ℕ → List ℕ → List ℕ
put file offset [] = file
put file offset (x ∷ buf) = write_at file offset (x ∷ buf)

pub put-append :
    (file : List ℕ) (offset : ℕ) (front back : List ℕ)
    → put (put file offset front) (offset + length front) back ≡ put file offset (front ++ back)
put-append file offset [] [] = refl
put-append file offset [] (y ∷ back) = ap (λ (i : ℕ). write_at file i (y ∷ back)) (omega arith)
put-append file offset (x ∷ front) [] =
    ap (λ (t : List ℕ). write_at file offset (x ∷ t)) (sym (append-nil front))
put-append file offset (x ∷ front) (y ∷ back) =
    write_at-append file offset (offset + length (x ∷ front)) (x ∷ front) (y ∷ back) refl

-- A file that is cut or filled up with zeros.
abbrev pub resize : ℕ → List ℕ → List ℕ
resize size file = take size file ++ replicate (size - length file) 0

-- A file that can be read and written: `holds s file` says that the state `s` is open and holds these
-- bytes. Reading changes no byte. Of a failed write nothing is said.
pub record IsFileIo {S : Type 0} (io : FileIo S) (holds : S → List ℕ → Type 0) : Type 0 where
  pub read_result :
      (s : S) (file : List ℕ) (offset data_len : ℕ)
      → holds s file
      → (s' : S) × (result : Result (List ℕ)) × (io.read s offset data_len ≡ some (s', result))
        × holds s' file
        × ((result ≡ ok (slice offset data_len file)) ⊎ ((errno : ℕ) × (result ≡ fail errno)))
  pub write_result :
      (s : S) (file : List ℕ) (offset : ℕ) (buf : List ℕ)
      → holds s file
      → 0 < length buf
      → (s' : S) × (result : Result ℕ) × (io.write s offset buf ≡ some (s', result))
        × (((n : ℕ) × (result ≡ ok n) × holds s' (put file offset buf))
            ⊎ ((errno : ℕ) × (result ≡ fail errno)))
  pub size_result :
      (s : S) (file : List ℕ)
      → holds s file
      → (s' : S) × (io.get_size s ≡ some (s', ok (length file))) × holds s' file
  pub set_iv_result :
      (s : S) (file : List ℕ) (iv : ℕ)
      → holds s file
      → (s' : S) × (io.set_iv s iv ≡ some (s', true)) × holds s' file
  pub open_result :
      (s : S) (file : List ℕ) (flags : ℕ)
      → holds s file
      → holds (io.open_file s flags).0 file
        × (((fd : ℕ) × ((io.open_file s flags).1 ≡ ok fd))
            ⊎ ((errno : ℕ) × ((io.open_file s flags).1 ≡ fail errno)))
  pub writable : (s : S) (file : List ℕ) → holds s file → io.is_writable s ≡ true
