-- ===== src/FileIo.antt =====
-- encfs/FileIO.h: the interface of a file, which the layers of files implement and call. A call that
-- can throw an `Error` returns an option.
pub mod Laws
use encfs.Base.{ℕ, Bool, List, Option}
use encfs.BlockFile.Layer.{Result}

-- What is read of a `struct stat`.
pub record Attr : Type 0 where
  pub mode : ℕ
  pub is_reg : Bool
  pub size : ℕ
  pub ino : ℕ

-- `FileIO`: a negative result is the code of an error.
pub record FileIo (S : Type 0) : Type 0 where
  pub set_file_name : S → List ℕ → S
  pub set_iv : S → ℕ → Option (S × Bool)
  pub open_file : S → ℕ → S × Result ℕ
  pub get_attr : S → Option (Result Attr)
  pub get_size : S → Option (S × Result ℕ)
  pub read : S → ℕ → ℕ → Option (S × Result (List ℕ))
  pub write : S → ℕ → List ℕ → Option (S × Result ℕ)
  pub truncate : S → ℕ → Option (S × Result ℕ)
  pub is_writable : S → Bool
