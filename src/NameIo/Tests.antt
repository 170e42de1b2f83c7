-- ===== src/NameIo/Tests.antt =====
-- Names and paths through the coders, and the witnesses.
use encfs.Base.{ℕ, true, false, List, [], ◌∷◌, length, All, Option, some, ◌≡◌, ◌⊎◌, refl, arith}
use encfs.Base64.Ascii.{IsNameChar}
use encfs.Cipher.Ops.{null_cipher, null_cipher-IsCipher}
use encfs.Cipher.Tests.{test_ops, test_ops_laws}
use encfs.NameIo.Stream
use encfs.NameIo.Block.{BlockNameIo}
use encfs.NameIo.Block
use encfs.NameIo.Block.RoundTrip.{IsBlockNameIo}
use encfs.NameIo.Path.{NameIo, recode_name, encode_path, decode_path}
use encfs.NameIo.Path.Loop.{IsNameIo, IsCodedName}
use encfs.NameIo.Path.RoundTrip.{decode_path-encode_path}
use encfs.NameIo.Path.Coders.{
  stream_name_io, block_name_io, stream_name_io-IsNameIo, block_name_io-IsNameIo,
}

abbrev a_name : List ℕ
a_name = b'n' ∷ b'o' ∷ b't' ∷ b'e' ∷ []

abbrev plain_path : List ℕ
plain_path = b'd' ∷ b'i' ∷ b'r' ∷ b'/' ∷ b'.' ∷ b'.' ∷ b'/' ∷ b'n' ∷ []

abbrev a_path : List ℕ
a_path = b'/' ∷ b'/' ∷ plain_path

-- Blocks of two bytes, and names in base 32.
abbrev block_io : BlockNameIo
block_io = record { interface = 4; bs = 2; case_insensitive = true }

block_io-IsBlockNameIo : IsBlockNameIo block_io test_ops
unfolding encfs.Cipher.Ops.ssl_cipher
block_io-IsBlockNameIo = record { bs_pos = omega arith; small_bs = omega arith; same_block = refl }

decode_name-encode_name_example :
    (coded : List ℕ) × (iv' : Option ℕ) × (Stream.encode_name test_ops 2 a_name (some 9) 40
      ≡ some (coded, iv'))
    × (Stream.decode_name test_ops 2 coded (some 9) 40 ≡ some (a_name, iv'))
    × (length coded ≡ Stream.max_encoded_name_len 4)
    × All IsNameChar coded
decode_name-encode_name_example =
    Stream.decode_name-encode_name test_ops test_ops_laws 2 a_name (some 9) 40 40 (omega arith)
      (omega arith) (omega arith) (omega arith)

decode_name-encode_name_blocks_example :
    (coded : List ℕ) × (iv' : Option ℕ) × (Block.encode_name block_io test_ops a_name (some 9) 40
      ≡ some (coded, iv'))
    × (Block.decode_name block_io test_ops coded (some 9) 40 ≡ some (a_name, iv'))
    × (length coded ≡ Block.max_encoded_name_len block_io 4)
    × All IsNameChar coded
decode_name-encode_name_blocks_example =
    Block.RoundTrip.decode_name-encode_name_blocks block_io test_ops test_ops_laws
      block_io-IsBlockNameIo a_name (some 9) 40 40 (omega arith) (omega arith) (omega arith)

-- `BlockNameIO` under chaining.
abbrev chained_io : NameIo
chained_io = block_name_io test_ops block_io true false

chained_io-IsNameIo : IsNameIo chained_io
chained_io-IsNameIo =
    block_name_io-IsNameIo test_ops block_io true false test_ops_laws block_io-IsBlockNameIo

decode_path-encode_path_example :
    (q : List ℕ) × (iv' : Option ℕ) × (((false ≡ false)
        × (encode_path chained_io a_path 0 ≡ some (q, iv'))
        × (decode_path chained_io q 0 ≡ some (plain_path, iv')))
      ⊎ ((false ≡ true)
          × (decode_path chained_io a_path 0 ≡ some (q, iv'))
          × (encode_path chained_io q 0 ≡ some (plain_path, iv'))))
unfolding block_name_io encfs.NameIo.Path.Loop.strip_slashes
decode_path-encode_path_example =
    decode_path-encode_path chained_io chained_io-IsNameIo a_path 0 (omega arith)

stream_name_io-IsNameIo_example : IsNameIo (stream_name_io null_cipher 2 false true)
stream_name_io-IsNameIo_example =
    stream_name_io-IsNameIo null_cipher 2 false true null_cipher-IsCipher

block_name_io-IsNameIo_example : IsNameIo (block_name_io test_ops block_io false false)
block_name_io-IsNameIo_example =
    block_name_io-IsNameIo test_ops block_io false false test_ops_laws block_io-IsBlockNameIo
