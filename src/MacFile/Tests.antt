-- ===== src/MacFile/Tests.antt =====
-- A block of four bytes with a MAC of two and one random byte, and the witnesses.
use encfs.Base.{
  ℕ, ◌-◌, ◌*◌, false, List, [], ◌∷◌, length, write_le, Option, none, some, ◌≡◌, ◌≢◌, ◌⊎◌, refl,
  arith,
}
use encfs.BlockFile.Layer.{fail, ok}
use encfs.Cipher.Tests.{test_ops, test_ops_laws}
use encfs.MacFile.{MacFileIo, loc_with_header, loc_without_header, check_block, seal_block, ebadmsg}
use encfs.MacFile.Location.{loc_without_header-loc_with_header}
use encfs.MacFile.Block.{check_block-cases, check_block-seal_block}

abbrev io : MacFileIo
io = record {
  mac_bytes = 2;
  rand_bytes = 1;
  block_size = 4;
  allow_holes = false;
  warn_only = false;
}

abbrev some_block : List ℕ
some_block = 1 ∷ 2 ∷ 3 ∷ 4 ∷ 5 ∷ []

loc_without_header-loc_with_header_example :
    (loc_with_header (5 * (64 - 8)) 64 8 ≡ 5 * 64)
    × (loc_without_header (loc_with_header 1000 64 8) 64 8 ≡ 1000)
loc_without_header-loc_with_header_example =
    loc_without_header-loc_with_header 1000 5 64 8 (omega arith)

check_block-cases_example :
    (mac : ℕ) × (iv : Option ℕ) × (test_ops.mac_64 (3 ∷ 4 ∷ 5 ∷ []) none ≡ some (mac, iv))
    × (((1 ∷ 2 ∷ [] ≡ write_le 2 mac)
          × (check_block io test_ops some_block ≡ some (ok (4 ∷ 5 ∷ []))))
        ⊎ ((1 ∷ 2 ∷ [] ≢ write_le 2 mac)
            × (check_block io test_ops some_block ≡ some (fail ebadmsg))))
check_block-cases_example =
    check_block-cases io test_ops test_ops_laws some_block (omega arith) refl

check_block-seal_block_example :
    (block : List ℕ) × (seal_block io test_ops (some (7 ∷ [])) (4 ∷ 5 ∷ []) ≡ some (ok block))
    × (length block ≡ 5)
    × (check_block io test_ops block ≡ some (ok (4 ∷ 5 ∷ [])))
check_block-seal_block_example =
    check_block-seal_block io test_ops test_ops_laws (7 ∷ []) (4 ∷ 5 ∷ []) refl (omega arith)
