-- ===== src/Interface/Tests.antt =====
-- Two versions of one interface, and the witnesses.
use encfs.Base.{true, false, [], ◌∷◌, ◌≡◌, ◌↔◌, refl}
use encfs.Interface.{Interface, less, greater, less_equal, greater_equal, implements}
use encfs.Interface.Order.{IsOlder, order-IsOlder}

abbrev version_3 : Interface
version_3 = record { name = b'a' ∷ []; current = 3; revision = 0; age = 2 }

abbrev version_4 : Interface
version_4 = record { name = b'a' ∷ []; current = 4; revision = 0; age = 2 }

implements_two_back : implements version_4 version_3 ≡ true
implements_two_back = refl

order-IsOlder_example :
    ((less version_3 version_4 ≡ true) ↔ IsOlder version_3 version_4)
    × ((greater version_3 version_4 ≡ true) ↔ IsOlder version_4 version_3)
    × ((less_equal version_3 version_4 ≡ false) ↔ IsOlder version_4 version_3)
    × ((greater_equal version_3 version_4 ≡ false) ↔ IsOlder version_3 version_4)
order-IsOlder_example = order-IsOlder version_3 version_4 refl
