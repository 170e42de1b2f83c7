-- ===== src/Cipher.antt =====
-- The ciphers of EncFS: encfs/SSL_Cipher.cpp, over the parts of encfs/Cipher.cpp that it inherits.
-- `Mix` has the byte mixing, `Evp` the functions of OpenSSL as a parameter, `Ssl` the cipher.
pub mod Mix
pub mod Evp
pub mod Ssl
pub mod Ops
pub mod Tests
