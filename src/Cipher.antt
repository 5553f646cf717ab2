-- ===== src/Cipher.antt =====
-- mini-crypto-basic/src/symmetric_cipher.c: AES-128, DES, the modes over them and PKCS#7 padding.
pub mod Gf
pub mod Aes
pub mod Des
pub mod Block
pub mod Cbc
pub mod Ctr
pub mod Gcm
pub mod Padding
mod Tests
