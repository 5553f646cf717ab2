-- ===== src/Rsa.antt =====
-- mini-crypto-basic/src/asymmetric_cipher.c: the big integers and the PKCS#1 v1.5 encoding.
pub mod Encoding
pub mod BigInt
mod Tests
