-- ===== src/Cipher/Cbc.antt =====
-- CBC mode of mini-crypto-basic/src/symmetric_cipher.c. The first `buf_len` bytes of `buffer` are
-- a list; an update returns the context and the bytes that it writes.
pub mod RoundTrip
use mini_security_crypto_web.Prelude.{
  ℕ, zero, suc, ◌≡◌, ◌==◌, ltb, if◌then◌else◌, List, [], ◌∷◌, ◌++◌, length, take, drop,
}
use mini_security_crypto_web.Prelude.Xor.{xor_bytes}
use mini_security_crypto_web.Cipher.Block.{
  CipherContext, block_size, cipher_encrypt_block, cipher_decrypt_block,
}

pub record CbcContext : Type 0 where
  pub cipher : CipherContext
  pub iv : List ℕ
  pub buffer : List ℕ

-- The same for both directions.
unfoldable pub cbc_init : CipherContext → List ℕ → CbcContext
unfolding block_size
cbc_init c iv = record { cipher = c; iv = take (block_size c) iv; buffer = [] }

-- One byte: the block that it fills goes out and is the next one's vector.
unfoldable pub cbc_encrypt_byte : CbcContext → ℕ → CbcContext × List ℕ
unfolding cipher_encrypt_block xor_bytes block_size
cbc_encrypt_byte cbc b =
    let buffer = cbc.buffer ++ b ∷ [] in
    let out = cipher_encrypt_block cbc.cipher (xor_bytes buffer cbc.iv) in
    if length buffer == block_size cbc.cipher
    then (record cbc { iv = out; buffer = [] }, out)
    else (record cbc { buffer = buffer }, [])

unfoldable pub cbc_encrypt_update : CbcContext → List ℕ → CbcContext × List ℕ
unfolding cbc_encrypt_byte
cbc_encrypt_update cbc [] = (cbc, [])
cbc_encrypt_update cbc (b ∷ plain) =
    let (cbc1, out) = cbc_encrypt_byte cbc b in
    let (cbc2, rest) = cbc_encrypt_update cbc1 plain in (cbc2, out ++ rest)

-- It writes nothing: bytes left in the buffer are dropped.
unfoldable pub cbc_encrypt_final : CbcContext → List ℕ
cbc_encrypt_final cbc = []

-- `while (len >= bs)`, at most one round for each byte.
unfoldable pub decrypt_blocks : ℕ → CbcContext → List ℕ → CbcContext × List ℕ
unfolding cipher_decrypt_block xor_bytes block_size
decrypt_blocks zero cbc cipher = (cbc, [])
decrypt_blocks (suc fuel) cbc cipher =
    let bs = block_size cbc.cipher in
    let block = take bs cipher in
    let plain = xor_bytes (cipher_decrypt_block cbc.cipher block) cbc.iv in
    let rest = decrypt_blocks fuel (record cbc { iv = block }) (drop bs cipher) in
    if ltb (length cipher) bs then (cbc, []) else (rest.0, plain ++ rest.1)

unfoldable pub cbc_decrypt_update : CbcContext → List ℕ → CbcContext × List ℕ
unfolding decrypt_blocks
cbc_decrypt_update cbc cipher = decrypt_blocks (length cipher) cbc cipher

unfoldable pub cbc_decrypt_final : CbcContext → List ℕ
cbc_decrypt_final cbc = []
