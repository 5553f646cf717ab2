-- ===== src/Cipher/Block.antt =====
-- The choice of a block cipher in mini-crypto-basic/src/symmetric_cipher.c: `cipher_ctx` with its
-- `algo` is a value of CipherContext.
use mini_security_crypto_web.Prelude.{ℕ, ◌<◌, ◌≡◌, List, All, arith}
use mini_security_crypto_web.Cipher.Aes.{aes128_encrypt_block, aes128_decrypt_block, IsBlock}
use mini_security_crypto_web.Cipher.Aes.RoundTrip.{
  aes128_encrypt_block-IsBlock, aes128_decrypt_block-aes128_encrypt_block,
}
use mini_security_crypto_web.Cipher.Des.{des_encrypt_block, des_decrypt_block}
use mini_security_crypto_web.Cipher.Des.RoundTrip.{
  des_encrypt_block-IsBlock, des_decrypt_block-des_encrypt_block,
}

-- The round keys: bytes for AES, 64-bit numbers for DES.
pub data CipherContext : Type 0 where
  aes : List ℕ → CipherContext
  des : List ℕ → CipherContext

unfoldable pub block_size : CipherContext → ℕ
block_size (aes keys) = 16
block_size (des keys) = 8

unfoldable pub cipher_encrypt_block : CipherContext → List ℕ → List ℕ
cipher_encrypt_block (aes keys) input = aes128_encrypt_block keys input
cipher_encrypt_block (des keys) input = des_encrypt_block keys input

unfoldable pub cipher_decrypt_block : CipherContext → List ℕ → List ℕ
cipher_decrypt_block (aes keys) input = aes128_decrypt_block keys input
cipher_decrypt_block (des keys) input = des_decrypt_block keys input

-- What the modes rely on: blocks stay blocks, and decryption undoes encryption.
pub record IsInvertible (c : CipherContext) : Type 0 where
  pub keeps :
      (plain : List ℕ)
      → IsBlock (block_size c) plain
      → IsBlock (block_size c) (cipher_encrypt_block c plain)
  pub undone :
      (plain : List ℕ)
      → IsBlock (block_size c) plain
      → cipher_decrypt_block c (cipher_encrypt_block c plain) ≡ plain

pub aes-IsInvertible : (keys : List ℕ) → All (λ b. b < 256) keys → IsInvertible (aes keys)
unfolding block_size cipher_encrypt_block cipher_decrypt_block
aes-IsInvertible keys h = record {
  keeps = aes128_encrypt_block-IsBlock keys h;
  undone = aes128_decrypt_block-aes128_encrypt_block keys h;
}

pub des-IsInvertible : (keys : List ℕ) → IsInvertible (des keys)
unfolding block_size cipher_encrypt_block cipher_decrypt_block
des-IsInvertible keys = record {
  keeps = des_encrypt_block-IsBlock keys;
  undone = des_decrypt_block-des_encrypt_block keys;
}

pub block_size-pos : (c : CipherContext) → 0 < block_size c
unfolding block_size
block_size-pos (aes keys) = omega arith
block_size-pos (des keys) = omega arith

pub block_size-le : (c : CipherContext) → block_size c < 17
unfolding block_size
block_size-le (aes keys) = omega arith
block_size-le (des keys) = omega arith
