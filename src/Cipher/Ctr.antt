-- ===== src/Cipher/Ctr.antt =====
-- CTR mode of mini-crypto-basic/src/symmetric_cipher.c. The keystream of a fresh context is not
-- read, and is the empty list.
pub mod Counter
pub mod RoundTrip
pub mod Keystream
use mini_security_crypto_web.Prelude.{
  ℕ, zero, suc, ◌+◌, ◌%◌, ◌≤◌, ◌≡◌, Bool, true, false, ◌==◌, leb, if◌then◌else◌, List, [], ◌∷◌,
  take, get_or,
}
use Prim.Native.Nat.{bit_xor}
use mini_security_crypto_web.Cipher.Block.{CipherContext, block_size, cipher_encrypt_block}

pub record CtrContext : Type 0 where
  pub cipher : CipherContext
  pub counter : List ℕ
  pub keystream : List ℕ
  pub stream_pos : ℕ

unfoldable pub ctr_crypt_init : CipherContext → List ℕ → CtrContext
unfolding block_size
ctr_crypt_init c nonce = record {
  cipher = c;
  counter = take (block_size c) nonce;
  keystream = [];
  stream_pos = block_size c;
}

-- `counter[i]++; if (counter[i] != 0) break;` from the last byte: the bytes, and whether every one
-- of them went to 0.
unfoldable pub increment : List ℕ → List ℕ × Bool
increment [] = ([], true)
increment (b ∷ bytes) =
    let (rest, carry) = increment bytes in
    if carry then ((b + 1) % 256 ∷ rest, (b + 1) % 256 == 0) else (b ∷ rest, false)

unfoldable pub ctr_next_keystream : CtrContext → CtrContext
unfolding cipher_encrypt_block increment
ctr_next_keystream ctr = record ctr {
  keystream = cipher_encrypt_block ctr.cipher ctr.counter;
  counter = (increment ctr.counter).0;
  stream_pos = 0;
}

-- `if (ctr->stream_pos >= bs) ctr_next_keystream(ctr)`
unfoldable pub with_keystream : CtrContext → CtrContext
unfolding ctr_next_keystream block_size
with_keystream ctr =
    if leb (block_size ctr.cipher) ctr.stream_pos then ctr_next_keystream ctr else ctr

unfoldable pub ctr_crypt_update : CtrContext → List ℕ → CtrContext × List ℕ
unfolding with_keystream
ctr_crypt_update ctr [] = (ctr, [])
ctr_crypt_update ctr (b ∷ input) =
    let ready = with_keystream ctr in
    let out = bit_xor b (get_or ready.keystream ready.stream_pos 0) in
    let (ctr', rest) =
      ctr_crypt_update (record ready { stream_pos = ready.stream_pos + 1 }) input in
    (ctr', out ∷ rest)
