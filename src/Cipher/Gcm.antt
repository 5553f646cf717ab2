-- ===== src/Cipher/Gcm.antt =====
-- GCM of mini-crypto-basic/src/symmetric_cipher.c, and ct_memcmp of hash_func.c.
pub mod Repeats
pub mod Opens
use Prim.Native.Nat.{bit_xor, bit_or}
use mini_security_crypto_web.Prelude.{
  ℕ, zero, suc, ◌+◌, ◌*◌, ◌/◌, ◌%◌, ◌^◌, ◌≤◌, ◌≡◌, Bool, ◌==◌, ltb, leb, if◌then◌else◌, List, [],
  ◌∷◌, ◌++◌, length, take, drop, replicate, get_or, u64_mod, add64,
}
use mini_security_crypto_web.Prelude.Xor.{xor_bytes}
use mini_security_crypto_web.Cipher.Aes.{aes128_key_schedule}
use mini_security_crypto_web.Cipher.Des.{des_key_schedule, store_block}
use mini_security_crypto_web.Cipher.Block.{
  CipherContext, aes, des, block_size, cipher_encrypt_block,
}
use mini_security_crypto_web.Cipher.Ctr.{increment}

-- The right shift of a big-endian block, the carry coming in at the top.
unfoldable pub shift_right : ℕ → List ℕ → List ℕ
shift_right carry [] = []
shift_right carry (b ∷ block) = bit_or (b / 2) (carry * 128) ∷ shift_right (b % 2) block

unfoldable pub add_reduction : List ℕ → List ℕ
add_reduction [] = []
add_reduction (b ∷ block) = bit_xor b 0xe1 ∷ block

-- `lsb = V[15] & 1`, the shift, and R added to V[0] if it is set.
unfoldable pub next_multiple : List ℕ → List ℕ
unfolding shift_right add_reduction
next_multiple v =
    let shifted = shift_right 0 v in
    if get_or v 15 0 % 2 == 1 then add_reduction shifted else shifted

-- `for (j = 7; j >= 0; j--)` over the digits of a byte: n digits are left.
unfoldable pub mul_bits : ℕ → ℕ → List ℕ × List ℕ → List ℕ × List ℕ
mul_bits zero a (z, v) = (z, v)
mul_bits (suc j) a (z, v) =
    mul_bits j a (if a / 2 ^ j % 2 == 1 then xor_bytes z v else z, next_multiple v)

unfoldable pub mul_blocks : List ℕ → List ℕ × List ℕ → List ℕ × List ℕ
mul_blocks [] zv = zv
mul_blocks (a ∷ rest) zv = mul_blocks rest (mul_bits 8 a zv)

unfoldable pub gcm_gf_mul : List ℕ → List ℕ → List ℕ
gcm_gf_mul a b = (mul_blocks a (replicate 16 0, b)).0

-- `while (pos + 16 <= data_len)`, then the rest under zeros; a round for at least each byte.
unfoldable pub ghash_loop : ℕ → List ℕ → List ℕ → List ℕ → List ℕ
unfolding gcm_gf_mul xor_bytes
ghash_loop zero hash_key input out = out
ghash_loop (suc fuel) hash_key input out =
    let rest =
      ghash_loop fuel hash_key (drop 16 input)
        (gcm_gf_mul (xor_bytes out (take 16 input)) hash_key) in
    if leb 16 (length input)
    then rest
    else if ltb 0 (length input)
    then gcm_gf_mul (xor_bytes out input) hash_key
    else out

unfoldable pub gcm_ghash : List ℕ → List ℕ → List ℕ → List ℕ
unfolding ghash_loop
gcm_ghash hash_key input out = ghash_loop (suc (length input)) hash_key input out

pub record GcmContext : Type 0 where
  pub cipher : CipherContext
  pub hash_key : List ℕ
  pub j0 : List ℕ
  pub counter : List ℕ
  pub keystream : List ℕ
  pub stream_pos : ℕ
  pub ghash_state : List ℕ
  pub aad_len_bits : ℕ
  pub data_len_bits : ℕ

pub data CipherAlgo : Type 0 where
  aes128 : CipherAlgo
  des64 : CipherAlgo

unfoldable pub scheduled : CipherAlgo → List ℕ → CipherContext
unfolding aes128_key_schedule des_key_schedule
scheduled aes128 key = aes (aes128_key_schedule key)
scheduled des64 key = des (des_key_schedule key)

-- H is the encryption of a zero block; under DES its last 8 bytes are zeros.
unfoldable pub gcm_derive_hash_key : CipherContext → List ℕ
unfolding cipher_encrypt_block block_size
gcm_derive_hash_key c =
    cipher_encrypt_block c (replicate (block_size c) 0) ++ drop (block_size c) (replicate 16 0)

-- The last four bytes only.
unfoldable pub gcm_increment_counter : List ℕ → List ℕ
unfolding increment
gcm_increment_counter counter = take 12 counter ++ (increment (drop 12 counter)).0

-- The 8 bytes of a 64-bit number, the highest first.
unfoldable pub length_bytes : ℕ → List ℕ
unfolding store_block
length_bytes n = store_block 8 n

unfoldable pub gcm_j0 : List ℕ → List ℕ → List ℕ
unfolding gcm_ghash gcm_gf_mul xor_bytes length_bytes
gcm_j0 hash_key iv =
    if length iv == 12
    then iv ++ 0 ∷ 0 ∷ 0 ∷ 1 ∷ []
    else gcm_gf_mul
        (xor_bytes (gcm_ghash hash_key iv (replicate 16 0))
          (replicate 8 0 ++ length_bytes (length iv * 8 % u64_mod)))
        hash_key

unfoldable pub gcm_encrypt_init : CipherAlgo → List ℕ → List ℕ → GcmContext
unfolding scheduled gcm_derive_hash_key gcm_j0 gcm_increment_counter
gcm_encrypt_init algo key iv =
    let c = scheduled algo key in
    let h = gcm_derive_hash_key c in
    let first = gcm_j0 h iv in
    record {
      cipher = c;
      hash_key = h;
      j0 = first;
      counter = gcm_increment_counter first;
      keystream = replicate 16 0;
      stream_pos = 16;
      ghash_state = replicate 16 0;
      aad_len_bits = 0;
      data_len_bits = 0;
    }

unfoldable pub gcm_encrypt_aad : GcmContext → List ℕ → GcmContext
unfolding gcm_ghash
gcm_encrypt_aad gcm aad = record gcm {
  aad_len_bits = add64 gcm.aad_len_bits (length aad * 8 % u64_mod);
  ghash_state = gcm_ghash gcm.hash_key aad gcm.ghash_state;
}

-- The cipher reads one block of the counter and writes one block of the keystream.
unfoldable pub gcm_next_block : GcmContext → GcmContext
unfolding cipher_encrypt_block block_size gcm_increment_counter
gcm_next_block gcm =
    let bs = block_size gcm.cipher in
    record gcm {
      keystream = cipher_encrypt_block gcm.cipher (take bs gcm.counter) ++ drop bs gcm.keystream;
      counter = gcm_increment_counter gcm.counter;
      stream_pos = 0;
    }

unfoldable pub with_block : GcmContext → GcmContext
unfolding gcm_next_block block_size
with_block gcm = if leb (block_size gcm.cipher) gcm.stream_pos then gcm_next_block gcm else gcm

-- One byte of the keystream.
unfoldable pub gcm_byte : GcmContext → ℕ → GcmContext × ℕ
unfolding with_block
gcm_byte gcm b =
    let ready = with_block gcm in
    (
      record ready { stream_pos = ready.stream_pos + 1 },
      bit_xor b (get_or ready.keystream ready.stream_pos 0),
    )

-- The loop that both updates run over their bytes.
unfoldable pub gcm_stream : GcmContext → List ℕ → GcmContext × List ℕ
gcm_stream gcm [] = (gcm, [])
gcm_stream gcm (b ∷ input) =
    let (gcm1, out) = gcm_byte gcm b in
    let (gcm2, rest) = gcm_stream gcm1 input in (gcm2, out ∷ rest)

-- `data_len_bits` and the hash over the ciphertext.
unfoldable pub hashed : GcmContext → List ℕ → GcmContext
unfolding gcm_ghash
hashed gcm cipher = record gcm {
  data_len_bits = add64 gcm.data_len_bits (length cipher * 8 % u64_mod);
  ghash_state = gcm_ghash gcm.hash_key cipher gcm.ghash_state;
}

unfoldable pub gcm_encrypt_update : GcmContext → List ℕ → GcmContext × List ℕ
gcm_encrypt_update gcm plain =
    let (gcm', cipher) = gcm_stream gcm plain in (hashed gcm' cipher, cipher)

-- The hash first, then the bytes.
unfoldable pub gcm_decrypt_update : GcmContext → List ℕ → GcmContext × List ℕ
gcm_decrypt_update gcm cipher = gcm_stream (hashed gcm cipher) cipher

-- The tag of `tag_len` bytes, 16 at most.
unfoldable pub gcm_encrypt_final : GcmContext → ℕ → List ℕ
gcm_encrypt_final gcm tag_len =
    let final_block = length_bytes gcm.aad_len_bits ++ length_bytes gcm.data_len_bits in
    let hash = gcm_gf_mul (xor_bytes gcm.ghash_state final_block) gcm.hash_key in
    let sealed = gcm_next_block (record gcm { counter = gcm.j0; stream_pos = 16 }) in
    take tag_len (xor_bytes hash sealed.keystream)

-- `diff |= a[i] ^ b[i]` over the bytes of the second.
unfoldable pub differences : ℕ → List ℕ → List ℕ → ℕ
differences diff a [] = diff
differences diff [] (b ∷ bs) = diff
differences diff (a ∷ xs) (b ∷ bs) = differences (bit_or diff (bit_xor a b)) xs bs

unfoldable pub ct_memcmp : List ℕ → List ℕ → Bool
unfolding differences
ct_memcmp a b = differences 0 a b == 0

-- The computed 16 bytes against the expected ones, of which `tag_len` are at most 16.
unfoldable pub gcm_decrypt_final : GcmContext → List ℕ → Bool
gcm_decrypt_final gcm expected = ct_memcmp (gcm_encrypt_final gcm 16) expected
