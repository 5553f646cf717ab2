-- ===== src/Cipher/Des.antt =====
-- DES of mini-crypto-basic/src/symmetric_cipher.c: DesContext is the list of its 16 round keys, a
-- 64-bit block a number, bit 1 of a table the highest of its 64 bits.
pub mod Tables
pub mod Bits
pub mod Feistel
pub mod RoundTrip
use Prim.Native.Nat.{bit_or, bit_xor}
use mathlib.Core.List.{reverse}
use mini_security_crypto_web.Prelude.{
  ℕ, zero, suc, ◌+◌, ◌-◌, ◌*◌, ◌/◌, ◌%◌, ◌^◌, List, [], ◌∷◌, ◌++◌, get_or, u32_mod, u64_mod,
}
use mini_security_crypto_web.Cipher.Des.Tables.{
  des_ip, des_ip_inv, des_e, des_p, des_pc1, des_pc2, des_shifts, des_sbox,
}

-- `(in >> (64 - t)) & 1`
unfoldable pub bit_of : ℕ → ℕ → ℕ
bit_of input t = input / 2 ^ (64 - t) % 2

unfoldable pub permute_loop : ℕ → List ℕ → ℕ → ℕ
unfolding bit_of
permute_loop input [] out = out
permute_loop input (t ∷ table) out =
    permute_loop input table (bit_or (out * 2 % u64_mod) (bit_of input t))

unfoldable pub des_permute : ℕ → List ℕ → ℕ
unfolding permute_loop
des_permute input table = permute_loop input table 0

-- The box's value at the six bits of the expanded half that belong to it.
unfoldable pub sbox_value : List (List ℕ) → ℕ → ℕ
sbox_value box chunk =
    get_or (get_or box (bit_or (chunk / 32 * 2) (chunk % 2)) []) (chunk / 2 % 16) 0

-- The loop over the boxes, the i-th reading at `expanded >> (42 - i * 6)`.
unfoldable pub sbox_loop : ℕ → ℕ → List (List (List ℕ)) → ℕ → ℕ
sbox_loop expanded i [] out = out
sbox_loop expanded i (box ∷ boxes) out =
    sbox_loop expanded (suc i) boxes
      (bit_or (out * 16 % u32_mod) (sbox_value box (expanded / 2 ^ (42 - i * 6) % 64)))

unfoldable pub des_feistel : ℕ → ℕ → ℕ
des_feistel r subkey =
    des_permute (sbox_loop (bit_xor (des_permute r des_e) subkey) 0 des_sbox 0) des_p % u32_mod

-- `(block << 8) | plain[i]` over the bytes of a block
unfoldable pub load_block : ℕ → List ℕ → ℕ
load_block block [] = block
load_block block (b ∷ bytes) = load_block (bit_or (block * 256 % u64_mod) b) bytes

-- `for (i = 7; i >= 0; i--, block >>= 8) cipher[i] = block & 0xFF`
unfoldable pub store_block : ℕ → ℕ → List ℕ
store_block zero block = []
store_block (suc n) block = store_block n (block / 256) ++ (block % 256) ∷ []

-- The shift of a 28-bit half of the key.
unfoldable pub rotate_half : ℕ → ℕ → ℕ
rotate_half half shift = bit_or (half * 2 ^ shift % u32_mod) (half / 2 ^ (28 - shift)) % 2 ^ 28

unfoldable pub key_rounds : List ℕ → ℕ → ℕ → List ℕ
key_rounds [] c d = []
key_rounds (shift ∷ shifts) c d =
    let c' = rotate_half c shift in
    let d' = rotate_half d shift in
    des_permute (bit_or (c' * 2 ^ 28) d') des_pc2 ∷ key_rounds shifts c' d'

unfoldable pub des_key_schedule : List ℕ → List ℕ
des_key_schedule key =
    let k = des_permute (load_block 0 key) des_pc1 in
    key_rounds des_shifts (k / 2 ^ 28 % u32_mod) (k % 2 ^ 28)

-- The rounds over the two halves, under the keys in their order.
unfoldable pub feistel_rounds : List ℕ → ℕ × ℕ → ℕ × ℕ
feistel_rounds [] halves = halves
feistel_rounds (key ∷ keys) (l, r) = feistel_rounds keys (r, bit_xor l (des_feistel r key))

unfoldable pub crypt_block : List ℕ → List ℕ → List ℕ
crypt_block keys bytes =
    let block = des_permute (load_block 0 bytes) des_ip in
    let halves = feistel_rounds keys (block / 2 ^ 32, block % 2 ^ 32) in
    store_block 8 (des_permute (bit_or (halves.1 * 2 ^ 32) halves.0) des_ip_inv)

unfoldable pub des_encrypt_block : List ℕ → List ℕ → List ℕ
des_encrypt_block keys plain = crypt_block keys plain

-- The same, under the keys from the last to the first.
unfoldable pub des_decrypt_block : List ℕ → List ℕ → List ℕ
des_decrypt_block keys cipher = crypt_block (reverse keys) cipher
