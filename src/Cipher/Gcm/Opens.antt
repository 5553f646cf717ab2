-- ===== src/Cipher/Gcm/Opens.antt =====
-- A sender with gcm_encrypt_update and a receiver with gcm_decrypt_update.
mod Compare
use mini_security_crypto_web.Prelude.{
  ℕ, zero, suc, ◌/◌, ◌%◌, ◌^◌, ◌+◌, ◌≤◌, ◌≡◌, ◌↔◌, refl, sym, ap, ◌∙◌, true, leb, Bool-cases, inl,
  inr, List, [], ◌∷◌, length, length-replicate, length-take, take, get_or, replicate, ◌==◌, arith,
}
use Prim.Native.Nat.{bit_xor, min}
use mini_security_crypto_web.Prelude.Xor.{bit_xor_twice, xor_bytes, length-xor_bytes}
use mini_security_crypto_web.Cipher.Block.{block_size}
use mini_security_crypto_web.Cipher.Gcm.{
  GcmContext, mul_bits, mul_blocks, gcm_gf_mul, next_multiple, with_block, gcm_byte, gcm_stream,
  hashed, gcm_encrypt_update, gcm_decrypt_update, gcm_encrypt_final, gcm_decrypt_final,
}
use mini_security_crypto_web.Cipher.Gcm.Opens.Compare.{ct_memcmp_iff}

gcm_byte_twice :
    (gcm : GcmContext) (b : ℕ) → gcm_byte gcm (gcm_byte gcm b).1 ≡ ((gcm_byte gcm b).0, b)
unfolding gcm_byte
gcm_byte_twice gcm b =
    let ready = with_block gcm in
    rw (bit_xor_twice b (get_or ready.keystream ready.stream_pos 0)) refl

gcm_stream_twice :
    (gcm : GcmContext) (input : List ℕ)
    → gcm_stream gcm (gcm_stream gcm input).1 ≡ ((gcm_stream gcm input).0, input)
unfolding gcm_stream
gcm_stream_twice gcm [] = refl
gcm_stream_twice gcm (b ∷ input) =
    rw (gcm_byte_twice gcm b, gcm_stream_twice (gcm_byte gcm b).0 input) refl

with_block-hashed :
    (gcm : GcmContext) (cipher : List ℕ)
    → with_block (hashed gcm cipher) ≡ hashed (with_block gcm) cipher
unfolding with_block hashed
with_block-hashed gcm cipher = elim (Bool-cases (leb (block_size gcm.cipher) gcm.stream_pos)) [
  | inl e ↦ rw e refl
  | inr e ↦ rw e refl
]

gcm_byte-hashed :
    (gcm : GcmContext) (cipher : List ℕ) (b : ℕ)
    → gcm_byte (hashed gcm cipher) b ≡ (hashed (gcm_byte gcm b).0 cipher, (gcm_byte gcm b).1)
unfolding gcm_byte hashed
gcm_byte-hashed gcm cipher b = rw (with_block-hashed gcm cipher) refl

-- The keystream does not depend on what is hashed.
gcm_stream-hashed :
    (input : List ℕ) (gcm : GcmContext) (cipher : List ℕ)
    → gcm_stream (hashed gcm cipher) input
      ≡ (hashed (gcm_stream gcm input).0 cipher, (gcm_stream gcm input).1)
unfolding gcm_stream
gcm_stream-hashed [] gcm cipher = refl
gcm_stream-hashed (b ∷ input) gcm cipher =
    rw (gcm_byte-hashed gcm cipher b, gcm_stream-hashed input (gcm_byte gcm b).0 cipher) refl

length-mul_bits : (j a : ℕ) (z v : List ℕ) → length (mul_bits j a (z, v)).0 ≡ length z
unfolding mul_bits
length-mul_bits zero a z v = refl
length-mul_bits (suc j) a z v = elim (Bool-cases (a / 2 ^ j % 2 == 1)) [
  | inl e ↦
      rw (e, length) (length-mul_bits j a (xor_bytes z v) (next_multiple v) ∙ length-xor_bytes z v)
  | inr e ↦ rw (e, length) (length-mul_bits j a z (next_multiple v))
]

length-mul_blocks : (a : List ℕ) (zv : List ℕ × List ℕ) → length (mul_blocks a zv).0 ≡ length zv.0
unfolding mul_blocks
length-mul_blocks [] zv = refl
length-mul_blocks (b ∷ a) zv = length-mul_blocks a (mul_bits 8 b zv) ∙ length-mul_bits 8 b zv.0 zv.1

length-gcm_gf_mul : (a b : List ℕ) → length (gcm_gf_mul a b) ≡ 16
unfolding gcm_gf_mul
length-gcm_gf_mul a b = length-mul_blocks a (replicate 16 0, b)

length-gcm_encrypt_final : (gcm : GcmContext) → length (gcm_encrypt_final gcm 16) ≡ 16
unfolding gcm_encrypt_final
length-gcm_encrypt_final gcm =
    length-take 16 _ ∙ ap (min 16) (length-xor_bytes _ _ ∙ length-gcm_gf_mul _ gcm.hash_key)

-- From one context: what the receiver decrypts is the plaintext, the two contexts end the same, and
-- of all tags of 16 bytes the receiver accepts the one that the sender computes and no other.
pub gcm_opens :
    (gcm : GcmContext) (plain tag : List ℕ)
    → length tag ≡ 16
    → let (sender, sent) = gcm_encrypt_update gcm plain in
      let (receiver, read) = gcm_decrypt_update gcm sent in
      (read ≡ plain)
      × (receiver ≡ sender)
      × ((gcm_decrypt_final receiver tag ≡ true) ↔ (tag ≡ gcm_encrypt_final sender 16))
unfolding gcm_encrypt_update gcm_decrypt_update gcm_decrypt_final
gcm_opens gcm plain tag h =
    let sent = (gcm_stream gcm plain).1 in
    let back : gcm_stream (hashed gcm sent) sent ≡ (hashed (gcm_stream gcm plain).0 sent, plain) =
      gcm_stream-hashed sent gcm sent ∙ rw (gcm_stream_twice gcm plain) refl in
    let sender = hashed (gcm_stream gcm plain).0 sent in
    let tags =
      ct_memcmp_iff (gcm_encrypt_final sender 16) tag (length-gcm_encrypt_final sender ∙ sym h) in
    rw back (refl, refl, (λ e. sym (tags.0 e), λ e. tags.1 (sym e)))
