-- ===== src/Cipher/Tests.antt =====
-- Runs of mini-crypto-basic/src/symmetric_cipher.c at concrete inputs, and the theorems at inputs that
-- meet their hypotheses.
use Prim.Native.Nat.{bit_xor}
use mini_security_crypto_web.Prelude.{
  ℕ, ◌+◌, ◌%◌, ◌^◌, ◌≡◌, ◌↔◌, refl, true, some, List, [], ◌∷◌, length, take, replicate, arith,
  get_elem?,
}
use mini_security_crypto_web.Prelude.ByteString.{big_endian}
use mini_security_crypto_web.Cipher.Aes.{
  aes128_encrypt_block, aes128_decrypt_block, aes128_key_schedule, expand_from, next_round_key,
  next_words, schedule_temp, sbox_at, IsBlock, encrypt_rounds, encrypt_round, sub_bytes, shift_rows,
  mix_columns, add_round_key, round_key,
}
use mini_security_crypto_web.Prelude.Xor.{xor_bytes}
use mini_security_crypto_web.Cipher.Gf.{gf_mul2, gf_mul3}
use mini_security_crypto_web.Cipher.Gf.Column.{mixed0, mixed1, mixed2, mixed3}
use mini_security_crypto_web.Cipher.Aes.Schedule.{aes_round_trip}
use mini_security_crypto_web.Cipher.Des.{des_encrypt_block, des_decrypt_block, des_key_schedule}
use mini_security_crypto_web.Cipher.Des.RoundTrip.{
  des_decrypt_block-des_encrypt_block, des_ignores_key,
}
use mini_security_crypto_web.Cipher.Block.{CipherContext, aes, des, block_size}
use mini_security_crypto_web.Cipher.Cbc.{
  cbc_init, cbc_encrypt_byte, cbc_encrypt_update, cbc_decrypt_update,
}
use mini_security_crypto_web.Cipher.Ctr.{ctr_crypt_init, ctr_crypt_update, increment}
use mini_security_crypto_web.Cipher.Ctr.Keystream.{IsStream, ctr_crypt_update-IsStream}
use mini_security_crypto_web.Cipher.Ctr.Counter.{big_endian-increment}
use mini_security_crypto_web.Cipher.Gcm.{
  GcmContext, aes128, scheduled, gcm_encrypt_init, gcm_encrypt_aad, gcm_encrypt_update,
  gcm_decrypt_update, gcm_encrypt_final, gcm_decrypt_final, gcm_next_block,
}
use mini_security_crypto_web.Cipher.Gcm.Opens.{gcm_opens}
use mini_security_crypto_web.Cipher.Gcm.Repeats.{des_keystream_repeats}
use mini_security_crypto_web.Cipher.Padding.{pkcs7_pad, pkcs7_unpad}
use mini_security_crypto_web.Cipher.Padding.RoundTrip.{cbc_message_round_trip}

abbrev a_key : List ℕ
a_key =
    0x2b ∷ 0x7e ∷ 0x15 ∷ 0x16 ∷ 0x28 ∷ 0xae ∷ 0xd2 ∷ 0xa6 ∷ 0xab ∷ 0xf7 ∷ 0x15 ∷ 0x88 ∷ 0x09 ∷ 0xcf
    ∷ 0x4f ∷ 0x3c ∷ []

abbrev a_block : List ℕ
a_block =
    0x32 ∷ 0x43 ∷ 0xf6 ∷ 0xa8 ∷ 0x88 ∷ 0x5a ∷ 0x30 ∷ 0x8d ∷ 0x31 ∷ 0x31 ∷ 0x98 ∷ 0xa2 ∷ 0xe0 ∷ 0x37
    ∷ 0x07 ∷ 0x34 ∷ []

aes_round_trip_example :
    aes128_decrypt_block
      (aes128_key_schedule a_key)
      (aes128_encrypt_block (aes128_key_schedule a_key) a_block)
    ≡ a_block
aes_round_trip_example = aes_round_trip a_key a_block (omega arith) (omega arith)

-- The round keys of FIPS 197, appendix A.1.
abbrev fips_keys : List ℕ
fips_keys =
    0x2b ∷ 0x7e ∷ 0x15 ∷ 0x16 ∷ 0x28 ∷ 0xae ∷ 0xd2 ∷ 0xa6 ∷ 0xab ∷ 0xf7 ∷ 0x15 ∷ 0x88 ∷ 0x09 ∷ 0xcf
    ∷ 0x4f ∷ 0x3c ∷ 0xa0 ∷ 0xfa ∷ 0xfe ∷ 0x17 ∷ 0x88 ∷ 0x54 ∷ 0x2c ∷ 0xb1 ∷ 0x23 ∷ 0xa3 ∷ 0x39
    ∷ 0x39 ∷ 0x2a ∷ 0x6c ∷ 0x76 ∷ 0x05 ∷ 0xf2 ∷ 0xc2 ∷ 0x95 ∷ 0xf2 ∷ 0x7a ∷ 0x96 ∷ 0xb9 ∷ 0x43
    ∷ 0x59 ∷ 0x35 ∷ 0x80 ∷ 0x7a ∷ 0x73 ∷ 0x59 ∷ 0xf6 ∷ 0x7f ∷ 0x3d ∷ 0x80 ∷ 0x47 ∷ 0x7d ∷ 0x47
    ∷ 0x16 ∷ 0xfe ∷ 0x3e ∷ 0x1e ∷ 0x23 ∷ 0x7e ∷ 0x44 ∷ 0x6d ∷ 0x7a ∷ 0x88 ∷ 0x3b ∷ 0xef ∷ 0x44
    ∷ 0xa5 ∷ 0x41 ∷ 0xa8 ∷ 0x52 ∷ 0x5b ∷ 0x7f ∷ 0xb6 ∷ 0x71 ∷ 0x25 ∷ 0x3b ∷ 0xdb ∷ 0x0b ∷ 0xad
    ∷ 0x00 ∷ 0xd4 ∷ 0xd1 ∷ 0xc6 ∷ 0xf8 ∷ 0x7c ∷ 0x83 ∷ 0x9d ∷ 0x87 ∷ 0xca ∷ 0xf2 ∷ 0xb8 ∷ 0xbc
    ∷ 0x11 ∷ 0xf9 ∷ 0x15 ∷ 0xbc ∷ 0x6d ∷ 0x88 ∷ 0xa3 ∷ 0x7a ∷ 0x11 ∷ 0x0b ∷ 0x3e ∷ 0xfd ∷ 0xdb
    ∷ 0xf9 ∷ 0x86 ∷ 0x41 ∷ 0xca ∷ 0x00 ∷ 0x93 ∷ 0xfd ∷ 0x4e ∷ 0x54 ∷ 0xf7 ∷ 0x0e ∷ 0x5f ∷ 0x5f
    ∷ 0xc9 ∷ 0xf3 ∷ 0x84 ∷ 0xa6 ∷ 0x4f ∷ 0xb2 ∷ 0x4e ∷ 0xa6 ∷ 0xdc ∷ 0x4f ∷ 0xea ∷ 0xd2 ∷ 0x73
    ∷ 0x21 ∷ 0xb5 ∷ 0x8d ∷ 0xba ∷ 0xd2 ∷ 0x31 ∷ 0x2b ∷ 0xf5 ∷ 0x60 ∷ 0x7f ∷ 0x8d ∷ 0x29 ∷ 0x2f
    ∷ 0xac ∷ 0x77 ∷ 0x66 ∷ 0xf3 ∷ 0x19 ∷ 0xfa ∷ 0xdc ∷ 0x21 ∷ 0x28 ∷ 0xd1 ∷ 0x29 ∷ 0x41 ∷ 0x57
    ∷ 0x5c ∷ 0x00 ∷ 0x6e ∷ 0xd0 ∷ 0x14 ∷ 0xf9 ∷ 0xa8 ∷ 0xc9 ∷ 0xee ∷ 0x25 ∷ 0x89 ∷ 0xe1 ∷ 0x3f
    ∷ 0x0c ∷ 0xc8 ∷ 0xb6 ∷ 0x63 ∷ 0x0c ∷ 0xa6 ∷ []

-- With these the block of its appendix B has the ciphertext given there.
fips_vector :
    aes128_encrypt_block fips_keys a_block
    ≡ 0x39 ∷ 0x25 ∷ 0x84 ∷ 0x1d ∷ 0x02 ∷ 0xdc ∷ 0x09 ∷ 0xfb ∷ 0xdc ∷ 0x11 ∷ 0x85 ∷ 0x97 ∷ 0x19
      ∷ 0x6a ∷ 0x0b ∷ 0x32 ∷ []
unfolding aes128_encrypt_block encrypt_rounds encrypt_round sub_bytes shift_rows mix_columns
    add_round_key round_key xor_bytes mixed0 mixed1 mixed2 mixed3 gf_mul2 gf_mul3 sbox_at
fips_vector = refl

-- In FIPS 197 the first round key of the zero key is not zero; here the first three are.
zero_round_keys : take 64 (aes128_key_schedule (replicate 16 0)) ≡ replicate 64 0
unfolding aes128_key_schedule expand_from next_round_key next_words schedule_temp sbox_at xor_bytes
zero_round_keys = refl

abbrev des_key : List ℕ
des_key = 0x13 ∷ 0x34 ∷ 0x57 ∷ 0x79 ∷ 0x9b ∷ 0xbc ∷ 0xdf ∷ 0xf1 ∷ []

abbrev des_block : List ℕ
des_block = 0x01 ∷ 0x23 ∷ 0x45 ∷ 0x67 ∷ 0x89 ∷ 0xab ∷ 0xcd ∷ 0xef ∷ []

des_decrypt_block-des_encrypt_block_example :
    des_decrypt_block
      (des_key_schedule des_key)
      (des_encrypt_block (des_key_schedule des_key) des_block)
    ≡ des_block
des_decrypt_block-des_encrypt_block_example =
    des_decrypt_block-des_encrypt_block (des_key_schedule des_key) des_block (omega arith)

des_ignores_key_example :
    (des_encrypt_block (des_key_schedule des_key) des_block
      ≡ des_encrypt_block (des_key_schedule (replicate 8 0)) des_block)
    × (des_decrypt_block (des_key_schedule des_key) des_block
        ≡ des_encrypt_block (des_key_schedule (replicate 8 0)) des_block)
des_ignores_key_example = des_ignores_key des_key (replicate 8 0) des_block

abbrev schedule : CipherContext
schedule = aes (aes128_key_schedule a_key)

abbrev a_message : List ℕ
a_message =
    b'H' ∷ b'e' ∷ b'l' ∷ b'l' ∷ b'o' ∷ b',' ∷ b' ' ∷ b'A' ∷ b'E' ∷ b'S' ∷ b'-' ∷ b'C' ∷ b'B' ∷ b'C'
    ∷ b' ' ∷ b'm' ∷ b'o' ∷ b'd' ∷ b'e' ∷ b'!' ∷ []

iv_fits : IsBlock (block_size (scheduled aes128 a_key)) a_block
unfolding scheduled block_size
iv_fits = omega arith

cbc_message_round_trip_example :
    pkcs7_unpad
      (cbc_decrypt_update
        (cbc_init (scheduled aes128 a_key) a_block)
        (cbc_encrypt_update
          (cbc_init (scheduled aes128 a_key) a_block)
          (pkcs7_pad a_message (block_size (scheduled aes128 a_key)))).1).1
    ≡ (length a_message, some a_message)
cbc_message_round_trip_example =
    cbc_message_round_trip aes128 a_key a_block a_message (omega arith) iv_fits (omega arith)

a_block_fits : IsBlock (block_size schedule) a_block
unfolding block_size
a_block_fits = omega arith

ctr_crypt_update-IsStream_example :
    (byte : ℕ) × (get_elem? (ctr_crypt_update (ctr_crypt_init schedule a_block) a_message).1 17
      ≡ some (bit_xor (b'd') byte))
    × IsStream schedule (big_endian a_block) 17 byte
ctr_crypt_update-IsStream_example =
    ctr_crypt_update-IsStream schedule a_block a_message 17 (b'd') a_block_fits refl

abbrev a_counter : List ℕ
a_counter = 1 ∷ 255 ∷ 255 ∷ []

big_endian-increment_example :
    big_endian (increment a_counter).0 ≡ (big_endian a_counter + 1) % 256 ^ length a_counter
big_endian-increment_example = big_endian-increment a_counter (omega arith)

abbrev a_session : GcmContext
a_session = gcm_encrypt_aad (gcm_encrypt_init aes128 a_key (replicate 12 7)) des_block

gcm_opens_example :
    ((gcm_decrypt_update a_session (gcm_encrypt_update a_session a_message).1).1 ≡ a_message)
    × ((gcm_decrypt_update a_session (gcm_encrypt_update a_session a_message).1).0
        ≡ (gcm_encrypt_update a_session a_message).0)
    × ((gcm_decrypt_final
            (gcm_decrypt_update a_session (gcm_encrypt_update a_session a_message).1).0
            a_block
          ≡ true)
        ↔ (a_block ≡ gcm_encrypt_final (gcm_encrypt_update a_session a_message).0 16))
gcm_opens_example = gcm_opens a_session a_message a_block refl

abbrev des_session : GcmContext
des_session = record a_session { cipher = des (des_key_schedule des_key); counter = a_block }

des_keystream_repeats_example :
    (gcm_next_block (gcm_next_block des_session)).keystream ≡ (gcm_next_block des_session).keystream
des_keystream_repeats_example =
    des_keystream_repeats (des_key_schedule des_key) des_session refl (omega arith)

-- Bytes that do not fill a block are never written.
cbc_partial_block_lost : (cbc_encrypt_update (cbc_init schedule a_block) (take 4 a_message)).1 ≡ []
unfolding cbc_encrypt_update cbc_encrypt_byte cbc_init block_size
cbc_partial_block_lost = refl
