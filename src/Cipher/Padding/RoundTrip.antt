-- ===== src/Cipher/Padding/RoundTrip.antt =====
-- pkcs7_pad and pkcs7_unpad, and a message sent through CBC with them.
use native.Mathlib.Nat.{div-add-mod', mod-lt, add-mul}
use mini_security_crypto_web.Prelude.{
  ℕ, zero, suc, ◌+◌, ◌-◌, ◌*◌, ◌/◌, ◌%◌, ◌<◌, ◌≡◌, refl, ap, ◌∙◌, true, some, List, ◌++◌, length,
  length-append, length-replicate, take-append_exact, drop-append_exact, get_or,
  get_or-append_right, get_or-replicate, replicate, All, append-All, arith,
}
use mini_security_crypto_web.Cipher.Block.{
  CipherContext, block_size, block_size-pos, block_size-le, IsInvertible, aes-IsInvertible,
  des-IsInvertible,
}
use mini_security_crypto_web.Cipher.Aes.{IsBlock, aes128_key_schedule}
use mini_security_crypto_web.Cipher.Aes.Schedule.{aes128_key_schedule-IsBlock}
use mini_security_crypto_web.Cipher.Des.{des_key_schedule}
use mini_security_crypto_web.Cipher.Gcm.{CipherAlgo, aes128, des64, scheduled}
use mini_security_crypto_web.Cipher.Cbc.{cbc_init, cbc_encrypt_update, cbc_decrypt_update}
use mini_security_crypto_web.Cipher.Cbc.RoundTrip.{cbc_decrypt_update-cbc_encrypt_update}
use mini_security_crypto_web.Cipher.Padding.{pkcs7_pad, pkcs7_unpad, all_are}

all_are-replicate : (n v : ℕ) → all_are v (replicate n v) ≡ true
unfolding all_are
all_are-replicate zero v = refl
all_are-replicate (suc n) v = ground (arith, all_are-replicate n v)

replicate-All : (n v : ℕ) → v < 256 → All (λ b. b < 256) (replicate n v)
replicate-All zero v h = tt
replicate-All (suc n) v h = (h, replicate-All n v h)

unpad_padded :
    (input : List ℕ) (p : ℕ)
    → 0 < p
    → p < 17
    → pkcs7_unpad (input ++ replicate p p) ≡ (length input, some input)
unfolding pkcs7_unpad
unpad_padded input p lo hi =
    let n : length (input ++ replicate p p) ≡ length input + p =
      length-append input (replicate p p) ∙ ap (λ t. length input + t) (length-replicate p p) in
    let last : get_or (input ++ replicate p p) (length input + p - 1) 0 ≡ p =
      ap (λ t. get_or (input ++ replicate p p) t 0) (omega arith)
      ∙ get_or-append_right input (replicate p p) (p - 1) 0
      ∙ get_or-replicate p (p - 1) p 0 (omega arith) in
    let cut : length input + p - p ≡ length input = omega arith in
    rw
      (
        n,
        last,
        cut,
        drop-append_exact (length input) input (replicate p p) refl,
        take-append_exact (length input) input (replicate p p) refl,
        all_are-replicate p p,
      )
      (ground arith)

module _ (input : List ℕ) (bs : ℕ) (lo : 0 < bs) (hi : bs < 17) where
  -- For blocks of 1 to 16 bytes: unpadding what was padded writes the data and returns its length.
  pub pkcs7_unpad-pkcs7_pad : pkcs7_unpad (pkcs7_pad input bs) ≡ (length input, some input)
  unfolding pkcs7_pad
  pkcs7_unpad-pkcs7_pad =
      let below = mod-lt (length input) lo in
      let small : (bs - length input % bs) % 256 ≡ bs - length input % bs = omega arith in
      rw small (unpad_padded input (bs - length input % bs) (omega arith) (omega arith))

  pub length-pkcs7_pad : length (pkcs7_pad input bs) ≡ (length input / bs + 1) * bs
  unfolding pkcs7_pad
  length-pkcs7_pad =
      let p = bs - length input % bs in
      omega (
        arith,
        length-append input (replicate p (p % 256)),
        length-replicate p (p % 256),
        div-add-mod' (length input) bs,
        mod-lt (length input) lo,
        add-mul (length input / bs) 1 bs,
      )

  pub pkcs7_pad-IsBlock :
      All (λ b. b < 256) input → IsBlock ((length input / bs + 1) * bs) (pkcs7_pad input bs)
  unfolding pkcs7_pad
  pkcs7_pad-IsBlock h =
      (length-pkcs7_pad, append-All (λ b. b < 256) input _ h (replicate-All _ _ (omega arith)))

-- For any cipher whose decryption undoes its encryption.
invertible_round_trip :
    (c : CipherContext) (iv message : List ℕ)
    → IsInvertible c
    → IsBlock (block_size c) iv
    → All (λ b. b < 256) message
    → let sent = (cbc_encrypt_update (cbc_init c iv) (pkcs7_pad message (block_size c))).1 in
      pkcs7_unpad (cbc_decrypt_update (cbc_init c iv) sent).1 ≡ (length message, some message)
invertible_round_trip c iv message inverse v h =
    let lo = block_size-pos c in
    let back =
      cbc_decrypt_update-cbc_encrypt_update c inverse (length message / block_size c + 1) iv
        (pkcs7_pad message (block_size c)) v
        (pkcs7_pad-IsBlock message (block_size c) lo (block_size-le c) h) in
    rw back.0 (pkcs7_unpad-pkcs7_pad message (block_size c) lo (block_size-le c))

-- A key of the cipher's own length.
abbrev pub IsKey : CipherAlgo → List ℕ → Type 0
IsKey aes128 key = IsBlock 16 key
IsKey des64 key = IsBlock 8 key

scheduled-IsInvertible :
    (algo : CipherAlgo) (key : List ℕ) → IsKey algo key → IsInvertible (scheduled algo key)
unfolding scheduled
scheduled-IsInvertible aes128 key h =
    aes-IsInvertible (aes128_key_schedule key) (aes128_key_schedule-IsBlock key h).1
scheduled-IsInvertible des64 key h = des-IsInvertible (des_key_schedule key)

-- Under the round keys of a key of 16 bytes for AES or of 8 for DES, and from an initial vector of
-- one block of bytes, a message of bytes of any length that is padded and encrypted comes back when
-- it is decrypted from that vector and unpadded.
pub cbc_message_round_trip :
    (algo : CipherAlgo) (key iv message : List ℕ)
    → IsKey algo key
    → IsBlock (block_size (scheduled algo key)) iv
    → All (λ b. b < 256) message
    → let c = scheduled algo key in
      let sent = (cbc_encrypt_update (cbc_init c iv) (pkcs7_pad message (block_size c))).1 in
      pkcs7_unpad (cbc_decrypt_update (cbc_init c iv) sent).1 ≡ (length message, some message)
cbc_message_round_trip algo key iv message k v h =
    invertible_round_trip (scheduled algo key) iv message (scheduled-IsInvertible algo key k) v h
