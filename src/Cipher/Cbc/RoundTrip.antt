-- ===== src/Cipher/Cbc/RoundTrip.antt =====
-- cbc_encrypt_update and cbc_decrypt_update over whole blocks, and over several updates.
use native.Mathlib.Nat.{suc-mul, mul-le-mul_left}
use mathlib.Core.List.{append_assoc}
use mini_security_crypto_web.Prelude.{
  ℕ, zero, suc, ◌+◌, ◌*◌, ◌≤◌, ◌<◌, ◌≡◌, refl, sym, ap, ◌∙◌, ◌==◌, ltb, true, false, List, [], ◌∷◌,
  ◌++◌, length, length-append, length-take, length-drop, take-drop, take-append_exact,
  drop-append_exact, take_whole, take, drop, All, take-All, drop-All, arith,
}
use mini_security_crypto_web.Prelude.Xor.{
  xor_bytes, xor_bytes_twice, length-xor_bytes, All-xor_bytes,
}
use mini_security_crypto_web.Cipher.Aes.{IsBlock}
use mini_security_crypto_web.Cipher.Block.{
  CipherContext, block_size, block_size-pos, cipher_encrypt_block, cipher_decrypt_block,
  IsInvertible,
}
use mini_security_crypto_web.Cipher.Cbc.{
  CbcContext, cbc_init, cbc_encrypt_byte, cbc_encrypt_update, decrypt_blocks, cbc_decrypt_update,
}

abbrev context : CipherContext → List ℕ → List ℕ → CbcContext
context c iv buffer = record { cipher = c; iv = iv; buffer = buffer }

-- Bytes that fill the buffer make one block.
encrypt_block_of_bytes :
    (c : CipherContext) (iv block rest buffer : List ℕ)
    → 0 < length block
    → length buffer + length block ≡ block_size c
    → (cbc_encrypt_update (context c iv buffer) (block ++ rest)).1
      ≡ cipher_encrypt_block c (xor_bytes (buffer ++ block) iv)
        ++ (cbc_encrypt_update
            (context c (cipher_encrypt_block c (xor_bytes (buffer ++ block) iv)) [])
            rest).1
unfolding cbc_encrypt_update cbc_encrypt_byte
encrypt_block_of_bytes c iv [] rest buffer p h = absurd (omega arith)
encrypt_block_of_bytes c iv (b ∷ []) rest buffer p h =
    let full : (length (buffer ++ b ∷ []) == block_size c) ≡ true =
      ground (arith, length-append buffer (b ∷ [])) in
    rw full refl
encrypt_block_of_bytes c iv (b ∷ b' ∷ block) rest buffer p h =
    let open_ : (length (buffer ++ b ∷ []) == block_size c) ≡ false =
      ground (arith, length-append buffer (b ∷ [])) in
    rw open_ (
      rw (← append_assoc buffer (b ∷ []) (b' ∷ block)) (
        encrypt_block_of_bytes c iv (b' ∷ block) rest (buffer ++ b ∷ []) (omega arith)
          (omega (arith, length-append buffer (b ∷ [])))))

xor_bytes-IsBlock :
    {n : ℕ} (a b : List ℕ) → IsBlock n a → All (λ x. x < 256) b → IsBlock n (xor_bytes a b)
xor_bytes-IsBlock a b h k = (length-xor_bytes a b ∙ h.0, All-xor_bytes 8 a b h.1 k)

-- One block decrypted, where the bytes begin with a whole one.
decrypt_one :
    (c : CipherContext) (fuel : ℕ) (iv dead block rest : List ℕ)
    → length block ≡ block_size c
    → (decrypt_blocks (suc fuel) (context c iv dead) (block ++ rest)).1
      ≡ xor_bytes (cipher_decrypt_block c block) iv
        ++ (decrypt_blocks fuel (context c block dead) rest).1
unfolding decrypt_blocks
decrypt_one c fuel iv dead block rest h =
    let enough : ltb (length (block ++ rest)) (block_size c) ≡ false =
      ground (arith, length-append block rest) in
    rw
      (
        enough,
        take-append_exact (block_size c) block rest h,
        drop-append_exact (block_size c) block rest h,
      )
      refl

decrypt_nothing :
    (c : CipherContext) (fuel : ℕ) (iv dead : List ℕ)
    → (decrypt_blocks fuel (context c iv dead) []).1 ≡ []
unfolding decrypt_blocks
decrypt_nothing c zero iv dead = refl
decrypt_nothing c (suc fuel) iv dead =
    let empty : ltb 0 (block_size c) ≡ true = ground (arith, block_size-pos c) in rw empty refl

-- k blocks encrypted are k blocks, and decrypt to what they were.
module _ (c : CipherContext) (inverse : IsInvertible c) where
  blocks_round_trip :
      (k fuel : ℕ) (iv dead plain : List ℕ)
      → k ≤ fuel
      → IsBlock (block_size c) iv
      → IsBlock (k * block_size c) plain
      → ((decrypt_blocks fuel (context c iv dead) (cbc_encrypt_update (context c iv []) plain).1).1
          ≡ plain)
        × (length (cbc_encrypt_update (context c iv []) plain).1 ≡ k * block_size c)
  unfolding cbc_encrypt_update
  blocks_round_trip zero fuel iv dead [] f v h = (decrypt_nothing c fuel iv dead, omega arith)
  blocks_round_trip zero fuel iv dead (b ∷ plain) f v h = absurd (omega (arith, h.0))
  blocks_round_trip (suc k) zero iv dead plain f v h = absurd (omega arith)
  blocks_round_trip (suc k) (suc fuel) iv dead plain f v h =
      let bs = block_size c in
      let size : length plain ≡ k * block_size c + block_size c = h.0 ∙ suc-mul k (block_size c) in
      let first = take bs plain in
      let rest = drop bs plain in
      let first_IsBlock : IsBlock bs (take bs plain) =
        (omega (arith, length-take bs plain, size), take-All (λ b. b < 256) bs plain h.1) in
      let rest_IsBlock : IsBlock (k * bs) (drop bs plain) =
        (omega (arith, length-drop bs plain, size), drop-All (λ b. b < 256) bs plain h.1) in
      let mixed = xor_bytes-IsBlock first iv first_IsBlock v.1 in
      let out = cipher_encrypt_block c (xor_bytes first iv) in
      let out_IsBlock : IsBlock bs out = inverse.keeps (xor_bytes first iv) mixed in
      let ih = blocks_round_trip k fuel out dead rest (omega arith) out_IsBlock rest_IsBlock in
      let bytes : (cbc_encrypt_update (context c iv []) plain).1
          ≡ out ++ (cbc_encrypt_update (context c out []) rest).1 =
        ap (λ l. (cbc_encrypt_update (context c iv []) l).1) (sym (take-drop bs plain))
        ∙ encrypt_block_of_bytes c iv first rest []
            (omega (arith, first_IsBlock.0, block_size-pos c)) (omega (arith, first_IsBlock.0)) in
      (
        ap (λ l. (decrypt_blocks (suc fuel) (context c iv dead) l).1) bytes
            ∙ decrypt_one c fuel iv dead out (cbc_encrypt_update (context c out []) rest).1
                out_IsBlock.0
            ∙ rw (inverse.undone (xor_bytes first iv) mixed, xor_bytes_twice first iv, ih.0)
                (take-drop bs plain),
        ap length bytes
            ∙ omega (
              arith,
              length-append out (cbc_encrypt_update (context c out []) rest).1,
              ih.1,
              out_IsBlock.0,
              suc-mul k (block_size c),
            ),
      )

  -- For an invertible cipher and an initial vector of one block: encrypting k whole blocks of
  -- bytes writes as many bytes, and decrypting these from the same vector writes the plaintext.
  pub cbc_decrypt_update-cbc_encrypt_update :
      (k : ℕ) (iv plain : List ℕ)
      → IsBlock (block_size c) iv
      → IsBlock (k * block_size c) plain
      → ((cbc_decrypt_update (cbc_init c iv) (cbc_encrypt_update (cbc_init c iv) plain).1).1
          ≡ plain)
        × (length (cbc_encrypt_update (cbc_init c iv) plain).1 ≡ k * block_size c)
  unfolding cbc_decrypt_update cbc_init
  cbc_decrypt_update-cbc_encrypt_update k iv plain v h =
      let whole : take (block_size c) iv ≡ iv = take_whole (block_size c) iv v.0 in
      let size = (blocks_round_trip k k iv iv plain (omega arith) v h).1 in
      let few : k * 1 ≤ k * block_size c = mul-le-mul_left k (block_size-pos c) in
      rw whole (
        (blocks_round_trip k (length (cbc_encrypt_update (context c iv []) plain).1) iv [] plain
            (omega (arith, size, few)) v h).0,
        size,
      )

-- Encrypting in two updates writes what one update of all the bytes writes, and leaves the same
-- context.
pub cbc_encrypt_update-append :
    (cbc : CbcContext) (a b : List ℕ)
    → let (cbc1, out1) = cbc_encrypt_update cbc a in
      let (cbc2, out2) = cbc_encrypt_update cbc1 b in
      cbc_encrypt_update cbc (a ++ b) ≡ (cbc2, out1 ++ out2)
unfolding cbc_encrypt_update
cbc_encrypt_update-append cbc [] b = refl
cbc_encrypt_update-append cbc (x ∷ a) b =
    let ih = cbc_encrypt_update-append (cbc_encrypt_byte cbc x).0 a b in rw (ih, append_assoc) refl
