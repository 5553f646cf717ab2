-- ===== src/Cipher/Des/RoundTrip.antt =====
-- des_encrypt_block and des_decrypt_block.
mod Bytes
use Prim.Native.Nat.{bit_or}
use mathlib.Core.List.{reverse, reverse-cons}
use native.Mathlib.Nat.{mul-add-div_right, mul-add-mod_self_right, div-add-mod'}
use mini_security_crypto_web.Prelude.{
  ℕ, zero, suc, ◌+◌, ◌-◌, ◌*◌, ◌/◌, ◌%◌, ◌^◌, ◌<◌, ◌≡◌, refl, sym, ap, ◌∙◌, List, [], ◌∷◌, map,
  length, length-append, get_or, All, arith,
}
use mini_security_crypto_web.Prelude.Bits.{bit_or-disjoint}
use mini_security_crypto_web.Cipher.Aes.{IsBlock}
use mini_security_crypto_web.Cipher.Des.{
  bit_of, des_permute, load_block, store_block, feistel_rounds, crypt_block, des_encrypt_block,
  des_decrypt_block, rotate_half, key_rounds, des_key_schedule,
}
use mini_security_crypto_web.Cipher.Des.Tables.{des_ip, des_ip_inv, des_shifts}
use mini_security_crypto_web.Cipher.Des.Bits.{
  IsInverse, IsPlace, digits_down, des_permute_inverse, des_permute-lt,
}
use mini_security_crypto_web.Cipher.Des.Feistel.{
  HalvesFit, rounds_fit, rounds_undone, rounds_swap, swapped,
}
use mini_security_crypto_web.Cipher.Des.RoundTrip.Bytes.{
  load_block-lt, load_block-store_block, store_block-load_block, store_block-IsBlock,
}

tables_fit :
    (length des_ip ≡ 64) × (length des_ip_inv ≡ 64) × All IsPlace des_ip × All IsPlace des_ip_inv
unfolding des_ip des_ip_inv
tables_fit = omega arith

ip_then_inv : IsInverse des_ip des_ip_inv
unfolding des_ip des_ip_inv bit_of
ip_then_inv x = refl

inv_then_ip : IsInverse des_ip_inv des_ip
unfolding des_ip des_ip_inv bit_of
inv_then_ip x = refl

undo_inv : (x : ℕ) → x < 2 ^ 64 → des_permute (des_permute x des_ip_inv) des_ip ≡ x
undo_inv x h =
    des_permute_inverse des_ip_inv des_ip x tables_fit.1 tables_fit.0 tables_fit.2 inv_then_ip h

undo_ip : (x : ℕ) → x < 2 ^ 64 → des_permute (des_permute x des_ip) des_ip_inv ≡ x
undo_ip x h =
    des_permute_inverse des_ip des_ip_inv x tables_fit.0 tables_fit.1 tables_fit.3 ip_then_inv h

-- The halves as one number.
joined : ℕ × ℕ → ℕ
joined (l, r) = bit_or (r * 2 ^ 32) l

split : ℕ → ℕ × ℕ
split block = (block / 2 ^ 32, block % 2 ^ 32)

split-joined : (halves : ℕ × ℕ) → HalvesFit halves → split (joined halves) ≡ swapped halves
unfolding split joined
split-joined (l, r) h =
    let upper : (r * 2 ^ 32 + l) / 2 ^ 32 ≡ r = omega (arith, h.0) in
    let lower : (r * 2 ^ 32 + l) % 2 ^ 32 ≡ l = omega (arith, h.0) in
    rw (bit_or-disjoint 32 r l h.0, upper, lower) refl

joined-swapped-split : (block : ℕ) → joined (swapped (split block)) ≡ block
unfolding split joined
joined-swapped-split block =
    bit_or-disjoint 32 (block / 2 ^ 32) (block % 2 ^ 32) (omega arith) ∙ omega arith

joined-lt : (halves : ℕ × ℕ) → HalvesFit halves → joined halves < 2 ^ 64
unfolding joined
joined-lt (l, r) h = rw (bit_or-disjoint 32 r l h.0) (omega (arith, h.0, h.1))

split_fits : (block : ℕ) → block < 2 ^ 64 → HalvesFit (split block)
unfolding split
split_fits block h = omega arith

-- The permuted block, through the rounds.
through : List ℕ → ℕ → ℕ
through keys block = joined (feistel_rounds keys (split block))

through-lt : (keys : List ℕ) (block : ℕ) → block < 2 ^ 64 → through keys block < 2 ^ 64
unfolding through
through-lt keys block h = joined-lt _ (rounds_fit keys _ (split_fits block h))

through-through :
    (keys : List ℕ) (block : ℕ)
    → block < 2 ^ 64
    → through (reverse keys) (through keys block) ≡ block
unfolding through
through-through keys block h =
    let halves = feistel_rounds keys (split block) in
    ap (λ t. joined (feistel_rounds (reverse keys) t))
      (split-joined halves (rounds_fit keys _ (split_fits block h)))
    ∙ ap joined (rounds_undone keys (split block))
    ∙ joined-swapped-split block

crypt_block_lem :
    (keys bytes : List ℕ)
    → crypt_block keys bytes
      ≡ store_block 8
          (des_permute (through keys (des_permute (load_block 0 bytes) des_ip)) des_ip_inv)
unfolding crypt_block through joined split
crypt_block_lem keys bytes = refl

pub des_encrypt_block-IsBlock :
    (keys plain : List ℕ) → IsBlock 8 plain → IsBlock 8 (des_encrypt_block keys plain)
unfolding des_encrypt_block
des_encrypt_block-IsBlock keys plain h =
    let e = crypt_block_lem keys plain in rw e (store_block-IsBlock 8 _)

-- Under any round keys, decrypting the encryption of a block of 8 bytes returns the block.
pub des_decrypt_block-des_encrypt_block :
    (keys plain : List ℕ)
    → IsBlock 8 plain
    → des_decrypt_block keys (des_encrypt_block keys plain) ≡ plain
unfolding des_encrypt_block des_decrypt_block
des_decrypt_block-des_encrypt_block keys plain h =
    let block = des_permute (load_block 0 plain) des_ip in
    let fits : des_permute (load_block 0 plain) des_ip < 2 ^ 64 =
      des_permute-lt (load_block 0 plain) des_ip 64 (omega arith) tables_fit.0 in
    let turned = through-lt keys block fits in
    let out : des_permute (through keys block) des_ip_inv < 2 ^ 64 =
      des_permute-lt (through keys block) des_ip_inv 64 (omega arith) tables_fit.1 in
    crypt_block_lem (reverse keys) (crypt_block keys plain)
    ∙ rw
        (
          crypt_block_lem keys plain,
          load_block-store_block (des_permute (through keys block) des_ip_inv) out,
          undo_inv (through keys block) turned,
          through-through keys block fits,
          undo_ip (load_block 0 plain) (load_block-lt plain h),
        )
        (store_block-load_block plain h)

rounds_nothing :
    (n : ℕ) (keys : List ℕ) (halves : ℕ × ℕ)
    → length keys ≡ n + n
    → feistel_rounds keys halves ≡ halves
unfolding feistel_rounds
rounds_nothing zero [] halves e = refl
rounds_nothing (suc n) (k ∷ k' ∷ keys) halves e =
    rounds_swap k k' keys halves ∙ rounds_nothing n keys halves (omega arith)
rounds_nothing n keys halves e = absurd (omega arith)

length-reverse : (l : List ℕ) → length (reverse l) ≡ length l
length-reverse [] = refl
length-reverse (x ∷ l) =
    ap length (reverse-cons x l)
    ∙ omega (arith, length-append (reverse l) (x ∷ []), length-reverse l)

-- The halves of the permuted block, joined the other way round.
crypt_block_keyless :
    (keys block : List ℕ)
    → length keys ≡ 16
    → crypt_block keys block
      ≡ store_block 8
          (des_permute (joined (split (des_permute (load_block 0 block) des_ip))) des_ip_inv)
crypt_block_keyless keys block n =
    let halves = split (des_permute (load_block 0 block) des_ip) in
    crypt_block_lem keys block
    ∙ unfold through in
      ap (λ t. store_block 8 (des_permute (joined t) des_ip_inv))
        (rounds_nothing 8 keys halves (omega (arith, n)))

-- Sixteen round keys do not matter: encryption under any two schedules of sixteen is the same, and
-- so is decryption.
pub des_encrypt_block_keyless :
    (keys keys' block : List ℕ)
    → length keys ≡ 16
    → length keys' ≡ 16
    → (des_encrypt_block keys block ≡ des_encrypt_block keys' block)
      × (des_decrypt_block keys block ≡ des_encrypt_block keys' block)
unfolding des_encrypt_block des_decrypt_block
des_encrypt_block_keyless keys keys' block n m =
    let right = crypt_block_keyless keys' block m in
    (
      crypt_block_keyless keys block n ∙ sym right,
      crypt_block_keyless (reverse keys) block (length-reverse keys ∙ n) ∙ sym right,
    )

length-key_rounds : (shifts : List ℕ) (c d : ℕ) → length (key_rounds shifts c d) ≡ length shifts
unfolding key_rounds
length-key_rounds [] c d = refl
length-key_rounds (s ∷ shifts) c d =
    ap suc (length-key_rounds shifts (rotate_half c s) (rotate_half d s))

shifts_sixteen : length des_shifts ≡ 16
unfolding des_shifts
shifts_sixteen = refl

length-des_key_schedule : (key : List ℕ) → length (des_key_schedule key) ≡ 16
unfolding des_key_schedule
length-des_key_schedule key = length-key_rounds des_shifts _ _ ∙ shifts_sixteen

-- Under the schedules of any two keys every block has the same encryption, and decryption under one
-- of them is encryption under the other.
pub des_ignores_key :
    (key key' block : List ℕ)
    → (des_encrypt_block (des_key_schedule key) block
        ≡ des_encrypt_block (des_key_schedule key') block)
      × (des_decrypt_block (des_key_schedule key) block
          ≡ des_encrypt_block (des_key_schedule key') block)
des_ignores_key key key' block =
    des_encrypt_block_keyless (des_key_schedule key) (des_key_schedule key') block
      (length-des_key_schedule key) (length-des_key_schedule key')

-- Whatever it reads, 8 bytes come out.
pub length-des_encrypt_block : (keys block : List ℕ) → length (des_encrypt_block keys block) ≡ 8
unfolding des_encrypt_block
length-des_encrypt_block keys block =
    ap length (crypt_block_lem keys block) ∙ (store_block-IsBlock 8 _).0
