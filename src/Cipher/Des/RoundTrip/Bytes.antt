-- ===== src/Cipher/Des/RoundTrip/Bytes.antt =====
-- The loops of des_encrypt_block that read a block of 8 bytes as a number and write it back.
use native.Mathlib.Nat.{
  pow-suc, pow-zero, pow-le-pow_right, mod-eq_of_lt, zero-mul, mul-add-div_right, div-eq_of_lt,
}
use mini_security_crypto_web.Prelude.{
  ℕ, zero, suc, ◌+◌, ◌*◌, ◌/◌, ◌%◌, ◌^◌, ◌≤◌, ◌<◌, ◌≡◌, refl, sym, ap, ◌∙◌, List, [], ◌∷◌, ◌++◌,
  length, length-append, All, append-All, u64_mod, arith,
}
use mini_security_crypto_web.Prelude.Bits.{bit_or-disjoint}
use mini_security_crypto_web.Prelude.ByteString.{big_endian, big_endian-lt}
use mini_security_crypto_web.Cipher.Aes.{IsBlock}
use mini_security_crypto_web.Cipher.Des.{load_block, store_block}

load_block_value :
    (bytes : List ℕ) (k block : ℕ)
    → block < 256 ^ k
    → k + length bytes ≤ 8
    → All (λ b. b < 256) bytes
    → load_block block bytes ≡ block * 256 ^ length bytes + big_endian bytes
unfolding load_block
load_block_value [] k block h s _ = omega (arith, pow-zero 256)
load_block_value (b ∷ bytes) k block h s all =
    let low : 256 ^ suc k ≤ 256 ^ 8 =
      pow-le-pow_right (omega arith) {i = suc k} {j = 8} (omega arith) in
    let fits : block * 256 % u64_mod ≡ block * 2 ^ 8 =
      mod-eq_of_lt (omega (arith, low, pow-suc 256 k)) in
    let ih =
      load_block_value bytes (suc k) (block * 2 ^ 8 + b) (omega (arith, pow-suc 256 k, all.0))
        (omega arith) all.1 in
    rw (fits, bit_or-disjoint 8 block b all.0, ih, pow-suc 256 (length bytes)) (grind arith)

load_block_eight : (bytes : List ℕ) → IsBlock 8 bytes → load_block 0 bytes ≡ big_endian bytes
load_block_eight bytes h =
    load_block_value bytes 0 0 (omega (arith, pow-zero 256)) (omega (arith, h.0)) h.1
    ∙ omega (arith, zero-mul (256 ^ length bytes))

pub store_block-IsBlock : (n block : ℕ) → IsBlock n (store_block n block)
unfolding store_block
store_block-IsBlock zero block = (refl, tt)
store_block-IsBlock (suc n) block =
    let ih = store_block-IsBlock n (block / 256) in
    (
      omega (arith, length-append (store_block n (block / 256)) (block % 256 ∷ []), ih.0),
      append-All (λ b. b < 256) _ _ ih.1 (omega arith, tt),
    )

big_endian-snoc :
    (bytes : List ℕ) (b : ℕ) → big_endian (bytes ++ b ∷ []) ≡ big_endian bytes * 256 + b
big_endian-snoc [] b = omega arith
big_endian-snoc (a ∷ bytes) b =
    let longer : length (bytes ++ b ∷ []) ≡ suc (length bytes) =
      omega (arith, length-append bytes (b ∷ [])) in
    rw (big_endian-snoc bytes b, longer, pow-suc 256 (length bytes)) (grind arith)

big_endian-store_block : (n block : ℕ) → block < 256 ^ n → big_endian (store_block n block) ≡ block
unfolding store_block
big_endian-store_block zero block h = omega (arith, pow-zero 256)
big_endian-store_block (suc n) block h =
    let ih = big_endian-store_block n (block / 256) (omega (arith, pow-suc 256 n)) in
    big_endian-snoc (store_block n (block / 256)) (block % 256) ∙ rw ih (omega arith)

big_endian-injective :
    (xs ys : List ℕ)
    → length xs ≡ length ys
    → All (λ b. b < 256) xs
    → All (λ b. b < 256) ys
    → big_endian xs ≡ big_endian ys
    → xs ≡ ys
big_endian-injective [] [] e hx hy v = refl
big_endian-injective [] (b ∷ ys) e hx hy v = absurd (omega arith)
big_endian-injective (a ∷ xs) [] e hx hy v = absurd (omega arith)
big_endian-injective (a ∷ xs) (b ∷ ys) e hx hy v =
    let p = 256 ^ length ys in
    let same : 256 ^ length xs ≡ 256 ^ length ys = ap (λ n. 256 ^ n) (omega arith) in
    let v' = rw same at v in
    let lx : big_endian xs < 256 ^ length ys = rw (← same) (big_endian-lt xs hx.1) in
    let top = top_equal a b p (big_endian xs) (big_endian ys) lx (big_endian-lt ys hy.1) v' in
    rw
      (
        top,
        big_endian-injective xs ys (omega arith) hx.1 hy.1
            (omega (arith, v', top, ap (λ t. t * p) top)),
      )
      refl
  where
    top_equal : (a b p x y : ℕ) → x < p → y < p → a * p + x ≡ b * p + y → a ≡ b
    top_equal a b p x y hx hy v =
        let left : (a * p + x) / p ≡ a =
          mul-add-div_right (omega arith) a x ∙ rw (div-eq_of_lt hx) (omega arith) in
        let right : (b * p + y) / p ≡ b =
          mul-add-div_right (omega arith) b y ∙ rw (div-eq_of_lt hy) (omega arith) in
        sym left ∙ ap (λ t. t / p) v ∙ right

pub load_block-lt : (bytes : List ℕ) → IsBlock 8 bytes → load_block 0 bytes < 2 ^ 64
load_block-lt bytes h =
    let low = big_endian-lt bytes h.1 in
    let eight : 256 ^ length bytes ≡ 2 ^ 64 = ap (λ n. 256 ^ n) h.0 in
    omega (arith, low, eight, load_block_eight bytes h)

pub load_block-store_block :
    (block : ℕ) → block < 2 ^ 64 → load_block 0 (store_block 8 block) ≡ block
load_block-store_block block h =
    load_block_eight (store_block 8 block) (store_block-IsBlock 8 block)
    ∙ big_endian-store_block 8 block h

pub store_block-load_block :
    (bytes : List ℕ) → IsBlock 8 bytes → store_block 8 (load_block 0 bytes) ≡ bytes
store_block-load_block bytes h =
    let made = store_block-IsBlock 8 (load_block 0 bytes) in
    big_endian-injective _ bytes (made.0 ∙ sym h.0) made.1 h.1 (
      big_endian-store_block 8 (load_block 0 bytes) (load_block-lt bytes h)
      ∙ load_block_eight bytes h)
