-- ===== src/Cipher/Des/Feistel.antt =====
-- The rounds of DES and des_feistel.
use Prim.Native.Nat.{bit_xor}
use mathlib.Core.List.{reverse, reverse-cons}
use mini_security_crypto_web.Prelude.{
  ℕ, suc, ◌-◌, ◌*◌, ◌/◌, ◌%◌, ◌^◌, ◌≤◌, ◌<◌, ◌≡◌, refl, ap, ◌∙◌, List, [], ◌∷◌, ◌++◌, length,
  get_or-All, All, arith,
}
use mini_security_crypto_web.Prelude.Xor.{bit_xor_twice, bit_xor-lt, bit_xor-zero}
use mini_security_crypto_web.Prelude.Bits.{bit_or-lt}
use mini_security_crypto_web.Cipher.Des.{
  des_feistel, sbox_value, sbox_loop, des_permute, feistel_rounds,
}
use mini_security_crypto_web.Cipher.Des.Tables.{des_e, des_p, des_sbox}
use mini_security_crypto_web.Cipher.Des.Bits.{des_permute_small}

des_feistel-lt : (r key : ℕ) → des_feistel r key < 2 ^ 32
unfolding des_feistel
des_feistel-lt r key = omega arith

rounds-append :
    (ks ks' : List ℕ) (halves : ℕ × ℕ)
    → feistel_rounds (ks ++ ks') halves ≡ feistel_rounds ks' (feistel_rounds ks halves)
unfolding feistel_rounds
rounds-append [] ks' halves = refl
rounds-append (k ∷ ks) ks' halves = rounds-append ks ks' _

abbrev pub swapped : ℕ × ℕ → ℕ × ℕ
swapped (l, r) = (r, l)

-- The rounds under the keys in reverse, on the halves swapped, give the first halves swapped.
pub rounds_undone :
    (ks : List ℕ) (halves : ℕ × ℕ)
    → feistel_rounds (reverse ks) (swapped (feistel_rounds ks halves)) ≡ swapped halves
unfolding feistel_rounds
rounds_undone [] halves = refl
rounds_undone (k ∷ ks) (l, r) =
    let f = des_feistel r k in
    let halves = feistel_rounds ks (r, bit_xor l f) in
    ap (λ list. feistel_rounds list (swapped halves)) (reverse-cons k ks)
    ∙ rounds-append (reverse ks) (k ∷ []) (swapped halves)
    ∙ ap (feistel_rounds (k ∷ [])) (rounds_undone ks (r, bit_xor l f))
    ∙ rw (bit_xor_twice l f) refl

abbrev pub HalvesFit : ℕ × ℕ → Type 0
HalvesFit (l, r) = (l < 2 ^ 32) × (r < 2 ^ 32)

pub rounds_fit :
    (ks : List ℕ) (halves : ℕ × ℕ) → HalvesFit halves → HalvesFit (feistel_rounds ks halves)
unfolding feistel_rounds
rounds_fit [] halves h = h
rounds_fit (k ∷ ks) (l, r) h =
    rounds_fit ks _ (h.1, bit_xor-lt 32 l (des_feistel r k) h.0 (des_feistel-lt r k))

abbrev BoxFits : List (List ℕ) → Type 0
BoxFits box = All (λ row. All (λ v. v < 16) row) box

sbox_value-lt : (box : List (List ℕ)) (chunk : ℕ) → BoxFits box → sbox_value box chunk < 16
unfolding sbox_value
sbox_value-lt box chunk h =
    get_or-All (λ v. v < 16) _ _ 0 (omega arith)
      (get_or-All (λ row. All (λ v. v < 16) row) box _ [] tt h)

sbox_loop-lt :
    (e i : ℕ) (boxes : List (List (List ℕ))) (out : ℕ)
    → All BoxFits boxes
    → out < 2 ^ 32
    → sbox_loop e i boxes out < 2 ^ 32
unfolding sbox_loop
sbox_loop-lt e i [] out fits h = h
sbox_loop-lt e i (box ∷ boxes) out fits h =
    let v = sbox_value-lt box (e / 2 ^ (42 - i * 6) % 64) fits.0 in
    sbox_loop-lt e (suc i) boxes _ fits.1 (bit_or-lt 32 _ _ (omega arith) (omega arith))

boxes_fit : All BoxFits des_sbox
unfolding des_sbox
boxes_fit = omega arith

places_low : (length des_p ≤ 64) × All (λ t. t ≤ 32) des_p
unfolding des_p
places_low = omega arith

-- The round function does not depend on the half or on the key: it is zero.
pub des_feistel-zero : (r key : ℕ) → des_feistel r key ≡ 0
unfolding des_feistel
des_feistel-zero r key =
    let out = sbox_loop (bit_xor (des_permute r des_e) key) 0 des_sbox 0 in
    rw
      (des_permute_small out des_p places_low.0 places_low.1
        (sbox_loop-lt _ 0 des_sbox 0 boxes_fit (omega arith)))
      refl

-- So a round swaps the halves, whatever its key.
pub rounds_swap :
    (k k' : ℕ) (ks : List ℕ) (halves : ℕ × ℕ)
    → feistel_rounds (k ∷ k' ∷ ks) halves ≡ feistel_rounds ks halves
unfolding feistel_rounds
rounds_swap k k' ks (l, r) =
    rw (des_feistel-zero r k, bit_xor-zero l, des_feistel-zero l k', bit_xor-zero r) refl
