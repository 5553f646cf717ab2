-- ===== src/Cipher/Padding.antt =====
-- PKCS#7 padding of mini-crypto-basic/src/symmetric_cipher.c.
pub mod RoundTrip
use mini_security_crypto_web.Prelude.{
  ℕ, zero, suc, ◌+◌, ◌-◌, ◌%◌, ◌≡◌, Bool, true, ◌&&◌, ◌==◌, ltb, if◌then◌else◌, Option, none, some,
  List, [], ◌∷◌, ◌++◌, length, take, drop, replicate, get_or,
}

abbrev pub pkcs7_max_pad : ℕ
pkcs7_max_pad = 16

-- The padded bytes; their length is the result.
unfoldable pub pkcs7_pad : List ℕ → ℕ → List ℕ
pkcs7_pad input block_size =
    let pad_val = block_size - length input % block_size in
    input ++ replicate pad_val (pad_val % 256)

unfoldable pub all_are : ℕ → List ℕ → Bool
all_are v [] = true
all_are v (b ∷ bytes) = b == v && all_are v bytes

-- The length returned, and what is written to `data`, if anything is.
unfoldable pub pkcs7_unpad : List ℕ → ℕ × Option (List ℕ)
unfolding all_are
pkcs7_unpad padded =
    let n = length padded in
    let pad_val = get_or padded (n - 1) 0 in
    if n == 0
    then (0, none)
    else if pad_val == 0
    then (n, none)
    else if ltb pkcs7_max_pad pad_val
    then (n, none)
    else if ltb n pad_val
    then (n, none)
    else if all_are pad_val (drop (n - pad_val) padded)
    then (n - pad_val, some (take (n - pad_val) padded))
    else (n, none)
