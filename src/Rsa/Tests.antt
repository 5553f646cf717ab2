-- ===== src/Rsa/Tests.antt =====
-- Runs of mini-crypto-basic/src/asymmetric_cipher.c at concrete inputs, and the theorems at inputs
-- that meet their hypotheses.
use mini_security_crypto_web.Prelude.{
  ℕ, ◌+◌, ◌-◌, ◌*◌, ◌^◌, ◌≤◌, ◌<◌, ◌≡◌, refl, ◌==◌, if◌then◌else◌, none, some, List, [], ◌∷◌,
  length, replicate, u32_mod, arith,
}
use mini_security_crypto_web.Rsa.Encoding.{
  pkcs1_v15_encode, pkcs1_v15_decode, pkcs1_v15_decode-pkcs1_v15_encode,
}
use mini_security_crypto_web.Rsa.BigInt.{
  bigint_add, bigint_sub, bigint_sub_in_place, bigint_mul, bigint_compare, normalise, strip,
  is_empty, sub_words,
}
use mini_security_crypto_web.Rsa.BigInt.Value.{value}
use mini_security_crypto_web.Rsa.BigInt.Sum.{
  value-bigint_add, value-bigint_sub, value-bigint_sub_in_place,
}
use mini_security_crypto_web.Rsa.BigInt.Order.{compared, IsNormal, bigint_compare-compared}
use mini_security_crypto_web.Rsa.BigInt.Product.{value-bigint_mul}

abbrev larger : List ℕ
larger = 7 ∷ 0xffffffff ∷ 1 ∷ []

abbrev smaller : List ℕ
smaller = 9 ∷ 5 ∷ []

below_limit : value larger + value smaller < u32_mod ^ 64
unfolding value
below_limit = omega arith

no_larger : value smaller ≤ value larger
unfolding value
no_larger = omega arith

not_zero : 0 < value smaller
unfolding value
not_zero = omega arith

larger-IsNormal : IsNormal larger
unfolding normalise strip is_empty
larger-IsNormal = (omega arith, refl)

smaller-IsNormal : IsNormal smaller
unfolding normalise strip is_empty
smaller-IsNormal = (omega arith, refl)

value-bigint_add_example : value (bigint_add larger smaller) ≡ value larger + value smaller
value-bigint_add_example =
    value-bigint_add larger smaller (omega arith) (omega arith) (omega arith) (omega arith)
      below_limit

value-bigint_sub_example : value (bigint_sub larger smaller) ≡ value larger - value smaller
value-bigint_sub_example =
    value-bigint_sub larger smaller (omega arith) (omega arith) (omega arith) no_larger

value-bigint_sub_in_place_example :
    value (bigint_sub_in_place larger smaller) + value smaller ≡ u32_mod ^ length larger
value-bigint_sub_in_place_example =
    value-bigint_sub_in_place larger smaller (omega arith) (omega arith) not_zero

-- 10 - 3, as divmod computes it in place.
ten_less_three : bigint_sub_in_place (10 ∷ []) (3 ∷ []) ≡ 0xfffffffd ∷ []
unfolding bigint_sub_in_place bigint_sub sub_words normalise strip
ten_less_three = refl

bigint_compare-compared_example :
    bigint_compare larger smaller ≡ compared (value larger) (value smaller)
bigint_compare-compared_example =
    bigint_compare-compared larger smaller (omega arith) (omega arith) larger-IsNormal
      smaller-IsNormal

value-bigint_mul_example : value (bigint_mul larger smaller) ≡ value larger * value smaller
value-bigint_mul_example = value-bigint_mul larger smaller (omega arith) (omega arith) (omega arith)

abbrev eight_threes : List ℕ
eight_threes = replicate 8 3

abbrev two_letters : List ℕ
two_letters = 65 ∷ 66 ∷ []

abbrev encoded_message : List ℕ
encoded_message = 0 ∷ 2 ∷ 3 ∷ 3 ∷ 3 ∷ 3 ∷ 3 ∷ 3 ∷ 3 ∷ 3 ∷ 0 ∷ 65 ∷ 66 ∷ []

encoded_by : pkcs1_v15_encode eight_threes two_letters 13 ≡ some encoded_message
unfolding pkcs1_v15_encode
encoded_by = refl

pkcs1_v15_decode-pkcs1_v15_encode_example :
    (length encoded_message ≡ 13)
    × (pkcs1_v15_decode encoded_message
        ≡ (if length two_letters == 0 then none else some two_letters))
pkcs1_v15_decode-pkcs1_v15_encode_example =
    pkcs1_v15_decode-pkcs1_v15_encode eight_threes two_letters 13 (omega arith) (omega arith)
      encoded_message encoded_by
