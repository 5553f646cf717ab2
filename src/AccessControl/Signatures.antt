-- ===== src/AccessControl/Signatures.antt =====
-- `ac_eip712_init`, `ac_verify_eip712` and `ac_verify_eip2612_permit` of
-- mini-smart-contract-sec/src/access_control.c: the format checks that stand for the recovery of a
-- signer. The code itself compares nothing with the digest or the signer.
use mini_security_crypto_web.Prelude.{
  ℕ, ◌/◌, ◌≤◌, ◌<◌, ◌≡◌, ◌≢◌, ◌↔◌, ◌⊎◌, refl, Bool, true, false, ◌&&◌, ◌||◌, not, List, [], ◌∷◌,
  arith, ltb, leb, ◌==◌, if◌then◌else◌, All, length, take, get_or, replicate,
}
use mini_security_crypto_web.Prelude.ByteString.{
  IsByte, bytes_eq, bytes_eq_iff, big_endian, bytes_above, bytes_above-eq-ltb, is_zero_bytes,
  is_zero_bytes_iff,
}
use mini_security_crypto_web.AccessControl.{AcResult, ac_ok, ac_invalid_sig, ac_expired}

-- `ac_signature_t`
pub record Signature : Type 0 where
  pub r : List ℕ
  pub s : List ℕ
  pub v : ℕ

-- `ac_eip712_domain_t`; the two texts are given up to their final 0.
pub record Domain : Type 0 where
  pub name : List ℕ
  pub version : List ℕ
  pub chain_id : ℕ
  pub verifying_contract : List ℕ
  pub salt : List ℕ

unfoldable pub eip712_init : List ℕ → List ℕ → ℕ → List ℕ → Domain
eip712_init name version chain_id verifying_contract = record {
  name = take 63 name;
  version = take 15 version;
  chain_id = chain_id;
  verifying_contract = verifying_contract;
  salt = replicate 32 0;
}

abbrev is_empty : List ℕ → Bool
is_empty [] = true
is_empty (c ∷ cs) = false

-- Null pointers aside, the function reads nothing else of its arguments.
unfoldable pub verify_eip712 : Domain → Signature → AcResult
verify_eip712 domain sig =
    if is_empty domain.name
    then ac_invalid_sig
    else if domain.chain_id == 0
    then ac_invalid_sig
    else if not (sig.v == 27) && not (sig.v == 28)
    then ac_invalid_sig
    else if is_zero_bytes sig.r || is_zero_bytes sig.s
    then ac_invalid_sig
    else if leb 0x80 (get_or sig.s 0 0)
    then ac_invalid_sig
    else ac_ok

abbrev pub half_n : List ℕ
half_n =
    0x7F ∷ 0xFF ∷ 0xFF ∷ 0xFF ∷ 0xFF ∷ 0xFF ∷ 0xFF ∷ 0xFF ∷ 0xFF ∷ 0xFF ∷ 0xFF ∷ 0xFF ∷ 0xFF ∷ 0xFF
    ∷ 0xFF ∷ 0xFF ∷ 0x5D ∷ 0x57 ∷ 0x6E ∷ 0x73 ∷ 0x57 ∷ 0xA4 ∷ 0x50 ∷ 0x1D ∷ 0xDF ∷ 0xE9 ∷ 0x2F
    ∷ 0x46 ∷ 0x68 ∷ 0x1B ∷ 0x20 ∷ 0xA0 ∷ []

abbrev pub current_time : ℕ
current_time = 1700000000

unfoldable pub verify_permit : List ℕ → List ℕ → ℕ → ℕ → Signature → AcResult
verify_permit owner spender value deadline sig =
    if bytes_eq owner spender
    then ac_invalid_sig
    else if not (sig.v == 27) && not (sig.v == 28)
    then ac_invalid_sig
    else if is_zero_bytes sig.r || is_zero_bytes sig.s
    then ac_invalid_sig
    else if leb 0x80 (get_or sig.s 0 0)
    then ac_invalid_sig
    else if bytes_above sig.s half_n
    then ac_invalid_sig
    else if ltb deadline current_time
    then ac_expired
    else if value == 0
    then ac_invalid_sig
    else ac_ok

-- Half of the order of secp256k1, rounded down.
abbrev pub half_order : ℕ
half_order = 0xFFFFFFFFFFFFFFFFFFFFFFFFFFFFFFFEBAAEDCE6AF48A03BBFD25E8CD0364141 / 2

-- The conditions under which a permit passes.
pub record Permits (owner spender : List ℕ) (value deadline : ℕ) (sig : Signature) : Type 0 where
  pub apart : owner ≢ spender
  pub recovery : (sig.v ≡ 27) ⊎ (sig.v ≡ 28)
  pub r_set : big_endian sig.r ≢ 0
  pub s_set : big_endian sig.s ≢ 0
  pub low : big_endian sig.s ≤ half_order
  pub current : current_time ≤ deadline
  pub value_set : value ≢ 0

big_endian-half_n : big_endian half_n ≡ half_order
big_endian-half_n = refl

high_byte : (s : List ℕ) → length s ≡ 32 → 0x80 ≤ get_or s 0 0 → bytes_above s half_n ≡ true
unfolding bytes_above
high_byte [] e h = absurd (omega arith)
high_byte (b ∷ s) e h = ground arith

above_half :
    (s : List ℕ)
    → length s ≡ 32
    → All IsByte s
    → bytes_above s half_n ≡ ltb half_order (big_endian s)
above_half s e h = rw (← big_endian-half_n) (bytes_above-eq-ltb s half_n e h (omega arith))

-- For a signature whose s is 32 bytes, `ac_verify_eip2612_permit` returns AC_OK exactly if owner and
-- spender differ, v is 27 or 28, r and s are not zero, s is at most half of the order of the curve,
-- the deadline has not passed and the value is not zero.
pub verify_permit_iff :
    (owner spender : List ℕ) (value deadline : ℕ) (sig : Signature)
    → length sig.s ≡ 32
    → All IsByte sig.s
    → (verify_permit owner spender value deadline sig ≡ ac_ok)
      ↔ Permits owner spender value deadline sig
unfolding verify_permit
verify_permit_iff owner spender value deadline sig long bytes = (
  λ h. ground (
    arith,
    bytes_eq_iff owner spender,
    is_zero_bytes_iff sig.r,
    is_zero_bytes_iff sig.s,
    above_half sig.s long bytes,
  ),
  λ h. ground (
    arith,
    bytes_eq_iff owner spender,
    is_zero_bytes_iff sig.r,
    is_zero_bytes_iff sig.s,
    above_half sig.s long bytes,
    high_byte sig.s long,
  ),
)

-- A signature part with the first byte below 0x80 passes `ac_verify_eip712` wherever it lies, also
-- above half of the order: with a named domain on a chain other than 0, v of 27 or 28 and r not
-- zero, the result is AC_OK although s is above the limit that the comment in the code states.
pub eip712_takes_high_s :
    (domain : Domain) (sig : Signature)
    → domain.name ≢ []
    → domain.chain_id ≢ 0
    → (sig.v ≡ 27) ⊎ (sig.v ≡ 28)
    → big_endian sig.r ≢ 0
    → get_or sig.s 0 0 < 0x80
    → half_order < big_endian sig.s
    → verify_eip712 domain sig ≡ ac_ok
unfolding verify_eip712
eip712_takes_high_s domain sig name chain v r low high =
    ground (arith, is_zero_bytes_iff sig.r, is_zero_bytes_iff sig.s)
