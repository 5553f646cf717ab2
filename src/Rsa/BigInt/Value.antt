-- ===== src/Rsa/BigInt/Value.antt =====
-- The number that the words of a BigInt spell.
use native.Mathlib.Nat.{pow-suc, pow-zero}
use mini_security_crypto_web.Prelude.{
  ℕ, ◌+◌, ◌*◌, ◌^◌, ◌<◌, ◌≡◌, refl, true, ◌==◌, ◌&&◌, Bool-cases, inl, inr, List, [], ◌∷◌, ◌++◌,
  length, All, u32_mod, arith,
}
use mini_security_crypto_web.Rsa.BigInt.{is_empty, strip, normalise, bigint_from_uint64}

-- Left shut in proofs, where the tactics need only its equations.
unfoldable pub value : List ℕ → ℕ
value [] = 0
value (w ∷ words) = w + u32_mod * value words

abbrev pub IsWord : ℕ → Type 0
IsWord w = w < u32_mod

pub value-cons : (w : ℕ) (words : List ℕ) → value (w ∷ words) ≡ w + u32_mod * value words
unfolding value
value-cons w words = refl

pub value-nil : value [] ≡ 0
unfolding value
value-nil = refl

value_empty : (words : List ℕ) → is_empty words ≡ true → value words ≡ 0
unfolding value is_empty
value_empty [] h = refl
value_empty (w ∷ words) h = cc

pub value-strip : (words : List ℕ) → value (strip words) ≡ value words
unfolding strip value
value-strip [] = refl
value-strip (w ∷ words) = elim (Bool-cases (is_empty (strip words) && w == 0)) [
  | inl e ↦
      let nothing = value_empty (strip words) (ground arith) in
      rw e (omega (arith, value-strip words, nothing, zero_word e))
  | inr e ↦ rw (e, value-strip words) refl
]
  where
    zero_word : (is_empty (strip words) && w == 0) ≡ true → w ≡ 0
    zero_word e = ground arith

pub value-normalise : (words : List ℕ) → value (normalise words) ≡ value words
unfolding normalise value
value-normalise [] = refl
value-normalise (w ∷ words) = rw (value-strip words) refl

pub value-lt : (words : List ℕ) → All IsWord words → value words < u32_mod ^ length words
unfolding value
value-lt [] h = omega arith
value-lt (w ∷ words) h =
    rw (pow-suc u32_mod (length words)) (omega (arith, value-lt words h.1, h.0))

pub value-append : (xs ys : List ℕ) → value (xs ++ ys) ≡ value xs + u32_mod ^ length xs * value ys
unfolding value
value-append [] ys = omega (arith, pow-zero u32_mod)
value-append (x ∷ xs) ys = rw (value-append xs ys, pow-suc u32_mod (length xs)) (grind arith)

-- A 64-bit number's words spell it.
pub value-bigint_from_uint64 : (val : ℕ) → val < 2 ^ 64 → value (bigint_from_uint64 val) ≡ val
unfolding value bigint_from_uint64
value-bigint_from_uint64 val h = ground arith
