-- ===== src/Rsa/BigInt/Order.antt =====
-- bigint_compare over the numbers that the words spell.
use native.Mathlib.Nat.{pow-suc, pow-le-pow_right}
use mathlib.Core.List.{nil≢cons}
use mini_security_crypto_web.Prelude.{
  ℕ, suc, ◌^◌, ◌≤◌, ◌<◌, ◌≡◌, refl, ltb, ◌==◌, ◌&&◌, Bool-cases, inl, inr, if◌then◌else◌, List, [],
  ◌∷◌, length, All, u32_mod, arith,
}
use mini_security_crypto_web.Rsa.BigInt.{
  Comparison, above, below, same, word_compare, words_compare, bigint_compare, normalise, strip,
  is_empty,
}
use mini_security_crypto_web.Rsa.BigInt.Value.{value, value-cons, value-lt, IsWord}

-- The comparison of two numbers.
abbrev pub compared : ℕ → ℕ → Comparison
compared m n = if ltb n m then above else if ltb m n then below else same

words_compare-value :
    (a b : List ℕ)
    → All IsWord a
    → All IsWord b
    → length a ≡ length b
    → words_compare a b ≡ compared (value a) (value b)
unfolding words_compare word_compare value
words_compare-value [] [] ha hb e = refl
words_compare-value [] (b ∷ ys) ha hb e = absurd (omega arith)
words_compare-value (a ∷ xs) [] ha hb e = absurd (omega arith)
words_compare-value (a ∷ xs) (b ∷ ys) ha hb e =
    let ih = words_compare-value xs ys ha.1 hb.1 (omega arith) in ground (arith, ih)

-- No word can be taken off.
abbrev pub IsNormal : List ℕ → Type 0
IsNormal words = (0 < length words) × (normalise words ≡ words)

strip_tail : (w : ℕ) (words : List ℕ) → strip (w ∷ words) ≡ w ∷ words → strip words ≡ words
unfolding strip
strip_tail w words e = elim (Bool-cases (is_empty (strip words) && w == 0)) [
  | inl t ↦ let nothing = rw t at e in absurd (nil≢cons nothing)
  | inr t ↦ let kept = rw t at e in cc
]

strip_single : (w : ℕ) → strip (w ∷ []) ≡ w ∷ [] → 1 ≤ w
unfolding strip is_empty
strip_single w e = ground arith

top_word :
    (w : ℕ) (words : List ℕ)
    → strip (w ∷ words) ≡ w ∷ words
    → u32_mod ^ length words ≤ value (w ∷ words)
unfolding value
top_word w [] e = omega (arith, strip_single w e)
top_word w (w' ∷ words) e =
    let ih = top_word w' words (strip_tail w (w' ∷ words) e) in
    rw (pow-suc u32_mod (length words)) (omega (arith, ih))

cons_injective : (w : ℕ) (xs ys : List ℕ) → w ∷ xs ≡ w ∷ ys → xs ≡ ys
cons_injective w xs ys e = cc

normal_above :
    (w w' : ℕ) (words : List ℕ)
    → normalise (w ∷ w' ∷ words) ≡ w ∷ w' ∷ words
    → u32_mod ^ suc (length words) ≤ value (w ∷ w' ∷ words)
unfolding normalise
normal_above w w' words e =
    let upper = top_word w' words (cons_injective w (strip (w' ∷ words)) (w' ∷ words) e) in
    rw (pow-suc u32_mod (length words)) (omega (arith, value-cons w (w' ∷ words), upper))

longer_above :
    (a b : List ℕ)
    → All IsWord b
    → IsNormal a
    → 0 < length b
    → length b < length a
    → value b < value a
longer_above (w ∷ []) b hb n pos l = absurd (omega arith)
longer_above (w ∷ w' ∷ words) b hb n pos l =
    let more : u32_mod ^ length b ≤ u32_mod ^ suc (length words) =
      pow-le-pow_right (omega arith) {i = length b} {j = suc (length words)} (omega arith) in
    omega (arith, value-lt b hb, more, normal_above w w' words n.1)
longer_above [] b hb n pos l = absurd (omega arith)

-- Of normalised words of 32 bits, bigint_compare says how their numbers compare.
pub bigint_compare-compared :
    (a b : List ℕ)
    → All IsWord a
    → All IsWord b
    → IsNormal a
    → IsNormal b
    → bigint_compare a b ≡ compared (value a) (value b)
unfolding bigint_compare
bigint_compare-compared a b ha hb na nb =
    ground (
      arith,
      longer_above a b hb na nb.0,
      longer_above b a ha nb na.0,
      words_compare-value a b ha hb,
    )
