-- ===== src/Rsa/BigInt.antt =====
-- The big integers of mini-crypto-basic/src/asymmetric_cipher.c: the first `num_words` words of a
-- BigInt, the lowest first. The words above them are zero in all that the code makes.
pub mod Value
pub mod Order
pub mod Sum
pub mod Product
use mini_security_crypto_web.Prelude.{
  ℕ, zero, suc, ◌+◌, ◌-◌, ◌*◌, ◌/◌, ◌%◌, ◌^◌, Bool, true, false, ◌==◌, ltb, ◌&&◌, if◌then◌else◌,
  List, [], ◌∷◌, ◌++◌, length, take, replicate, u32_mod,
}

abbrev pub bi_max_words : ℕ
bi_max_words = 64

unfoldable pub is_empty : List ℕ → Bool
is_empty [] = true
is_empty (w ∷ words) = false

-- The words up to the highest that is not zero.
unfoldable pub strip : List ℕ → List ℕ
unfolding is_empty
strip [] = []
strip (w ∷ words) = let rest = strip words in if is_empty rest && w == 0 then [] else w ∷ rest

-- `while (num_words > 1 && words[num_words - 1] == 0) num_words--;`
unfoldable pub normalise : List ℕ → List ℕ
unfolding strip
normalise [] = []
normalise (w ∷ words) = w ∷ strip words

unfoldable pub bigint_from_uint64 : ℕ → List ℕ
bigint_from_uint64 val =
    if ltb 0xffffffff val then val % u32_mod ∷ val / u32_mod ∷ [] else val % u32_mod ∷ []

unfoldable pub bigint_is_zero : List ℕ → Bool
bigint_is_zero (w ∷ []) = w == 0
bigint_is_zero words = false

-- 1, -1 and 0
pub data Comparison : Type 0 where
  above : Comparison
  below : Comparison
  same : Comparison

unfoldable pub word_compare : ℕ → ℕ → Comparison
word_compare a b = if ltb b a then above else if ltb a b then below else same

-- From the highest word down: a lower word decides only where the higher ones are the same.
unfoldable pub words_compare : List ℕ → List ℕ → Comparison
unfolding word_compare
words_compare (a ∷ xs) (b ∷ ys) = elim (words_compare xs ys) [
  | above ↦ above
  | below ↦ below
  | same ↦ word_compare a b
]
words_compare xs ys = same

unfoldable pub bigint_compare : List ℕ → List ℕ → Comparison
unfolding words_compare
bigint_compare a b =
    if ltb (length b) (length a)
    then above
    else if ltb (length a) (length b)
    then below
    else words_compare a b

-- The words of the longer operand's length, and the carry.
unfoldable pub add_words : List ℕ → List ℕ → ℕ → List ℕ × ℕ
add_words [] [] carry = ([], carry)
add_words (a ∷ xs) [] carry =
    let (words, out) = add_words xs [] ((carry + a) / u32_mod) in
    ((carry + a) % u32_mod ∷ words, out)
add_words [] (b ∷ ys) carry =
    let (words, out) = add_words [] ys ((carry + b) / u32_mod) in
    ((carry + b) % u32_mod ∷ words, out)
add_words (a ∷ xs) (b ∷ ys) carry =
    let (words, out) = add_words xs ys ((carry + a + b) / u32_mod) in
    ((carry + a + b) % u32_mod ∷ words, out)

-- A carry out of the last word of all is dropped.
unfoldable pub bigint_add : List ℕ → List ℕ → List ℕ
bigint_add a b =
    let (words, carry) = add_words a b 0 in
    normalise (
      if carry == 0
      then words
      else if ltb (length words) bi_max_words
      then words ++ carry % u32_mod ∷ []
      else words)

-- The loop over the words of the first operand, with the borrow.
unfoldable pub sub_words : List ℕ → List ℕ → ℕ → List ℕ × ℕ
sub_words [] ys borrow = ([], borrow)
sub_words (a ∷ xs) [] borrow =
    let (words, out) = sub_words xs [] (if ltb a borrow then 1 else 0) in
    ((if ltb a borrow then a + u32_mod - borrow else a - borrow) ∷ words, out)
sub_words (a ∷ xs) (b ∷ ys) borrow =
    let (words, out) = sub_words xs ys (if ltb a (borrow + b) then 1 else 0) in
    ((if ltb a (borrow + b) then a + u32_mod - (borrow + b) else a - (borrow + b)) ∷ words, out)

unfoldable pub bigint_sub : List ℕ → List ℕ → List ℕ
bigint_sub a b = normalise (sub_words a b 0).0

-- `bigint_sub(r, r, b)`: the result is cleared first, and the operand with it.
unfoldable pub bigint_sub_in_place : List ℕ → List ℕ → List ℕ
bigint_sub_in_place r b = bigint_sub (replicate (length r) 0) b

-- `while (carry && pos < BI_MAX_WORDS)`
unfoldable pub carry_up : ℕ → List ℕ → List ℕ
carry_up carry [] = []
carry_up carry (r ∷ rs) =
    let rest = carry_up ((r + carry) / u32_mod) rs in
    if carry == 0 then r ∷ rs else (r + carry) % u32_mod ∷ rest

-- One row: the words of b times the word a, added to the result from its place on. The code writes
-- past the array where the row does not fit; the model stops.
unfoldable pub mul_row : ℕ → List ℕ → List ℕ → ℕ → List ℕ
unfolding carry_up
mul_row a [] rs carry = carry_up carry rs
mul_row a (b ∷ ys) [] carry = []
mul_row a (b ∷ ys) (r ∷ rs) carry =
    let prod = a * b + r + carry in prod % u32_mod ∷ mul_row a ys rs (prod / u32_mod)

-- The rows, each one word higher than the last.
unfoldable pub mul_rows : List ℕ → List ℕ → List ℕ → List ℕ
mul_rows [] b rs = rs
mul_rows (a ∷ xs) b rs = elim (mul_row a b rs 0) [ [] ↦ [] | r ∷ rest ↦ r ∷ mul_rows xs b rest ]

unfoldable pub bigint_mul : List ℕ → List ℕ → List ℕ
bigint_mul a b = normalise (mul_rows a b (replicate bi_max_words 0))
