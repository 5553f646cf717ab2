-- ===== src/Rsa/BigInt/Sum.antt =====
-- bigint_add and bigint_sub over the numbers that the words spell.
use native.Mathlib.Nat.{pow-suc, pow-zero, pow-le-pow_right, mul-zero, mul-one, mul-suc}
use mini_security_crypto_web.Prelude.{
  ℕ, zero, suc, ◌+◌, ◌-◌, ◌*◌, ◌/◌, ◌%◌, ◌^◌, ◌≤◌, ◌<◌, ◌≡◌, refl, ap, ◌∙◌, ◌==◌, ltb, Bool-cases,
  inl, inr, if◌then◌else◌, List, [], ◌∷◌, ◌++◌, length, length-replicate, All, replicate, u32_mod,
  arith,
}
use mini_security_crypto_web.Rsa.BigInt.{
  add_words, bigint_add, sub_words, bigint_sub, bigint_sub_in_place, bi_max_words,
}
use mini_security_crypto_web.Rsa.BigInt.Value.{
  value, value-normalise, value-append, value-lt, IsWord,
}

pub carried :
    (s n v out e : ℕ)
    → v + u32_mod ^ n * out ≡ e + s / u32_mod
    → s % u32_mod + u32_mod * v + u32_mod ^ suc n * out ≡ s + u32_mod * e
carried s n v out e h =
    let group : u32_mod ^ suc n * out ≡ u32_mod * (u32_mod ^ n * out) =
      rw (pow-suc u32_mod n) (grind arith) in
    omega (arith, group, h)

-- The words of a sum with the carry above them.
add_words-value :
    (a b : List ℕ) (carry : ℕ)
    → value (add_words a b carry).0
        + u32_mod ^ length (add_words a b carry).0 * (add_words a b carry).1
      ≡ value a + value b + carry
unfolding add_words value
add_words-value [] [] carry = omega (arith, pow-zero u32_mod)
add_words-value (a ∷ xs) [] carry =
    let ih = add_words-value xs [] ((carry + a) / u32_mod) in
    carried (carry + a) _ _ _ (value xs) (omega (arith, ih)) ∙ omega arith
add_words-value [] (b ∷ ys) carry =
    let ih = add_words-value [] ys ((carry + b) / u32_mod) in
    carried (carry + b) _ _ _ (value ys) (omega (arith, ih)) ∙ omega arith
add_words-value (a ∷ xs) (b ∷ ys) carry =
    let ih = add_words-value xs ys ((carry + a + b) / u32_mod) in
    carried (carry + a + b) _ _ _ (value xs + value ys) (omega (arith, ih)) ∙ omega arith

-- One word more holds every sum: the carry is 0 or 1.
add_words-fits :
    (a b : List ℕ) (carry : ℕ)
    → All IsWord a
    → All IsWord b
    → carry < 2
    → All IsWord (add_words a b carry).0 × ((add_words a b carry).1 < 2)
unfolding add_words
add_words-fits [] [] carry ha hb h = (tt, h)
add_words-fits (a ∷ xs) [] carry ha hb h =
    let ih = add_words-fits xs [] ((carry + a) / u32_mod) ha.1 tt (omega (arith, ha.0)) in
    ((omega arith, ih.0), ih.1)
add_words-fits [] (b ∷ ys) carry ha hb h =
    let ih = add_words-fits [] ys ((carry + b) / u32_mod) tt hb.1 (omega (arith, hb.0)) in
    ((omega arith, ih.0), ih.1)
add_words-fits (a ∷ xs) (b ∷ ys) carry ha hb h =
    let ih =
      add_words-fits xs ys ((carry + a + b) / u32_mod) ha.1 hb.1 (omega (arith, ha.0, hb.0)) in
    ((omega arith, ih.0), ih.1)

length-add_words-le :
    (a b : List ℕ) (carry n : ℕ) → length a ≤ n → length b ≤ n → length (add_words a b carry).0 ≤ n
unfolding add_words
length-add_words-le [] [] carry n h k = omega arith
length-add_words-le (a ∷ xs) [] carry zero h k = absurd (omega arith)
length-add_words-le (a ∷ xs) [] carry (suc n) h k =
    omega (arith, length-add_words-le xs [] ((carry + a) / u32_mod) n (omega arith) (omega arith))
length-add_words-le [] (b ∷ ys) carry zero h k = absurd (omega arith)
length-add_words-le [] (b ∷ ys) carry (suc n) h k =
    omega (arith, length-add_words-le [] ys ((carry + b) / u32_mod) n (omega arith) (omega arith))
length-add_words-le (a ∷ xs) (b ∷ ys) carry zero h k = absurd (omega arith)
length-add_words-le (a ∷ xs) (b ∷ ys) carry (suc n) h k =
    omega
      (arith, length-add_words-le xs ys ((carry + a + b) / u32_mod) n (omega arith) (omega arith))

carried_word :
    (words : List ℕ) (carry total : ℕ)
    → carry < 2
    → value words + u32_mod ^ length words * carry ≡ total + 0
    → value words + u32_mod ^ length words * value (carry % u32_mod ∷ []) ≡ total
unfolding value
carried_word words carry total h e =
    let word : carry % u32_mod + u32_mod * 0 ≡ carry = omega arith in rw word (omega (arith, e))

-- For operands of at most 64 words of 32 bits whose sum is below 2 ^ 2048, bigint_add is addition.
pub value-bigint_add :
    (a b : List ℕ)
    → All IsWord a
    → All IsWord b
    → length a ≤ bi_max_words
    → length b ≤ bi_max_words
    → value a + value b < u32_mod ^ bi_max_words
    → value (bigint_add a b) ≡ value a + value b
unfolding bigint_add
value-bigint_add a b ha hb la lb h =
    let (words, carry) = add_words a b 0 in
    let total = add_words-value a b 0 in
    let fits = (add_words-fits a b 0 ha hb (omega arith)).1 in
    let short = length-add_words-le a b 0 bi_max_words la lb in
    elim (Bool-cases (carry == 0)) [
      | inl e ↦
          let none_ : carry ≡ 0 = ground arith in
          let nothing : u32_mod ^ length words * carry ≡ 0 =
            rw none_ (mul-zero (u32_mod ^ length words)) in
          rw e (value-normalise words ∙ omega (arith, total, nothing))
      | inr e ↦
          let one_ : carry ≡ 1 = ground (arith, fits) in
          elim (Bool-cases (ltb (length words) bi_max_words)) [
            | inl room ↦
                rw (e, room)
                  (value-normalise (words ++ carry % u32_mod ∷ [])
                    ∙ value-append words (carry % u32_mod ∷ [])
                    ∙ carried_word words carry _ fits total)
            | inr full ↦
                let all : length words ≡ bi_max_words = ground (arith, short) in
                let big : u32_mod ^ length words * carry ≡ u32_mod ^ bi_max_words =
                  rw (one_, all) (mul-one (u32_mod ^ bi_max_words)) in
                absurd (omega (arith, total, big, h))
          ]
    ]

borrowed :
    (n d k a v vb va out b borrow : ℕ)
    → d + (borrow + b) ≡ a + u32_mod * k
    → v + vb + k ≡ va + u32_mod ^ n * out
    → d + u32_mod * v + (b + u32_mod * vb) + borrow ≡ a + u32_mod * va + u32_mod ^ suc n * out
borrowed n d k a v vb va out b borrow e h =
    let group : u32_mod ^ suc n * out ≡ u32_mod * (u32_mod ^ n * out) =
      rw (pow-suc u32_mod n) (grind arith) in
    omega (arith, e, group, h)

-- The words of a difference, with the borrow above them.
sub_words-value :
    (a b : List ℕ) (borrow : ℕ)
    → All IsWord a
    → All IsWord b
    → borrow < 2
    → length b ≤ length a
    → value (sub_words a b borrow).0 + value b + borrow
      ≡ value a + u32_mod ^ length a * (sub_words a b borrow).1
unfolding sub_words value
sub_words-value [] [] borrow ha hb h l = omega (arith, pow-zero u32_mod)
sub_words-value [] (b ∷ ys) borrow ha hb h l = absurd (omega arith)
sub_words-value (a ∷ xs) [] borrow ha hb h l =
    let k : ℕ = if ltb a borrow then 1 else 0 in
    let ih = sub_words-value xs [] k ha.1 tt (ground arith) (omega arith) in
    borrowed (length xs) _ k a _ 0 (value xs) _ 0 borrow (ground (arith, ha.0)) ih
sub_words-value (a ∷ xs) (b ∷ ys) borrow ha hb h l =
    let k : ℕ = if ltb a (borrow + b) then 1 else 0 in
    let ih = sub_words-value xs ys k ha.1 hb.1 (ground arith) (omega arith) in
    borrowed (length xs) _ k a _ (value ys) (value xs) _ b borrow (ground (arith, ha.0, hb.0)) ih

sub_words-fits :
    (a b : List ℕ) (borrow : ℕ)
    → All IsWord a
    → All IsWord b
    → borrow < 2
    → All IsWord (sub_words a b borrow).0 × (length (sub_words a b borrow).0 ≡ length a)
unfolding sub_words
sub_words-fits [] ys borrow ha hb h = (tt, refl)
sub_words-fits (a ∷ xs) [] borrow ha hb h =
    let ih = sub_words-fits xs [] (if ltb a borrow then 1 else 0) ha.1 tt (ground arith) in
    ((ground (arith, ha.0), ih.0), omega (arith, ih.1))
sub_words-fits (a ∷ xs) (b ∷ ys) borrow ha hb h =
    let ih = sub_words-fits xs ys (if ltb a (borrow + b) then 1 else 0) ha.1 hb.1 (ground arith) in
    ((ground (arith, ha.0, hb.0), ih.0), omega (arith, ih.1))

difference : (v va vb p out : ℕ) → v + vb + 0 ≡ va + p * out → v < p → vb ≤ va → v ≡ va - vb
difference v va vb p zero e l h = omega (arith, mul-zero p, e)
difference v va vb p (suc out) e l h = absurd (omega (arith, mul-suc p out, e))

-- Where the second operand has no more words and is no larger, bigint_sub into a third object is
-- subtraction.
pub value-bigint_sub :
    (a b : List ℕ)
    → All IsWord a
    → All IsWord b
    → length b ≤ length a
    → value b ≤ value a
    → value (bigint_sub a b) ≡ value a - value b
unfolding bigint_sub
value-bigint_sub a b ha hb l h =
    let total = sub_words-value a b 0 ha hb (omega arith) l in
    let fits = sub_words-fits a b 0 ha hb (omega arith) in
    let low : value (sub_words a b 0).0 < u32_mod ^ length a =
      rw (← fits.1) (value-lt (sub_words a b 0).0 fits.0) in
    value-normalise (sub_words a b 0).0
    ∙ difference _ (value a) (value b) (u32_mod ^ length a) (sub_words a b 0).1 total low h

pub value-zeros : (n : ℕ) → value (replicate n 0) ≡ 0
unfolding value
value-zeros zero = refl
value-zeros (suc n) = omega (arith, value-zeros n)

zeros-All : (n : ℕ) → All IsWord (replicate n 0)
zeros-All zero = tt
zeros-All (suc n) = (omega arith, zeros-All n)

complement : (v vb p out : ℕ) → v + vb + 0 ≡ p * out → v < p → vb < p → 0 < vb → v + vb ≡ p
complement v vb p zero e l k h = absurd (omega (arith, mul-zero p, e))
complement v vb p (suc zero) e l k h = omega (arith, mul-one p, e)
complement v vb p (suc (suc out)) e l k h =
    absurd (omega (arith, mul-suc p (suc out), mul-suc p out, e))

sub_of_zero :
    (z b : List ℕ)
    → All IsWord z
    → All IsWord b
    → value z ≡ 0
    → length b ≤ length z
    → 0 < value b
    → value (sub_words z b 0).0 + value b ≡ u32_mod ^ length z
sub_of_zero z b hz hb v l pos =
    let total = sub_words-value z b 0 hz hb (omega arith) l in
    let fits = sub_words-fits z b 0 hz hb (omega arith) in
    let low : value (sub_words z b 0).0 < u32_mod ^ length z =
      rw (← fits.1) (value-lt (sub_words z b 0).0 fits.0) in
    let more : u32_mod ^ length b ≤ u32_mod ^ length z =
      pow-le-pow_right (omega arith) {i = length b} {j = length z} l in
    complement _ (value b) (u32_mod ^ length z) (sub_words z b 0).1 (omega (arith, total, v)) low
      (omega (arith, more, value-lt b hb)) pos

-- Into its own first operand, which is cleared before it is read, bigint_sub leaves what added to the
-- second, if that is not zero, makes 2 to the power of the first one's bits: the first one's number
-- does not matter.
pub value-bigint_sub_in_place :
    (r b : List ℕ)
    → All IsWord b
    → length b ≤ length r
    → 0 < value b
    → value (bigint_sub_in_place r b) + value b ≡ u32_mod ^ length r
unfolding bigint_sub_in_place bigint_sub
value-bigint_sub_in_place r b hb l pos =
    let n : length (replicate (length r) 0) ≡ length r = length-replicate (length r) 0 in
    ap (λ t. t + value b) (value-normalise (sub_words (replicate (length r) 0) b 0).0)
    ∙ sub_of_zero (replicate (length r) 0) b (zeros-All (length r)) hb (value-zeros (length r))
        (omega (arith, n, l)) pos
    ∙ ap (λ t. u32_mod ^ t) n
