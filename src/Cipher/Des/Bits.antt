-- ===== src/Cipher/Des/Bits.antt =====
-- des_permute and the bits that its tables name.
use native.Mathlib.Nat.{
  pow-suc, pow-zero, one-le-pow, pow-le-pow_right, mod-eq_of_lt, mul-add-div_right, div-eq_of_lt,
  mul-add-mod_self_right, div-add-mod', mod-lt, mul_assoc, zero-mul, add-mul, zero-add, suc-add,
  mul-le-mul_right,
}
use mini_security_crypto_web.Prelude.{
  ℕ, zero, suc, ◌+◌, ◌-◌, ◌*◌, ◌/◌, ◌%◌, ◌^◌, ◌≤◌, ◌<◌, ◌≡◌, refl, sym, ap, ◌∙◌, List, [], ◌∷◌, map,
  length, get_or, All, u64_mod, arith,
}
use mini_security_crypto_web.Prelude.Bits.{bit_or-disjoint}
use mini_security_crypto_web.Cipher.Des.{bit_of, permute_loop, des_permute}

abbrev pub be_bits : List ℕ → ℕ
be_bits [] = 0
be_bits (b ∷ bits) = b * 2 ^ length bits + be_bits bits

abbrev pub IsBit : ℕ → Type 0
IsBit b = b < 2

pos_pow : (n : ℕ) → 0 < 2 ^ n
pos_pow n = one-le-pow n 2 (omega arith)

be_bits-lt : (bits : List ℕ) → All IsBit bits → be_bits bits < 2 ^ length bits
be_bits-lt [] h = omega (arith, pow-zero 2)
be_bits-lt (b ∷ bits) h =
    let top : suc b * 2 ^ length bits ≤ 2 * 2 ^ length bits =
      mul-le-mul_right (2 ^ length bits) h.0 in
    rw (pow-suc 2 (length bits)) (omega (arith, be_bits-lt bits h.1, top))

length-map : (f : ℕ → ℕ) (l : List ℕ) → length (map f l) ≡ length l
length-map f [] = refl
length-map f (x ∷ l) = ap suc (length-map f l)

bit_of-lt : (input t : ℕ) → bit_of input t < 2
unfolding bit_of
bit_of-lt input t = omega arith

map_bits : (input : ℕ) (table : List ℕ) → All IsBit (map (bit_of input) table)
map_bits input [] = tt
map_bits input (t ∷ table) = (bit_of-lt input t, map_bits input table)

permute_loop_bits :
    (input : ℕ) (table : List ℕ) (k out : ℕ)
    → out < 2 ^ k
    → k + length table ≤ 64
    → permute_loop input table out ≡ out * 2 ^ length table + be_bits (map (bit_of input) table)
unfolding permute_loop
permute_loop_bits input [] k out h s = omega (arith, pow-zero 2)
permute_loop_bits input (t ∷ table) k out h s =
    let b = bit_of input t in
    let low : 2 ^ suc k ≤ 2 ^ 64 = pow-le-pow_right (omega arith) {j = 64} (omega arith) in
    let fits : out * 2 % u64_mod ≡ out * 2 ^ 1 = mod-eq_of_lt (omega (arith, low, pow-suc 2 k)) in
    let next = bit_or-disjoint 1 out b (bit_of-lt input t) in
    let ih =
      permute_loop_bits input table (suc k) (out * 2 ^ 1 + b)
        (omega (arith, pow-suc 2 k, bit_of-lt input t)) (omega arith) in
    let p = 2 ^ length table in
    rw (fits, next, ih, length-map (bit_of input) table, pow-suc 2 (length table)) (grind arith)

-- The permuted number is spelled by the bits that the table names.
pub des_permute_bits :
    (input : ℕ) (table : List ℕ)
    → length table ≤ 64
    → des_permute input table ≡ be_bits (map (bit_of input) table)
unfolding des_permute
des_permute_bits input table h =
    permute_loop_bits input table 0 0 (omega (arith, pow-zero 2)) (omega arith)
    ∙ omega (arith, zero-mul (2 ^ length table))

pow_split : (i k : ℕ) → 2 ^ (k + suc i) ≡ 2 * 2 ^ i * 2 ^ k
pow_split i zero = rw (zero-add (suc i), pow-suc 2 i, pow-zero 2) (omega arith)
pow_split i (suc k) =
    rw (suc-add k (suc i), pow-suc 2 (k + suc i), pow-suc 2 k, pow_split i k) (grind arith)

even : (b q : ℕ) → b * (2 * q) ≡ 2 * (b * q)
even b q = grind arith

-- The i-th bit of such a number is the i-th of the list.
be_bits_at :
    (bits : List ℕ) (i k : ℕ)
    → All IsBit bits
    → length bits ≡ k + suc i
    → be_bits bits / 2 ^ k % 2 ≡ get_or bits i 0
be_bits_at [] i k h e = absurd (omega arith)
be_bits_at (b ∷ bits) zero k h e =
    let n : length bits ≡ k = omega arith in
    let small : be_bits bits / 2 ^ k ≡ 0 = div-eq_of_lt (rw (← n) (be_bits-lt bits h.1)) in
    rw (n, mul-add-div_right (pos_pow k) b (be_bits bits), small) (omega (arith, h.0))
be_bits_at (b ∷ bits) (suc i) k h e =
    let n : length bits ≡ k + suc i = omega arith in
    let ih = be_bits_at bits i k h.1 n in
    let split : 2 ^ length bits ≡ 2 * 2 ^ i * 2 ^ k = ap (λ t. 2 ^ t) n ∙ pow_split i k in
    rw
      (
        split,
        ← mul_assoc b (2 * 2 ^ i) (2 ^ k),
        mul-add-div_right (pos_pow k) (b * (2 * 2 ^ i)) (be_bits bits),
      )
      (omega (arith, ih, even b (2 ^ i)))

-- Digits of a number from the n-th down.
abbrev pub digits_down : ℕ → ℕ → List ℕ
digits_down zero x = []
digits_down (suc n) x = x / 2 ^ n % 2 ∷ digits_down n x

length-digits_down : (n x : ℕ) → length (digits_down n x) ≡ n
length-digits_down zero x = refl
length-digits_down (suc n) x = ap suc (length-digits_down n x)

digits_of : (q p r x : ℕ) → x ≡ q * p + r → x ≡ q / 2 * (p * 2) + (q % 2 * p + r)
digits_of q p r x e =
    let twice : q ≡ q / 2 * 2 + q % 2 = omega arith in
    let split : q * p ≡ q / 2 * 2 * p + q % 2 * p =
      ap (λ t. t * p) twice ∙ add-mul (q / 2 * 2) (q % 2) p in
    let group : q / 2 * (p * 2) ≡ q / 2 * 2 * p = grind arith in omega (arith, e, split, group)

digit_above : (x p : ℕ) → 0 < p → x / p % 2 * p + x % p ≡ x % (p * 2)
digit_above x p pos =
    let q = x / p in
    let low : q % 2 * p ≤ 1 * p = mul-le-mul_right p (omega arith) in
    let below : q % 2 * p + x % p < p * 2 = omega (arith, low, mod-lt x pos) in
    let parts : x ≡ q / 2 * (p * 2) + (q % 2 * p + x % p) =
      digits_of q p (x % p) x (sym (div-add-mod' x p)) in
    sym (mod-eq_of_lt below)
    ∙ sym (mul-add-mod_self_right (q / 2) (p * 2) (q % 2 * p + x % p))
    ∙ ap (λ t. t % (p * 2)) (sym parts)

be_bits-digits_down : (n x : ℕ) → be_bits (digits_down n x) ≡ x % 2 ^ n
be_bits-digits_down zero x = omega (arith, pow-zero 2)
be_bits-digits_down (suc n) x =
    let p = 2 ^ n in
    rw (length-digits_down n x, be_bits-digits_down n x, pow-suc 2 n) (digit_above x p (pos_pow n))

abbrev pub IsInverse : List ℕ → List ℕ → Type 0
IsInverse forth back =
    (x : ℕ) → map (λ t. bit_of x (get_or forth (t - 1) 0)) back ≡ digits_down 64 x

abbrev pub IsPlace : ℕ → Type 0
IsPlace t = (1 ≤ t) × (t ≤ 64)

get_or-map :
    (f : ℕ → ℕ) (l : List ℕ) (i : ℕ) → i < length l → get_or (map f l) i 0 ≡ f (get_or l i 0)
get_or-map f [] i h = absurd (omega arith)
get_or-map f (x ∷ l) zero h = refl
get_or-map f (x ∷ l) (suc i) h = get_or-map f l i (omega arith)

-- A bit of a permuted number is the bit that the table names there.
bit_of-des_permute :
    (x : ℕ) (table : List ℕ) (t : ℕ)
    → length table ≡ 64
    → IsPlace t
    → bit_of (des_permute x table) t ≡ bit_of x (get_or table (t - 1) 0)
bit_of-des_permute x table t n h = rw (des_permute_bits x table (omega arith)) (
    unfold bit_of in
    (be_bits_at (map (bit_of x) table) (t - 1) (64 - t) (map_bits x table)
        (length-map (bit_of x) table ∙ omega arith)
      ∙ get_or-map (bit_of x) table (t - 1) (omega arith)))

map_permuted :
    (x : ℕ) (table places : List ℕ)
    → length table ≡ 64
    → All IsPlace places
    → map (bit_of (des_permute x table)) places
      ≡ map (λ t. bit_of x (get_or table (t - 1) 0)) places
map_permuted x table [] n h = refl
map_permuted x table (t ∷ places) n h =
    rw (bit_of-des_permute x table t n h.0, map_permuted x table places n h.1)

-- A 64-bit number permuted by a table and then by its inverse is the number.
pub des_permute_inverse :
    (forth back : List ℕ) (x : ℕ)
    → length forth ≡ 64
    → length back ≡ 64
    → All IsPlace back
    → IsInverse forth back
    → x < 2 ^ 64
    → des_permute (des_permute x forth) back ≡ x
des_permute_inverse forth back x n m places inv h =
    des_permute_bits (des_permute x forth) back (omega arith)
    ∙ ap be_bits (map_permuted x forth back n places ∙ inv x)
    ∙ be_bits-digits_down 64 x
    ∙ mod-eq_of_lt h

pub des_permute-lt :
    (x : ℕ) (table : List ℕ) (n : ℕ) → n ≤ 64 → length table ≡ n → des_permute x table < 2 ^ n
des_permute-lt x table n h e =
    rw (des_permute_bits x table (omega arith))
      (rw (← e, ← length-map (bit_of x) table) (be_bits-lt _ (map_bits x table)))

bit_of_small : (x t : ℕ) → x < 2 ^ 32 → t ≤ 32 → bit_of x t ≡ 0
unfolding bit_of
bit_of_small x t small le =
    let upper : 2 ^ 32 ≤ 2 ^ (64 - t) =
      pow-le-pow_right (omega arith) {i = 32} {j = 64 - t} (omega arith) in
    let gone : x / 2 ^ (64 - t) ≡ 0 = div-eq_of_lt (omega (arith, upper)) in rw gone refl

-- Places of the upper half of a number below 2 ^ 32 hold zeros.
pub des_permute_small :
    (x : ℕ) (table : List ℕ)
    → length table ≤ 64
    → All (λ t. t ≤ 32) table
    → x < 2 ^ 32
    → des_permute x table ≡ 0
des_permute_small x table n h small = des_permute_bits x table n ∙ zeros table h
  where
    zeros : (l : List ℕ) → All (λ t. t ≤ 32) l → be_bits (map (bit_of x) l) ≡ 0
    zeros [] k = refl
    zeros (t ∷ l) k =
        rw (bit_of_small x t small k.0, zeros l k.1)
          (omega (arith, zero-mul (2 ^ length (map (bit_of x) l))))
