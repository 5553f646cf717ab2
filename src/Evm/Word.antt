-- ===== src/Evm/Word.antt =====
-- `uint256_t` of mini-smart-contract-sec/include/evm_sim.h and its arithmetic in src/evm_sim.c: four
-- 64-bit limbs, the lowest first. A byte is a number below 256.
pub mod Value
pub mod Add
pub mod Sub
pub mod Mul
pub mod Compare
pub mod Bytes
use Prim.Native.Nat.{bit_or}
use mini_security_crypto_web.Prelude.{
  ℕ, zero, suc, ◌+◌, ◌-◌, ◌*◌, ◌/◌, ◌%◌, ◌^◌, Bool, true, false, ◌&&◌, ◌||◌, List, [], ◌∷◌, ltb,
  ◌==◌, if◌then◌else◌, get_or, u64_mod, add64, sub64,
}

pub record U256 : Type 0 where
  pub w0 : ℕ
  pub w1 : ℕ
  pub w2 : ℕ
  pub w3 : ℕ

-- `uint256_zero`
abbrev pub u256_zero : U256
u256_zero = record { w0 = 0; w1 = 0; w2 = 0; w3 = 0 }

-- `uint256_set64`
abbrev pub set64 : ℕ → U256
set64 x = record { w0 = x; w1 = 0; w2 = 0; w3 = 0 }

-- The results -1, 0 and 1 of `uint256_cmp`.
pub data Order : Type 0 where
  less equal greater : Order

-- One round of the loop of `uint256_cmp`; `rest` is what the later rounds give.
abbrev pub cmp_limb : ℕ → ℕ → Order → Order
cmp_limb a b rest = if ltb b a then greater else if ltb a b then less else rest

unfoldable pub cmp : U256 → U256 → Order
cmp a b = cmp_limb a.w3 b.w3 (cmp_limb a.w2 b.w2 (cmp_limb a.w1 b.w1 (cmp_limb a.w0 b.w0 equal)))

unfoldable pub is_zero : U256 → Bool
is_zero v = v.w0 == 0 && v.w1 == 0 && v.w2 == 0 && v.w3 == 0

-- One round of the loop of `uint256_add`: the limb of the sum, and the next carry.
abbrev pub add_limb : ℕ → ℕ → ℕ → ℕ × ℕ
add_limb a b carry =
    let sum = add64 (add64 a b) carry in
    (sum, if ltb sum a || (ltb 0 carry && sum == a) then 1 else 0)

unfoldable pub add : U256 → U256 → U256
add a b =
    let (s0, c0) = add_limb a.w0 b.w0 0 in
    let (s1, c1) = add_limb a.w1 b.w1 c0 in
    let (s2, c2) = add_limb a.w2 b.w2 c1 in
    record { w0 = s0; w1 = s1; w2 = s2; w3 = (add_limb a.w3 b.w3 c2).0 }

-- One round of the loop of `uint256_sub`: the limb of the difference, and the next borrow.
abbrev pub sub_limb : ℕ → ℕ → ℕ → ℕ × ℕ
sub_limb a b borrow = (sub64 (sub64 a b) borrow, if ltb a (add64 b borrow) then 1 else 0)

unfoldable pub sub : U256 → U256 → U256
sub a b =
    let (d0, r0) = sub_limb a.w0 b.w0 0 in
    let (d1, r1) = sub_limb a.w1 b.w1 r0 in
    let (d2, r2) = sub_limb a.w2 b.w2 r1 in
    record { w0 = d0; w1 = d1; w2 = d2; w3 = (sub_limb a.w3 b.w3 r2).0 }

-- The inner loop of `uint256_mul` over the limbs of one factor, from `result[i]` on, and the store
-- of the last carry behind it. `product` is a 128-bit number.
pub mul_row : List ℕ → ℕ → List ℕ → ℕ → List ℕ
mul_row [] b [] carry = []
mul_row [] b (r ∷ rs) carry = carry ∷ rs
mul_row (a ∷ xs) b [] carry = []
mul_row (a ∷ xs) b (r ∷ rs) carry =
    let product = (a * b + r + carry) % 2 ^ 128 in
    (product % u64_mod) ∷ mul_row xs b rs (product / u64_mod % u64_mod)

-- The outer loop, over the limbs of the other factor. After its row, `result[i]` is final.
pub mul_rows : List ℕ → List ℕ → List ℕ → List ℕ
mul_rows xs [] result = result
mul_rows xs (b ∷ ys) result = elim (mul_row xs b result 0) [
  | [] ↦ []
  | r ∷ rs ↦ r ∷ mul_rows xs ys rs
]

abbrev pub limbs : U256 → List ℕ
limbs v = v.w0 ∷ v.w1 ∷ v.w2 ∷ v.w3 ∷ []

abbrev pub of_limbs : List ℕ → U256
of_limbs ws = record {
  w0 = get_or ws 0 0;
  w1 = get_or ws 1 0;
  w2 = get_or ws 2 0;
  w3 = get_or ws 3 0;
}

unfoldable pub mul : U256 → U256 → U256
unfolding mul_row mul_rows
mul a b = of_limbs (mul_rows (limbs a) (limbs b) (0 ∷ 0 ∷ 0 ∷ 0 ∷ 0 ∷ 0 ∷ 0 ∷ 0 ∷ []))

-- The limb `w[word]`.
abbrev pub limb : U256 → ℕ → ℕ
limb v zero = v.w0
limb v (suc zero) = v.w1
limb v (suc (suc zero)) = v.w2
limb v (suc (suc (suc i))) = v.w3

-- `w[word] |= bits`
abbrev pub or_limb : U256 → ℕ → ℕ → U256
or_limb v zero bits = record v { w0 = bit_or v.w0 bits }
or_limb v (suc zero) bits = record v { w1 = bit_or v.w1 bits }
or_limb v (suc (suc zero)) bits = record v { w2 = bit_or v.w2 bits }
or_limb v (suc (suc (suc i))) bits = record v { w3 = bit_or v.w3 bits }

-- The loop of `uint256_from_bytes`, with `left` = 32 - i rounds to go at most: byte i goes to
-- position 31 - i.
pub from_bytes_loop : ℕ → List ℕ → U256 → U256
from_bytes_loop zero bytes v = v
from_bytes_loop (suc pos) [] v = v
from_bytes_loop (suc pos) (b ∷ bytes) v =
    from_bytes_loop pos bytes (or_limb v (pos / 8) (b * 2 ^ (pos % 8 * 8)))

unfoldable pub from_bytes : List ℕ → U256
unfolding from_bytes_loop
from_bytes bytes = from_bytes_loop 32 bytes u256_zero

-- The loop of `uint256_to_bytes` into a buffer of 32 bytes; `(w >> shift) & 0xFF` is the byte there.
pub to_bytes_loop : ℕ → U256 → List ℕ
to_bytes_loop zero v = []
to_bytes_loop (suc pos) v = (limb v (pos / 8) / 2 ^ (pos % 8 * 8) % 256) ∷ to_bytes_loop pos v

unfoldable pub to_bytes : U256 → List ℕ
unfolding to_bytes_loop
to_bytes v = to_bytes_loop 32 v
