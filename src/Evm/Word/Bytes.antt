-- ===== src/Evm/Word/Bytes.antt =====
-- `uint256_to_bytes` and `uint256_from_bytes`: 32 bytes, the highest first.
use Prim.Native.Nat.{bit_or}
use native.Mathlib.Nat.{pow-le-pow_right, one-le-pow, div-eq_of_lt, div-div-eq-div-mul}
use native.Mathlib.Decide.{dec_lt}
use mini_security_crypto_web.Prelude.{
  ℕ, zero, suc, ◌+◌, ◌-◌, ◌*◌, ◌%◌, ◌/◌, ◌^◌, ◌≤◌, ◌<◌, ◌≡◌, ◌≢◌, refl, sym, ap, ◌∙◌, arith, List,
  [], ◌∷◌, length, IsU64,
}
use mini_security_crypto_web.Prelude.Bits.{bit_or-disjoint, pow-add_eight}
use mini_security_crypto_web.Evm.Word.{
  U256, u256_zero, limb, or_limb, from_bytes, from_bytes_loop, to_bytes, to_bytes_loop,
}
use mini_security_crypto_web.Evm.Word.Value.{IsWord}

-- `w` with its low `k` bits cleared.
abbrev keep : ℕ → ℕ → ℕ
keep k w = w / 2 ^ k * 2 ^ k

byte_fits : (b p : ℕ) → b < 256 → 0 < p → b * p < p * 256
byte_fits b p hb hp = grind arith

byte_joins : (q p : ℕ) → q / 256 * (p * 256) + q % 256 * p ≡ q * p
byte_joins q p =
    let e : q / 256 * 256 + q % 256 ≡ q = omega arith in omega (arith, ap (λ (t : ℕ). t * p) e)

-- OR-ing a byte into a word that is clear from there down.
or_byte : (k w : ℕ) → bit_or (keep (k + 8) w) (w / 2 ^ k % 256 * 2 ^ k) ≡ keep k w
or_byte k w = bit_or-disjoint (k + 8) (w / 2 ^ (k + 8)) (w / 2 ^ k % 256 * 2 ^ k) small ∙ join
  where
    small : w / 2 ^ k % 256 * 2 ^ k < 2 ^ (k + 8)
    small =
        rw (pow-add_eight k)
          (byte_fits (w / 2 ^ k % 256) (2 ^ k) (omega arith) (one-le-pow k 2 (omega arith)))

    join : w / 2 ^ (k + 8) * 2 ^ (k + 8) + w / 2 ^ k % 256 * 2 ^ k ≡ keep k w
    join = rw (pow-add_eight k, ← div-div-eq-div-mul w (2 ^ k) 256) (byte_joins (w / 2 ^ k) (2 ^ k))

keep-big : (n w : ℕ) → IsU64 w → 64 ≤ n → keep n w ≡ 0
keep-big n w h le =
    let small : w < 2 ^ n = omega (arith, pow-le-pow_right {n = 2} (omega arith) le) in
    rw (div-eq_of_lt small) (omega arith)

keep-zero : (w : ℕ) → keep 0 w ≡ w
keep-zero w = omega arith

-- The limb `i` before the byte at `pos` is written, its lower bytes cleared.
abbrev part : ℕ → ℕ → ℕ → ℕ
part i pos w = keep ((pos - 8 * i) * 8) w

part_other : (i pos w : ℕ) → IsU64 w → pos / 8 ≢ i → part i (suc pos) w ≡ part i pos w
part_other i pos w h ne = elim (dec_lt (pos / 8) i) [
  | yes lt ↦ ap (λ (k : ℕ). keep (k * 8) w) (omega arith)
  | no ge ↦
      keep-big ((suc pos - 8 * i) * 8) w h (omega arith)
      ∙ sym (keep-big ((pos - 8 * i) * 8) w h (omega arith))
]

part_own :
    (i pos w : ℕ)
    → pos / 8 ≡ i
    → bit_or (part i (suc pos) w) (w / 2 ^ (pos % 8 * 8) % 256 * 2 ^ (pos % 8 * 8)) ≡ part i pos w
part_own i pos w e =
    let here : (pos - 8 * i) * 8 ≡ pos % 8 * 8 = omega arith in
    let above : (suc pos - 8 * i) * 8 ≡ pos % 8 * 8 + 8 = omega arith in
    rw (here, above) (or_byte (pos % 8 * 8) w)

abbrev cleared : ℕ → U256 → U256
cleared pos v = record {
  w0 = part 0 pos v.w0;
  w1 = part 1 pos v.w1;
  w2 = part 2 pos v.w2;
  w3 = part 3 pos v.w3;
}

abbrev byte_at : ℕ → U256 → ℕ
byte_at pos v = limb v (pos / 8) / 2 ^ (pos % 8 * 8) % 256

u256_eq : {a b : U256} → a.w0 ≡ b.w0 → a.w1 ≡ b.w1 → a.w2 ≡ b.w2 → a.w3 ≡ b.w3 → a ≡ b
u256_eq e0 e1 e2 e3 = λ i. record { w0 = e0 i; w1 = e1 i; w2 = e2 i; w3 = e3 i }

-- Writing the byte at `pos` fills in that byte.
or_limb-cleared :
    (pos : ℕ) (v : U256)
    → IsWord v
    → pos < 32
    → or_limb (cleared (suc pos) v) (pos / 8) (byte_at pos v * 2 ^ (pos % 8 * 8)) ≡ cleared pos v
or_limb-cleared pos v h lt = go (pos / 8) refl
  where
    go :
        (i : ℕ)
        → pos / 8 ≡ i
        → or_limb (cleared (suc pos) v) (pos / 8) (byte_at pos v * 2 ^ (pos % 8 * 8))
          ≡ cleared pos v
    go zero e = rw e (
        u256_eq (part_own 0 pos v.w0 e) (part_other 1 pos v.w1 h.small1 (omega arith))
          (part_other 2 pos v.w2 h.small2 (omega arith))
          (part_other 3 pos v.w3 h.small3 (omega arith)))
    go (suc zero) e = rw e (
        u256_eq (part_other 0 pos v.w0 h.small0 (omega arith)) (part_own 1 pos v.w1 e)
          (part_other 2 pos v.w2 h.small2 (omega arith))
          (part_other 3 pos v.w3 h.small3 (omega arith)))
    go (suc (suc zero)) e = rw e (
        u256_eq (part_other 0 pos v.w0 h.small0 (omega arith))
          (part_other 1 pos v.w1 h.small1 (omega arith)) (part_own 2 pos v.w2 e)
          (part_other 3 pos v.w3 h.small3 (omega arith)))
    go (suc (suc (suc zero))) e = rw e (
        u256_eq (part_other 0 pos v.w0 h.small0 (omega arith))
          (part_other 1 pos v.w1 h.small1 (omega arith))
          (part_other 2 pos v.w2 h.small2 (omega arith)) (part_own 3 pos v.w3 e))
    go (suc (suc (suc (suc i)))) e = absurd (omega arith)

from_bytes_loop-to_bytes_loop :
    (pos : ℕ) (v : U256)
    → IsWord v
    → pos ≤ 32
    → from_bytes_loop pos (to_bytes_loop pos v) (cleared pos v) ≡ v
unfolding from_bytes_loop to_bytes_loop
from_bytes_loop-to_bytes_loop zero v h le =
    u256_eq (keep-zero v.w0) (keep-zero v.w1) (keep-zero v.w2) (keep-zero v.w3)
from_bytes_loop-to_bytes_loop (suc pos) v h le =
    rw (or_limb-cleared pos v h (omega arith)) (from_bytes_loop-to_bytes_loop pos v h (omega arith))

-- Reading back the 32 bytes of a word gives the word.
pub from_bytes-to_bytes : (v : U256) → IsWord v → from_bytes (to_bytes v) ≡ v
unfolding from_bytes to_bytes
from_bytes-to_bytes v h =
    ap (from_bytes_loop 32 (to_bytes_loop 32 v)) empty
    ∙ from_bytes_loop-to_bytes_loop 32 v h (omega arith)
  where
    empty : u256_zero ≡ cleared 32 v
    empty =
        u256_eq (sym (keep-big 256 v.w0 h.small0 (omega arith)))
          (sym (keep-big 192 v.w1 h.small1 (omega arith)))
          (sym (keep-big 128 v.w2 h.small2 (omega arith)))
          (sym (keep-big 64 v.w3 h.small3 (omega arith)))

-- The number that bytes spell, the highest first.
abbrev pub big_endian : List ℕ → ℕ
big_endian [] = 0
big_endian (b ∷ bytes) = b * 256 ^ length bytes + big_endian bytes

pub length-to_bytes : (v : U256) → length (to_bytes v) ≡ 32
unfolding to_bytes to_bytes_loop
length-to_bytes v = refl
