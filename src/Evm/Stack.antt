-- ===== src/Evm/Stack.antt =====
-- `evm_stack_t` and `stack_push`, `stack_pop`, `stack_dup`, `stack_swap` of
-- mini-smart-contract-sec/src/evm_sim.c. The list is `data[sp - 1]` down to `data[0]`; what lies
-- above `sp` is never read.
use mini_security_crypto_web.Prelude.{
  ℕ, ◌+◌, ◌-◌, ◌≤◌, ◌≡◌, arith, List, [], ◌∷◌, ltb, leb, if◌then◌else◌, length, get_or, set,
  length-set,
}
use mini_security_crypto_web.Evm.Word.{U256, u256_zero}

abbrev pub stack_max : ℕ
stack_max = 1024

-- A push on a full stack is dropped.
unfoldable pub push : List U256 → U256 → List U256
push s v = if leb stack_max (length s) then s else v ∷ s

-- A pop from an empty stack gives zero.
abbrev pub pop : List U256 → U256 × List U256
pop [] = (u256_zero, [])
pop (v ∷ s) = (v, s)

unfoldable pub dup : List U256 → ℕ → List U256
unfolding push
dup s n = if ltb (length s) n then s else push s (get_or s (n - 1) u256_zero)

unfoldable pub swap : List U256 → ℕ → List U256
swap s n =
    if ltb (length s) (n + 1)
    then s
    else set (set s 0 (get_or s n u256_zero)) n (get_or s 0 u256_zero)

pub length-push : (s : List U256) (v : U256) → length s ≤ stack_max → length (push s v) ≤ stack_max
unfolding push
length-push s v h = ground arith

pub length-dup : (s : List U256) (n : ℕ) → length s ≤ stack_max → length (dup s n) ≤ stack_max
unfolding dup
length-dup s n h = ground arith

pub length-swap : (s : List U256) (n : ℕ) → length (swap s n) ≡ length s
unfolding swap
length-swap s n = ground (
  arith,
  length-set s 0 (get_or s n u256_zero),
  length-set (set s 0 (get_or s n u256_zero)) n (get_or s 0 u256_zero),
)

pub length-pop : (s : List U256) → length (pop s).1 ≤ length s
length-pop [] = omega arith
length-pop (v ∷ s) = omega arith
