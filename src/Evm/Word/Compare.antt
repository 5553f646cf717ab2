-- ===== src/Evm/Word/Compare.antt =====
-- `uint256_cmp` and `uint256_is_zero` against the order of the values.
use mini_security_crypto_web.Prelude.{◌<◌, ◌≡◌, arith}
use mini_security_crypto_web.Evm.Word.{U256, Order, less, equal, greater, cmp}
use mini_security_crypto_web.Evm.Word.Value.{IsWord, to_nat}

-- What a result of the comparison says of the two words.
abbrev pub Compares : Order → U256 → U256 → Type 0
Compares less a b = to_nat a < to_nat b
Compares equal a b = a ≡ b
Compares greater a b = to_nat b < to_nat a

-- For two words `uint256_cmp` returns -1, 0 or 1 exactly as the first value is below the second, the
-- words are the same, or the second value is below the first.
pub cmp-Compares : (a b : U256) → IsWord a → IsWord b → Compares (cmp a b) a b
unfolding cmp
cmp-Compares a b ha hb = ground arith

pub cmp_refl : (a : U256) → cmp a a ≡ equal
unfolding cmp
cmp_refl a = ground arith

pub cmp-equal : (a b : U256) → cmp a b ≡ equal → a ≡ b
unfolding cmp
cmp-equal a b h = ground arith
