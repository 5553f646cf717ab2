-- ===== src/Evm/Word/Value.antt =====
-- The number that a `uint256_t` stands for.
use mini_security_crypto_web.Prelude.{
  ℕ, ◌+◌, ◌*◌, ◌%◌, ◌^◌, ◌<◌, ◌≡◌, arith, List, [], ◌∷◌, u64_mod, IsU64,
}
use mini_security_crypto_web.Evm.Word.{U256}

pub record IsWord (v : U256) : Type 0 where
  pub small0 : IsU64 v.w0
  pub small1 : IsU64 v.w1
  pub small2 : IsU64 v.w2
  pub small3 : IsU64 v.w3

abbrev pub to_nat : U256 → ℕ
to_nat v = v.w0 + v.w1 * 2 ^ 64 + v.w2 * 2 ^ 128 + v.w3 * 2 ^ 192

-- The value of a list of limbs, the lowest first.
abbrev pub value : List ℕ → ℕ
value [] = 0
value (w ∷ ws) = w + u64_mod * value ws

pub to_nat-lt : {v : U256} → IsWord v → to_nat v < 2 ^ 256
to_nat-lt h = omega arith

-- A word is the remainder of any number that has its limbs plus a multiple of 2 ^ 256.
pub to_nat-eq-mod :
    {v : U256} (n q : ℕ) → IsWord v → n ≡ to_nat v + q * 2 ^ 256 → to_nat v ≡ n % 2 ^ 256
to_nat-eq-mod n q h e = omega arith
