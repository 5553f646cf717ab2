-- ===== src/Mpc/Paillier.antt =====
-- Paillier's scheme, mini-privacy-compute/src/secure_mpc_comp.c.
pub mod Homomorphic
use mini_security_crypto_web.Prelude.{
  ℕ, zero, suc, ◌+◌, ◌-◌, ◌*◌, ◌/◌, ◌%◌, ◌^◌, Bool, true, false, not, ◌&&◌, ◌||◌, Option, none,
  some, List, [], ◌∷◌, ltb, leb, ◌==◌, add64, sub64, mul64, if◌then◌else◌,
}
use mini_security_crypto_web.Mpc.Arithmetic.{mpc_mod_exp, mpc_mod_inv}
use mini_security_crypto_web.Mpc.Sharing.{next_seed}

pub record PubKey : Type 0 where
  pub n : ℕ
  pub n_sq : ℕ
  pub g : ℕ
  pub lambda : ℕ
  pub mu : ℕ

-- The loop of `gcd64`, on fuel that b bounds.
unfoldable pub gcd_loop : ℕ → ℕ → ℕ → ℕ
gcd_loop fuel a zero = a
gcd_loop zero a (suc b) = a
gcd_loop (suc fuel) a (suc b) = gcd_loop fuel (suc b) (a % suc b)

unfoldable pub gcd64 : ℕ → ℕ → ℕ
unfolding gcd_loop
gcd64 a b = gcd_loop b a b

unfoldable pub lcm64 : ℕ → ℕ → ℕ
unfolding gcd64
lcm64 a b = if a == 0 || b == 0 then 0 else mul64 (a / gcd64 a b) b

-- The draws of `paillier_encrypt`, on fuel for their number: a nonce without a common factor with n, and
-- the seed behind it.
unfoldable pub draw_nonce : ℕ → ℕ → ℕ → Option (ℕ × ℕ)
unfolding gcd64
draw_nonce zero n seed = none
draw_nonce (suc fuel) n seed =
    let seed = next_seed seed in
    let r = seed % (n - 1) + 1 in
    let rest = draw_nonce fuel n seed in if gcd64 r n == 1 then some (r, seed) else rest

-- The ciphertext of a plaintext under a nonce.
unfoldable pub encrypt_with : PubKey → ℕ → ℕ → ℕ
encrypt_with key plaintext r =
    let g_m = mpc_mod_exp key.g (plaintext % key.n) key.n_sq in
    let r_n = mpc_mod_exp r key.n key.n_sq in mul64 g_m r_n % key.n_sq

-- The ciphertext and the new seed, within a number of draws.
unfoldable pub paillier_encrypt : ℕ → PubKey → ℕ → ℕ → Option (ℕ × ℕ)
unfolding draw_nonce encrypt_with
paillier_encrypt draws key plaintext seed = elim (draw_nonce draws key.n seed) [
  | none ↦ none
  | some (r, seed) ↦ some (encrypt_with key plaintext r, seed)
]

unfoldable pub paillier_decrypt : PubKey → ℕ → ℕ
paillier_decrypt key ciphertext =
    let c_lambda = mpc_mod_exp ciphertext key.lambda key.n_sq in
    mul64 (sub64 c_lambda 1 / key.n) key.mu % key.n

unfoldable pub paillier_add : PubKey → ℕ → ℕ → ℕ
paillier_add key ct1 ct2 = mul64 ct1 ct2 % key.n_sq

unfoldable pub paillier_scalar_mul : PubKey → ℕ → ℕ → ℕ
paillier_scalar_mul key ct scalar = mpc_mod_exp ct scalar key.n_sq

-- The ciphertext under another nonce.
unfoldable pub rerandomize_with : PubKey → ℕ → ℕ → ℕ
rerandomize_with key ct r = mul64 ct (mpc_mod_exp r key.n key.n_sq) % key.n_sq

unfoldable pub paillier_rerandomize : ℕ → PubKey → ℕ → ℕ → Option (ℕ × ℕ)
unfolding draw_nonce rerandomize_with
paillier_rerandomize draws key ct seed = elim (draw_nonce draws key.n seed) [
  | none ↦ none
  | some (r, seed) ↦ some (rerandomize_with key ct r, seed)
]

-- The key of two primes, as `paillier_keygen` fills it in.
unfoldable pub key_of : ℕ → ℕ → PubKey
unfolding lcm64
key_of p q =
    let n = mul64 p q in
    let n_sq = mul64 n n in
    let g = add64 n 1 in
    let lambda = lcm64 (sub64 p 1) (sub64 q 1) in
    let g_lambda = mpc_mod_exp g lambda n_sq in
    record { n = n; n_sq = n_sq; g = g; lambda = lambda; mu = mpc_mod_inv (sub64 g_lambda 1 / n) n }
