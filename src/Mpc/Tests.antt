-- ===== src/Mpc/Tests.antt =====
-- The theorems of secret sharing for three parties modulo 97, where 65 is the inverse of 3.
use mini_security_crypto_web.Prelude.{
  get_or, ℕ, ◌+◌, ◌*◌, ◌%◌, ◌^◌, ◌≡◌, ◌<◌, refl, arith, true, false, List, [], ◌∷◌, some, All,
}
use mini_security_crypto_web.Mpc.Arithmetic.{mpc_mod_exp, mpc_mod_inv, mpc_mod_exp-power}
use mini_security_crypto_web.Mpc.Arithmetic.Inverse.{mpc_mod_inv-inverts}
use mini_security_crypto_web.Mpc.Sharing.{SecretSharing, next_seed, ss_share, ss_reconstruct}
use mini_security_crypto_web.Mpc.Sharing.Linear.{IsSharing, total}
use mini_security_crypto_web.Mpc.Paillier.{
  PubKey, key_of, gcd64, encrypt_with, paillier_decrypt, paillier_add, paillier_scalar_mul,
  rerandomize_with,
}
use mini_security_crypto_web.Mpc.Paillier.Homomorphic.{paillier_homomorphic}
use mini_security_crypto_web.Mpc.Shamir.{
  ShamirSs, shamir_ss_init, shamir_ss_share, shamir_ss_reconstruct,
}
use mini_security_crypto_web.Mpc.Beaver.{BeaverTriple, bt_multiply}
use mini_security_crypto_web.Mpc.Beaver.Product.{bt_multiply-opens}
use mini_security_crypto_web.Mpc.Beaver.Pool.{consumed, filled, beaver_multiplies}

abbrev three_parties : SecretSharing
three_parties = record { num_parties = 3; prime = 97 }

inverse_of_three : mpc_mod_inv 3 97 ≡ 65
unfolding mpc_mod_inv
inverse_of_three = refl

mpc_mod_exp-power_example : mpc_mod_exp 5 10 97 ≡ 5 ^ 10 % 97
mpc_mod_exp-power_example = mpc_mod_exp-power 5 10 97 (omega arith) (omega arith)

mpc_mod_inv-inverts_example : (mpc_mod_inv 3 97 * 3 % 97 ≡ 1) × (mpc_mod_inv 3 97 < 97)
mpc_mod_inv-inverts_example = mpc_mod_inv-inverts 3 65 97 (omega arith) (omega arith) refl

abbrev some_shares : List ℕ
some_shares = 10 ∷ 90 ∷ 5 ∷ []

abbrev more_shares : List ℕ
more_shares = 96 ∷ 0 ∷ 1 ∷ []

some_shares-IsSharing : IsSharing three_parties some_shares
some_shares-IsSharing = (refl, (omega arith, (omega arith, (omega arith, tt))))

more_shares-IsSharing : IsSharing three_parties more_shares
more_shares-IsSharing = (refl, (omega arith, (omega arith, (omega arith, tt))))

abbrev a_triple : BeaverTriple
a_triple = record { a_share = 20; b_share = 30; c_share = 18; consumed = false }

bt_multiply-opens_example :
    ss_reconstruct three_parties
      (bt_multiply true three_parties a_triple some_shares more_shares [])
    ≡ some (total some_shares * total more_shares % 97)
bt_multiply-opens_example =
    bt_multiply-opens three_parties a_triple some_shares more_shares [] 65 (omega arith)
      (omega arith) (omega arith) refl (omega arith) (omega arith) refl some_shares-IsSharing
      more_shares-IsSharing

beaver_multiplies_example :
    All
      (λ t.
        ss_reconstruct three_parties (
          bt_multiply true three_parties t
            (ss_share three_parties 1 6 [])
            (ss_share three_parties 2 7 [])
            [])
        ≡ some (6 * 7 % 97))
      (consumed 2 (filled 3 97 1))
beaver_multiplies_example =
    beaver_multiplies three_parties 2 3 1 65 1 2 6 7 [] (omega arith) (omega arith) (omega arith)
      (omega arith) refl

-- The key that the demonstration primes give.
abbrev demo_key : PubKey
demo_key = record { n = 64507; n_sq = 4161153049; g = 64508; lambda = 32000; mu = 34989 }

demo_key-key_of : key_of 251 257 ≡ demo_key
unfolding key_of gcd64 mpc_mod_inv mpc_mod_exp
demo_key-key_of = refl

paillier_homomorphic_example :
    (paillier_add demo_key (encrypt_with demo_key 20 7) (encrypt_with demo_key 22 11)
      ≡ encrypt_with demo_key (20 + 22) (7 * 11))
    × (paillier_scalar_mul demo_key (encrypt_with demo_key 20 7) 3
        ≡ encrypt_with demo_key (20 * 3) (7 ^ 3))
    × (rerandomize_with demo_key (encrypt_with demo_key 20 7) 11
        ≡ encrypt_with demo_key 20 (7 * 11))
paillier_homomorphic_example =
    paillier_homomorphic demo_key 20 22 7 11 3 (omega arith, refl, refl, omega arith)

-- A ciphertext under that key is decrypted to its plaintext.
decrypts : paillier_decrypt demo_key (encrypt_with demo_key 42 7) ≡ 42
unfolding paillier_decrypt encrypt_with mpc_mod_exp
decrypts = refl

abbrev two_of_three : ShamirSs
two_of_three = record { threshold = 2; prime = 97; x_coords = 1 ∷ 2 ∷ 3 ∷ [] }

two_of_three-shamir_ss_init : shamir_ss_init 2 3 97 ≡ two_of_three
unfolding shamir_ss_init
two_of_three-shamir_ss_init = refl

-- The shares of the first and the third party give the secret.
two_reconstruct :
    shamir_ss_reconstruct two_of_three (0 ∷ 2 ∷ []) (
      get_or (shamir_ss_share two_of_three 42 5).0 0 0
      ∷ get_or (shamir_ss_share two_of_three 42 5).0 2 0
      ∷ [])
    ≡ some 42
unfolding shamir_ss_reconstruct shamir_ss_share mpc_mod_inv next_seed
two_reconstruct = refl
