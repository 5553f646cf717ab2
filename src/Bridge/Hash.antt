-- ===== src/Bridge/Hash.antt =====
-- `bridge_rand` and `bridge_hash` of mini-defi-crosschain/src/crosschain_bridge.c. The generator's
-- state, a static variable there, is passed in and out.
use Prim.Native.Nat.{bit_xor}
use mini_security_crypto_web.Prelude.{
  ℕ, ◌+◌, ◌*◌, ◌/◌, ◌%◌, ◌^◌, ◌≡◌, ◌≢◌, refl, ap, List, [], ◌∷◌, ◌++◌, arith, replicate, get_or,
  u32_mod,
}
use mini_security_crypto_web.Prelude.ByteString.{le_bytes}

-- The new state, which is also the number returned.
unfoldable pub bridge_rand : ℕ → ℕ
bridge_rand seed = (seed * 1103515245 + 12345) % u32_mod

-- The loop of `bridge_hash`, from the value `h` on.
pub fnv : ℕ → List ℕ → ℕ
fnv h [] = h
fnv h (b ∷ bytes) = fnv (bit_xor h b * 0x01000193 % u32_mod) bytes

-- The 32 bytes of the hash, and the state of the generator behind it.
unfoldable pub bridge_hash : ℕ → List ℕ → List ℕ × ℕ
bridge_hash seed bytes =
    let h = fnv 0x811C9DC5 bytes in
    let s1 = bridge_rand seed in
    let s2 = bridge_rand s1 in
    let s3 = bridge_rand s2 in
    let s4 = bridge_rand s3 in
    (
      (h % 256)
          ∷ (h / 2 ^ 8 % 256)
          ∷ (h / 2 ^ 16 % 256)
          ∷ (h / 2 ^ 24 % 256)
          ∷ (s1 % 256)
          ∷ (s2 / 2 ^ 8 % 256)
          ∷ (s3 / 2 ^ 16 % 256)
          ∷ (s4 / 2 ^ 24 % 256)
          ∷ replicate 24 0,
      s4,
    )

-- `bridge_simulate_event`
unfoldable pub simulate_event : ℕ → List ℕ → List ℕ → ℕ → ℕ → List ℕ × ℕ
unfolding bridge_hash
simulate_event seed sender receiver amount dest_chain =
    bridge_hash seed (sender ++ (receiver ++ (le_bytes 8 amount ++ le_bytes 8 dest_chain)))

fifth_byte :
    (seed : ℕ) (bytes : List ℕ) → get_or (bridge_hash seed bytes).0 4 0 ≡ bridge_rand seed % 256
unfolding bridge_hash
fifth_byte seed bytes = refl

rand_moves :
    (s : ℕ)
    → bridge_rand (bridge_rand (bridge_rand (bridge_rand (bridge_rand s)))) % 256
      ≢ bridge_rand s % 256
unfolding bridge_rand
rand_moves s = omega arith

-- `bridge_hash` is no function of its input: two calls in a row on any two inputs, so also on the
-- same, give different hashes.
pub hash_changes :
    (seed : ℕ) (bytes bytes' : List ℕ)
    → let (h, seed') = bridge_hash seed bytes in (bridge_hash seed' bytes').0 ≢ h
unfolding bridge_hash
hash_changes seed bytes bytes' e = rand_moves seed (ap (λ h. get_or h 4 0) e)
