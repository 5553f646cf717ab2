-- ===== src/Merkle/Proof/Binding.antt =====
-- Proofs for one place against one root, mini-blockchain-core/src/merkle_tree.c.
use mini_security_crypto_web.Prelude.{
  ℕ, ◌≡◌, ◌≢◌, ◌⊎◌, inl, inr, refl, sym, ◌∙◌, arith, ◌==◌, Bool, true, false, List, [], ◌∷◌, ◌++◌,
  map, length, All, Bool-cases,
}
use mini_security_crypto_web.Prelude.ByteString.{bytes_eq, bytes_eq_iff}
use mathlib.Core.List.{head-eq_of_cons-eq, tail-eq_of_cons-eq}
use mini_security_crypto_web.Merkle.{merkle_sha256d}
use mini_security_crypto_web.Merkle.Proof.{Step, MerkleProof, fold_steps, merkle_proof_verify}

-- Two inputs of the double hash that differ and have one hash.
abbrev pub Collision : (List ℕ → List ℕ) → Type 0
Collision sha256 =
    (x : List ℕ) × (y : List ℕ) × (x ≢ y) × (merkle_sha256d sha256 x ≡ merkle_sha256d sha256 y)

pub append-split : (a b c d : List ℕ) → length a ≡ length b → a ++ c ≡ b ++ d → (a ≡ b) × (c ≡ d)
append-split [] [] c d h e = (refl, e)
append-split [] (y ∷ b) c d h e = absurd (omega arith)
append-split (x ∷ a) [] c d h e = absurd (omega arith)
append-split (x ∷ a) (y ∷ b) c d h e =
    let t = append-split a b c d (omega arith) (tail-eq_of_cons-eq e) in
    let q = head-eq_of_cons-eq e in (rw (q, t.0) refl, t.1)

module _ (sha256 : List ℕ → List ℕ) (is_hash : (x : List ℕ) → length (sha256 x) ≡ 32) where
  -- Inputs with one hash are equal, or they collide.
  pub same_input :
      (x y : List ℕ)
      → merkle_sha256d sha256 x ≡ merkle_sha256d sha256 y
      → (x ≡ y) ⊎ Collision sha256
  same_input x y e = elim (Bool-cases (bytes_eq x y)) [
    | inl h ↦ inl ((bytes_eq_iff x y).0 h)
    | inr h ↦ inr (x, y, (λ q. absurd (differ ((bytes_eq_iff x y).1 q) h)), e)
  ]
    where
      differ : {b : Bool} → b ≡ true → b ≡ false → ⊥
      differ p q = cc

  -- Hashes of 32 bytes all the way up.
  fold_steps-binds :
      (s t : List Step) (a b : List ℕ)
      → map (λ step. step.1) s ≡ map (λ step. step.1) t
      → length a ≡ 32
      → length b ≡ 32
      → All (λ step. length step.0 ≡ 32) s
      → All (λ step. length step.0 ≡ 32) t
      → fold_steps sha256 a s ≡ fold_steps sha256 b t
      → (a ≡ b) ⊎ Collision sha256
  unfolding fold_steps merkle_sha256d
  fold_steps-binds [] [] a b d la lb hs ht e = inl e
  fold_steps-binds [] (y ∷ t) a b d la lb hs ht e = cc
  fold_steps-binds (x ∷ s) [] a b d la lb hs ht e = cc
  fold_steps-binds ((h, i) ∷ s) ((k, j) ∷ t) a b d la lb hs ht e =
      let o : j ≡ i = sym (head-eq_of_cons-eq d) in
      let rest = tail-eq_of_cons-eq d in
      elim (Bool-cases (i == 1)) [
        | inl c ↦
            let c' : (j == 1) ≡ true = rw o c in
            let e' = rw (c, c') at e in
            elim (fold_steps-binds s t _ _ rest (is_hash _) (is_hash _) hs.1 ht.1 e') [
              | inr w ↦ inr w
              | inl q ↦ elim (same_input (a ++ h) (b ++ k) q) [
                | inr w ↦ inr w
                | inl u ↦ inl (append-split a b h k (la ∙ sym lb) u).0
              ]
            ]
        | inr c ↦
            let c' : (j == 1) ≡ false = rw o c in
            let e' = rw (c, c') at e in
            elim (fold_steps-binds s t _ _ rest (is_hash _) (is_hash _) hs.1 ht.1 e') [
              | inr w ↦ inr w
              | inl q ↦ elim (same_input (h ++ a) (k ++ b) q) [
                | inr w ↦ inr w
                | inl u ↦ inl (append-split h k a b (hs.0 ∙ sym ht.0) u).1
              ]
            ]
      ]

-- Under a hash function of 32 bytes, two proofs with the same directions that one root accepts have the
-- same leaf hash, or two inputs collide.
pub merkle_proof_verify-binds :
    (sha256 : List ℕ → List ℕ) (root_hash : List ℕ) (p q : MerkleProof)
    → ((x : List ℕ) → length (sha256 x) ≡ 32)
    → map (λ step. step.1) p.steps ≡ map (λ step. step.1) q.steps
    → All (λ step. length step.0 ≡ 32) p.steps
    → All (λ step. length step.0 ≡ 32) q.steps
    → length p.leaf_hash ≡ 32
    → length q.leaf_hash ≡ 32
    → merkle_proof_verify sha256 root_hash p ≡ true
    → merkle_proof_verify sha256 root_hash q ≡ true
    → (p.leaf_hash ≡ q.leaf_hash) ⊎ Collision sha256
unfolding merkle_proof_verify
merkle_proof_verify-binds sha256 root_hash p q is_hash d hp hq lp lq vp vq =
    fold_steps-binds sha256 is_hash p.steps q.steps p.leaf_hash q.leaf_hash d lp lq hp hq
      ((bytes_eq_iff _ root_hash).0 vp ∙ sym ((bytes_eq_iff _ root_hash).0 vq))
