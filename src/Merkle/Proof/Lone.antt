-- ===== src/Merkle/Proof/Lone.antt =====
-- The proof of a leaf that stands alone under its parent, mini-blockchain-core/src/merkle_tree.c.
use mini_security_crypto_web.Prelude.{
  ℕ, ◌≡◌, ◌⊎◌, inl, inr, refl, sym, ap, ◌∙◌, true, List, [], ◌∷◌, ◌++◌, length, replicate, some,
}
use mini_security_crypto_web.Prelude.ByteString.{bytes_eq_iff}
use mini_security_crypto_web.Merkle.{
  MerkleTree, merkle_tree_init, hash_of, merkle_sha256d, merkle_tree_add_leaves,
}
use mini_security_crypto_web.Merkle.Proof.{
  MerkleProof, merkle_proof_generate, merkle_proof_verify, fold_steps,
}
use mini_security_crypto_web.Merkle.Proof.Binding.{Collision, append-split, same_input}

abbrev pub zeros : List ℕ
zeros = replicate 32 0

abbrev pub three_items : ℕ → ℕ → ℕ → List (List ℕ)
three_items a b c = (a ∷ []) ∷ (b ∷ []) ∷ (c ∷ []) ∷ []

hash_size :
    (sha256 : List ℕ → List ℕ)
    → ((x : List ℕ) → length (sha256 x) ≡ 32)
    → (x : List ℕ) → length (merkle_sha256d sha256 x) ≡ 32
unfolding merkle_sha256d
hash_size sha256 is_hash x = is_hash (sha256 x)

some_inj : {p q : MerkleProof} → some p ≡ some q → p ≡ q
some_inj e = cc

module _ (sha256 : List ℕ → List ℕ) where
  abbrev item_hash : ℕ → List ℕ
  item_hash x = merkle_sha256d sha256 (x ∷ [])

  -- The hash of the pair beside the lone leaf.
  abbrev pair_hash : ℕ → ℕ → List ℕ
  pair_hash b c = merkle_sha256d sha256 (item_hash c ++ item_hash b)

  abbrev pub three_leaves : ℕ → ℕ → ℕ → MerkleTree
  three_leaves a b c = (merkle_tree_add_leaves sha256 merkle_tree_init (three_items a b c)).1

  lone_root :
      (a b c : ℕ)
      → hash_of (three_leaves a b c).root
        ≡ merkle_sha256d sha256 (pair_hash b c ++ merkle_sha256d sha256 (item_hash a ++ zeros))
  unfolding merkle_tree_add_leaves
  lone_root a b c = refl

  lone_proof :
      (a b c : ℕ)
      → merkle_proof_generate (three_leaves a b c) 2
        ≡ some (record {
          steps = (zeros, 0) ∷ (pair_hash b c, 0) ∷ [];
          leaf_hash = item_hash a;
          leaf_index = 2;
        })
  unfolding merkle_tree_add_leaves merkle_proof_generate
  lone_proof a b c = refl

  -- The lone hash on either side of zeros.
  turned_round :
      (a b c : ℕ)
      → ((x : List ℕ) → length (sha256 x) ≡ 32)
      → merkle_sha256d sha256 (pair_hash b c ++ merkle_sha256d sha256 (zeros ++ item_hash a))
        ≡ merkle_sha256d sha256 (pair_hash b c ++ merkle_sha256d sha256 (item_hash a ++ zeros))
      → (item_hash a ≡ zeros) ⊎ Collision sha256
  turned_round a b c is_hash e = elim (same_input sha256 is_hash _ _ e) [
    | inr w ↦ inr w
    | inl q ↦
        elim (same_input sha256 is_hash (zeros ++ item_hash a) (item_hash a ++ zeros)
          (append-split (pair_hash b c) (pair_hash b c) _ _ refl q).1) [
            | inr w ↦ inr w
            | inl r ↦ inl (
                sym
                  (append-split zeros (item_hash a) _ _ (sym (hash_size sha256 is_hash (a ∷ [])))
                    r).0)
          ]
  ]

-- After three items of a byte are added to the empty tree, the proof that is generated for the last leaf is
-- not accepted against the root, under a hash function of 32 bytes, unless the leaf's hash is zero or two
-- inputs collide.
pub lone_proof_fails :
    (sha256 : List ℕ → List ℕ) (a b c : ℕ) (proof : MerkleProof)
    → ((x : List ℕ) → length (sha256 x) ≡ 32)
    → merkle_proof_generate (three_leaves sha256 a b c) 2 ≡ some proof
    → merkle_proof_verify sha256 (hash_of (three_leaves sha256 a b c).root) proof ≡ true
    → (merkle_sha256d sha256 (a ∷ []) ≡ zeros) ⊎ Collision sha256
unfolding merkle_proof_verify fold_steps
lone_proof_fails sha256 a b c proof is_hash g v =
    let q = sym (lone_proof sha256 a b c) ∙ g in
    let f = (bytes_eq_iff (fold_steps sha256 proof.leaf_hash proof.steps) _).0 v in
    let u : fold_steps sha256 (item_hash sha256 a) ((zeros, 0) ∷ (pair_hash sha256 b c, 0) ∷ [])
        ≡ hash_of (three_leaves sha256 a b c).root =
      ap (λ p. fold_steps sha256 p.leaf_hash p.steps) (some_inj q) ∙ f in
    turned_round sha256 a b c is_hash (u ∙ lone_root sha256 a b c)
