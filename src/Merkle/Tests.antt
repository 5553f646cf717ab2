-- ===== src/Merkle/Tests.antt =====
-- The theorems of the tree at concrete items, under a hash function of 32 bytes that any list pads.
use mini_security_crypto_web.Prelude.{
  ℕ, zero, suc, ◌+◌, ◌≡◌, ◌≤◌, ◌⊎◌, ◌<◌, refl, ap, arith, Bool, true, false, List, [], ◌∷◌, ◌++◌,
  length, map, replicate, Option, some, none, All,
}
use mini_security_crypto_web.Merkle.{
  Node, null, node, MerkleTree, merkle_tree_init, hash_of, leaves_of, traversal_max, merkle_sha256d,
  merkle_tree_add_leaves,
}
use mini_security_crypto_web.Merkle.Traversal.{in_order, spine, leaves_of-in_order}
use mini_security_crypto_web.Merkle.Made.{
  IsMade, AllInserted, merkle_tree_add_leaves-IsMade, generated_proofs_verify,
}
use mini_security_crypto_web.Merkle.Proof.{
  MerkleProof, merkle_tree_get_leaf, merkle_proof_generate, merkle_proof_verify,
}
use mini_security_crypto_web.Merkle.Proof.Binding.{Collision, merkle_proof_verify-binds}
use mini_security_crypto_web.Merkle.Proof.Lone.{zeros, lone_proof_fails}

-- The first 32 bytes of a list and zeros.
abbrev first_bytes : ℕ → List ℕ → List ℕ
first_bytes zero bytes = []
first_bytes (suc n) [] = 0 ∷ first_bytes n []
first_bytes (suc n) (b ∷ bytes) = b ∷ first_bytes n bytes

abbrev pad : List ℕ → List ℕ
pad bytes = first_bytes 32 bytes

length-first_bytes : (n : ℕ) (bytes : List ℕ) → length (first_bytes n bytes) ≡ n
length-first_bytes zero bytes = refl
length-first_bytes (suc n) [] = ap suc (length-first_bytes n [])
length-first_bytes (suc n) (b ∷ bytes) = ap suc (length-first_bytes n bytes)

length-pad : (bytes : List ℕ) → length (pad bytes) ≡ 32
length-pad bytes = length-first_bytes 32 bytes

abbrev two_items : List (List ℕ)
two_items = (5 ∷ []) ∷ (6 ∷ []) ∷ []

-- The leaves are not in the order of the items.
second_item_first :
    merkle_tree_get_leaf (merkle_tree_add_leaves pad merkle_tree_init two_items).1 0 ≡ some (6 ∷ [])
unfolding merkle_tree_add_leaves merkle_tree_get_leaf
second_item_first = refl

abbrev small_tree : Node
small_tree = node false [] [] (node true (5 ∷ []) [] null null) null

leaves_of-in_order_example :
    ((spine small_tree ≤ traversal_max) × (leaves_of small_tree ≡ (in_order [] small_tree, true)))
    ⊎ ((traversal_max < spine small_tree) × ((leaves_of small_tree).1 ≡ false))
leaves_of-in_order_example = leaves_of-in_order small_tree

merkle_tree_add_leaves-IsMade_example :
    (tree : MerkleTree) × (leaves : List Node) × (merkle_tree_add_leaves pad merkle_tree_init
        two_items
      ≡ (true, tree))
    × IsMade pad tree leaves
    × (tree.leaf_count ≡ length two_items)
    × AllInserted pad two_items [] leaves
merkle_tree_add_leaves-IsMade_example =
    merkle_tree_add_leaves-IsMade pad two_items (omega arith) (omega arith)
      (omega arith, (omega arith, tt))

generated_proofs_verify_example :
    (tree : MerkleTree) × (proof : MerkleProof) × (merkle_tree_add_leaves pad merkle_tree_init
        two_items
      ≡ (true, tree))
    × (merkle_proof_generate tree 1 ≡ some proof)
    × (merkle_proof_verify pad (hash_of tree.root) proof ≡ true)
generated_proofs_verify_example =
    generated_proofs_verify pad two_items 1 1 refl (omega arith) (omega arith, (omega arith, tt))
      (omega arith)

abbrev leaf_proof : MerkleProof
leaf_proof = record { steps = (pad (7 ∷ []), 1) ∷ []; leaf_hash = pad (5 ∷ []); leaf_index = 0 }

abbrev leaf_root : List ℕ
leaf_root = pad (5 ∷ [])

merkle_proof_verify-binds_example : (leaf_proof.leaf_hash ≡ leaf_proof.leaf_hash) ⊎ Collision pad
unfolding merkle_proof_verify mini_security_crypto_web.Prelude.ByteString.bytes_eq
merkle_proof_verify-binds_example =
    merkle_proof_verify-binds pad leaf_root leaf_proof leaf_proof length-pad refl (refl, tt)
      (refl, tt) refl refl refl refl

abbrev zero_proof : MerkleProof
zero_proof = record {
  steps = (zeros, 0) ∷ (pad (0 ∷ []), 0) ∷ [];
  leaf_hash = zeros;
  leaf_index = 2;
}

lone_proof_fails_example : (merkle_sha256d pad (0 ∷ []) ≡ zeros) ⊎ Collision pad
unfolding merkle_tree_add_leaves merkle_proof_generate merkle_proof_verify
    mini_security_crypto_web.Prelude.ByteString.bytes_eq
lone_proof_fails_example = lone_proof_fails pad 0 0 0 zero_proof length-pad refl refl
