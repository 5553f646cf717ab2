-- ===== src/Merkle/Proof.antt =====
-- Inclusion proofs, mini-blockchain-core/src/merkle_tree.c: their generation and their check.
pub mod Verifies
pub mod Binding
pub mod Lone
use mini_security_crypto_web.Prelude.{
  ℕ, zero, suc, if◌then◌else◌, leb, ◌==◌, ◌||◌, Bool, true, false, List, [], ◌∷◌, ◌++◌, Option,
  none, some, take, get_elem?, replicate,
}
use mini_security_crypto_web.Prelude.ByteString.{bytes_eq}
use mini_security_crypto_web.Merkle.{
  Side, left, right, Node, null, node, MerkleTree, hash_of, child, is_null, node_at, leaves_of,
  merkle_sha256d,
}

abbrev pub merkle_proof_max_depth : ℕ
merkle_proof_max_depth = 64

-- An entry of `path` with its entry of `directions`; a zeroed entry has the direction 0.
abbrev pub Step : Type 0
Step = List ℕ × ℕ

-- The first `path_depth` entries of the two arrays, the hash of the leaf and its index.
pub record MerkleProof : Type 0 where
  pub steps : List Step
  pub leaf_hash : List ℕ
  pub leaf_index : ℕ

-- What is recorded for a node on one side of its parent.
unfoldable pub step_at : Node → Side → Step
unfolding is_null
step_at parent left =
    if is_null (child parent right) then (replicate 32 0, 0) else (hash_of (child parent right), 1)
step_at parent right =
    if is_null (child parent left) then (replicate 32 0, 0) else (hash_of (child parent left), 0)

-- The way up from a node to the root.
unfoldable pub climb : Node → List Side → List Step
unfolding node_at step_at
climb root [] = []
climb root (side ∷ path) = step_at (node_at root path) side ∷ climb root path

-- The loop stops at the leaf; `none` is also a write behind the traversal's stack before it.
unfoldable pub merkle_proof_generate : MerkleTree → ℕ → Option MerkleProof
unfolding leaves_of climb
merkle_proof_generate tree leaf_index =
    if leb tree.leaf_count leaf_index
    then none
    else elim (get_elem? (leaves_of tree.root).0 leaf_index) [
      | none ↦ none
      | some (path, leaf) ↦ some (record {
        steps = take merkle_proof_max_depth (climb tree.root path);
        leaf_hash = hash_of leaf;
        leaf_index = leaf_index;
      })
    ]

-- Stops at the leaf in the same way.
unfoldable pub merkle_tree_get_leaf : MerkleTree → ℕ → Option (List ℕ)
unfolding leaves_of
merkle_tree_get_leaf tree index =
    if leb tree.leaf_count index then none else elim (get_elem? (leaves_of tree.root).0 index) [
      | some (path, node is_leaf hash bytes l r) ↦ some bytes
      | some (path, null) ↦ none
      | none ↦ none
    ]

unfoldable pub merkle_tree_get_root : MerkleTree → Option (List ℕ)
unfolding is_null
merkle_tree_get_root tree = if is_null tree.root then none else some (hash_of tree.root)

unfoldable pub merkle_tree_compare_roots : MerkleTree → MerkleTree → Option Bool
unfolding is_null
merkle_tree_compare_roots a b =
    if is_null a.root || is_null b.root
    then none
    else some (bytes_eq (hash_of a.root) (hash_of b.root))

module _ (sha256 : List ℕ → List ℕ) where
  -- The loop of `merkle_proof_verify`, from the hash `current` on.
  unfoldable pub fold_steps : List ℕ → List Step → List ℕ
  unfolding merkle_sha256d
  fold_steps current [] = current
  fold_steps current ((hash, direction) ∷ steps) =
      fold_steps
        (if direction == 1
          then merkle_sha256d sha256 (current ++ hash)
          else merkle_sha256d sha256 (hash ++ current))
        steps

  -- What is written to `valid`.
  unfoldable pub merkle_proof_verify : List ℕ → MerkleProof → Bool
  unfolding fold_steps
  merkle_proof_verify root_hash proof = bytes_eq (fold_steps proof.leaf_hash proof.steps) root_hash
