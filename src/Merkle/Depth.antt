-- ===== src/Merkle/Depth.antt =====
-- The stack entries that the trees of mini-blockchain-core/src/merkle_tree.c need.
use native.Mathlib.Nat.{le-max_left, le-max_right, max-le}
use mini_security_crypto_web.Prelude.{
  ℕ, zero, suc, ◌+◌, ◌-◌, ◌≤◌, arith, List, [], ◌∷◌, length, All,
}
use mini_security_crypto_web.Merkle.{
  Side, left, right, Node, null, node, child, node_at, with_child, attach, parents_of, parent_of,
  build_tree,
}
use mini_security_crypto_web.Merkle.Build.{IsLeaf, length-parents_of}
use mini_security_crypto_web.Merkle.Traversal.{spine}

-- A child that needs one entry more makes its node need at most one more.
spine-with_child :
    (n fresh : Node) (side : Side)
    → spine fresh ≤ spine (child n side) + 1
    → spine (with_child n side fresh) ≤ spine n + 1
unfolding spine
spine-with_child null fresh side h = omega arith
spine-with_child (node is_leaf hash bytes l r) fresh left h =
    max-le (omega (arith, le-max_left (suc (spine l)) (spine r)))
      (omega (arith, le-max_right (suc (spine l)) (spine r)))
spine-with_child (node is_leaf hash bytes l r) fresh right h =
    max-le (omega (arith, le-max_left (suc (spine l)) (spine r)))
      (omega (arith, le-max_right (suc (spine l)) (spine r)))

-- A new part of a tree that needs one entry more than the old.
pub spine-attach :
    (root fresh : Node) (path : List Side)
    → spine fresh ≤ spine (node_at root path) + 1
    → spine (attach root path fresh) ≤ spine root + 1
unfolding attach node_at
spine-attach root fresh [] h = h
spine-attach root fresh (side ∷ path) h =
    spine-attach root (with_child (node_at root path) side fresh) path
      (spine-with_child (node_at root path) fresh side h)

pub leaves-spine : (leaves : List Node) → All IsLeaf leaves → All (λ n. spine n ≤ 1) leaves
unfolding spine
leaves-spine [] h = tt
leaves-spine (n ∷ leaves) h =
    (rw h.0.2 (max-le {a = 1} {b = 0} (omega arith) (omega arith)), leaves-spine leaves h.1)

module _ (sha256 : List ℕ → List ℕ) where
  parents_of-spine :
      (m : ℕ) (level : List Node)
      → All (λ n. spine n ≤ m) level
      → All (λ n. spine n ≤ m + 1) (parents_of sha256 level)
  unfolding parents_of parent_of spine
  parents_of-spine m [] h = tt
  parents_of-spine m (a ∷ []) h = let p = h.0 in (max-le (omega arith) (omega arith), tt)
  parents_of-spine m (a ∷ b ∷ level) h =
      let p = h.0 in
      let q = h.1.0 in (max-le (omega arith) (omega arith), parents_of-spine m level h.1.1)

  -- Each level that is built adds one entry, and there are fewer levels than nodes in the first one.
  pub spine-build_tree :
      (m fuel : ℕ) (level : List Node)
      → All (λ n. spine n ≤ m) level
      → spine (build_tree sha256 fuel level) ≤ m + (length level - 1)
  unfolding build_tree spine
  spine-build_tree m fuel [] h = omega arith
  spine-build_tree m fuel (a ∷ []) h = let p = h.0 in omega arith
  spine-build_tree m zero (a ∷ b ∷ level) h = omega arith
  spine-build_tree m (suc fuel) (a ∷ b ∷ level) h =
      let up = parents_of-spine m (a ∷ b ∷ level) h in
      let l = length-parents_of sha256 (a ∷ b ∷ level) in
      let r = spine-build_tree (m + 1) fuel (parents_of sha256 (a ∷ b ∷ level)) up in
      omega (arith, l, r)
