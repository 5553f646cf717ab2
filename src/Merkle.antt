-- ===== src/Merkle.antt =====
-- The Merkle tree, mini-blockchain-core/src/merkle_tree.c: the tree of leaves, its building by levels
-- and its in-order traversal. The SHA-256 of OpenSSL is an argument; allocations succeed. A pointer to
-- a node is the sides by which it is reached, the last one first, so that the parent is its tail.
pub mod Traversal
pub mod Build
pub mod Attach
pub mod Depth
pub mod Made
pub mod Proof
mod Tests
use mini_security_crypto_web.Prelude.{
  ℕ, zero, suc, ◌+◌, ◌-◌, ◌≤◌, ◌<◌, ◌≡◌, refl, arith, if◌then◌else◌, ltb, leb, ◌==◌, Bool, true,
  false, not, List, [], ◌∷◌, ◌++◌, map, Option, none, some, take, get_elem?, length, replicate,
}

pub data Side : Type 0 where
  left : Side
  right : Side

-- `null` is the null pointer; a node has its leaf mark, hash, data and children.
pub data Node : Type 0 where
  null : Node
  node : Bool → List ℕ → List ℕ → Node → Node → Node

abbrev pub Place : Type 0
Place = List Side × Node

pub record MerkleTree : Type 0 where
  pub root : Node
  pub leaf_count : ℕ

abbrev pub merkle_tree_init : MerkleTree
merkle_tree_init = record { root = null; leaf_count = 0 }

abbrev pub hash_of : Node → List ℕ
hash_of null = replicate 32 0
hash_of (node is_leaf hash bytes l r) = hash

abbrev pub child : Node → Side → Node
child null side = null
child (node is_leaf hash bytes l r) left = l
child (node is_leaf hash bytes l r) right = r

unfoldable pub is_null : Node → Bool
is_null null = true
is_null (node is_leaf hash bytes l r) = false

-- The node that a pointer leads to.
unfoldable pub node_at : Node → List Side → Node
node_at root [] = root
node_at root (side ∷ path) = child (node_at root path) side

-- The entries of `merkle_node *stack[1024]`.
abbrev pub traversal_max : ℕ
traversal_max = 1024

-- The inner loop of the traversals: the node and its left descendants are put on the stack; `none` is
-- a write behind the stack's entries.
unfoldable pub push_left : List Side → Node → List Place → Option (List Place)
push_left path null stack = some stack
push_left path (node is_leaf hash bytes l r) stack =
    let pushed = push_left (left ∷ path) l ((path, node is_leaf hash bytes l r) ∷ stack) in
    if leb traversal_max (length stack) then none else pushed

-- A visited node, where it is a leaf.
unfoldable pub visit : Place → List Place
visit (path, null) = []
visit (path, node true hash bytes l r) = (path, node true hash bytes l r) ∷ []
visit (path, node false hash bytes l r) = []

-- The traversal loop, on fuel for its turns: the leaves in the order of their visits, and whether the
-- loop ends. Where it is false, C has written behind its stack after these visits.
unfoldable pub traverse : ℕ → List Side → Node → List Place → List Place × Bool
unfolding push_left visit
traverse zero path cur stack = ([], false)
traverse (suc fuel) path cur stack = elim (push_left path cur stack) [
  | none ↦ ([], false)
  | some [] ↦ ([], true)
  | some ((at, n) ∷ rest) ↦
      let (later, ended) = traverse fuel (right ∷ at) (child n right) rest in
      (visit (at, n) ++ later, ended)
]

unfoldable pub node_count : Node → ℕ
node_count null = 0
node_count (node is_leaf hash bytes l r) = suc (node_count l + node_count r)

-- One turn for each node, and one that finds no more.
unfoldable pub leaves_of : Node → List Place × Bool
unfolding traverse node_count
leaves_of root = traverse (suc (node_count root)) [] root []

-- A collected leaf with its stale child pointers cleared.
unfoldable pub clear_children : Node → Node
clear_children null = null
clear_children (node is_leaf hash bytes l r) = node is_leaf hash bytes null null

-- The queue search of `merkle_tree_add_leaf`, on fuel for its turns: the first free child slot.
unfoldable pub find_free : ℕ → List Place → Option (List Side)
unfolding is_null
find_free fuel [] = none
find_free zero (at ∷ queue) = none
find_free (suc fuel) ((path, cur) ∷ queue) =
    let rest =
      find_free fuel
        (queue ++ ((left ∷ path, child cur left) ∷ (right ∷ path, child cur right) ∷ [])) in
    if is_null (child cur left)
    then some (left ∷ path)
    else if is_null (child cur right)
    then some (right ∷ path)
    else rest

abbrev pub with_child : Node → Side → Node → Node
with_child null side new = null
with_child (node is_leaf hash bytes l r) left new = node is_leaf hash bytes new r
with_child (node is_leaf hash bytes l r) right new = node is_leaf hash bytes l new

-- The queue of 2048 entries serves trees of this many leaves; with more of them the search writes behind
-- its queue.
abbrev pub queue_leaves : ℕ
queue_leaves = 1024

-- The tree after the slot of a pointer is assigned: the nodes above it are the same.
unfoldable pub attach : Node → List Side → Node → Node
unfolding node_at
attach root [] new = new
attach root (side ∷ path) new = attach root path (with_child (node_at root path) side new)

module _ (sha256 : List ℕ → List ℕ) where
  unfoldable pub merkle_sha256d : List ℕ → List ℕ
  merkle_sha256d bytes = sha256 (sha256 bytes)

  unfoldable pub new_leaf : List ℕ → Node
  unfolding merkle_sha256d
  new_leaf bytes = node true (merkle_sha256d bytes) bytes null null

  -- An inner node over two, with its hash computed.
  unfoldable pub parent_of : Node → Node → Node
  unfolding merkle_sha256d
  parent_of l r = node false (merkle_sha256d (hash_of l ++ hash_of r)) [] l r

  -- The loop of `merkle_node_build_tree`: the parents of a level.
  unfoldable pub parents_of : List Node → List Node
  unfolding parent_of
  parents_of [] = []
  parents_of (a ∷ []) = parent_of a null ∷ []
  parents_of (a ∷ b ∷ level) = parent_of a b ∷ parents_of level

  -- On fuel for the levels, which the number of nodes bounds.
  unfoldable pub build_tree : ℕ → List Node → Node
  unfolding parents_of
  build_tree fuel [] = null
  build_tree fuel (a ∷ []) = a
  build_tree zero (a ∷ b ∷ level) = null
  build_tree (suc fuel) (a ∷ b ∷ level) = build_tree fuel (parents_of (a ∷ b ∷ level))

  -- Whether the rebuilding succeeds, and the tree. A traversal that writes behind its stack, which C
  -- does not define, counts as a failure.
  unfoldable pub merkle_tree_rebuild : MerkleTree → Bool × MerkleTree
  unfolding leaves_of clear_children build_tree is_null
  merkle_tree_rebuild tree =
      if tree.leaf_count == 0
      then (false, tree)
      else let (places, ended) = leaves_of tree.root in
        let found = take tree.leaf_count places in
        let leaves = map (λ place. clear_children place.1) found in
        let new_root = build_tree tree.leaf_count leaves in
        if not ended
        then (false, tree)
        else if is_null new_root
        then (false, tree)
        else (true, record tree { root = new_root })

  unfoldable pub merkle_tree_add_leaf : MerkleTree → List ℕ → Bool × MerkleTree
  unfolding new_leaf find_free attach merkle_tree_rebuild is_null node_count
  merkle_tree_add_leaf tree [] = (false, tree)
  merkle_tree_add_leaf tree (b ∷ bytes) =
      let leaf = new_leaf (b ∷ bytes) in
      if is_null tree.root
      then (true, record tree { root = leaf; leaf_count = 1 })
      else elim (find_free (node_count tree.root) (([], tree.root) ∷ [])) [
        | none ↦ (false, tree)
        | some path ↦
            merkle_tree_rebuild
              (record tree { root = attach tree.root path leaf; leaf_count = suc tree.leaf_count })
      ]

  -- The loop of `merkle_tree_add_leaves`.
  unfoldable pub add_leaves_from : MerkleTree → List (List ℕ) → Bool × MerkleTree
  unfolding merkle_tree_add_leaf
  add_leaves_from tree [] = (true, tree)
  add_leaves_from tree (bytes ∷ items) =
      let added = merkle_tree_add_leaf tree bytes in
      let rest = add_leaves_from added.1 items in if added.0 then rest else added

  unfoldable pub merkle_tree_add_leaves : MerkleTree → List (List ℕ) → Bool × MerkleTree
  unfolding add_leaves_from
  merkle_tree_add_leaves tree [] = (false, tree)
  merkle_tree_add_leaves tree (bytes ∷ items) = add_leaves_from tree (bytes ∷ items)
