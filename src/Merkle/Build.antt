-- ===== src/Merkle/Build.antt =====
-- The levels of `merkle_node_build_tree`, mini-blockchain-core/src/merkle_tree.c.
use mini_security_crypto_web.Prelude.{
  ℕ, zero, suc, ◌+◌, ◌^◌, ◌≤◌, ◌≡◌, refl, sym, ap, ◌∙◌, arith, true, false, List, [], ◌∷◌, ◌++◌,
  map, length, All, append-All, ◌/◌,
}
use mini_security_crypto_web.Merkle.{
  Side, left, right, Node, null, node, visit, clear_children, parent_of, parents_of, build_tree,
}
use mini_security_crypto_web.Merkle.Traversal.{in_order}
use mathlib.Core.List.{append_assoc, append-nil}
use native.Mathlib.Nat.{pow-zero, pow-suc, one-le-pow}

-- The leaves of a tree in order, each without its children.
unfoldable pub bottom : Node → List Node
bottom null = []
bottom (node true hash bytes l r) = bottom l ++ (node true hash bytes null null ∷ bottom r)
bottom (node false hash bytes l r) = bottom l ++ bottom r

unfoldable pub bottoms : List Node → List Node
unfolding bottom
bottoms [] = []
bottoms (n ∷ level) = bottom n ++ bottoms level

-- A leaf without children.
abbrev pub IsLeaf : Node → Type 0
IsLeaf n = (hash : List ℕ) × (bytes : List ℕ) × (n ≡ node true hash bytes null null)

map-append :
    (f : List Side × Node → Node) (xs ys : List (List Side × Node))
    → map f (xs ++ ys) ≡ map f xs ++ map f ys
map-append f [] ys = refl
map-append f (x ∷ xs) ys = ap (λ zs. f x ∷ zs) (map-append f xs ys)

-- The traversal's leaves, their stale children cleared.
pub cleared-bottom :
    (path : List Side) (n : Node)
    → map (λ place. clear_children place.1) (in_order path n) ≡ bottom n
unfolding in_order bottom visit clear_children
cleared-bottom path null = refl
cleared-bottom path (node true hash bytes l r) =
    map-append _ (in_order (left ∷ path) l) _
    ∙ rw (cleared-bottom (left ∷ path) l, cleared-bottom (right ∷ path) r) refl
cleared-bottom path (node false hash bytes l r) =
    map-append _ (in_order (left ∷ path) l) _
    ∙ rw (cleared-bottom (left ∷ path) l, cleared-bottom (right ∷ path) r) refl

pub bottom-All : (n : Node) → All IsLeaf (bottom n)
unfolding bottom
bottom-All null = tt
bottom-All (node true hash bytes l r) =
    append-All IsLeaf (bottom l) _ (bottom-All l) ((hash, bytes, refl), bottom-All r)
bottom-All (node false hash bytes l r) =
    append-All IsLeaf (bottom l) (bottom r) (bottom-All l) (bottom-All r)

-- Leaves are their own bottoms.
pub bottoms_leaves : (level : List Node) → All IsLeaf level → bottoms level ≡ level
unfolding bottoms bottom
bottoms_leaves [] h = refl
bottoms_leaves (n ∷ level) h = rw (h.0.2, bottoms_leaves level h.1) refl

module _ (sha256 : List ℕ → List ℕ) where
  parents_of-bottoms : (level : List Node) → bottoms (parents_of sha256 level) ≡ bottoms level
  unfolding parents_of bottoms bottom parent_of
  parents_of-bottoms [] = refl
  parents_of-bottoms (a ∷ []) = append_assoc (bottom a) [] []
  parents_of-bottoms (a ∷ b ∷ level) =
      append_assoc (bottom a) (bottom b) _ ∙ rw (parents_of-bottoms level) refl

  pub length-parents_of :
      (level : List Node) → length (parents_of sha256 level) ≡ (length level + 1) / 2
  unfolding parents_of
  length-parents_of [] = refl
  length-parents_of (a ∷ []) = refl
  length-parents_of (a ∷ b ∷ level) = omega (arith, length-parents_of level)

  -- Enough fuel keeps all leaves, in their order.
  pub build_tree-bottom :
      (fuel : ℕ) (level : List Node)
      → length level ≤ fuel
      → bottom (build_tree sha256 fuel level) ≡ bottoms level
  unfolding build_tree bottoms bottom
  build_tree-bottom fuel [] h = refl
  build_tree-bottom fuel (a ∷ []) h = sym (append-nil (bottom a))
  build_tree-bottom zero (a ∷ b ∷ level) h = absurd (omega arith)
  build_tree-bottom (suc fuel) (a ∷ b ∷ level) h =
      let l = length-parents_of (a ∷ b ∷ level) in
      build_tree-bottom fuel (parents_of sha256 (a ∷ b ∷ level)) (omega (arith, l))
      ∙ parents_of-bottoms (a ∷ b ∷ level)

  -- A tree of the height k whose nodes all have both children or are leaves, with its hashes computed.
  unfoldable pub IsPerfect : ℕ → Node → Type 0
  IsPerfect zero n = IsLeaf n
  IsPerfect (suc k) n =
      (l : Node) × (r : Node) × (n ≡ parent_of sha256 l r) × IsPerfect k l × IsPerfect k r

  parents_of-IsPerfect :
      (j m : ℕ) (level : List Node)
      → length level ≡ m + m
      → All (IsPerfect j) level
      → (length (parents_of sha256 level) ≡ m) × All (IsPerfect (suc j)) (parents_of sha256 level)
  unfolding parents_of IsPerfect
  parents_of-IsPerfect j zero [] h k = (refl, tt)
  parents_of-IsPerfect j (suc m) [] h k = absurd (omega arith)
  parents_of-IsPerfect j m (a ∷ []) h k = absurd (omega arith)
  parents_of-IsPerfect j zero (a ∷ b ∷ level) h k = absurd (omega arith)
  parents_of-IsPerfect j (suc m) (a ∷ b ∷ level) h k =
      let rest = parents_of-IsPerfect j m level (omega arith) k.1.1 in
      (ap suc rest.0, ((a, b, refl, k.0, k.1.0), rest.1))

  pub build_tree-IsPerfect :
      (k j fuel : ℕ) (level : List Node)
      → length level ≡ 2 ^ k
      → 2 ^ k ≤ fuel
      → All (IsPerfect j) level
      → IsPerfect (k + j) (build_tree sha256 fuel level)
  unfolding build_tree
  build_tree-IsPerfect zero j fuel [] h f p = absurd (omega (arith, pow-zero 2))
  build_tree-IsPerfect zero j fuel (a ∷ []) h f p = let e : zero + j ≡ j = omega arith in rw e p.0
  build_tree-IsPerfect zero j fuel (a ∷ b ∷ level) h f p = absurd (omega (arith, pow-zero 2))
  build_tree-IsPerfect (suc k) j fuel [] h f p =
      absurd (omega (arith, pow-suc 2 k, one-le-pow k 2 (omega arith)))
  build_tree-IsPerfect (suc k) j fuel (a ∷ []) h f p =
      absurd (omega (arith, pow-suc 2 k, one-le-pow k 2 (omega arith)))
  build_tree-IsPerfect (suc k) j zero (a ∷ b ∷ level) h f p =
      absurd (omega (arith, pow-suc 2 k, one-le-pow k 2 (omega arith)))
  build_tree-IsPerfect (suc k) j (suc fuel) (a ∷ b ∷ level) h f p =
      let up = parents_of-IsPerfect j (2 ^ k) (a ∷ b ∷ level) (omega (arith, pow-suc 2 k)) p in
      let e : suc k + j ≡ k + suc j = omega arith in
      rw e (
        build_tree-IsPerfect k (suc j) fuel (parents_of sha256 (a ∷ b ∷ level)) up.0
          (omega (arith, pow-suc 2 k, one-le-pow k 2 (omega arith))) up.1)
