-- ===== src/Merkle/Proof/Verifies.antt =====
-- The way from a leaf up to the root, mini-blockchain-core/src/merkle_tree.c.
use mini_security_crypto_web.Prelude.{
  ℕ, zero, suc, ◌+◌, ◌≡◌, refl, ap, ◌∙◌, arith, false, List, [], ◌∷◌, length, All, append-All,
}
use mini_security_crypto_web.Merkle.{
  Side, left, right, Node, Place, hash_of, child, is_null, node_at, visit, parent_of,
}
use mini_security_crypto_web.Merkle.Traversal.{in_order}
use mini_security_crypto_web.Merkle.Build.{IsPerfect}
use mini_security_crypto_web.Merkle.Proof.{step_at, climb, fold_steps}

pub length-climb : (root : Node) (path : List Side) → length (climb root path) ≡ length path
unfolding climb
length-climb root [] = refl
length-climb root (side ∷ path) = ap suc (length-climb root path)

module _ (sha256 : List ℕ → List ℕ) where
  -- From the node at a place the way up leads to the root's hash.
  abbrev Leads : Node → ℕ → Place → Type 0
  Leads root depth place =
      (fold_steps sha256 (hash_of place.1) (climb root place.0) ≡ hash_of root)
      × (length place.0 ≡ depth)

  perfect-is_null : (k : ℕ) (n : Node) → IsPerfect sha256 k n → is_null n ≡ false
  unfolding IsPerfect is_null parent_of
  perfect-is_null zero n h = rw h.2 refl
  perfect-is_null (suc k) n h = rw h.2 refl

  -- One step up from each side of an inner node.
  step_left :
      (root l r : Node) (path : List Side)
      → node_at root path ≡ parent_of sha256 l r
      → is_null r ≡ false
      → fold_steps sha256 (hash_of (parent_of sha256 l r)) (climb root path) ≡ hash_of root
      → fold_steps sha256 (hash_of l) (climb root (left ∷ path)) ≡ hash_of root
  unfolding fold_steps climb step_at parent_of
  step_left root l r path at e h = rw (at, e) h

  step_right :
      (root l r : Node) (path : List Side)
      → node_at root path ≡ parent_of sha256 l r
      → is_null l ≡ false
      → fold_steps sha256 (hash_of (parent_of sha256 l r)) (climb root path) ≡ hash_of root
      → fold_steps sha256 (hash_of r) (climb root (right ∷ path)) ≡ hash_of root
  unfolding fold_steps climb step_at parent_of
  step_right root l r path at e h = rw (at, e) h

  pub perfect-Leads :
      (k : ℕ) (root n : Node) (path : List Side)
      → IsPerfect sha256 k n
      → node_at root path ≡ n
      → fold_steps sha256 (hash_of n) (climb root path) ≡ hash_of root
      → All (Leads root (k + length path)) (in_order path n)
  unfolding in_order IsPerfect visit node_at parent_of
  perfect-Leads zero root n path h at e = let f = rw h.2 at e in rw h.2 ((f, omega arith), tt)
  perfect-Leads (suc k) root n path (l, r, q, hl, hr) at e =
      let at' : node_at root path ≡ parent_of sha256 l r = at ∙ q in
      let e' : fold_steps sha256 (hash_of (parent_of sha256 l r)) (climb root path) ≡ hash_of root =
        rw q at e in
      let d : suc k + length path ≡ k + suc (length path) = omega arith in
      rw (q, d)
        (append-All (Leads root (k + suc (length path))) (in_order (left ∷ path) l) _
          (perfect-Leads k root l (left ∷ path) hl (ap (λ n. child n left) at')
            (step_left root l r path at' (perfect-is_null k r hr) e'))
          (perfect-Leads k root r (right ∷ path) hr (ap (λ n. child n right) at')
            (step_right root l r path at' (perfect-is_null k l hl) e')))
