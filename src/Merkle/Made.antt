-- ===== src/Merkle/Made.antt =====
-- The trees that `merkle_tree_add_leaves` makes, mini-blockchain-core/src/merkle_tree.c, and their proofs.
use mini_security_crypto_web.Prelude.{
  Bool-cases, inl, inr, ℕ, zero, suc, ◌+◌, ◌^◌, ◌≤◌, ◌<◌, ◌≡◌, refl, sym, ap, ◌∙◌, arith, leb, ◌==◌,
  true, false, List, [], ◌∷◌, map, take, length, length-append, All, some, get_elem?,
  get_elem?-of_lt, All-get,
}
use mini_security_crypto_web.Prelude.ByteString.{bytes_eq_refl}
use mini_security_crypto_web.Merkle.{
  Node, null, node, Place, MerkleTree, merkle_tree_init, hash_of, is_null, node_at, leaves_of,
  queue_leaves, traversal_max, clear_children, attach, new_leaf, build_tree, merkle_tree_rebuild,
  merkle_tree_add_leaf, add_leaves_from, merkle_tree_add_leaves,
}
use native.Mathlib.Nat.{pow-le-pow_right}
use mini_security_crypto_web.Merkle.Traversal.{in_order, spine, leaves_of-fits}
use mini_security_crypto_web.Merkle.Depth.{spine-attach, spine-build_tree, leaves-spine}
use mini_security_crypto_web.Merkle.Build.{
  bottom, IsLeaf, cleared-bottom, bottom-All, bottoms_leaves, build_tree-bottom, IsPerfect,
  build_tree-IsPerfect,
}
use mini_security_crypto_web.Merkle.Attach.{Inserted, attach-Inserted, find_free-root}
use mini_security_crypto_web.Merkle.Proof.{
  Step, merkle_proof_max_depth, MerkleProof, merkle_proof_generate, merkle_proof_verify, climb,
  fold_steps,
}
use mini_security_crypto_web.Merkle.Proof.Verifies.{length-climb, perfect-Leads}

take_all : (n : ℕ) (xs : List Place) → length xs ≡ n → take n xs ≡ xs
take_all zero [] h = refl
take_all (suc n) [] h = refl
take_all zero (x ∷ xs) h = absurd (omega arith)
take_all (suc n) (x ∷ xs) h = ap (λ ys. x ∷ ys) (take_all n xs (omega arith))

length-map : (f : Place → Node) (xs : List Place) → length (map f xs) ≡ length xs
length-map f [] = refl
length-map f (x ∷ xs) = ap suc (length-map f xs)

-- As many places as leaves.
length-leaves_of :
    (root : Node) → spine root ≤ traversal_max → length (leaves_of root).0 ≡ length (bottom root)
length-leaves_of root h = rw (leaves_of-fits root h) (
    sym (length-map (λ place. clear_children place.1) (in_order [] root))
    ∙ ap length (cleared-bottom [] root))

length-Inserted :
    (new : Node) (xs ys : List Node) → Inserted new xs ys → length ys ≡ suc (length xs)
length-Inserted new xs ys (b, a, e, f) =
    rw (e, f) (omega (arith, length-append b (new ∷ a), length-append b a))

module _ (sha256 : List ℕ → List ℕ) where
  -- A tree of leaves that is built by levels, and counts them.
  abbrev pub IsMade : MerkleTree → List Node → Type 0
  IsMade tree leaves =
      (tree.root ≡ build_tree sha256 tree.leaf_count leaves)
      × (length leaves ≡ tree.leaf_count)
      × (0 < tree.leaf_count)
      × All IsLeaf leaves

  made-bottom :
      (tree : MerkleTree) (leaves : List Node) → IsMade tree leaves → bottom tree.root ≡ leaves
  made-bottom tree leaves h = rw h.0 (
      build_tree-bottom sha256 tree.leaf_count leaves (omega (arith, h.1))
      ∙ bottoms_leaves leaves h.3)

  not_null : (n : Node) → 0 < length (bottom n) → is_null n ≡ false
  unfolding bottom is_null
  not_null null h = absurd (omega arith)
  not_null (node is_leaf hash bytes l r) h = refl

  -- A tree that was made needs as many entries of the stack as it has leaves, at most.
  made-spine :
      (tree : MerkleTree) (leaves : List Node)
      → IsMade tree leaves
      → spine tree.root ≤ tree.leaf_count
  made-spine tree leaves h =
      let b = spine-build_tree sha256 1 tree.leaf_count leaves (leaves-spine leaves h.3) in
      rw h.0 (omega (arith, b, h.1, h.2))

  -- Rebuilding a tree that has as many leaves as it counts.
  rebuild_made :
      (tree : MerkleTree)
      → 0 < tree.leaf_count
      → spine tree.root ≤ traversal_max
      → length (bottom tree.root) ≡ tree.leaf_count
      → (merkle_tree_rebuild sha256 tree
          ≡ (true, record tree { root = build_tree sha256 tree.leaf_count (bottom tree.root) }))
  unfolding merkle_tree_rebuild
  rebuild_made tree p room l =
      let o : (tree.leaf_count == 0) ≡ false = ground arith in
      let v = leaves_of-fits tree.root room in
      let t =
        take_all tree.leaf_count (in_order [] tree.root)
          (ap (λ found. length found.0) (sym v) ∙ length-leaves_of tree.root room ∙ l) in
      let b = cleared-bottom [] tree.root in
      let q : bottom (build_tree sha256 tree.leaf_count (bottom tree.root)) ≡ bottom tree.root =
        build_tree-bottom sha256 tree.leaf_count (bottom tree.root) (omega (arith, l))
        ∙ bottoms_leaves (bottom tree.root) (bottom-All tree.root) in
      let n =
        not_null (build_tree sha256 tree.leaf_count (bottom tree.root)) (rw q (omega (arith, l))) in
      rw (o, v, t, b, n) refl

  -- A leaf is added to a tree that was made: it joins the leaves and is counted.
  add_leaf-IsMade :
      (tree : MerkleTree) (leaves : List Node) (b : ℕ) (bytes : List ℕ)
      → IsMade tree leaves
      → tree.leaf_count < traversal_max
      → (new_tree : MerkleTree) × (leaves' : List Node) × (merkle_tree_add_leaf sha256 tree
            (b ∷ bytes)
          ≡ (true, new_tree))
        × IsMade new_tree leaves'
        × (new_tree.leaf_count ≡ suc tree.leaf_count)
        × Inserted (new_leaf sha256 (b ∷ bytes)) leaves leaves'
  unfolding merkle_tree_add_leaf
  add_leaf-IsMade tree leaves b bytes h room =
      let leaf = new_leaf sha256 (b ∷ bytes) in
      let q = made-bottom tree leaves h in
      let o = not_null tree.root (rw q (omega (arith, h.1, h.2))) in
      let (path, f, free) = find_free-root tree.root o in
      let i = attach-Inserted leaf tree.root path (unfold bottom new_leaf in refl) free in
      let grown : MerkleTree = record tree {
        root = attach tree.root path leaf;
        leaf_count = suc tree.leaf_count;
      } in
      let l : length (bottom grown.root) ≡ suc tree.leaf_count =
        length-Inserted leaf (bottom tree.root) (bottom grown.root) i
        ∙ ap (λ xs. suc (length xs)) q
        ∙ ap suc h.1 in
      let s = spine-attach tree.root leaf path (unfold new_leaf spine in omega arith) in
      let d : spine grown.root ≤ traversal_max = omega (arith, s, made-spine tree leaves h) in
      let r = rebuild_made grown (omega arith) d l in
      (
        record grown { root = build_tree sha256 (suc tree.leaf_count) (bottom grown.root) },
        bottom grown.root,
        rw (o, f) r,
        (refl, l, omega arith, bottom-All grown.root),
        refl,
        rw q at i,
      )

  -- The chain of the items put in, one after the other, to a list of leaves.
  unfoldable pub AllInserted : List (List ℕ) → List Node → List Node → Type 0
  AllInserted [] leaves leaves' = leaves ≡ leaves'
  AllInserted (bytes ∷ items) leaves leaves' =
      (between : List Node) × Inserted (new_leaf sha256 bytes) leaves between
      × AllInserted items between leaves'

  add_leaves-IsMade :
      (items : List (List ℕ)) (tree : MerkleTree) (leaves : List Node)
      → All (λ bytes. 0 < length bytes) items
      → IsMade tree leaves
      → tree.leaf_count + length items ≤ traversal_max
      → (new_tree : MerkleTree) × (leaves' : List Node) × (add_leaves_from sha256 tree items
          ≡ (true, new_tree))
        × IsMade new_tree leaves'
        × (new_tree.leaf_count ≡ tree.leaf_count + length items)
        × AllInserted items leaves leaves'
  unfolding add_leaves_from AllInserted
  add_leaves-IsMade [] tree leaves a h room = (tree, leaves, refl, h, omega arith, refl)
  add_leaves-IsMade ([] ∷ items) tree leaves a h room = absurd (omega (arith, a.0))
  add_leaves-IsMade ((b ∷ bytes) ∷ items) tree leaves a h room =
      let (t1, l1, e1, m1, c1, i1) = add_leaf-IsMade tree leaves b bytes h (omega arith) in
      let (t2, l2, e2, m2, c2, i2) = add_leaves-IsMade items t1 l1 a.1 m1 (omega (arith, c1)) in
      (t2, l2, rw e1 e2, m2, omega (arith, c1, c2), (l1, i1, i2))

  -- The first leaf.
  first-IsMade :
      (b : ℕ) (bytes : List ℕ)
      → (merkle_tree_add_leaf sha256 merkle_tree_init (b ∷ bytes)
          ≡ (true, record { root = new_leaf sha256 (b ∷ bytes); leaf_count = 1 }))
        × IsMade
            (record { root = new_leaf sha256 (b ∷ bytes); leaf_count = 1 })
            (new_leaf sha256 (b ∷ bytes) ∷ [])
  unfolding merkle_tree_add_leaf new_leaf build_tree is_null
  first-IsMade b bytes = (refl, (refl, refl, omega arith, ((_, _, refl), tt)))

  take_steps : (n : ℕ) (xs : List Step) → length xs ≤ n → take n xs ≡ xs
  take_steps zero [] h = refl
  take_steps (suc n) [] h = refl
  take_steps zero (x ∷ xs) h = absurd (omega arith)
  take_steps (suc n) (x ∷ xs) h = ap (λ ys. x ∷ ys) (take_steps n xs (omega arith))

  leaves-IsPerfect : (leaves : List Node) → All IsLeaf leaves → All (IsPerfect sha256 0) leaves
  unfolding IsPerfect
  leaves-IsPerfect [] h = tt
  leaves-IsPerfect (n ∷ leaves) h = (h.0, leaves-IsPerfect leaves h.1)

  -- A proof of a perfect tree, from a place that leads to the root.
  generated :
      (tree : MerkleTree) (index : ℕ) (place : Place)
      → index < tree.leaf_count
      → get_elem? (leaves_of tree.root).0 index ≡ some place
      → length place.0 ≤ merkle_proof_max_depth
      → merkle_proof_generate tree index
        ≡ some (record {
          steps = climb tree.root place.0;
          leaf_hash = hash_of place.1;
          leaf_index = index;
        })
  unfolding merkle_proof_generate
  generated tree index place h g l =
      let o : leb tree.leaf_count index ≡ false = ground arith in
      let t =
        take_steps 64 (climb tree.root place.0)
          (omega (arith, length-climb tree.root place.0, l)) in
      rw (o, g, t) refl

  made_proof :
      (tree : MerkleTree) (leaves : List Node) (k index : ℕ)
      → IsMade tree leaves
      → tree.leaf_count ≡ 2 ^ k
      → tree.leaf_count ≤ traversal_max
      → k ≤ merkle_proof_max_depth
      → index < tree.leaf_count
      → (proof : MerkleProof) × (merkle_proof_generate tree index ≡ some proof)
        × (merkle_proof_verify sha256 (hash_of tree.root) proof ≡ true)
  unfolding merkle_proof_verify climb fold_steps node_at
  made_proof tree leaves k index h c most d i =
      let p : IsPerfect sha256 (k + 0) tree.root = rw h.0 (
        build_tree-IsPerfect sha256 k 0 tree.leaf_count leaves (h.1 ∙ c) (omega (arith, c))
          (leaves-IsPerfect leaves h.3)) in
      let leads = perfect-Leads sha256 (k + 0) tree.root tree.root [] p refl refl in
      let room : spine tree.root ≤ traversal_max = omega (arith, made-spine tree leaves h) in
      let n : index < length (leaves_of tree.root).0 =
        omega
          (arith, length-leaves_of tree.root room, ap length (made-bottom tree leaves h), h.1) in
      let (place, g) = get_elem?-of_lt (leaves_of tree.root).0 index n in
      let up =
        All-get _ (in_order [] tree.root) index place leads
          (rw (leaves_of-fits tree.root room) at g) in
      (
        _,
        generated tree index place i g (omega (arith, up.1)),
        rw up.0 (bytes_eq_refl (hash_of tree.root)),
      )

-- Adding up to 1024 items that are not empty to the empty tree succeeds: the tree is the one that is built by levels
-- of a list of leaves, which come from the items by putting in one after the other, and counts them.
pub merkle_tree_add_leaves-IsMade :
    (sha256 : List ℕ → List ℕ) (items : List (List ℕ))
    → 0 < length items
    → length items ≤ queue_leaves
    → All (λ bytes. 0 < length bytes) items
    → (tree : MerkleTree) × (leaves : List Node) × (merkle_tree_add_leaves sha256 merkle_tree_init
          items
        ≡ (true, tree))
      × IsMade sha256 tree leaves
      × (tree.leaf_count ≡ length items)
      × AllInserted sha256 items [] leaves
unfolding merkle_tree_add_leaves add_leaves_from AllInserted
merkle_tree_add_leaves-IsMade sha256 [] n m a = absurd (omega arith)
merkle_tree_add_leaves-IsMade sha256 ([] ∷ items) n m a = absurd (omega (arith, a.0))
merkle_tree_add_leaves-IsMade sha256 ((b ∷ bytes) ∷ items) n le a =
    let m = (first-IsMade sha256 b bytes).1 in
    let (tree, leaves, e', m', c, i) =
      add_leaves-IsMade sha256 items (record { root = new_leaf sha256 (b ∷ bytes); leaf_count = 1 })
        (new_leaf sha256 (b ∷ bytes) ∷ []) a.1 m (omega arith) in
    (
      tree,
      leaves,
      e',
      m',
      omega (arith, c),
      (new_leaf sha256 (b ∷ bytes) ∷ [], ([], [], refl, refl), i),
    )

exponent_small : (k : ℕ) → 2 ^ k ≤ 1024 → k ≤ 64
exponent_small k h = elim (Bool-cases (leb k 64)) [
  | inl o ↦ ground arith
  | inr o ↦
      let l : 65 ≤ k = ground arith in
      let p : 2 ^ 65 ≤ 2 ^ k = pow-le-pow_right {n = 2} (omega arith) l in absurd (omega arith)
]

-- After 2 ^ k items that are not empty, at most 1024, are added to the empty tree, a proof is generated for
-- each index below their number, and the check of the proof against the root succeeds.
pub generated_proofs_verify :
    (sha256 : List ℕ → List ℕ) (items : List (List ℕ)) (k index : ℕ)
    → length items ≡ 2 ^ k
    → length items ≤ queue_leaves
    → All (λ bytes. 0 < length bytes) items
    → index < length items
    → (tree : MerkleTree) × (proof : MerkleProof) × (merkle_tree_add_leaves sha256 merkle_tree_init
          items
        ≡ (true, tree))
      × (merkle_proof_generate tree index ≡ some proof)
      × (merkle_proof_verify sha256 (hash_of tree.root) proof ≡ true)
generated_proofs_verify sha256 items k index l d a i =
    let (tree, leaves, e, m, c, ins) =
      merkle_tree_add_leaves-IsMade sha256 items (omega arith) d a in
    let (proof, g, v) =
      made_proof sha256 tree leaves k index m (c ∙ l) (omega (arith, c))
        (exponent_small k (omega (arith, l))) (omega (arith, c)) in
    (tree, proof, e, g, v)
