-- ===== src/Merkle/Attach.antt =====
-- The queue search of `merkle_tree_add_leaf` and the slot that it finds,
-- mini-blockchain-core/src/merkle_tree.c.
use mini_security_crypto_web.Prelude.{
  ℕ, zero, suc, ◌+◌, ◌≤◌, ◌<◌, ◌≡◌, refl, sym, ap, arith, true, false, List, [], ◌∷◌, ◌++◌, length,
  length-append, All, append-All, some, Bool-cases, inl, inr,
}
use mini_security_crypto_web.Merkle.{
  Side, left, right, Node, null, node, Place, child, is_null, node_at, node_count, find_free,
  with_child, attach,
}
use mini_security_crypto_web.Merkle.Build.{bottom}
use mathlib.Core.List.{append_assoc}

-- ys is xs with `new` put in somewhere.
abbrev pub Inserted {ℓ} : {A : Type ℓ} → A → List A → List A → Type ℓ
Inserted {A = A} new xs ys =
    (before : List A) × (after : List A) × (xs ≡ before ++ after) × (ys ≡ before ++ (new ∷ after))

Inserted-left :
    (new : Node) (xs ys zs : List Node) → Inserted new xs ys → Inserted new (xs ++ zs) (ys ++ zs)
Inserted-left new xs ys zs (b, a, e, f) =
    (b, a ++ zs, rw e (append_assoc b a zs), rw f (append_assoc b (new ∷ a) zs))

Inserted-right :
    (new : Node) (xs ys zs : List Node) → Inserted new xs ys → Inserted new (zs ++ xs) (zs ++ ys)
Inserted-right new xs ys zs (b, a, e, f) =
    (zs ++ b, a, rw e (sym (append_assoc zs b a)), rw f (sym (append_assoc zs b (new ∷ a))))

-- A child with one leaf more gives its node one leaf more.
with_child-Inserted :
    (new : Node) (n fresh : Node) (side : Side)
    → is_null n ≡ false
    → Inserted new (bottom (child n side)) (bottom fresh)
    → Inserted new (bottom n) (bottom (with_child n side fresh))
unfolding bottom is_null
with_child-Inserted new null fresh side h i = cc
with_child-Inserted new (node true hash bytes l r) fresh left h i =
    Inserted-left new (bottom l) (bottom fresh) _ i
with_child-Inserted new (node false hash bytes l r) fresh left h i =
    Inserted-left new (bottom l) (bottom fresh) _ i
with_child-Inserted new (node true hash bytes l r) fresh right h i =
    Inserted-right new _ _ (bottom l)
      (Inserted-right new (bottom r) (bottom fresh) (node true hash bytes null null ∷ []) i)
with_child-Inserted new (node false hash bytes l r) fresh right h i =
    Inserted-right new (bottom r) (bottom fresh) (bottom l) i

child-not_null : (n : Node) (side : Side) → is_null (child n side) ≡ false → is_null n ≡ false
unfolding is_null
child-not_null null side h = cc
child-not_null (node is_leaf hash bytes l r) side h = refl

with_child-not_null :
    (n fresh : Node) (side : Side) → is_null n ≡ false → is_null (with_child n side fresh) ≡ false
unfolding is_null
with_child-not_null null fresh side h = cc
with_child-not_null (node is_leaf hash bytes l r) fresh left h = refl
with_child-not_null (node is_leaf hash bytes l r) fresh right h = refl

attach-Inserted_below :
    (new root fresh : Node) (path : List Side)
    → is_null (node_at root path) ≡ false
    → Inserted new (bottom (node_at root path)) (bottom fresh)
    → Inserted new (bottom root) (bottom (attach root path fresh))
unfolding attach node_at
attach-Inserted_below new root fresh [] h i = i
attach-Inserted_below new root fresh (side ∷ path) h i =
    let p = child-not_null (node_at root path) side h in
    attach-Inserted_below new root (with_child (node_at root path) side fresh) path p
      (with_child-Inserted new (node_at root path) fresh side p i)

-- A free child slot of a node of the tree.
abbrev pub IsFree : Node → List Side → Type 0
IsFree root [] = ⊥
IsFree root (side ∷ path) =
    (is_null (node_at root path) ≡ false) × (is_null (child (node_at root path) side) ≡ true)

pub attach-Inserted :
    (new root : Node) (path : List Side)
    → bottom new ≡ new ∷ []
    → IsFree root path
    → Inserted new (bottom root) (bottom (attach root path new))
unfolding attach node_at bottom is_null
attach-Inserted new root [] b h = absurd h
attach-Inserted new root (side ∷ path) b h =
    attach-Inserted_below new root (with_child (node_at root path) side new) path h.0
      (with_child-Inserted new (node_at root path) new side h.0 ([], [], empty _ h.1, b))
  where
    empty : (n : Node) → is_null n ≡ true → bottom n ≡ []
    empty null e = refl
    empty (node is_leaf hash bytes l r) e = cc

-- The places of a queue are nodes of the tree, and this many nodes are below them.
IsQueued : Node → Place → Type 0
IsQueued root place = (node_at root place.0 ≡ place.1) × (is_null place.1 ≡ false)

below : List Place → ℕ
below [] = 0
below ((path, n) ∷ queue) = node_count n + below queue

below-append : (xs ys : List Place) → below (xs ++ ys) ≡ below xs + below ys
unfolding below
below-append [] ys = omega arith
below-append ((path, n) ∷ xs) ys = omega (arith, below-append xs ys)

find_free-IsFree :
    (fuel : ℕ) (root : Node) (queue : List Place)
    → 0 < length queue
    → below queue ≤ fuel
    → All (IsQueued root) queue
    → (path : List Side) × (find_free fuel queue ≡ some path) × IsFree root path
unfolding find_free below IsQueued node_count is_null node_at
find_free-IsFree fuel root [] l h q = absurd (omega arith)
find_free-IsFree fuel root ((path, null) ∷ queue) l h q = cc
find_free-IsFree zero root ((path, node is_leaf hash bytes a b) ∷ queue) l h q =
    absurd (omega arith)
find_free-IsFree (suc fuel) root ((path, node is_leaf hash bytes a b) ∷ queue) l h q =
    elim (Bool-cases (is_null a)) [
      | inl e ↦ (left ∷ path, rw e refl, (rw q.0.0 refl, rw q.0.0 e))
      | inr e ↦ elim (Bool-cases (is_null b)) [
        | inl f ↦ (right ∷ path, rw (e, f) refl, (rw q.0.0 refl, rw q.0.0 f))
        | inr f ↦
            let more : List Place = (left ∷ path, a) ∷ (right ∷ path, b) ∷ [] in
            let s = below-append queue more in
            let t = length-append queue more in
            rw (e, f)
              (find_free-IsFree fuel root (queue ++ more) (omega (arith, t)) (omega (arith, s)) (
                append-All (IsQueued root) queue more q.1
                  ((ap (λ n. child n left) q.0.0, e), ((ap (λ n. child n right) q.0.0, f), tt))))
      ]
    ]

-- In a tree with a node the search on one turn for each node finds a free slot.
pub find_free-root :
    (root : Node)
    → is_null root ≡ false
    → (path : List Side) × (find_free (node_count root) (([], root) ∷ []) ≡ some path)
      × IsFree root path
unfolding IsQueued below node_at
find_free-root root h =
    find_free-IsFree (node_count root) root (([], root) ∷ []) (omega arith) (omega arith)
      ((refl, h), tt)
