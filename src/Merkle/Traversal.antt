-- ===== src/Merkle/Traversal.antt =====
-- The traversal loop of mini-blockchain-core/src/merkle_tree.c, beside a recursive one.
use mini_security_crypto_web.Prelude.{
  ℕ, zero, suc, ◌+◌, ◌≤◌, ◌<◌, ◌≡◌, refl, ◌⊎◌, inl, inr, none, Bool-cases, ap, ◌∙◌, arith, List, [],
  ◌∷◌, ◌++◌, Bool, true, false, some, length, leb,
}
use mini_security_crypto_web.Merkle.{
  traversal_max, Side, left, right, Node, null, node, Place, child, push_left, visit, traverse,
  node_count, leaves_of,
}
use Prim.Native.Nat.{max}
use native.Mathlib.Nat.{le-max_left, le-max_right, max-eq_left, max-eq_right}
use mathlib.Core.List.{append_assoc, append-nil}

-- The leaves of a tree in order, with the pointers to them.
unfoldable pub in_order : List Side → Node → List Place
in_order path null = []
in_order path (node is_leaf hash bytes l r) =
    in_order (left ∷ path) l
    ++ (visit (path, node is_leaf hash bytes l r) ++ in_order (right ∷ path) r)

-- What a stack still has to visit.
pending : List Place → List Place
pending [] = []
pending ((path, n) ∷ stack) =
    visit (path, n) ++ (in_order (right ∷ path) (child n right) ++ pending stack)

-- The turns that a stack takes.
turns : List Place → ℕ
turns [] = 0
turns ((path, n) ∷ stack) = suc (node_count (child n right) + turns stack)

-- The stack entries that a traversal of the tree needs.
unfoldable pub spine : Node → ℕ
spine null = 0
spine (node is_leaf hash bytes l r) = max (suc (spine l)) (spine r)

-- What is left to visit behind each entry finds room on the stack.
Fits : List Place → Type 0
Fits [] = Unit
Fits ((path, n) ∷ stack) = (spine (child n right) + length stack ≤ traversal_max) × Fits stack

-- The stack behind the inner loop, with room for every entry.
pushed : List Side → Node → List Place → List Place
pushed path null stack = stack
pushed path (node is_leaf hash bytes l r) stack =
    pushed (left ∷ path) l ((path, node is_leaf hash bytes l r) ∷ stack)

push_left-pushed :
    (path : List Side) (n : Node) (stack : List Place)
    → spine n + length stack ≤ traversal_max
    → Fits stack
    → (push_left path n stack ≡ some (pushed path n stack)) × Fits (pushed path n stack)
unfolding push_left pushed spine Fits
push_left-pushed path null stack h f = (refl, f)
push_left-pushed path (node is_leaf hash bytes l r) stack h f =
    let a = le-max_left (suc (spine l)) (spine r) in
    let b = le-max_right (suc (spine l)) (spine r) in
    let room : leb traversal_max (length stack) ≡ false = ground (arith, a) in
    let below =
      push_left-pushed (left ∷ path) l ((path, node is_leaf hash bytes l r) ∷ stack)
        (omega (arith, a)) (omega (arith, b), f) in
    (rw room below.0, below.1)

pushed-pending :
    (path : List Side) (n : Node) (stack : List Place)
    → pending (pushed path n stack) ≡ in_order path n ++ pending stack
unfolding pushed in_order pending
pushed-pending path null stack = refl
pushed-pending path (node is_leaf hash bytes l r) stack =
    pushed-pending (left ∷ path) l ((path, node is_leaf hash bytes l r) ∷ stack)
    ∙ rw
        (
          append_assoc (in_order (left ∷ path) l)
              (visit (path, node is_leaf hash bytes l r) ++ in_order (right ∷ path) r)
              (pending stack),
          append_assoc (visit (path, node is_leaf hash bytes l r)) (in_order (right ∷ path) r)
              (pending stack),
        )
        refl

pushed-turns :
    (path : List Side) (n : Node) (stack : List Place)
    → turns (pushed path n stack) ≡ node_count n + turns stack
unfolding pushed node_count turns
pushed-turns path null stack = omega arith
pushed-turns path (node is_leaf hash bytes l r) stack =
    omega (arith, pushed-turns (left ∷ path) l ((path, node is_leaf hash bytes l r) ∷ stack))

traverse-pending :
    (fuel : ℕ) (path : List Side) (cur : Node) (stack : List Place)
    → node_count cur + turns stack < fuel
    → spine cur + length stack ≤ traversal_max
    → Fits stack
    → traverse fuel path cur stack ≡ (in_order path cur ++ pending stack, true)
unfolding traverse turns pending Fits
traverse-pending zero path cur stack h room f = absurd (omega arith)
traverse-pending (suc fuel) path cur stack h room f =
    let p = push_left-pushed path cur stack room f in
    let v =
      visited (traverse-pending fuel) (pushed path cur stack)
        (omega (arith, pushed-turns path cur stack)) p.1 in
    rw (traverse, p.0) v ∙ ap (λ places. (places, true)) (pushed-pending path cur stack)
  where
    visited :
        ((at : List Side) (n : Node) (rest : List Place)
          → node_count n + turns rest < fuel
          → spine n + length rest ≤ traversal_max
          → Fits rest
          → traverse fuel at n rest ≡ (in_order at n ++ pending rest, true))
        → (s : List Place) → turns s ≤ fuel
        → Fits s
        → ◌≡◌ {A = List Place × Bool}
            (elim s [
              | [] ↦ ([], true)
              | (at, n) ∷ rest ↦
                  let (later, ended) = traverse fuel (right ∷ at) (child n right) rest in
                  (visit (at, n) ++ later, ended)
            ])
            (pending s, true)
    visited below [] k f = refl
    visited below ((at, n) ∷ rest) k f =
        rw (below (right ∷ at) (child n right) rest (omega arith) f.0 f.1) refl

pub leaves_of-fits :
    (root : Node) → spine root ≤ traversal_max → leaves_of root ≡ (in_order [] root, true)
unfolding leaves_of pending turns Fits
leaves_of-fits root h =
    traverse-pending (suc (node_count root)) [] root [] (omega arith) (omega arith) tt
    ∙ ap (λ places. (places, true)) (append-nil (in_order [] root))

-- What is left to visit behind some entry finds no room on the stack.
Overflows : List Place → Type 0
Overflows [] = ⊥
Overflows ((path, n) ∷ stack) =
    (traversal_max < spine (child n right) + length stack) ⊎ Overflows stack

-- A lack of room stops the inner loop, or is left on its stack.
push_left-Overflows :
    (path : List Side) (n : Node) (stack : List Place)
    → length stack ≤ traversal_max
    → (traversal_max < spine n + length stack) ⊎ Overflows stack
    → (push_left path n stack ≡ none)
      ⊎ ((rest : List Place) × (push_left path n stack ≡ some rest)
          × (length rest ≤ traversal_max)
          × Overflows rest)
unfolding push_left spine Overflows
push_left-Overflows path null stack h (inl o) = absurd (omega arith)
push_left-Overflows path null stack h (inr o) = inr (stack, refl, h, o)
push_left-Overflows path (node is_leaf hash bytes l r) stack h o =
    elim (Bool-cases (leb traversal_max (length stack))) [
      | inl full ↦ inl (rw full refl)
      | inr room ↦ rw room (
          push_left-Overflows (left ∷ path) l ((path, node is_leaf hash bytes l r) ∷ stack)
            (ground arith) (part o))
    ]
  where
    part :
        (traversal_max < max (suc (spine l)) (spine r) + length stack) ⊎ Overflows stack
        → (traversal_max < spine l + suc (length stack))
          ⊎ Overflows ((path, node is_leaf hash bytes l r) ∷ stack)
    part (inr k) = inr (inr k)
    part (inl k) = elim (Bool-cases (leb (spine r) (suc (spine l)))) [
      | inl more ↦
          let m : max (suc (spine l)) (spine r) ≡ suc (spine l) = max-eq_left (ground arith) in
          inl (omega (arith, m))
      | inr less ↦
          let m : max (suc (spine l)) (spine r) ≡ spine r = max-eq_right (ground arith) in
          inr (inl (omega (arith, m)))
    ]

traverse-Overflows :
    (fuel : ℕ) (path : List Side) (cur : Node) (stack : List Place)
    → length stack ≤ traversal_max
    → (traversal_max < spine cur + length stack) ⊎ Overflows stack
    → (traverse fuel path cur stack).1 ≡ false
unfolding traverse Overflows
traverse-Overflows zero path cur stack h o = refl
traverse-Overflows (suc fuel) path cur stack h o = elim (push_left-Overflows path cur stack h o) [
  | inl e ↦ rw (traverse, e) refl
  | inr ([], e, l, k) ↦ absurd k
  | inr ((at, n) ∷ rest, e, l, k) ↦
      rw (traverse, e) (traverse-Overflows fuel (right ∷ at) (child n right) rest (omega arith) k)
]

-- Where no part of the tree needs more than the 1024 entries of the stack, the traversal with the
-- explicit stack, on one turn more than there are nodes, ends and has visited all leaves in order;
-- otherwise it writes behind its stack. A node needs an entry and its left child's, or its right
-- child's if these are more.
pub leaves_of-in_order :
    (root : Node)
    → ((spine root ≤ traversal_max) × (leaves_of root ≡ (in_order [] root, true)))
      ⊎ ((traversal_max < spine root) × ((leaves_of root).1 ≡ false))
unfolding leaves_of
leaves_of-in_order root = elim (Bool-cases (leb (spine root) traversal_max)) [
  | inl few ↦ let h : spine root ≤ traversal_max = ground arith in inl (h, leaves_of-fits root h)
  | inr many ↦
      let h : traversal_max < spine root = ground arith in
      inr
        (h, traverse-Overflows (suc (node_count root)) [] root [] (omega arith) (inl (omega arith)))
]
