-- ===== src/Utxo/Set.antt =====
-- The set as a map from outpoints to entries.
use mini_security_crypto_web.Prelude.{
  ℕ, suc, ◌≡◌, ◌≢◌, refl, ap, true, false, ◌&&◌, none, some, List, [], ◌∷◌, ◌++◌, arith, ◌==◌,
  Option-cases, ◌⊎◌, inl, inr, length, if◌then◌else◌,
}
use mini_security_crypto_web.Prelude.ByteString.{bytes_eq, bytes_eq_iff, bytes_eq_refl}
use mini_security_crypto_web.Utxo.{
  UtxoSet, Entry, ok, failed, unspent, set_add, is_at, find_from, set_find, remove_from, set_remove,
  spend_from, set_spend, set_is_spent,
}

is_at-other :
    (t t' : List ℕ) (v v' : ℕ) (e : Entry)
    → bytes_eq t t' && (v == v') ≡ false
    → is_at t v e ≡ true
    → is_at t' v' e ≡ false
is_at-other t t' v v' e ne h =
    let p : bytes_eq e.txid t ≡ true = ground arith in
    let q : e.txid ≡ t = (bytes_eq_iff e.txid t).0 p in
    let r : bytes_eq e.txid t' ≡ bytes_eq t t' = ap (λ x. bytes_eq x t') q in ground (arith, r)

find_from-append :
    (es : List Entry) (e : Entry) (t : List ℕ) (v : ℕ)
    → find_from es t v ≡ none
    → find_from (es ++ (e ∷ [])) t v ≡ (if is_at t v e then some e else none)
unfolding find_from
find_from-append [] e t v h = refl
find_from-append (x ∷ es) e t v h = ground (arith, find_from-append es e t v)

find_from-append_other :
    (es : List Entry) (e : Entry) (t : List ℕ) (v : ℕ)
    → is_at t v e ≡ false
    → find_from (es ++ (e ∷ [])) t v ≡ find_from es t v
unfolding find_from
find_from-append_other [] e t v h = ground arith
find_from-append_other (x ∷ es) e t v h = ground (arith, find_from-append_other es e t v h)

-- Adding an entry at an outpoint that the set does not have, where the array can grow, makes the
-- set find it there, not spent, and find what it found at every other outpoint.
pub set_find-set_add :
    (set : UtxoSet) (e : Entry) (t : List ℕ) (v : ℕ)
    → set_find set e.txid e.vout ≡ none
    → is_at t v e ≡ false
    → let (code, set') = set_add set e true in
      (code ≡ ok)
      × (set_find set' e.txid e.vout ≡ some (unspent e))
      × (set_find set' t v ≡ set_find set t v)
unfolding set_add set_find
set_find-set_add set e t v h ne =
    let s = bytes_eq_refl e.txid in
    (
      ground arith,
      ground (arith, s, find_from-append set.entries (unspent e) e.txid e.vout h),
      ground (arith, find_from-append_other set.entries (unspent e) t v ne),
    )

spend_from-find :
    (es fs : List Entry) (e : Entry) (t : List ℕ) (v : ℕ)
    → find_from es t v ≡ some e
    → spend_from es t v ≡ some fs
    → (e.spent ≡ false) × (find_from fs t v ≡ some (record e { spent = true }))
unfolding find_from spend_from
spend_from-find [] fs e t v h k = cc
spend_from-find (x ∷ es) fs e t v h k = elim (Option-cases (spend_from es t v)) [
  | inl q ↦ ground arith
  | inr (gs, q) ↦ ground (arith, spend_from-find es gs e t v)
]

spend_from-other :
    (es fs : List Entry) (t t' : List ℕ) (v v' : ℕ)
    → bytes_eq t t' && (v == v') ≡ false
    → spend_from es t v ≡ some fs
    → find_from fs t' v' ≡ find_from es t' v'
unfolding find_from spend_from
spend_from-other [] fs t t' v v' ne k = cc
spend_from-other (x ∷ es) fs t t' v v' ne k = elim (Option-cases (spend_from es t v)) [
  | inl q ↦ ground (arith, is_at-other t t' v v' x ne)
  | inr (gs, q) ↦ ground (arith, is_at-other t t' v v' x ne, spend_from-other es gs t t' v v' ne q)
]

spend_from-none :
    (es : List Entry) (e : Entry) (t : List ℕ) (v : ℕ)
    → find_from es t v ≡ some e
    → spend_from es t v ≡ none
    → e.spent ≡ true
unfolding find_from spend_from
spend_from-none [] e t v h k = cc
spend_from-none (x ∷ es) e t v h k = elim (Option-cases (spend_from es t v)) [
  | inl q ↦ ground (arith, spend_from-none es e t v)
  | inr (gs, q) ↦ ground arith
]

spend_from-spent :
    (es : List Entry) (e : Entry) (t : List ℕ) (v : ℕ)
    → find_from es t v ≡ some e
    → e.spent ≡ true
    → spend_from es t v ≡ none
unfolding find_from spend_from
spend_from-spent [] e t v h k = cc
spend_from-spent (x ∷ es) e t v h k = elim (Option-cases (spend_from es t v)) [
  | inl q ↦ ground arith
  | inr (gs, q) ↦ ground (arith, spend_from-spent es e t v)
]

-- An unspent output is spent once: `set_spend` succeeds on it, marks it and nothing else, and fails
-- on it from then on.
pub spend_once :
    (set : UtxoSet) (e : Entry) (t t' : List ℕ) (v v' : ℕ)
    → set_find set t v ≡ some e
    → e.spent ≡ false
    → bytes_eq t t' && (v == v') ≡ false
    → let (code, set') = set_spend set t v in
      (code ≡ ok)
      × (set_is_spent set t v ≡ false)
      × (set_is_spent set' t v ≡ true)
      × (set_find set' t' v' ≡ set_find set t' v')
      × (set_spend set' t v ≡ (failed, set'))
unfolding set_spend set_find set_is_spent
spend_once set e t t' v v' h u ne = elim (Option-cases (spend_from set.entries t v)) [
  | inl q ↦ ground (arith, spend_from-none set.entries e t v h q)
  | inr (fs, q) ↦
      let (s, f) = spend_from-find set.entries fs e t v h q in
      let o = spend_from-other set.entries fs t t' v v' ne q in
      let again : spend_from fs t v ≡ none =
        spend_from-spent fs (record e { spent = true }) t v f refl in
      (ground arith, ground arith, ground arith, ground arith, ground arith)
]

remove_from-other :
    (es fs : List Entry) (t t' : List ℕ) (v v' : ℕ)
    → bytes_eq t t' && (v == v') ≡ false
    → remove_from es t v ≡ some fs
    → (find_from fs t' v' ≡ find_from es t' v') × (length es ≡ suc (length fs))
unfolding find_from remove_from
remove_from-other [] fs t t' v v' ne k = cc
remove_from-other (x ∷ es) fs t t' v v' ne k = elim (Option-cases (remove_from es t v)) [
  | inl q ↦ ground (arith, is_at-other t t' v v' x ne)
  | inr (gs, q) ↦ ground (arith, is_at-other t t' v v' x ne, remove_from-other es gs t t' v v' ne q)
]

remove_from-find :
    (es : List Entry) (t : List ℕ) (v : ℕ)
    → (remove_from es t v ≡ none → find_from es t v ≡ none)
      × (find_from es t v ≡ none → remove_from es t v ≡ none)
unfolding find_from remove_from
remove_from-find [] t v = (λ h. refl, λ h. refl)
remove_from-find (x ∷ es) t v =
    let (f, g) = remove_from-find es t v in (λ h. ground (arith, f), λ h. ground (arith, g))

-- `set_remove` fails where the set has no entry; elsewhere it takes one entry out, and the set finds
-- what it found at every other outpoint.
pub set_remove_takes_one :
    (set : UtxoSet) (t t' : List ℕ) (v v' : ℕ)
    → bytes_eq t t' && (v == v') ≡ false
    → let (code, set') = set_remove set t v in
      (((code ≡ failed) × (set_find set t v ≡ none) × (set' ≡ set))
        ⊎ ((code ≡ ok)
            × (set_find set t v ≢ none)
            × (length set.entries ≡ suc (length set'.entries))))
      × (set_find set' t' v' ≡ set_find set t' v')
unfolding set_remove set_find
set_remove_takes_one set t t' v v' ne =
    let (f, g) = remove_from-find set.entries t v in
    elim (Option-cases (remove_from set.entries t v)) [
      | inl q ↦ (ground (arith, f q), ground arith)
      | inr (fs, q) ↦
          let (o, l) = remove_from-other set.entries fs t t' v v' ne q in
          (inr (ground arith, λ z. ground (arith, g z), ground (arith, l)), ground (arith, o))
    ]
