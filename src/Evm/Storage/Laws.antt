-- ===== src/Evm/Storage/Laws.antt =====
-- The storage is a map from words to words with room for 256 keys.
use mini_security_crypto_web.Prelude.{
  ℕ, ◌+◌, ◌≤◌, ◌<◌, ◌≡◌, ◌⊎◌, true, false, [], ◌∷◌, arith, if◌then◌else◌, length,
}
use mini_security_crypto_web.Evm.Word.{U256, cmp}
use mini_security_crypto_web.Evm.Word.Compare.{cmp_refl, cmp-equal}
use mini_security_crypto_web.Evm.Storage.{
  Storage, storage_max, is_equal, storage_get, storage_set, set_slot,
}

is_equal_iff : (a b : U256) → is_equal (cmp a b) ≡ true → a ≡ b
is_equal_iff a b h = cmp-equal a b (ground arith)

get-set_slot :
    (n : ℕ) (s : Storage) (key value other : U256)
    → ((storage_get s key).0 ≡ true) ⊎ (n < storage_max)
    → storage_get (set_slot n s key value) other
      ≡ (if is_equal (cmp key other) then (true, value) else storage_get s other)
unfolding storage_get set_slot
get-set_slot n [] key value other h = ground arith
get-set_slot n ((k, v) ∷ s) key value other h = ground (
  arith,
  get-set_slot n s key value other,
  is_equal_iff k key,
  is_equal_iff key other,
  is_equal_iff k other,
  cmp_refl k,
)

-- If the key has a slot or a slot is free, then after `storage_set` a read of the key finds the
-- value, and a read of any other key gives what it gave before.
pub get-set :
    (s : Storage) (key value other : U256)
    → ((storage_get s key).0 ≡ true) ⊎ (length s < storage_max)
    → storage_get (storage_set s key value) other
      ≡ (if is_equal (cmp key other) then (true, value) else storage_get s other)
unfolding storage_set
get-set s key value other h = get-set_slot (length s) s key value other h

set_slot_full :
    (n : ℕ) (s : Storage) (key value : U256)
    → (storage_get s key).0 ≡ false
    → storage_max ≤ n
    → set_slot n s key value ≡ s
unfolding storage_get set_slot
set_slot_full n [] key value h k = ground arith
set_slot_full n ((j, v) ∷ s) key value h k = ground (arith, set_slot_full n s key value)

-- With all 256 slots in use, `storage_set` of a key that has none drops the write.
pub set_full :
    (s : Storage) (key value : U256)
    → (storage_get s key).0 ≡ false
    → storage_max ≤ length s
    → storage_set s key value ≡ s
unfolding storage_set
set_full s key value h k = set_slot_full (length s) s key value h k

length-set_slot :
    (n : ℕ) (s : Storage) (key value : U256)
    → (length (set_slot n s key value) ≡ length s)
      ⊎ ((length (set_slot n s key value) ≡ length s + 1) × (n < storage_max))
unfolding set_slot
length-set_slot n [] key value = ground arith
length-set_slot n ((k, v) ∷ s) key value = ground (arith, length-set_slot n s key value)

pub length-storage_set :
    (s : Storage) (key value : U256)
    → length s ≤ storage_max
    → length (storage_set s key value) ≤ storage_max
unfolding storage_set
length-storage_set s key value h = omega (arith, length-set_slot (length s) s key value)
