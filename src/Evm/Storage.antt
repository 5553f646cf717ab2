-- ===== src/Evm/Storage.antt =====
-- `evm_storage_t` and `storage_get`, `storage_set`, `storage_clear` of
-- mini-smart-contract-sec/src/evm_sim.c: the slots in use, in order.
pub mod Laws
use mini_security_crypto_web.Prelude.{
  ℕ, zero, suc, ◌+◌, Bool, true, false, List, [], ◌∷◌, ◌++◌, leb, if◌then◌else◌, length,
}
use mini_security_crypto_web.Evm.Word.{U256, u256_zero, Order, equal, cmp}

abbrev pub storage_max : ℕ
storage_max = 256

abbrev pub Storage : Type 0
Storage = List (U256 × U256)

abbrev pub is_equal : Order → Bool
is_equal equal = true
is_equal _ = false

-- The result, and what is written to `*value`.
pub storage_get : Storage → U256 → Bool × U256
storage_get [] key = (false, u256_zero)
storage_get ((k, v) ∷ s) key = if is_equal (cmp k key) then (true, v) else storage_get s key

-- `count` is the number of slots in use, so that the array is full at `storage_max`.
pub set_slot : ℕ → Storage → U256 → U256 → Storage
set_slot count [] key value = if leb storage_max count then [] else (key, value) ∷ []
set_slot count ((k, v) ∷ s) key value =
    if is_equal (cmp k key) then (k, value) ∷ s else (k, v) ∷ set_slot count s key value

unfoldable pub storage_set : Storage → U256 → U256 → Storage
unfolding set_slot
storage_set s key value = set_slot (length s) s key value

unfoldable pub storage_clear : Storage → Storage
storage_clear s = []
