-- ===== src/Evm/Machine/Data.antt =====
-- Memory and storage as a program sees them: a load gives what the store wrote.
use mini_security_crypto_web.Prelude.{
  ℕ, ◌+◌, ◌≤◌, ◌<◌, ◌≡◌, ◌⊎◌, refl, sym, ap, ◌∙◌, true, some, none, List, ◌∷◌, arith, length,
  u64_mod, IsU64,
}
use mini_security_crypto_web.Evm.Word.{U256, from_bytes, to_bytes}
use mini_security_crypto_web.Evm.Word.Value.{IsWord}
use mini_security_crypto_web.Evm.Word.Compare.{cmp_refl}
use mini_security_crypto_web.Evm.Word.Bytes.{from_bytes-to_bytes, length-to_bytes}
use mini_security_crypto_web.Evm.Stack.{push, pop}
use mini_security_crypto_web.Evm.Memory.{Memory, mem_max, memory_store, memory_load}
use mini_security_crypto_web.Evm.Memory.Access.{load-store, store_wraps}
use mini_security_crypto_web.Evm.Storage.{storage_max, storage_get, storage_set}
use mini_security_crypto_web.Evm.Storage.Laws.{get-set}
use mini_security_crypto_web.Evm.Machine.{Evm, op_mstore, op_mload, op_sstore, op_sload}
use mini_security_crypto_web.Evm.Machine.Step.{running, fault, next, store_word, load_word, exec}

mstore_lem :
    (op : ℕ) (e : Evm) (a b : U256) (s : List U256)
    → e.stack ≡ a ∷ b ∷ s
    → exec op op_mstore e ≡ store_word e a b s
unfolding exec
mstore_lem op e a b s q = ap (λ t. store_word e (pop t).0 (pop (pop t).1).0 (pop (pop t).1).1) q

store_word-some :
    (e : Evm) (a b : U256) (s : List U256) (m : Memory)
    → memory_store e.memory a.w0 (to_bytes b) ≡ some m
    → store_word e a b s ≡ running (record e { stack = s; memory = m; pc = e.pc + 1 })
store_word-some e a b s m h = rw (h, store_word) refl

load_word-some :
    (e : Evm) (a : U256) (s : List U256) (word : List ℕ)
    → memory_load e.memory a.w0 32 ≡ some word
    → load_word e a s ≡ running (record e { stack = push s (from_bytes word); pc = e.pc + 1 })
load_word-some e a s word h = rw (h, load_word) refl

-- MSTORE of a word at an offset whose 32 bytes fit, then MLOAD of that offset, gives the word.
pub mload-mstore :
    (op op' : ℕ) (e : Evm) (a b : U256) (s : List U256)
    → e.stack ≡ a ∷ b ∷ s
    → IsWord b
    → a.w0 + 32 ≤ mem_max
    → (e' : Evm) × (exec op op_mstore e ≡ running e')
      × (exec op' op_mload (record e' { stack = a ∷ s })
          ≡ running (record e' { stack = push s b; pc = e'.pc + 1 }))
unfolding exec
mload-mstore op op' e a b s q h fits = (
  record e { stack = s; memory = t.0; pc = e.pc + 1 },
  mstore_lem op e a b s q ∙ store_word-some e a b s t.0 t.1,
  load_word-some (record e { stack = a ∷ s; memory = t.0; pc = e.pc + 1 }) a s (to_bytes b) loaded
      ∙ ap (λ w. running (record e { stack = push s w; memory = t.0; pc = e.pc + 1 + 1 }))
          (from_bytes-to_bytes b h),
)
  where
    t :
        (m : Memory) × (memory_store e.memory a.w0 (to_bytes b) ≡ some m)
        × (memory_load m a.w0 (length (to_bytes b)) ≡ some (to_bytes b))
        × ((i : ℕ) → (i < a.w0) ⊎ (a.w0 + length (to_bytes b) ≤ i) → m.bytes i ≡ e.memory.bytes i)
    t = load-store e.memory a.w0 (to_bytes b) (omega (arith, length-to_bytes b))

    loaded : memory_load t.0 a.w0 32 ≡ some (to_bytes b)
    loaded = ap (λ n. memory_load t.0 a.w0 n) (sym (length-to_bytes b)) ∙ t.2

-- MSTORE at an offset within 31 of 2 ^ 64 passes the bounds check and writes outside of the array.
pub mstore_faults :
    (op : ℕ) (e : Evm) (a b : U256) (s : List U256)
    → e.stack ≡ a ∷ b ∷ s
    → IsU64 a.w0
    → u64_mod ≤ a.w0 + 32
    → exec op op_mstore e ≡ fault
unfolding exec
mstore_faults op e a b s q h wraps =
    let t : memory_store e.memory a.w0 (to_bytes b) ≡ none =
      store_wraps e.memory a.w0 (to_bytes b) h (omega (arith, length-to_bytes b))
        (omega (arith, length-to_bytes b)) in
    mstore_lem op e a b s q ∙ rw (t, store_word) refl

-- SSTORE of a value at a key that has a slot, or with a slot free, then SLOAD of that key, gives the
-- value.
pub sload-sstore :
    (op op' : ℕ) (e : Evm) (key value : U256) (s : List U256)
    → e.stack ≡ key ∷ value ∷ s
    → ((storage_get e.storage key).0 ≡ true) ⊎ (length e.storage < storage_max)
    → (e' : Evm) × (exec op op_sstore e ≡ running e')
      × (exec op' op_sload (record e' { stack = key ∷ s })
          ≡ running (record e' {
            stack = push s value;
            pc = e'.pc + 1;
            sload_count = e'.sload_count + 1;
          }))
unfolding exec
sload-sstore op op' e key value s q room = (
  record e {
    stack = s;
    storage = storage_set e.storage key value;
    pc = e.pc + 1;
    sstore_count = e.sstore_count + 1;
  },
  ap
      (λ t. next (record e {
        stack = (pop (pop t).1).1;
        storage = storage_set e.storage (pop t).0 (pop (pop t).1).0;
        sstore_count = e.sstore_count + 1;
      }))
      q,
  rw (get-set e.storage key value key room, cmp_refl key) refl,
)
