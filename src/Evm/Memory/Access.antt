-- ===== src/Evm/Memory/Access.antt =====
-- What a store leaves for later loads, and which accesses leave the array.
use mathlib.Core.Path.{ap₂}
use mini_security_crypto_web.Prelude.{
  ℕ, zero, suc, ◌+◌, ◌-◌, ◌≤◌, ◌<◌, ◌≡◌, refl, ap, ◌∙◌, ◌⊎◌, false, none, some, List, [], ◌∷◌,
  arith, ltb, if◌then◌else◌, length, get_or, u64_mod, IsU64, add64,
}
use mini_security_crypto_web.Evm.Memory.{Memory, mem_max, memory_store, memory_load, write, read}

get_or_suc : (x : ℕ) (xs : List ℕ) (n : ℕ) → 0 < n → get_or (x ∷ xs) n 0 ≡ get_or xs (n - 1) 0
get_or_suc x xs zero h = elim h [ ]
get_or_suc x xs (suc n) h = ap (λ k. get_or xs k 0) (omega arith)

read_agree :
    (f : ℕ → ℕ) (block : List ℕ) (offset : ℕ)
    → ((i : ℕ) → offset ≤ i → i < offset + length block → f i ≡ get_or block (i - offset) 0)
    → read f offset (length block) ≡ block
read_agree f [] offset h = refl
read_agree f (b ∷ block) offset h = ap₂ ◌∷◌ first (read_agree f block (offset + 1) later)
  where
    none_before : offset - offset ≡ 0
    none_before = omega arith

    first : f offset ≡ b
    first = h offset (omega arith) (omega arith) ∙ ap (λ k. get_or (b ∷ block) k 0) none_before

    sub_one : (i : ℕ) → i - offset - 1 ≡ i - (offset + 1)
    sub_one i = omega arith

    later :
        (i : ℕ)
        → offset + 1 ≤ i
        → i < offset + 1 + length block
        → f i ≡ get_or block (i - (offset + 1)) 0
    later i lo hi =
        h i (omega arith) (omega arith)
        ∙ get_or_suc b block (i - offset) (omega arith)
        ∙ ap (λ k. get_or block k 0) (sub_one i)

write_in :
    (f : ℕ → ℕ) (offset : ℕ) (block : List ℕ) (i : ℕ)
    → offset ≤ i
    → i < offset + length block
    → write f offset block i ≡ get_or block (i - offset) 0
write_in f offset block i lo hi = ground arith

write_out :
    (f : ℕ → ℕ) (offset : ℕ) (block : List ℕ) (i : ℕ)
    → (i < offset) ⊎ (offset + length block ≤ i)
    → write f offset block i ≡ f i
write_out f offset block i h = ground arith

abbrev grown : Memory → ℕ → List ℕ → Memory
grown m offset block = record {
  bytes = write m.bytes offset block;
  size = if ltb m.size (offset + length block) then offset + length block else m.size;
}

pub load-store :
    (m : Memory) (offset : ℕ) (block : List ℕ)
    → offset + length block ≤ mem_max
    → (m' : Memory) × (memory_store m offset block ≡ some m')
      × (memory_load m' offset (length block) ≡ some block)
      × ((i : ℕ) → (i < offset) ⊎ (offset + length block ≤ i) → m'.bytes i ≡ m.bytes i)
unfolding memory_store memory_load
load-store m offset block h = (
  grown m offset block,
  rw (no_wrap, lt_max) refl,
  rw (no_wrap, lt_max, in_size) (ap some seen),
  write_out m.bytes offset block,
)
  where
    no_wrap : add64 offset (length block) ≡ offset + length block
    no_wrap = omega arith

    lt_max : ltb mem_max (offset + length block) ≡ false
    lt_max = ground arith

    in_size : ltb (grown m offset block).size (offset + length block) ≡ false
    in_size = ground arith

    seen : read (write m.bytes offset block) offset (length block) ≡ block
    seen = read_agree (write m.bytes offset block) block offset (write_in m.bytes offset block)

-- If `memory_store` writes a block that ends within the memory's limit, `memory_load` of the same
-- place returns that block, and a byte at a position outside of the place is as before.
pub memory_load-memory_store :
    (m : Memory) (offset : ℕ) (block : List ℕ) (i : ℕ)
    → offset + length block ≤ mem_max
    → (i < offset) ⊎ (offset + length block ≤ i)
    → (m' : Memory) × (memory_store m offset block ≡ some m')
      × (memory_load m' offset (length block) ≡ some block)
      × (m'.bytes i ≡ m.bytes i)
memory_load-memory_store m offset block i h outside =
    let (m', stores, loads, same) = load-store m offset block h in
    (m', stores, loads, same i outside)

-- A store keeps the size of the memory within its limit.
pub store-size :
    (m m' : Memory) (offset : ℕ) (block : List ℕ)
    → m.size ≤ mem_max
    → memory_store m offset block ≡ some m'
    → m'.size ≤ mem_max
unfolding memory_store
store-size m m' offset block h e = ground arith

-- A store that leaves the array wraps.
pub store-none :
    (m : Memory) (offset : ℕ) (block : List ℕ)
    → memory_store m offset block ≡ none
    → u64_mod ≤ offset + length block
unfolding memory_store
store-none m offset block e = ground arith

-- And so does a load.
pub load-none :
    (m : Memory) (offset len : ℕ)
    → m.size ≤ mem_max
    → memory_load m offset len ≡ none
    → u64_mod ≤ offset + len
unfolding memory_load
load-none m offset len h e = ground arith

-- An offset so near 2 ^ 64 that `offset + len` wraps passes the check of `memory_store` and writes
-- outside of the array.
pub store_wraps :
    (m : Memory) (offset : ℕ) (block : List ℕ)
    → IsU64 offset
    → length block ≤ mem_max
    → u64_mod ≤ offset + length block
    → memory_store m offset block ≡ none
unfolding memory_store
store_wraps m offset block ho hl h = ground arith
