-- ===== src/Evm/Memory.antt =====
-- `evm_memory_t` and `memory_store`, `memory_load`, `memory_expand` of
-- mini-smart-contract-sec/src/evm_sim.c. `data` is a function from positions to bytes; `none` is an
-- access outside of `data`, which the code does not prevent where `offset + len` wraps.
pub mod Access
use mini_security_crypto_web.Prelude.{
  ℕ, zero, suc, ◌+◌, ◌-◌, ◌*◌, Option, none, some, List, [], ◌∷◌, ◌&&◌, ltb, leb, if◌then◌else◌,
  length, get_or, replicate, add64,
}

abbrev pub mem_max : ℕ
mem_max = 1024 * 1024

pub record Memory : Type 0 where
  pub bytes : ℕ → ℕ
  pub size : ℕ

-- `memcpy(m->data + offset, data, len)`
abbrev pub write : (ℕ → ℕ) → ℕ → List ℕ → ℕ → ℕ
write bytes offset block i =
    if leb offset i && ltb i (offset + length block) then get_or block (i - offset) 0 else bytes i

-- `memcpy(data, m->data + offset, len)`
abbrev pub read : (ℕ → ℕ) → ℕ → ℕ → List ℕ
read bytes offset zero = []
read bytes offset (suc len) = bytes offset ∷ read bytes (offset + 1) len

unfoldable pub memory_store : Memory → ℕ → List ℕ → Option Memory
memory_store m offset block =
    let end = add64 offset (length block) in
    if ltb mem_max end
    then some m
    else if ltb mem_max (offset + length block)
    then none
    else some (record {
      bytes = write m.bytes offset block;
      size = if ltb m.size end then end else m.size;
    })

unfoldable pub memory_load : Memory → ℕ → ℕ → Option (List ℕ)
memory_load m offset len =
    let end = add64 offset len in
    if ltb m.size end
    then some (replicate len 0)
    else if ltb mem_max (offset + len)
    then none
    else some (read m.bytes offset len)

unfoldable pub memory_expand : Memory → ℕ → Memory
memory_expand m new_size =
    if ltb mem_max new_size
    then m
    else if ltb m.size new_size
    then record { bytes = write m.bytes m.size (replicate (new_size - m.size) 0); size = new_size }
    else m
