-- ===== src/Evm/Machine/Invariant.antt =====
-- The sizes that every step keeps within the arrays of `evm_t`.
use mini_security_crypto_web.Prelude.{
  ℕ, ◌+◌, ◌≤◌, ◌≡◌, refl, ◌⊎◌, inl, inr, Option-cases, u64_mod, arith, List, length, length-take,
  get_or,
}
use mini_security_crypto_web.Evm.Word.{to_bytes}
use mini_security_crypto_web.Evm.Word.Bytes.{length-to_bytes}
use mini_security_crypto_web.Evm.Stack.{
  stack_max, length-push, length-dup, length-swap, length-pop, pop,
}
use mini_security_crypto_web.Evm.Memory.{mem_max, memory_store, memory_load}
use mini_security_crypto_web.Evm.Memory.Access.{store-size, store-none, load-none}
use mini_security_crypto_web.Evm.Storage.{storage_max}
use mini_security_crypto_web.Evm.Storage.Laws.{length-storage_set}
use mini_security_crypto_web.Evm.Machine.{
  Evm, Instr, op_stop, op_mstore, op_mload, decode, evm_init, step_cost,
}
use mini_security_crypto_web.Evm.Machine.Step.{
  Outcome, running, halted, fault, exec, charged, store_word, load_word, charge_and_exec, evm_step,
}

pub record IsBounded (e : Evm) : Type 0 where
  pub code_fits : length e.code ≤ 65536
  pub stack_fits : length e.stack ≤ stack_max
  pub memory_fits : e.memory.size ≤ mem_max
  pub storage_fits : length e.storage ≤ storage_max

-- The machine that an instruction leaves is within bounds. Only MSTORE and MLOAD fault, and only
-- where the end of their word reaches or passes 2 ^ 64.
abbrev pub LeavesBounded : Instr → Evm → Outcome → Type 0
LeavesBounded i e (running e') = IsBounded e'
LeavesBounded i e (halted e') = IsBounded e'
LeavesBounded i e fault = ((i ≡ op_mstore) ⊎ (i ≡ op_mload)) × (u64_mod ≤ (pop e.stack).0.w0 + 32)

ruleset sizes =
    (arith, length-push, length-dup, length-swap, length-pop, store-size, length-storage_set)

store_word-IsBounded :
    (e : Evm)
    → IsBounded e
    → let (a, s) = pop e.stack in
      let (b, t) = pop s in LeavesBounded op_mstore e (store_word e a b t)
store_word-IsBounded e h =
    let (a, s) = pop e.stack in
    let (b, t) = pop s in
    elim (Option-cases (memory_store e.memory a.w0 (to_bytes b))) [
      | inl q ↦
          rw (store_word, LeavesBounded, q)
            (inl refl, omega (arith, store-none e.memory a.w0 (to_bytes b) q, length-to_bytes b))
      | inr (m, q) ↦ rw (store_word, LeavesBounded, q) (grind sizes)
    ]

load_word-IsBounded :
    (e : Evm) → IsBounded e → let (a, s) = pop e.stack in LeavesBounded op_mload e (load_word e a s)
load_word-IsBounded e h =
    let (a, s) = pop e.stack in
    elim (Option-cases (memory_load e.memory a.w0 32)) [
      | inl q ↦
          rw (load_word, LeavesBounded, q) (inr refl, load-none e.memory a.w0 32 h.memory_fits q)
      | inr (bytes, q) ↦ rw (load_word, LeavesBounded, q) (grind sizes)
    ]

exec-IsBounded : (op : ℕ) (i : Instr) (e : Evm) → IsBounded e → LeavesBounded i e (exec op i e)
unfolding exec
exec-IsBounded op op_stop e h = h
exec-IsBounded op op_mstore e h = store_word-IsBounded e h
exec-IsBounded op op_mload e h = load_word-IsBounded e h
exec-IsBounded op i e h = grind sizes

charge_and_exec-IsBounded :
    (e : Evm) (op : ℕ) → IsBounded e → LeavesBounded (decode op) e (charge_and_exec e op)
unfolding charge_and_exec
charge_and_exec-IsBounded e op h =
    let paid : IsBounded (charged e (step_cost op)) = omega arith in
    ground (arith, exec-IsBounded op (decode op) (charged e (step_cost op)) paid)

-- From a machine whose stack, memory, storage and code lie within their arrays, a step leaves one
-- whose stack, memory, storage and code do, or it faults: it reads or writes outside of the memory
-- array. It faults only on an MSTORE or MLOAD whose offset is so near 2 ^ 64 that the end of the word
-- reaches or passes it.
pub evm_step-IsBounded :
    (e : Evm) → IsBounded e → LeavesBounded (decode (get_or e.code e.pc 0)) e (evm_step e)
unfolding evm_step
evm_step-IsBounded e h = ground (arith, charge_and_exec-IsBounded e (get_or e.code e.pc 0) h)

pub evm_init-IsBounded : (code : List ℕ) → IsBounded (evm_init code)
unfolding evm_init
evm_init-IsBounded code = omega (arith, length-take 65536 code)
