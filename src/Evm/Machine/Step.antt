-- ===== src/Evm/Machine/Step.antt =====
-- `evm_step` of mini-smart-contract-sec/src/evm_sim.c: the charge, then the case of the `switch`.
use mini_security_crypto_web.Prelude.{
  ℕ, ◌+◌, ◌-◌, ◌%◌, ◌^◌, Bool, true, ◌||◌, not, none, some, List, [], ltb, leb, if◌then◌else◌,
  length, get_or, take, drop, add64,
}
use mini_security_crypto_web.Evm.Word.{
  U256, u256_zero, set64, cmp, is_zero, add, sub, mul, from_bytes, to_bytes,
}
use mini_security_crypto_web.Evm.Stack.{push, pop, dup, swap}
use mini_security_crypto_web.Evm.Memory.{memory_store, memory_load}
use mini_security_crypto_web.Evm.Storage.{is_equal, storage_get, storage_set}
use mini_security_crypto_web.Evm.Machine.{
  Evm, step_cost, out_of_gas, reverted_at, invalid_opcode, decode, Instr, op_stop, op_add, op_mul,
  op_sub, op_caller, op_callvalue, op_calldataload, op_calldatasize, op_sload, op_sstore, op_mstore,
  op_mload, op_return, op_revert, op_selfdestruct, op_jump, op_jumpi, op_jumpdest, op_eq, op_iszero,
  op_call, op_delegatecall, op_gas, op_pc, op_push, op_dup, op_swap, op_invalid,
}

-- What `evm_step` returns, with the machine it leaves: `running` for true, `halted` for false.
-- `fault` is an access outside of the memory array, which C does not define.
pub data Outcome : Type 0 where
  running halted : Evm → Outcome
  fault : Outcome

-- The `evm->pc++` behind the `switch`.
abbrev pub next : Evm → Outcome
next e = running (record e { pc = e.pc + 1 })

-- `stack_push` on the machine's stack.
abbrev pub push_word : Evm → List U256 → U256 → Evm
push_word e s v = record e { stack = push s v }

abbrev pub bool_word : Bool → U256
bool_word b = set64 (if b then 1 else 0)

-- `stack_pop` into `b`, then into `a`, and a push of `f a b`.
abbrev pub binary : (U256 → U256 → U256) → Evm → Outcome
binary f e = let (b, s) = pop e.stack in let (a, t) = pop s in next (push_word e t (f a b))

-- A call is not made: its operands are dropped and 1 is pushed.
abbrev pub stub_call : Evm → Outcome
stub_call e = next (push_word e (pop (pop e.stack).1).1 (set64 1))

abbrev pub store_word : Evm → U256 → U256 → List U256 → Outcome
store_word e a b s = elim (memory_store e.memory a.w0 (to_bytes b)) [
  | none ↦ fault
  | some m ↦ next (record e { stack = s; memory = m })
]

abbrev pub load_word : Evm → U256 → List U256 → Outcome
load_word e a s = elim (memory_load e.memory a.w0 32) [
  | none ↦ fault
  | some word ↦ next (push_word e s (from_bytes word))
]

-- `evm->pc = (int)(a.w[0] & 0xFFFF)`
abbrev pub jump_to : Evm → U256 → List U256 → Outcome
jump_to e a s = running (record e { stack = s; pc = a.w0 % 2 ^ 16 })

-- The immediate bytes of PUSHn are read if they all lie in the code.
abbrev pub immediate : Evm → ℕ → U256
immediate e n =
    if leb (e.pc + 1 + n) (length e.code)
    then from_bytes (take n (drop (e.pc + 1) e.code))
    else u256_zero

-- The `switch`, for the opcode `op` that `decode` has read.
unfoldable pub exec : ℕ → Instr → Evm → Outcome
exec op op_stop e = halted e
exec op op_add e = binary add e
exec op op_mul e = binary mul e
exec op op_sub e = binary sub e
exec op op_caller e = next (push_word e e.stack (from_bytes e.ctx.caller))
exec op op_callvalue e = next (push_word e e.stack e.ctx.value)
exec op op_calldataload e =
    let (a, s) = pop e.stack in
    next (
      push_word e s
        (if ltb a.w0 (length e.calldata) then from_bytes (drop a.w0 e.calldata) else u256_zero))
exec op op_calldatasize e = next (push_word e e.stack (set64 (length e.calldata)))
exec op op_sload e =
    let (a, s) = pop e.stack in
    next (record e { stack = push s (storage_get e.storage a).1; sload_count = e.sload_count + 1 })
exec op op_sstore e =
    let (a, s) = pop e.stack in
    let (b, t) = pop s in
    next (record e {
      stack = t;
      storage = storage_set e.storage a b;
      sstore_count = e.sstore_count + 1;
    })
exec op op_mstore e = let (a, s) = pop e.stack in let (b, t) = pop s in store_word e a b t
exec op op_mload e = let (a, s) = pop e.stack in load_word e a s
exec op op_return e = halted (record e { returndata = [] })
exec op op_revert e = halted (record e { reverted = true; revert_reason = reverted_at e.pc })
exec op op_selfdestruct e =
    let (a, s) = pop e.stack in
    halted
      (record e { stack = s; beneficiary = take 20 (drop 12 (to_bytes a)); selfdestructed = true })
exec op op_jump e = let (a, s) = pop e.stack in jump_to e a s
exec op op_jumpi e =
    let (a, s) = pop e.stack in
    let (b, t) = pop s in if not (is_zero b) then jump_to e a t else next (record e { stack = t })
exec op op_jumpdest e = next e
exec op op_eq e = binary (λ a b. bool_word (is_equal (cmp a b))) e
exec op op_iszero e = let (a, s) = pop e.stack in next (push_word e s (bool_word (is_zero a)))
exec op op_call e = stub_call e
exec op op_delegatecall e = stub_call e
exec op op_gas e = next (push_word e e.stack (set64 e.gas))
exec op op_pc e = next (push_word e e.stack (set64 e.pc))
exec op (op_push n) e = running (record e { stack = push e.stack (immediate e n); pc = e.pc + n })
exec op (op_dup n) e = next (record e { stack = dup e.stack n })
exec op (op_swap n) e = next (record e { stack = swap e.stack n })
exec op op_invalid e = halted (record e { reverted = true; revert_reason = invalid_opcode op e.pc })

-- `evm_charge_gas`, for a cost that the machine has.
abbrev pub charged : Evm → ℕ → Evm
charged e cost = record e { gas = e.gas - cost; gas_used = add64 e.gas_used cost }

-- The opcode at `pc`, charged and executed; without the gas the machine reverts.
unfoldable pub charge_and_exec : Evm → ℕ → Outcome
charge_and_exec e op =
    let cost = step_cost op in
    if ltb e.gas cost
    then halted (record e { reverted = true; revert_reason = out_of_gas })
    else exec op (decode op) (charged e cost)

unfoldable pub evm_step : Evm → Outcome
unfolding charge_and_exec
evm_step e =
    if e.reverted || e.selfdestructed
    then halted e
    else if leb (length e.code) e.pc
    then halted e
    else charge_and_exec e (get_or e.code e.pc 0)
