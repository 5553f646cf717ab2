-- ===== src/Evm/Machine.antt =====
-- `evm_t`, `evm_step` and `evm_execute` of mini-smart-contract-sec/src/evm_sim.c.
pub mod Step
pub mod Gas
pub mod Invariant
pub mod Execute
pub mod Control
pub mod Data
use mini_security_crypto_web.Prelude.{
  ℕ, zero, suc, ◌+◌, ◌-◌, ◌*◌, ◌/◌, ◌%◌, ◌^◌, Bool, true, false, ◌&&◌, ◌||◌, not, Option, none,
  some, List, [], ◌∷◌, ltb, leb, ◌==◌, if◌then◌else◌, length, get_or, take, drop, replicate,
  u64_mod, add64,
}
use mini_security_crypto_web.Evm.Word.{
  U256, u256_zero, set64, cmp, is_zero, add, sub, mul, from_bytes, to_bytes,
}
use mini_security_crypto_web.Evm.Stack.{push, pop, dup, swap}
use mini_security_crypto_web.Evm.Memory.{Memory, memory_store, memory_load}
use mini_security_crypto_web.Evm.Storage.{Storage, is_equal, storage_get, storage_set}

-- `GAS_COST`, the entries that the source gives; every other entry is 0.
abbrev pub gas_table : List (ℕ × ℕ)
gas_table =
    (0x00, 0)
    ∷ (0x01, 3)
    ∷ (0x02, 5)
    ∷ (0x03, 3)
    ∷ (0x04, 5)
    ∷ (0x05, 5)
    ∷ (0x06, 5)
    ∷ (0x07, 5)
    ∷ (0x08, 8)
    ∷ (0x09, 8)
    ∷ (0x0a, 10)
    ∷ (0x10, 3)
    ∷ (0x11, 3)
    ∷ (0x12, 3)
    ∷ (0x13, 3)
    ∷ (0x14, 3)
    ∷ (0x15, 3)
    ∷ (0x16, 3)
    ∷ (0x17, 3)
    ∷ (0x18, 3)
    ∷ (0x19, 3)
    ∷ (0x1b, 3)
    ∷ (0x1c, 3)
    ∷ (0x20, 30)
    ∷ (0x30, 2)
    ∷ (0x31, 400)
    ∷ (0x32, 2)
    ∷ (0x33, 2)
    ∷ (0x34, 2)
    ∷ (0x35, 3)
    ∷ (0x36, 2)
    ∷ (0x37, 3)
    ∷ (0x38, 2)
    ∷ (0x39, 3)
    ∷ (0x3b, 700)
    ∷ (0x3c, 700)
    ∷ (0x51, 3)
    ∷ (0x52, 3)
    ∷ (0x53, 3)
    ∷ (0x54, 200)
    ∷ (0x55, 20000)
    ∷ (0x56, 8)
    ∷ (0x57, 10)
    ∷ (0x58, 2)
    ∷ (0x59, 2)
    ∷ (0x5a, 2)
    ∷ (0x5b, 2)
    ∷ (0xf3, 0)
    ∷ (0xf4, 700)
    ∷ (0xf0, 32000)
    ∷ (0xf1, 700)
    ∷ (0xf2, 700)
    ∷ (0xfd, 0)
    ∷ (0xff, 5000)
    ∷ []

unfoldable pub table_cost : List (ℕ × ℕ) → ℕ → ℕ
table_cost [] op = 0
table_cost ((k, c) ∷ t) op = if k == op then c else table_cost t op

-- The cost that `evm_step` charges: an opcode with no cost of its own costs `GAS_BASE`, but for
-- STOP, RETURN and REVERT.
unfoldable pub step_cost : ℕ → ℕ
unfolding table_cost
step_cost op =
    let cost = table_cost gas_table op in
    if cost == 0 && not (op == 0x00) && not (op == 0xf3) && not (op == 0xfd) then 2 else cost

-- The messages that go into `revert_reason`.
pub data Reason : Type 0 where
  no_reason out_of_gas max_steps : Reason
  reverted_at : ℕ → Reason
  invalid_opcode : ℕ → ℕ → Reason

-- `evm_call_ctx_t`
pub record CallCtx : Type 0 where
  pub addr : List ℕ
  pub caller : List ℕ
  pub origin : List ℕ
  pub value : U256
  pub balance : U256

-- `code`, `calldata` and `returndata` are given up to their length.
pub record Evm : Type 0 where
  pub code : List ℕ
  pub pc : ℕ
  pub stack : List U256
  pub memory : Memory
  pub storage : Storage
  pub ctx : CallCtx
  pub gas : ℕ
  pub gas_limit : ℕ
  pub calldata : List ℕ
  pub returndata : List ℕ
  pub reverted : Bool
  pub revert_reason : Reason
  pub selfdestructed : Bool
  pub beneficiary : List ℕ
  pub depth : ℕ
  pub gas_used : ℕ
  pub sstore_count : ℕ
  pub sload_count : ℕ

abbrev pub address_zero : List ℕ
address_zero = replicate 20 0

unfoldable pub evm_init : List ℕ → Evm
evm_init code = record {
  code = take 65536 code;
  pc = 0;
  stack = [];
  memory = record { bytes = λ _. 0; size = 0 };
  storage = [];
  ctx = record {
    addr = address_zero;
    caller = address_zero;
    origin = address_zero;
    value = u256_zero;
    balance = u256_zero;
  };
  gas = 30000000;
  gas_limit = 30000000;
  calldata = [];
  returndata = [];
  reverted = false;
  revert_reason = no_reason;
  selfdestructed = false;
  beneficiary = address_zero;
  depth = 0;
  gas_used = 0;
  sstore_count = 0;
  sload_count = 0;
}

unfoldable pub evm_set_caller : Evm → List ℕ → Evm
evm_set_caller e caller = let c = e.ctx in record e { ctx = record c { caller = caller } }

unfoldable pub evm_set_value : Evm → U256 → Evm
evm_set_value e value = let c = e.ctx in record e { ctx = record c { value = value } }

unfoldable pub evm_set_calldata : Evm → List ℕ → Evm
evm_set_calldata e block = record e { calldata = take 65536 block }

unfoldable pub evm_reset : Evm → Evm
evm_reset e = record e {
  pc = 0;
  stack = [];
  reverted = false;
  selfdestructed = false;
  revert_reason = no_reason;
}

-- The cases of the `switch` in `evm_step`. `push n`, `dup n` and `swap n` are PUSHn, DUPn, SWAPn.
pub data Instr : Type 0 where
  op_stop op_add op_mul op_sub op_caller op_callvalue op_calldataload op_calldatasize : Instr
  op_sload op_sstore op_mstore op_mload op_return op_revert op_selfdestruct op_jump : Instr
  op_jumpi op_jumpdest op_eq op_iszero op_call op_delegatecall op_gas op_pc : Instr
  op_push op_dup op_swap : ℕ → Instr
  op_invalid : Instr

-- The ranges of the `default` case.
abbrev pub decode_range : ℕ → Instr
decode_range op =
    if leb 0x60 op && leb op 0x7f
    then op_push (op - 0x60 + 1)
    else if leb 0x80 op && leb op 0x8f
    then op_dup (op - 0x80 + 1)
    else if leb 0x90 op && leb op 0x9f
    then op_swap (op - 0x90 + 1)
    else op_invalid

abbrev pub instr_table : List (ℕ × Instr)
instr_table =
    (0x00, op_stop)
    ∷ (0x01, op_add)
    ∷ (0x02, op_mul)
    ∷ (0x03, op_sub)
    ∷ (0x33, op_caller)
    ∷ (0x34, op_callvalue)
    ∷ (0x35, op_calldataload)
    ∷ (0x36, op_calldatasize)
    ∷ (0x54, op_sload)
    ∷ (0x55, op_sstore)
    ∷ (0x52, op_mstore)
    ∷ (0x51, op_mload)
    ∷ (0xf3, op_return)
    ∷ (0xfd, op_revert)
    ∷ (0xff, op_selfdestruct)
    ∷ (0x56, op_jump)
    ∷ (0x57, op_jumpi)
    ∷ (0x5b, op_jumpdest)
    ∷ (0x14, op_eq)
    ∷ (0x15, op_iszero)
    ∷ (0xf1, op_call)
    ∷ (0xf4, op_delegatecall)
    ∷ (0x5a, op_gas)
    ∷ (0x58, op_pc)
    ∷ []

unfoldable pub decode_from : List (ℕ × Instr) → ℕ → Instr
decode_from [] op = decode_range op
decode_from ((k, i) ∷ t) op = if k == op then i else decode_from t op

unfoldable pub decode : ℕ → Instr
unfolding decode_from
decode op = decode_from instr_table op
