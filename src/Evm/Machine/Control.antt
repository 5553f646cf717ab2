-- ===== src/Evm/Machine/Control.antt =====
-- Where the program counter goes, and which words PUSH puts on the stack.
use mini_security_crypto_web.Prelude.{
  ℕ, ◌+◌, ◌*◌, ◌^◌, ◌≤◌, ◌<◌, ◌≡◌, refl, ◌∙◌, false, [], ◌∷◌, arith, get_or, length,
}
use mini_security_crypto_web.Prelude.Bits.{zero-bit_or}
use mini_security_crypto_web.Evm.Word.{from_bytes}
use mini_security_crypto_web.Evm.Word.Value.{to_nat}
use mini_security_crypto_web.Evm.Stack.{push}
use mini_security_crypto_web.Evm.Machine.{Evm, decode, step_cost, op_push}
use mini_security_crypto_web.Evm.Machine.Step.{running, exec, charged, immediate, evm_step}

-- A machine that runs on at the opcode `op`, with the gas for it.
pub record IsReady (e : Evm) (op : ℕ) : Type 0 where
  pub live : e.reverted ≡ false
  pub whole : e.selfdestructed ≡ false
  pub inside : e.pc < length e.code
  pub here : get_or e.code e.pc 0 ≡ op
  pub paid : step_cost op ≤ e.gas

pub ready_step :
    (e : Evm) (op : ℕ) → IsReady e op → evm_step e ≡ exec op (decode op) (charged e (step_cost op))
unfolding evm_step
ready_step e op r = ground arith

-- An opcode of the PUSH range decodes to the push of that many bytes.
decode_push : (n : ℕ) → 1 ≤ n → n ≤ 32 → decode (0x5f + n) ≡ op_push n
unfolding decode
decode_push n lo hi = ground arith

-- A machine that runs on at PUSHn, 1 ≤ n ≤ 32, with the gas for it, pushes the immediate word and
-- runs on at the last of its immediate bytes, not at the instruction behind them.
pub push_lands_on_immediate :
    (e : Evm) (n : ℕ)
    → 1 ≤ n
    → n ≤ 32
    → IsReady e (0x5f + n)
    → (e' : Evm) × (evm_step e ≡ running e')
      × (e'.pc ≡ e.pc + n)
      × (e'.stack ≡ push e.stack (immediate e n))
unfolding exec
push_lands_on_immediate e n lo hi r = (
  record (charged e (step_cost (0x5f + n))) { stack = push e.stack (immediate e n); pc = e.pc + n },
  ready_step e (0x5f + n) r ∙ rw (decode_push n lo hi) refl,
  refl,
  refl,
)

-- A single immediate byte becomes the highest byte of the word: PUSH1 v pushes v * 2 ^ 248.
pub from_bytes_single : (v : ℕ) → to_nat (from_bytes (v ∷ [])) ≡ v * 2 ^ 248
unfolding from_bytes
from_bytes_single v = rw (zero-bit_or (v * 2 ^ 56)) (omega arith)
