-- ===== src/Evm/Machine/Gas.antt =====
-- What a step costs: no gas appears or is lost, and a step that goes on costs at least 2.
use mini_security_crypto_web.Prelude.{
  ℕ, ◌+◌, ◌≤◌, ◌<◌, ◌≡◌, ◌⊎◌, inl, inr, refl, true, [], arith, ltb, Bool-cases, get_or, u64_mod,
}
use mini_security_crypto_web.Evm.Machine.{
  Evm, step_cost, decode, Instr, op_stop, op_return, op_revert, reverted_at,
}
use mini_security_crypto_web.Evm.Machine.Step.{
  Outcome, running, halted, fault, exec, charge_and_exec, charged, evm_step,
}

-- The gas left and the gas used are those of `e`.
abbrev SameGas : Evm → Outcome → Type 0
SameGas e (running e') = (e'.gas ≡ e.gas) × (e'.gas_used ≡ e.gas_used)
SameGas e (halted e') = (e'.gas ≡ e.gas) × (e'.gas_used ≡ e.gas_used)
SameGas e fault = Unit

exec-SameGas : (op : ℕ) (i : Instr) (e : Evm) → SameGas e (exec op i e)
unfolding exec
exec-SameGas op op_stop e = ground arith
exec-SameGas op i e = ground arith

-- The opcodes that cost nothing stop the machine.
free_halts :
    (op : ℕ)
    → (2 ≤ step_cost op)
      ⊎ ((step_cost op ≡ 0)
          × ((decode op ≡ op_stop) ⊎ (decode op ≡ op_return) ⊎ (decode op ≡ op_revert)))
unfolding step_cost decode
free_halts op = ground arith

-- What a step does to the gas: a step that goes on uses 2 or more, and gas left and gas used add up
-- to what they were.
abbrev pub Charges : Evm → Outcome → Type 0
Charges e (running e') = (e'.gas + 2 ≤ e.gas) × (e'.gas + e'.gas_used ≡ e.gas + e.gas_used)
Charges e (halted e') = (e'.gas ≤ e.gas) × (e'.gas + e'.gas_used ≡ e.gas + e.gas_used)
Charges e fault = Unit

-- A case of the `switch` on a charged machine, by what the charge was.
charged-Charges :
    (e : Evm) (cost : ℕ) (o : Outcome)
    → e.gas + e.gas_used < u64_mod
    → cost ≤ e.gas
    → SameGas (charged e cost) o
    → (2 ≤ cost) ⊎ ((e' : Evm) × (o ≡ halted e'))
    → Charges e o
charged-Charges e cost (running e') h le same (inl two) = omega arith
charged-Charges e cost (running e') h le same (inr (x, q)) = cc
charged-Charges e cost (halted e') h le same d = omega arith
charged-Charges e cost fault h le same d = tt

stops :
    (op : ℕ) (i : Instr) (e : Evm)
    → (i ≡ op_stop) ⊎ (i ≡ op_return) ⊎ (i ≡ op_revert)
    → (e' : Evm) × (exec op i e ≡ halted e')
unfolding exec
stops op i e (inl q) = (e, rw q refl)
stops op i e (inr (inl q)) = (record e { returndata = [] }, rw q refl)
stops op i e (inr (inr q)) =
    (record e { reverted = true; revert_reason = reverted_at e.pc }, rw q refl)

costs_or_stops :
    (op : ℕ) (e : Evm) → (2 ≤ step_cost op) ⊎ ((e' : Evm) × (exec op (decode op) e ≡ halted e'))
costs_or_stops op e = elim (free_halts op) [
  | inl two ↦ inl two
  | inr (z, q) ↦ inr (stops op (decode op) e q)
]

charge_and_exec-Charges :
    (e : Evm) (op : ℕ) → e.gas + e.gas_used < u64_mod → Charges e (charge_and_exec e op)
unfolding charge_and_exec
charge_and_exec-Charges e op h = elim (Bool-cases (ltb e.gas (step_cost op))) [
  | inl short ↦ rw short (omega arith)
  | inr paid ↦ rw paid (
      charged-Charges e (step_cost op) (exec op (decode op) (charged e (step_cost op))) h
        (ground arith) (exec-SameGas op (decode op) (charged e (step_cost op)))
        (costs_or_stops op (charged e (step_cost op))))
]

-- For a machine whose gas counters fit 64 bits together, a step that lets it run on takes at least 2
-- gas, no step gives gas back, and what leaves `gas` enters `gas_used`.
pub evm_step-Charges : (e : Evm) → e.gas + e.gas_used < u64_mod → Charges e (evm_step e)
unfolding evm_step
evm_step-Charges e h = ground (arith, charge_and_exec-Charges e (get_or e.code e.pc 0) h)
