-- ===== src/Evm/Machine/Execute.antt =====
-- `evm_execute` of mini-smart-contract-sec/src/evm_sim.c: it returns, within its step limit and its gas.
use mini_security_crypto_web.Prelude.{
  ℕ, zero, suc, ◌+◌, ◌*◌, ◌≤◌, ◌<◌, ◌≡◌, refl, inl, inr, true, arith, ltb, Bool-cases, get_or,
  if◌then◌else◌, u64_mod,
}
use mini_security_crypto_web.Evm.Machine.{Evm, max_steps, decode}
use mini_security_crypto_web.Evm.Machine.Step.{Outcome, running, halted, fault, evm_step}
use mini_security_crypto_web.Evm.Machine.Gas.{Charges, evm_step-Charges}
use mini_security_crypto_web.Evm.Machine.Invariant.{IsBounded, LeavesBounded, evm_step-IsBounded}

-- The result of `evm_execute`: the number of steps and the machine, or a fault. `unfinished` is a
-- run out of fuel.
pub data Run : Type 0 where
  finished : ℕ → Evm → Run
  faulted unfinished : Run

abbrev pub step_limit : ℕ
step_limit = 1000000

-- The `while` loop, after `steps` rounds.
unfoldable pub execute_from : ℕ → ℕ → Evm → Run
execute_from zero steps e = unfinished
execute_from (suc fuel) steps e = elim (evm_step e) [
  | halted e' ↦ finished steps e'
  | fault ↦ faulted
  | running e' ↦
      let rest = execute_from fuel (steps + 1) e' in
      if ltb step_limit (steps + 1)
      then finished (steps + 1) (record e' { reverted = true; revert_reason = max_steps })
      else rest
]

-- The loop makes at most one round more than the limit.
unfoldable pub evm_execute : Evm → Run
evm_execute e = execute_from (step_limit + 1) 0 e

-- How a run that began at `e` after `steps` rounds may end.
abbrev pub Ends : ℕ → Evm → Run → Type 0
Ends steps e (finished n e') =
    (n ≤ step_limit + 1)
    × (2 * n + e'.gas ≤ 2 * steps + e.gas)
    × (e'.gas + e'.gas_used ≡ e.gas + e.gas_used)
    × IsBounded e'
Ends steps e faulted = Unit
Ends steps e unfinished = ⊥

-- A run after a step is part of the run from before that step.
Ends-step :
    (steps : ℕ) (e e' : Evm) (r : Run)
    → (e'.gas + 2 ≤ e.gas) × (e'.gas + e'.gas_used ≡ e.gas + e.gas_used)
    → Ends (steps + 1) e' r
    → Ends steps e r
Ends-step steps e e' (finished n x) c h = (h.0, omega arith, omega arith, h.3)
Ends-step steps e e' faulted c h = tt
Ends-step steps e e' unfinished c h = h

execute_from-Ends :
    (fuel steps : ℕ) (e : Evm)
    → steps ≤ step_limit
    → step_limit < fuel + steps
    → e.gas + e.gas_used < u64_mod
    → IsBounded e
    → Ends steps e (execute_from fuel steps e)
unfolding execute_from
execute_from-Ends zero steps e le big g h = absurd (omega arith)
execute_from-Ends (suc fuel) steps e le big g h =
    go (evm_step e) refl (evm_step-Charges e g) (evm_step-IsBounded e h)
      (λ e'. execute_from-Ends fuel (steps + 1) e')
  where
    go :
        (o : Outcome)
        → evm_step e ≡ o
        → Charges e o
        → LeavesBounded (decode (get_or e.code e.pc 0)) e o
        → ((e' : Evm)
            → steps + 1 ≤ step_limit
            → step_limit < fuel + (steps + 1)
            → e'.gas + e'.gas_used < u64_mod
            → IsBounded e'
            → Ends (steps + 1) e' (execute_from fuel (steps + 1) e'))
        → Ends steps e (execute_from (suc fuel) steps e)
    go (halted e') q c b ih = rw (q, execute_from) (omega arith, omega arith, c.1, b)
    go fault q c b ih = rw (q, execute_from) tt
    go (running e') q c b ih = elim (Bool-cases (ltb step_limit (steps + 1))) [
      | inl over ↦ rw (q, execute_from, over) (omega arith, omega arith, c.1, omega arith)
      | inr under ↦
          rw (q, execute_from, under)
            (Ends-step steps e e' (execute_from fuel (steps + 1) e') c
              (ih e' (ground arith) (omega arith) (omega arith) b))
    ]

-- From a machine within bounds whose gas counters fit 64 bits together, `evm_execute` ends: by an
-- access outside of the memory array, or after at most 1000001 steps, each paid for with at least 2
-- gas, on a machine within bounds where gas left and gas used add up to what they were.
pub evm_execute-Ends :
    (e : Evm) → e.gas + e.gas_used < u64_mod → IsBounded e → Ends 0 e (evm_execute e)
unfolding evm_execute
evm_execute-Ends e g h = execute_from-Ends (step_limit + 1) 0 e (omega arith) (omega arith) g h
