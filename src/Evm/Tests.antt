-- ===== src/Evm/Tests.antt =====
-- The theorems on the EVM simulator (mini-smart-contract-sec/src/evm_sim.c) at concrete machines.
use mini_security_crypto_web.Prelude.{
  ℕ, ◌+◌, ◌-◌, ◌*◌, ◌%◌, ◌^◌, ◌<◌, ◌≡◌, refl, List, [], ◌∷◌, arith, get_or, u64_mod,
}
use mini_security_crypto_web.Evm.Word.{U256, add, mul}
use mini_security_crypto_web.Evm.Word.Value.{IsWord, to_nat}
use mini_security_crypto_web.Evm.Word.Add.{to_nat-add}
use mini_security_crypto_web.Evm.Word.Mul.{to_nat-mul}
use mini_security_crypto_web.Evm.Memory.{Memory}
use mini_security_crypto_web.Evm.Machine.{Evm, decode, evm_init, step_cost, table_cost}
use mini_security_crypto_web.Evm.Machine.Step.{evm_step}
use mini_security_crypto_web.Evm.Machine.Gas.{Charges, evm_step-Charges}
use mini_security_crypto_web.Evm.Machine.Invariant.{
  LeavesBounded, evm_step-IsBounded, evm_init-IsBounded,
}
use mini_security_crypto_web.Evm.Machine.Execute.{Ends, evm_execute, evm_execute-Ends}
use mini_security_crypto_web.Evm.Machine.Control.{IsReady}

abbrev top : ℕ
top = 2 ^ 64 - 1

abbrev seven : U256
seven = record { w0 = 7; w1 = 0; w2 = 0; w3 = 0 }

abbrev carries : U256
carries = record { w0 = top; w1 = top; w2 = 3; w3 = top }

seven-IsWord : IsWord seven
seven-IsWord = omega arith

carries-IsWord : IsWord carries
carries-IsWord = omega arith

to_nat-add_example : to_nat (add carries seven) ≡ (to_nat carries + to_nat seven) % 2 ^ 256
to_nat-add_example = to_nat-add carries seven carries-IsWord seven-IsWord

to_nat-mul_example : to_nat (mul carries seven) ≡ to_nat carries * to_nat seven % 2 ^ 256
to_nat-mul_example = to_nat-mul carries seven carries-IsWord seven-IsWord

abbrev memory_zero : Memory
memory_zero = record { bytes = λ _. 0; size = 0 }

-- PUSH1 7, PUSH1 9, ADD, STOP
abbrev program : List ℕ
program = 0x60 ∷ 7 ∷ 0x60 ∷ 9 ∷ 0x01 ∷ 0x00 ∷ []

abbrev started : Evm
started = evm_init program

started_has_gas : started.gas + started.gas_used < u64_mod
unfolding evm_init
started_has_gas = omega arith

evm_step-Charges_example : Charges started (evm_step started)
evm_step-Charges_example = evm_step-Charges started started_has_gas

evm_step-IsBounded_example :
    LeavesBounded (decode (get_or started.code started.pc 0)) started (evm_step started)
evm_step-IsBounded_example = evm_step-IsBounded started (evm_init-IsBounded program)

evm_execute-Ends_example : Ends 0 started (evm_execute started)
evm_execute-Ends_example = evm_execute-Ends started started_has_gas (evm_init-IsBounded program)

started-IsReady : IsReady started (0x5f + 1)
unfolding evm_init step_cost table_cost
started-IsReady = record {
  live = refl;
  whole = refl;
  inside = omega arith;
  here = refl;
  paid = omega arith;
}

abbrev with_two : Evm
with_two = record started { stack = seven ∷ carries ∷ [] }

with_two_storage : started.storage ≡ []
unfolding evm_init
with_two_storage = refl
