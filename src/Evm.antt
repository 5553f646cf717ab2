-- ===== src/Evm.antt =====
-- The EVM simulator of mini-smart-contract-sec/src/evm_sim.c.
pub mod Word
pub mod Stack
pub mod Memory
pub mod Storage
pub mod Machine
mod Tests
