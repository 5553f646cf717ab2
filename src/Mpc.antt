-- ===== src/Mpc.antt =====
-- Multi-party computation, mini-privacy-compute/src/secure_mpc_comp.c.
pub mod Arithmetic
pub mod Sharing
pub mod Beaver
pub mod Paillier
pub mod Shamir
mod Tests
