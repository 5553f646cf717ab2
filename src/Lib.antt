-- ===== src/Lib.antt =====
-- Verification of the core libraries of mini-security-crypto-web3, written in C.
--
-- The parts and the files that model them:
--   Evm: the EVM simulator, mini-smart-contract-sec/src/evm_sim.c. Evm/Word models uint256_t and its
--     arithmetic on four 64-bit limbs, Evm/Stack the evm_stack_t, Evm/Memory and Evm/Storage the two
--     memories, Evm/Machine the machine with its gas table, Evm/Machine/Step evm_step (the opcode is
--     read by `decode`, charged by `charge_and_exec`, run by `exec`), Evm/Machine/Execute evm_execute.
--   AccessControl: mini-smart-contract-sec/src/access_control.c, ownership, roles and the analyzer's
--     findings; AccessControl/Signatures has the EIP-712 and EIP-2612 checks.
--   Bridge: mini-defi-crosschain/src/crosschain_bridge.c, accounts, validators and events; Bridge/Hash
--     has its hash and its pseudo-random generator, Bridge/Messages the relay messages, the checks of
--     headers and the Merkle root.
--   Governance: mini-defi-crosschain/src/governance_dao.c, the data and the creation of proposals;
--     Governance/Progress has what moves them on, Governance/Ballot votes and delegations, and
--     Governance/Weight the weights of votes; Governance/Call is the calls as data.
--   Utxo: mini-blockchain-core/src/utxo_model.c, transactions, the set of outputs, coin selection;
--     Utxo/Format has the bytes of a transaction.
--   TxPool: mini-blockchain-core/src/tx_pool.c, the pool of waiting transactions.
--   Amm: mini-defi-crosschain/src/amm_swap.c, the constant-product pool.
--   Mpc: mini-privacy-compute/src/secure_mpc_comp.c; Mpc/Arithmetic has its modular power and inverse,
--     Mpc/Sharing the additive shares, Mpc/Beaver the pool of triples and the multiplication, and
--     Mpc/Paillier the additive encryption, Mpc/Shamir the threshold shares.
--   Merkle: mini-blockchain-core/src/merkle_tree.c, the tree and its building; Merkle/Proof has the
--     proofs. A pointer to a node is the sides by which it is reached from the root, the last one first.
--   Cipher: mini-crypto-basic/src/symmetric_cipher.c. Cipher/Gf has the field of AES, Cipher/Aes and
--     Cipher/Des the two block ciphers, Cipher/Block the choice between them, Cipher/Cbc, Cipher/Ctr
--     and Cipher/Gcm the modes, Cipher/Padding PKCS#7. The context of a cipher is the value of a data
--     type, for the pointer and the tag of the code; an output buffer is a result.
--   Rsa: mini-crypto-basic/src/asymmetric_cipher.c; Rsa/BigInt has the big integers as lists of their
--     words in use, and Rsa/Encoding PKCS#1 v1.5.
--   Prelude: the names, lists, words, bits and byte strings that the others share.
-- The parts do not call each other in C. The child modules of a part hold its lemmas by subject, and
-- its Tests module applies them at concrete data.
--
-- How states and operations correspond: a struct is a record, and an operation is a function from the
-- state and its arguments to its result and the new state, with the guards in the order of the code.
-- An array with a count is the list of the entries in use. Unsigned arithmetic keeps its wrap-around
-- (add64, sub64, mul64). A static seed is a field or an argument. Byte arrays are lists of numbers.
-- An int64_t is kept as its two's complement. Pointers that the callers must give are taken as not
-- null; where null is meant, it is an Option.
--
-- Bounds and fuel: `execute_from` runs on fuel, and `evm_execute` gives it 1000001, one more than the
-- steps that the code allows. `mod_exp_loop` and `mod_inv_loop` get the exponent and the modulus,
-- which bound their turns, the tree's traversal one turn more than there are nodes, its queue search
-- a turn for each node, and its building a turn for each leaf. The tree's queue of 2048 entries
-- serves 1024 leaves, which the theorems on added leaves ask for. The traversal stops where it would
-- write behind its stack of 1024 entries, which C does not define; a rebuilding counts that as a
-- failure. `draw_nonce` gets the number of
-- draws, with `none` when they are used up, and `gcd_loop` its second argument. The square root loops
-- of Governance/Weight run on fuel, with `none` for a loop that it does not finish; one turn more
-- than the argument is enough below (2^32 - 1)^2.
--
-- `gf_mul_loop` gets 8 turns, one for each digit of a byte, `decrypt_blocks` a turn for each byte,
-- and `ghash_loop` one more than there are bytes. The array of a product has 64 words.
--
-- Arguments that stand for code outside of the repository: qsort, of which a permutation is asked;
-- the SHA-256 of OpenSSL, simple or double; the clock; the bytes that rand draws for an encoding; and
-- whether an allocation succeeds.
--
-- Not modelled: printing, the text forms of addresses and roles, ECDSA and the Patricia trie in
-- mini-blockchain-core, division and what stands on it in asymmetric_cipher.c, the other protocols
-- of secure_mpc_comp.c (SPDZ, garbled circuits, oblivious memory, set intersection, retrieval),
-- the TWAP, the concentrated pool and multihop swaps of the market maker, and the other libraries
-- of the repository.
pub mod Prelude
pub mod Evm
pub mod AccessControl
pub mod Bridge
pub mod Governance
pub mod Utxo
pub mod TxPool
pub mod Amm
pub mod Mpc
pub mod Merkle
pub mod Cipher
pub mod Rsa
