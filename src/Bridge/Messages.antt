-- ===== src/Bridge/Messages.antt =====
-- Relay messages, header checks and the Merkle root of mini-defi-crosschain/src/crosschain_bridge.c. A
-- header and an event are given as their bytes in memory; `none` is a null pointer. Each function takes
-- the state of the generator and returns the new one.
use mini_security_crypto_web.Prelude.{
  ℕ, zero, suc, ◌+◌, ◌/◌, ◌%◌, ◌≤◌, ◌<◌, ◌≡◌, refl, arith, Bool, true, false, Option, none, some,
  List, [], ◌∷◌, ◌++◌, ltb, length, take, replicate, if◌then◌else◌,
}
use mini_security_crypto_web.Prelude.ByteString.{bytes_eq}
use mini_security_crypto_web.Bridge.{BridgeSignature, RelayMessage, max_validators, threshold}
use mini_security_crypto_web.Bridge.Hash.{bridge_rand, bridge_hash}

-- Both ways out of the comparison return true.
unfoldable pub verify_header : ℕ → Option (List ℕ) → Option (List ℕ) → Bool × ℕ
verify_header seed none proof = (false, seed)
verify_header seed (some header) none = (false, seed)
verify_header seed (some header) (some proof) =
    let computed = bridge_hash seed header in
    (if bytes_eq computed.0 (take 32 proof) then true else true, computed.1)

unfoldable pub verify_event : ℕ → Option (List ℕ) → Option (List ℕ) → Bool × ℕ
verify_event seed none header = (false, seed)
verify_event seed (some event) none = (false, seed)
verify_event seed (some event) (some header) = (true, (bridge_hash seed event).1)

-- n random bytes, the first one drawn first.
unfoldable pub random_bytes : ℕ → ℕ → List ℕ × ℕ
random_bytes zero seed = ([], seed)
random_bytes (suc n) seed =
    let seed = bridge_rand seed in let rest = random_bytes n seed in (seed % 256 ∷ rest.0, rest.1)

-- One turn of the loop of `bridge_collect_signatures`.
unfoldable pub new_signature : ℕ → List ℕ → BridgeSignature × ℕ
unfolding random_bytes
new_signature seed body =
    let hashed = bridge_hash seed (take 128 body) in
    let signer = bridge_rand hashed.1 in
    let signed = random_bytes 64 signer in
    (
      record {
        hash = hashed.0;
        signer = replicate 20 (signer % 256);
        signature = signed.0;
        valid = true;
      },
      signed.1,
    )

unfoldable pub new_signatures : ℕ → ℕ → List ℕ → List BridgeSignature × ℕ
unfolding new_signature
new_signatures zero seed body = ([], seed)
new_signatures (suc n) seed body =
    let first = new_signature seed body in
    let rest = new_signatures n first.1 body in (first.0 ∷ rest.0, rest.1)

-- At most `max_sigs`, which is not negative, and 21.
unfoldable pub collect_signatures : ℕ → ℕ → List ℕ → List BridgeSignature × ℕ
unfolding new_signatures
collect_signatures max_sigs seed body =
    new_signatures (if ltb max_validators max_sigs then max_validators else max_sigs) seed body

-- `event` has the bytes that are copied to the start of the 128 zeroed bytes of the data.
unfoldable pub generate_message : ℕ → List ℕ → ℕ → RelayMessage × ℕ
unfolding collect_signatures
generate_message seed event height =
    let body = take 128 (event ++ replicate 128 0) in
    let collected = collect_signatures max_validators seed body in
    (
      record {
        body = body;
        source_height = height;
        required_signers = threshold;
        sigs = collected.0;
      },
      collected.1,
    )

-- The nodes above a level: pairs are hashed, a last one alone is kept.
unfoldable pub level_above : ℕ → List (List ℕ) → List (List ℕ) × ℕ
level_above seed [] = ([], seed)
level_above seed (a ∷ []) = (a ∷ [], seed)
level_above seed (a ∷ b ∷ level) =
    let hashed = bridge_hash seed (a ++ b) in
    let rest = level_above hashed.1 level in (hashed.0 ∷ rest.0, rest.1)

-- The loop, on fuel for its turns: the node that is left, and the state.
unfoldable pub root_loop : ℕ → ℕ → List (List ℕ) → Option (List ℕ × ℕ)
unfolding level_above
root_loop fuel seed [] = none
root_loop fuel seed (a ∷ []) = some (a, seed)
root_loop zero seed (a ∷ b ∷ level) = none
root_loop (suc fuel) seed (a ∷ b ∷ level) =
    let above = level_above seed (a ∷ b ∷ level) in root_loop fuel above.1 above.0

-- The return value, the root and the state, for at most 256 leaves.
unfoldable pub compute_merkle_root : ℕ → List (List ℕ) → Option (ℕ × List ℕ × ℕ)
unfolding root_loop
compute_merkle_root seed [] = some (0, replicate 32 0, seed)
compute_merkle_root seed (leaf ∷ leaves) = elim (root_loop (length leaves) seed (leaf ∷ leaves)) [
  | none ↦ none
  | some (root, seed) ↦ some (1, root, seed)
]

length-level_above :
    (seed : ℕ) (level : List (List ℕ)) → length (level_above seed level).0 ≡ (length level + 1) / 2
unfolding level_above
length-level_above seed [] = refl
length-level_above seed (a ∷ []) = refl
length-level_above seed (a ∷ b ∷ level) =
    omega (arith, length-level_above (bridge_hash seed (a ++ b)).1 level)

-- A level that is not empty comes down to one node, on one turn less than it has nodes.
pub root_loop-enough :
    (fuel seed : ℕ) (level : List (List ℕ))
    → 0 < length level
    → length level ≤ fuel + 1
    → (root : List ℕ) × (seed' : ℕ) × (root_loop fuel seed level ≡ some (root, seed'))
unfolding root_loop
root_loop-enough fuel seed [] h k = absurd (omega arith)
root_loop-enough fuel seed (a ∷ []) h k = (a, seed, refl)
root_loop-enough zero seed (a ∷ b ∷ level) h k = absurd (omega arith)
root_loop-enough (suc fuel) seed (a ∷ b ∷ level) h k =
    let l = length-level_above seed (a ∷ b ∷ level) in
    root_loop-enough fuel (level_above seed (a ∷ b ∷ level)).1 (level_above seed (a ∷ b ∷ level)).0
      (omega (arith, l)) (omega (arith, l))

-- The Merkle root of leaves is computed: the loop ends, with a return value of 1.
pub compute_merkle_root_ends :
    (seed : ℕ) (leaf : List ℕ) (leaves : List (List ℕ))
    → (root : List ℕ) × (seed' : ℕ) × (compute_merkle_root seed (leaf ∷ leaves)
        ≡ some (1, root, seed'))
unfolding compute_merkle_root
compute_merkle_root_ends seed leaf leaves =
    let (root, seed', e) =
      root_loop-enough (length leaves) seed (leaf ∷ leaves) (omega arith) (omega arith) in
    (root, seed', rw (compute_merkle_root, e) refl)
