-- ===== src/Bridge/Multisig.antt =====
-- The count of signatures behind a mint or a release.
use mini_security_crypto_web.Prelude.{
  ℕ, zero, suc, ◌+◌, ◌≤◌, ◌<◌, ◌≡◌, refl, ap, ◌∙◌, Bool, true, ◌&&◌, some, List, [], ◌∷◌, arith,
  length, take, replicate, if◌then◌else◌,
}
use mini_security_crypto_web.Bridge.{
  Bridge, Validator, BridgeSignature, RelayMessage, max_validators, threshold, is_active,
  count_valid, verify_multisig,
}

-- A signature that the loop counts.
abbrev pub counts : List Validator → BridgeSignature → Bool
counts vs s = s.valid && is_active vs s.signer

-- The number of signatures that count.
pub tally : List Validator → List BridgeSignature → ℕ
tally vs [] = 0
tally vs (s ∷ sigs) = if counts vs s then suc (tally vs sigs) else tally vs sigs

count_valid-eq-tally :
    (vs : List Validator) (sigs : List BridgeSignature) (n : ℕ)
    → count_valid vs sigs n ≡ n + tally vs sigs
unfolding count_valid tally
count_valid-eq-tally vs [] n = omega arith
count_valid-eq-tally vs (s ∷ sigs) n =
    ground (arith, count_valid-eq-tally vs sigs n, count_valid-eq-tally vs sigs (n + 1))

tally-replicate :
    (vs : List Validator) (s : BridgeSignature) (n : ℕ)
    → counts vs s ≡ true
    → tally vs (replicate n s) ≡ n
unfolding tally
tally-replicate vs s zero h = refl
tally-replicate vs s (suc n) h = ground (arith, tally-replicate vs s n h)

take-replicate : (m n : ℕ) (s : BridgeSignature) → n ≤ m → take m (replicate n s) ≡ replicate n s
take-replicate zero zero s h = refl
take-replicate zero (suc n) s h = elim h [ ]
take-replicate (suc m) zero s h = refl
take-replicate (suc m) (suc n) s h = ap (λ t. s ∷ t) (take-replicate m n s (omega arith))

is_active-nonempty : (vs : List Validator) (a : List ℕ) → is_active vs a ≡ true → 0 < length vs
unfolding is_active
is_active-nonempty [] a h = cc
is_active-nonempty (v ∷ vs) a h = omega arith

-- The loop does not ask for distinct signers: between 14 and 21 copies of one signature that is
-- marked valid, by one active validator, pass.
pub one_signer_passes :
    (b : Bridge) (msg : RelayMessage) (s : BridgeSignature) (n : ℕ)
    → s.valid ≡ true
    → is_active b.validators s.signer ≡ true
    → threshold ≤ n
    → n ≤ max_validators
    → msg.sigs ≡ replicate n s
    → verify_multisig b (some msg) ≡ true
unfolding verify_multisig
one_signer_passes b msg s n ok active lo hi q =
    ground (arith, is_active-nonempty b.validators s.signer active, total)
  where
    total : count_valid b.validators (take max_validators msg.sigs) 0 ≡ n
    total =
        rw (q, take-replicate max_validators n s hi)
          (count_valid-eq-tally b.validators (replicate n s) 0
            ∙ ground (arith, tally-replicate b.validators s n))
