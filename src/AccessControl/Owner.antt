-- ===== src/AccessControl/Owner.antt =====
-- Ownership, the initializer check and the list of findings.
use mini_security_crypto_web.Prelude.{
  ℕ, ◌≤◌, ◌≡◌, ◌↔◌, ◌⊎◌, inl, refl, Bool, true, false, List, [], ◌∷◌, arith, length, length-append,
}
use mini_security_crypto_web.Prelude.ByteString.{bytes_eq_iff}
use mini_security_crypto_web.AccessControl.{
  ac_ok, Analyzer, Finding, set_owner, only_owner, report, check_delegatecall_risk,
  check_initializer,
}

-- The first `ac_set_owner` of a fresh analyzer makes that address, and no other, pass
-- `ac_only_owner`.
pub only_owner-set_owner :
    (a : Analyzer) (addr caller : List ℕ)
    → a.initialized ≡ false
    → (only_owner (set_owner a addr).1 caller ≡ ac_ok) ↔ (caller ≡ addr)
unfolding only_owner set_owner
only_owner-set_owner a addr caller h =
    (λ e. ground (arith, bytes_eq_iff addr caller), λ e. ground (arith, bytes_eq_iff addr caller))

-- A run of calls of `ac_set_owner`.
pub set_owners : Analyzer → List (List ℕ) → Analyzer
set_owners a [] = a
set_owners a (addr ∷ addrs) = set_owners (set_owner a addr).1 addrs

-- The owner is the one that `owner` names, or the admin.
abbrev IsOwned : List ℕ → List ℕ → Analyzer → Type 0
IsOwned owner admin a =
    (a.initialized ≡ true) × (a.admin ≡ admin) × ((a.owner ≡ owner) ⊎ (a.owner ≡ admin))

set_owner-IsOwned :
    (owner admin : List ℕ) (a : Analyzer) (addr : List ℕ)
    → IsOwned owner admin a
    → IsOwned owner admin (set_owner a addr).1
unfolding set_owner
set_owner-IsOwned owner admin a addr h =
    ground (arith, bytes_eq_iff a.owner addr, bytes_eq_iff a.admin addr)

set_owners-IsOwned :
    (owner admin : List ℕ) (addrs : List (List ℕ)) (a : Analyzer)
    → IsOwned owner admin a
    → IsOwned owner admin (set_owners a addrs)
unfolding set_owners
set_owners-IsOwned owner admin [] a h = h
set_owners-IsOwned owner admin (addr ∷ addrs) a h =
    set_owners-IsOwned owner admin addrs (set_owner a addr).1
      (set_owner-IsOwned owner admin a addr h)

-- Once an owner is set, no sequence of `ac_set_owner` calls makes anyone the owner but that owner and
-- the admin.
pub owner_stays :
    (a : Analyzer) (addrs : List (List ℕ))
    → a.initialized ≡ true
    → ((set_owners a addrs).owner ≡ a.owner) ⊎ ((set_owners a addrs).owner ≡ a.admin)
owner_stays a addrs h = (set_owners-IsOwned a.owner a.admin addrs a (h, refl, inl refl)).2

-- The array of findings is never overrun.
report_fits :
    (a : Analyzer) (f : Finding) → length a.findings ≤ 64 → length (report a f).findings ≤ 64
report_fits a f h = ground (arith, length-append a.findings (f ∷ []))

-- The delegatecall and initializer checks never record more than 64 findings.
pub findings_fit :
    (a : Analyzer) (target : List ℕ) (trusted first : Bool)
    → length a.findings ≤ 64
    → (length (check_delegatecall_risk a target trusted).1.findings ≤ 64)
      × (length (check_initializer a first).1.findings ≤ 64)
unfolding check_delegatecall_risk check_initializer
findings_fit a target trusted first h = grind (arith, report_fits)
