-- ===== src/Governance/Delegate.antt =====
-- Delegations: at most one active for each delegator, and the power that they carry.
use mini_security_crypto_web.Prelude.{
  ℕ, ◌+◌, ◌≤◌, ◌<◌, ◌≡◌, refl, ap, leb, true, false, ◌&&◌, none, some, List, [], ◌∷◌, ◌++◌, arith,
  add64, Option-cases, Bool-cases, inl, inr, length, if◌then◌else◌,
}
use mini_security_crypto_web.Prelude.ByteString.{bytes_eq, bytes_eq_iff, bytes_eq_refl}
use mini_security_crypto_web.Governance.{
  Governor, Delegation, power_from, get_voting_power, max_delegates,
}
use mini_security_crypto_web.Governance.Ballot.{
  vote_delegate, vote_undelegate, redelegate, switch_off, new_delegation,
}

-- How many active delegations a delegator has.
abbrev pub count_active : List ℕ → List Delegation → ℕ
count_active who [] = 0
count_active who (d ∷ ds) =
    (if d.active && bytes_eq d.delegator_addr who then 1 else 0) + count_active who ds

abbrev pub IsSingle : Governor → Type 0
IsSingle gov = (who : List ℕ) → count_active who gov.delegations ≤ 1

count_active-append :
    (who : List ℕ) (ds es : List Delegation)
    → count_active who (ds ++ es) ≡ count_active who ds + count_active who es
count_active-append who [] es = omega arith
count_active-append who (d ∷ ds) es = omega (arith, count_active-append who ds es)

count_active-redelegate :
    (who a b : List ℕ) (n e : ℕ) (ds es : List Delegation)
    → redelegate ds a b n e ≡ some es
    → count_active who es ≡ count_active who ds
unfolding redelegate
count_active-redelegate who a b n e [] es h = cc
count_active-redelegate who a b n e (d ∷ ds) es h = elim (Option-cases (redelegate ds a b n e)) [
  | inl q ↦ ground arith
  | inr (fs, q) ↦ ground (arith, count_active-redelegate who a b n e ds fs q)
]

redelegate-none :
    (a b : List ℕ) (n e : ℕ) (ds : List Delegation)
    → redelegate ds a b n e ≡ none
    → count_active a ds ≡ 0
unfolding redelegate
redelegate-none a b n e [] h = refl
redelegate-none a b n e (d ∷ ds) h = elim (Option-cases (redelegate ds a b n e)) [
  | inl q ↦ ground (arith, redelegate-none a b n e ds q)
  | inr (fs, q) ↦ ground arith
]

none-redelegate :
    (a b : List ℕ) (n e : ℕ) (ds : List Delegation)
    → count_active a ds ≡ 0
    → redelegate ds a b n e ≡ none
unfolding redelegate
none-redelegate a b n e [] h = refl
none-redelegate a b n e (d ∷ ds) h = ground (arith, none-redelegate a b n e ds)

-- Where every delegator has at most one active delegation, that holds after `vote_delegate`.
pub vote_delegate-IsSingle :
    (gov : Governor) (a b : List ℕ) (n e : ℕ)
    → IsSingle gov
    → IsSingle (vote_delegate gov a b n e).1
unfolding vote_delegate
vote_delegate-IsSingle gov a b n e v who =
    elim (Option-cases (redelegate gov.delegations a b n e)) [
      | inl q ↦
          let z = redelegate-none a b n e gov.delegations q in
          let c = count_active-append who gov.delegations (new_delegation a b n e ∷ []) in
          elim (Bool-cases (bytes_eq a who)) [
            | inl t ↦
                let same : a ≡ who = (bytes_eq_iff a who).0 t in
                let z' : count_active who gov.delegations ≡ 0 = rw (← same) z in
                ground (arith, c, v who, z')
            | inr t ↦ ground (arith, c, v who)
          ]
      | inr (fs, q) ↦
          ground (arith, v who, count_active-redelegate who a b n e gov.delegations fs q)
    ]

count_active-switch_off :
    (who a : List ℕ) (ds es : List Delegation)
    → switch_off ds a ≡ some es
    → count_active who ds ≡ count_active who es + (if bytes_eq a who then 1 else 0)
unfolding switch_off
count_active-switch_off who a [] es h = cc
count_active-switch_off who a (d ∷ ds) es h = elim (Option-cases (switch_off ds a)) [
  | inl q ↦ elim (Bool-cases (bytes_eq d.delegator_addr a)) [
    | inl t ↦
        let same : d.delegator_addr ≡ a = (bytes_eq_iff d.delegator_addr a).0 t in
        let w : bytes_eq d.delegator_addr who ≡ bytes_eq a who = ap (λ x. bytes_eq x who) same in
        ground (arith, w)
    | inr t ↦ ground arith
  ]
  | inr (fs, q) ↦ elim (Bool-cases (bytes_eq d.delegator_addr a)) [
    | inl t ↦
        let same : d.delegator_addr ≡ a = (bytes_eq_iff d.delegator_addr a).0 t in
        let w : bytes_eq d.delegator_addr who ≡ bytes_eq a who = ap (λ x. bytes_eq x who) same in
        ground (arith, w, count_active-switch_off who a ds fs q)
    | inr t ↦ ground (arith, count_active-switch_off who a ds fs q)
  ]
]

switch_off-none :
    (a : List ℕ) (ds : List Delegation) → switch_off ds a ≡ none → count_active a ds ≡ 0
unfolding switch_off
switch_off-none a [] h = refl
switch_off-none a (d ∷ ds) h = elim (Option-cases (switch_off ds a)) [
  | inl q ↦ ground (arith, switch_off-none a ds q)
  | inr (fs, q) ↦ ground arith
]

-- Where every delegator has at most one active delegation, `vote_undelegate` leaves its caller with
-- none, succeeds exactly where there was one, and touches no other delegator's.
pub vote_undelegate_clears :
    (gov : Governor) (a who : List ℕ)
    → IsSingle gov
    → bytes_eq a who ≡ false
    → let (ok, gov') = vote_undelegate gov a in
      (count_active a gov'.delegations ≡ 0)
      × (ok ≡ leb 1 (count_active a gov.delegations))
      × (count_active who gov'.delegations ≡ count_active who gov.delegations)
unfolding vote_undelegate
vote_undelegate_clears gov a who v ne = elim (Option-cases (switch_off gov.delegations a)) [
  | inl q ↦
      let z = switch_off-none a gov.delegations q in
      (ground (arith, z), ground (arith, z), ground arith)
  | inr (fs, q) ↦
      let c = count_active-switch_off a a gov.delegations fs q in
      let d = count_active-switch_off who a gov.delegations fs q in
      let s = bytes_eq_refl a in
      (ground (arith, c, v a, s), ground (arith, c, v a, s), ground (arith, d))
]

power_from-append :
    (ds : List Delegation) (d : Delegation) (addr : List ℕ) (m : ℕ)
    → power_from (ds ++ (d ∷ [])) addr m ≡ (
        if d.active && bytes_eq d.delegate_addr addr
        then add64 (power_from ds addr m) d.delegated_power
        else power_from ds addr m)
unfolding power_from
power_from-append [] d addr m = refl
power_from-append (x ∷ ds) d addr m =
    power_from-append ds d addr
      (if x.active && bytes_eq x.delegate_addr addr then add64 m x.delegated_power else m)

-- With room, a delegator with no active delegation adds the amount to the delegate's voting power
-- (modulo 2^64) and leaves every other address's as it was.
pub vote_delegate-get_voting_power :
    (gov : Governor) (a b who : List ℕ) (n e : ℕ)
    → length gov.delegations < max_delegates
    → count_active a gov.delegations ≡ 0
    → bytes_eq b who ≡ false
    → let (ok, gov') = vote_delegate gov a b n e in
      (ok ≡ true)
      × (get_voting_power gov' b ≡ add64 (get_voting_power gov b) n)
      × (get_voting_power gov' who ≡ get_voting_power gov who)
unfolding vote_delegate get_voting_power
vote_delegate-get_voting_power gov a b who n e room z ne =
    let q = none-redelegate a b n e gov.delegations z in
    let s = bytes_eq_refl b in
    (
      ground (arith, q),
      ground (arith, q, s, power_from-append gov.delegations (new_delegation a b n e) b 0),
      ground (arith, q, power_from-append gov.delegations (new_delegation a b n e) who 0),
    )
