-- ===== src/Governance/Tally.antt =====
-- What the tallies of a proposal count.
use mini_security_crypto_web.Prelude.{
  ℕ, zero, suc, ◌+◌, ◌-◌, ◌%◌, ◌<◌, ◌≡◌, refl, Bool, true, false, some, List, [], ◌∷◌, ◌++◌, arith,
  u64_mod, IsU64, All, add64, sub64, Option-cases, ◌⊎◌, inl, inr, get_elem?-set_self,
  get_elem?-bound, if◌then◌else◌,
}
use mini_security_crypto_web.Governance.{
  Governor, Proposal, Voter, VoteType, active_vote, for_it, against, abstain, lookup, store,
}
use mini_security_crypto_web.Governance.Ballot.{vote_cast, recast, add_vote, take_back, new_voter}

abbrev same_choice : VoteType → VoteType → Bool
same_choice for_it for_it = true
same_choice against against = true
same_choice abstain abstain = true
same_choice _ _ = false

-- The power behind a choice.
abbrev pub power_behind : VoteType → List Voter → ℕ
power_behind c [] = 0
power_behind c (v ∷ vs) = (if same_choice c v.vote then v.voting_power else 0) + power_behind c vs

abbrev pub tally : VoteType → Proposal → ℕ
tally for_it p = p.for_votes
tally against p = p.against_votes
tally abstain p = p.abstain_votes

-- Each tally of the proposal is the power behind its choice, wrapped around.
abbrev pub IsTallied : List Voter → Proposal → Type 0
IsTallied voters p = (c : VoteType) → tally c p ≡ power_behind c voters % u64_mod

tally-add_vote :
    (t c : VoteType) (p : Proposal) (n : ℕ)
    → tally t (add_vote p c n) ≡ (if same_choice t c then add64 (tally t p) n else tally t p)
tally-add_vote for_it for_it p n = refl
tally-add_vote for_it against p n = refl
tally-add_vote for_it abstain p n = refl
tally-add_vote against for_it p n = refl
tally-add_vote against against p n = refl
tally-add_vote against abstain p n = refl
tally-add_vote abstain for_it p n = refl
tally-add_vote abstain against p n = refl
tally-add_vote abstain abstain p n = refl

tally-take_back :
    (t c : VoteType) (p : Proposal) (n : ℕ)
    → tally t (take_back p c n) ≡ (if same_choice t c then sub64 (tally t p) n else tally t p)
tally-take_back for_it for_it p n = refl
tally-take_back for_it against p n = refl
tally-take_back for_it abstain p n = refl
tally-take_back against for_it p n = refl
tally-take_back against against p n = refl
tally-take_back against abstain p n = refl
tally-take_back abstain for_it p n = refl
tally-take_back abstain against p n = refl
tally-take_back abstain abstain p n = refl

power_behind-append :
    (c : VoteType) (vs : List Voter) (w : Voter)
    → power_behind c (vs ++ (w ∷ []))
      ≡ power_behind c vs + (if same_choice c w.vote then w.voting_power else 0)
power_behind-append c [] w = ground arith
power_behind-append c (v ∷ vs) w = omega (arith, power_behind-append c vs w)

power_behind-recast :
    (t : VoteType) (vs : List Voter) (who : List ℕ) (n : ℕ) (c : VoteType) (old : Voter)
    (vs' : List Voter)
    → recast vs who n c ≡ some (old, vs')
    → power_behind t vs' + (if same_choice t old.vote then old.voting_power else 0)
      ≡ power_behind t vs + (if same_choice t c then n else 0)
unfolding recast
power_behind-recast t [] who n c old vs' h = cc
power_behind-recast t (v ∷ vs) who n c old vs' h = elim (Option-cases (recast vs who n c)) [
  | inl e ↦ ground arith
  | inr ((o, ws), e) ↦ ground (arith, power_behind-recast t vs who n c o ws e)
]

recast-IsU64 :
    (vs : List Voter) (who : List ℕ) (n : ℕ) (c : VoteType) (old : Voter) (vs' : List Voter)
    → All (λ v. IsU64 v.voting_power) vs
    → recast vs who n c ≡ some (old, vs')
    → IsU64 old.voting_power
unfolding recast
recast-IsU64 [] who n c old vs' a h = cc
recast-IsU64 (v ∷ vs) who n c old vs' a h = elim (Option-cases (recast vs who n c)) [
  | inl e ↦ ground (arith, a.0)
  | inr ((o, ws), e) ↦ ground (arith, a.0, recast-IsU64 vs who n c o ws a.1 e)
]

pub lookup-store :
    (gov : Governor) (k : ℕ) (p q : Proposal)
    → lookup gov k ≡ some p
    → lookup (store gov k q) k ≡ some q
unfolding lookup
lookup-store gov zero p q h = cc
lookup-store gov (suc k) p q h =
    ground (arith, get_elem?-set_self gov.proposals k q (get_elem?-bound gov.proposals k p h))

-- The old power of the choice `t` out, the new power of the choice `c` in.
IsTallied-revote :
    (p : Proposal) (vs vs' : List Voter) (old : Voter) (c : VoteType) (n : ℕ)
    → IsTallied vs p
    → IsU64 old.voting_power
    → ((t : VoteType)
        → power_behind t vs' + (if same_choice t old.vote then old.voting_power else 0)
          ≡ power_behind t vs + (if same_choice t c then n else 0))
    → IsTallied vs' (add_vote (take_back p old.vote old.voting_power) c n)
IsTallied-revote p vs vs' old c n v u e t = ground (
  arith,
  v t,
  e t,
  tally-add_vote t c (take_back p old.vote old.voting_power) n,
  tally-take_back t old.vote p old.voting_power,
)

IsTallied-new :
    (p : Proposal) (vs : List Voter) (who : List ℕ) (c : VoteType) (n : ℕ)
    → IsTallied vs p
    → IsTallied (vs ++ (new_voter who n c ∷ [])) (add_vote p c n)
IsTallied-new p vs who c n v t =
    ground (arith, v t, tally-add_vote t c p n, power_behind-append t vs (new_voter who n c))

IsTallied-either :
    (gov gov' : Governor) (k : ℕ) (p q : Proposal) (vs : List Voter)
    → lookup gov k ≡ some p
    → IsTallied gov.voters p
    → IsTallied vs q
    → (gov' ≡ gov) ⊎ (gov' ≡ store (record gov { voters = vs }) k q)
    → (p' : Proposal) × (lookup gov' k ≡ some p') × IsTallied gov'.voters p'
unfolding lookup
IsTallied-either gov gov' k p q vs h v w (inl e) = rw e (p, h, v)
IsTallied-either gov gov' k p q vs h v w (inr e) =
    rw e (q, lookup-store (record gov { voters = vs }) k p q h, w)

-- Where a proposal's tallies are the powers behind each choice (modulo 2^64), `vote_cast` on that
-- proposal, by a new voter or by one who changes a vote, keeps them so.
pub vote_cast-IsTallied :
    (gov : Governor) (k : ℕ) (who : List ℕ) (n : ℕ) (c : VoteType) (p : Proposal)
    → lookup gov k ≡ some p
    → All (λ v. IsU64 v.voting_power) gov.voters
    → IsTallied gov.voters p
    → let gov' = (vote_cast gov k who n c).1 in
      (p' : Proposal) × (lookup gov' k ≡ some p') × IsTallied gov'.voters p'
unfolding vote_cast
vote_cast-IsTallied gov k who n c p h a v = elim (Option-cases (recast gov.voters who n c)) [
  | inl r ↦
      IsTallied-either gov (vote_cast gov k who n c).1 k p (add_vote p c n)
        (gov.voters ++ (new_voter who n c ∷ [])) h v (IsTallied-new p gov.voters who c n v)
        (ground arith)
  | inr ((old, vs), r) ↦
      IsTallied-either gov (vote_cast gov k who n c).1 k p
        (add_vote (take_back p old.vote old.voting_power) c n) vs h v
        (IsTallied-revote p gov.voters vs old c n v (recast-IsU64 gov.voters who n c old vs a r)
          (λ t. power_behind-recast t gov.voters who n c old vs r))
        (ground arith)
]

-- The entries of the voters belong to no proposal. One who has voted for some proposal with a power
-- of w, and then votes against another active one that has no votes, leaves that one with
-- 2^64 - w votes for it.
pub second_proposal_underflows :
    (gov : Governor) (k : ℕ) (who : List ℕ) (n : ℕ) (p : Proposal) (old : Voter) (vs : List Voter)
    → lookup gov k ≡ some p
    → p.state ≡ active_vote
    → p.for_votes ≡ 0
    → recast gov.voters who n against ≡ some (old, vs)
    → old.vote ≡ for_it
    → 0 < old.voting_power
    → IsU64 old.voting_power
    → let (ok, gov') = vote_cast gov k who n against in
      (ok ≡ true)
      × (p' : Proposal) × (lookup gov' k ≡ some p')
      × (p'.for_votes ≡ u64_mod - old.voting_power)
unfolding vote_cast lookup
second_proposal_underflows gov k who n p old vs h st z r f pos u =
    let q = add_vote (take_back p old.vote old.voting_power) against n in
    let l = lookup-store (record gov { voters = vs }) k p q h in
    (ground arith, q, ground (arith, l), ground arith)
