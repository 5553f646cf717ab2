-- ===== src/Governance/Moves.antt =====
-- The moves of a proposal's state that one call makes.
use mini_security_crypto_web.Prelude.{
  ℕ, ◌/◌, none, some, zero, suc, ◌-◌, ◌≡◌, refl, ap, Bool, true, false, ◌&&◌, Option, some, ◌⊎◌,
  inl, inr, List, [], ◌∷◌, ◌++◌, arith, ltb, add64, Option-cases, get_elem?, set,
  get_elem?-set_self, get_elem?-set_ne, get_elem?-bound, if◌then◌else◌,
}
use native.Mathlib.Decide.{ℕ_discrete}
use mini_security_crypto_web.Governance.{
  Governor, Proposal, ProposalState, pending, active_vote, canceled, defeated, succeeded, queued,
  done, expired, vetoed, VoteType, for_it, against, abstain, lookup, proposal_create, new_proposal,
  vote_has_quorum, is_open, is_done, is_queued, is_pending, is_succeeded, is_active_vote,
}
use mini_security_crypto_web.Governance.Call.{
  create, cancel, veto, vote, quadratic, queue, execute, transition, Arrow, Lapses,
}
use mini_security_crypto_web.Governance.Progress.{
  proposal_cancel, proposal_veto, proposal_queue, proposal_execute, proposal_state_transition,
  expire_queued,
}
use mini_security_crypto_web.Governance.Weight.{quadratic_voting_power, quadratic_vote_cast}
use mini_security_crypto_web.Governance.Ballot.{vote_cast, add_vote, take_back, recast}

-- Every proposal of `gov` is still there in `gov'`, in its state or at an arrow of `R` from it.
abbrev pub Evolves : (ℕ → ProposalState → ProposalState → Type 0) → Governor → Governor → Type 0
Evolves R gov gov' =
    (i : ℕ) (p : Proposal)
    → get_elem? gov.proposals i ≡ some p
    → (p' : Proposal) × (get_elem? gov'.proposals i ≡ some p')
      × ((p.state ≡ p'.state) ⊎ R i p.state p'.state)

pub Evolves-same :
    (R : ℕ → ProposalState → ProposalState → Type 0) (gov gov' : Governor)
    → gov'.proposals ≡ gov.proposals
    → Evolves R gov gov'
Evolves-same R gov gov' e i p h = (p, rw e h, inl refl)

-- What a move to `t` has to show, for the proposal with the id `k`.
abbrev MovesTo :
    (ℕ → ProposalState → ProposalState → Type 0) → ℕ → ProposalState → ProposalState → Type 0
MovesTo R k s t = (i : ℕ) → k ≡ suc i → (s ≡ t) ⊎ R i s t

Evolves-store :
    (R : ℕ → ProposalState → ProposalState → Type 0) (gov gov' : Governor) (k : ℕ) (q q' : Proposal)
    → lookup gov k ≡ some q
    → gov'.proposals ≡ set gov.proposals (k - 1) q'
    → MovesTo R k q.state q'.state
    → Evolves R gov gov'
unfolding lookup
Evolves-store R gov gov' zero q q' h e m i p g = cc
Evolves-store R gov gov' (suc k) q q' h e m i p g = elim (ℕ_discrete k i) [
  | yes s ↦
      let same : q ≡ p = cc in
      (
        q',
        ground (arith, get_elem?-set_self gov.proposals k q' (get_elem?-bound gov.proposals k q h)),
        rw (← same) (m i (ap suc s)),
      )
  | no s ↦ (p, ground (arith, get_elem?-set_ne gov.proposals k i q' s), inl refl)
]

get_elem?-append :
    {A : Type 0} (xs ys : List A) (i : ℕ) (a : A)
    → get_elem? xs i ≡ some a
    → get_elem? (xs ++ ys) i ≡ some a
get_elem?-append [] ys i a h = cc
get_elem?-append (x ∷ xs) ys zero a h = h
get_elem?-append (x ∷ xs) ys (suc i) a h = get_elem?-append xs ys i a h

-- A call that leaves the proposals as they are, or stores `q'` under a condition `C`.
Evolves-either :
    (R : ℕ → ProposalState → ProposalState → Type 0) (gov gov' : Governor) (k : ℕ) (q q' : Proposal)
    (C : Type 0)
    → lookup gov k ≡ some q
    → (C → MovesTo R k q.state q'.state)
    → (gov'.proposals ≡ gov.proposals) ⊎ ((gov'.proposals ≡ set gov.proposals (k - 1) q') × C)
    → Evolves R gov gov'
Evolves-either R gov gov' k q q' C h m (inl e) = Evolves-same R gov gov' e
Evolves-either R gov gov' k q q' C h m (inr (e, c)) = Evolves-store R gov gov' k q q' h e (m c)

move_cancel :
    (k : ℕ) (who : List ℕ) (s : ProposalState)
    → is_open s ≡ true
    → MovesTo (Arrow (cancel k who)) k s canceled
move_cancel k who active_vote h i e = inr (e, inr refl, refl)
move_cancel k who pending h i e = inr (e, inl refl, refl)
move_cancel k who _ h i e = cc

pub cancel-Evolves :
    (gov : Governor) (k : ℕ) (who : List ℕ)
    → Evolves (Arrow (cancel k who)) gov (proposal_cancel gov k who).1
unfolding proposal_cancel
cancel-Evolves gov k who = elim (Option-cases (lookup gov k)) [
  | inl e ↦ Evolves-same (Arrow (cancel k who)) gov (proposal_cancel gov k who).1 (ground arith)
  | inr (p, e) ↦
      Evolves-either (Arrow (cancel k who)) gov (proposal_cancel gov k who).1 k p
        (record p { state = canceled }) (is_open p.state ≡ true) e (move_cancel k who p.state)
        (ground arith)
]

move_veto : (k : ℕ) (s : ProposalState) → is_done s ≡ false → MovesTo (Arrow (veto k)) k s vetoed
move_veto k s h i e = inr (e, (λ q. cc), refl)

pub veto-Evolves : (gov : Governor) (k : ℕ) → Evolves (Arrow (veto k)) gov (proposal_veto gov k).1
unfolding proposal_veto
veto-Evolves gov k = elim (Option-cases (lookup gov k)) [
  | inl e ↦ Evolves-same (Arrow (veto k)) gov (proposal_veto gov k).1 (ground arith)
  | inr (p, e) ↦
      Evolves-either (Arrow (veto k)) gov (proposal_veto gov k).1 k p (record p { state = vetoed })
        (is_done p.state ≡ false) e (move_veto k p.state) (ground arith)
]

move_queue :
    (k : ℕ) (s : ProposalState) → is_succeeded s ≡ true → MovesTo (Arrow (queue k)) k s queued
move_queue k succeeded h i e = inr (e, refl, refl)
move_queue k _ h i e = cc

pub queue-Evolves :
    (gov : Governor) (k : ℕ) → Evolves (Arrow (queue k)) gov (proposal_queue gov k).1
unfolding proposal_queue
queue-Evolves gov k = elim (Option-cases (lookup gov k)) [
  | inl e ↦ Evolves-same (Arrow (queue k)) gov (proposal_queue gov k).1 (ground arith)
  | inr (p, e) ↦
      Evolves-either (Arrow (queue k)) gov (proposal_queue gov k).1 k p
        (record p { state = queued; execution_time = add64 p.end_time gov.timelock_delay })
        (is_succeeded p.state ≡ true) e (move_queue k p.state) (ground arith)
]

move_execute :
    (k : ℕ) (s : ProposalState) → is_queued s ≡ true → MovesTo (Arrow (execute k)) k s done
move_execute k queued h i e = inr (e, refl, refl)
move_execute k _ h i e = cc

pub execute-Evolves :
    (gov : Governor) (k : ℕ) → Evolves (Arrow (execute k)) gov (proposal_execute gov k).1
unfolding proposal_execute
execute-Evolves gov k = elim (Option-cases (lookup gov k)) [
  | inl e ↦ Evolves-same (Arrow (execute k)) gov (proposal_execute gov k).1 (ground arith)
  | inr (p, e) ↦
      Evolves-either (Arrow (execute k)) gov (proposal_execute gov k).1 k p
        (record p { executed = true; state = done }) (is_queued p.state ≡ true) e
        (move_execute k p.state) (ground arith)
]

-- The expiry of the proposal at `k`.
abbrev pub Expiry : ℕ → ℕ → ProposalState → ProposalState → Type 0
Expiry k i s t = (k ≡ i) × Lapses s t

move_expire :
    (k : ℕ) (s : ProposalState) → is_queued s ≡ true → MovesTo (Expiry k) (suc k) s expired
move_expire k queued h i e = inr (omega arith, (refl, refl))
move_expire k _ h i e = cc

state-add_vote : (p : Proposal) (c : VoteType) (n : ℕ) → (add_vote p c n).state ≡ p.state
state-add_vote p for_it n = refl
state-add_vote p against n = refl
state-add_vote p abstain n = refl

state-take_back : (p : Proposal) (c : VoteType) (n : ℕ) → (take_back p c n).state ≡ p.state
state-take_back p for_it n = refl
state-take_back p against n = refl
state-take_back p abstain n = refl

pub vote-Evolves :
    (gov : Governor) (k : ℕ) (who : List ℕ) (n : ℕ) (c : VoteType)
    → Evolves (Arrow (vote k who n c)) gov (vote_cast gov k who n c).1
unfolding vote_cast
vote-Evolves gov k who n c = elim (Option-cases (lookup gov k)) [
  | inl e ↦ Evolves-same (Arrow (vote k who n c)) gov (vote_cast gov k who n c).1 (ground arith)
  | inr (p, e) ↦ elim (Option-cases (recast gov.voters who n c)) [
    | inl r ↦
        Evolves-either (Arrow (vote k who n c)) gov (vote_cast gov k who n c).1 k p (add_vote p c n)
          Unit e (λ u i q. rw (state-add_vote p c n) (inl refl)) (ground arith)
    | inr ((old, vs), r) ↦
        Evolves-either (Arrow (vote k who n c)) gov (vote_cast gov k who n c).1 k p
          (add_vote (take_back p old.vote old.voting_power) c n) Unit e
          (λ u i q.
            rw
              (
                state-add_vote (take_back p old.vote old.voting_power) c n,
                state-take_back p old.vote old.voting_power,
              )
              (inl refl))
          (ground arith)
  ]
]

-- The governor after `quadratic_vote_cast`, whose loop may not end.
abbrev pub after_quadratic : ℕ → Governor → ℕ → List ℕ → ℕ → VoteType → Governor
after_quadratic fuel gov k who credits c = elim (quadratic_vote_cast fuel gov k who credits c) [
  | none ↦ gov
  | some (preference, gov') ↦ gov'
]

pub quadratic-Evolves :
    (fuel : ℕ) (gov : Governor) (k : ℕ) (who : List ℕ) (credits : ℕ) (c : VoteType)
    → Evolves
        (Arrow (quadratic fuel k who credits c))
        gov
        (after_quadratic fuel gov k who credits c)
unfolding quadratic_vote_cast
quadratic-Evolves fuel gov k who credits c = elim (Option-cases (lookup gov k)) [
  | inl e ↦
      Evolves-same (Arrow (quadratic fuel k who credits c)) gov
        (after_quadratic fuel gov k who credits c) (ground arith)
  | inr (p, e) ↦
      elim (Option-cases (quadratic_voting_power fuel credits (add64 (credits / 100) 1))) [
        | inl r ↦
            Evolves-same (Arrow (quadratic fuel k who credits c)) gov
              (after_quadratic fuel gov k who credits c) (ground arith)
        | inr (n, r) ↦
            Evolves-either (Arrow (quadratic fuel k who credits c)) gov
              (after_quadratic fuel gov k who credits c) k p (add_vote p c n) Unit e
              (λ u i q. rw (state-add_vote p c n) (inl refl)) (ground arith)
      ]
]

-- The state that a transition stores, when it stores one: `v` is the verdict of the votes.
abbrev next_state : ProposalState → Bool → ProposalState
next_state s v = if is_active_vote s then (if v then succeeded else defeated) else active_vote

move_transition :
    (k : ℕ) (s : ProposalState) (v : Bool)
    → (is_active_vote s ≡ true) ⊎ (is_pending s ≡ true)
    → MovesTo (Arrow (transition k)) k s (next_state s v)
move_transition k active_vote true h i e = inr (e, inr (refl, inl refl))
move_transition k active_vote false h i e = inr (e, inr (refl, inr refl))
move_transition k pending v h i e = inr (e, inl (refl, refl))
move_transition k s v (inl h) i e = cc
move_transition k s v (inr h) i e = cc

pub transition-Evolves :
    (gov : Governor) (k : ℕ)
    → Evolves (Arrow (transition k)) gov (proposal_state_transition gov k).1
unfolding proposal_state_transition
transition-Evolves gov k = elim (Option-cases (lookup gov k)) [
  | inl e ↦
      Evolves-same (Arrow (transition k)) gov (proposal_state_transition gov k).1 (ground arith)
  | inr (p, e) ↦
      Evolves-either (Arrow (transition k)) gov (proposal_state_transition gov k).1 k p
        (record p {
          state = next_state p.state (vote_has_quorum gov k && ltb p.against_votes p.for_votes);
        })
        ((is_active_vote p.state ≡ true) ⊎ (is_pending p.state ≡ true)) e
        (move_transition k p.state (vote_has_quorum gov k && ltb p.against_votes p.for_votes))
        (ground arith)
]

pub expire-Evolves : (gov : Governor) (i now : ℕ) → Evolves (Expiry i) gov (expire_queued gov i now)
unfolding expire_queued lookup
expire-Evolves gov i now = elim (Option-cases (get_elem? gov.proposals i)) [
  | inl e ↦ Evolves-same (Expiry i) gov (expire_queued gov i now) (ground arith)
  | inr (p, e) ↦
      Evolves-either (Expiry i) gov (expire_queued gov i now) (suc i) p
        (record p { state = expired }) (is_queued p.state ≡ true) e (move_expire i p.state)
        (ground arith)
]

pub create-Evolves :
    (gov : Governor) (who : List ℕ) (t : Option (List (List ℕ))) (v : Option (List ℕ))
    (c : Option (List (List ℕ))) (n : ℕ) (d : Option (List ℕ))
    → Evolves (Arrow (create who t v c n d)) gov (proposal_create gov who t v c n d).1
unfolding proposal_create
create-Evolves gov who t v c n d i p h = (
  p,
  ground (arith, get_elem?-append gov.proposals (new_proposal gov who t v c n d ∷ []) i p h),
  inl refl,
)
