-- ===== src/Governance/Ballot.antt =====
-- Votes and delegations of mini-defi-crosschain/src/governance_dao.c.
use mini_security_crypto_web.Prelude.{
  ℕ, Bool, true, false, not, ◌&&◌, Option, none, some, List, [], ◌∷◌, ◌++◌, leb, ltb, add64, sub64,
  length, if◌then◌else◌,
}
use mini_security_crypto_web.Prelude.ByteString.{bytes_eq}
use mini_security_crypto_web.Governance.{
  Governor, Proposal, Voter, VoteType, against, for_it, abstain, Delegation, lookup, store,
  is_active_vote, is_succeeded, is_queued, max_voters, max_delegates,
}

abbrev pub add_vote : Proposal → VoteType → ℕ → Proposal
add_vote p for_it power = record p { for_votes = add64 p.for_votes power }
add_vote p against power = record p { against_votes = add64 p.against_votes power }
add_vote p abstain power = record p { abstain_votes = add64 p.abstain_votes power }

abbrev pub take_back : Proposal → VoteType → ℕ → Proposal
take_back p for_it power = record p { for_votes = sub64 p.for_votes power }
take_back p against power = record p { against_votes = sub64 p.against_votes power }
take_back p abstain power = record p { abstain_votes = sub64 p.abstain_votes power }

-- The first entry of `voter` that has voted, and the entries with that one overwritten.
unfoldable pub recast : List Voter → List ℕ → ℕ → VoteType → Option (Voter × List Voter)
recast [] voter power choice = none
recast (v ∷ vs) voter power choice =
    let later = recast vs voter power choice in
    if bytes_eq v.voter_addr voter && v.has_voted
    then some (v, record v { voting_power = power; vote = choice } ∷ vs)
    else elim later [ none ↦ none | some (old, vs') ↦ some (old, v ∷ vs') ]

abbrev pub new_voter : List ℕ → ℕ → VoteType → Voter
new_voter voter power choice = record {
  voter_addr = voter;
  voting_power = power;
  delegated_from = 0;
  has_voted = true;
  vote = choice;
}

unfoldable pub vote_cast : Governor → ℕ → List ℕ → ℕ → VoteType → Bool × Governor
vote_cast gov proposal_id voter power choice = elim (lookup gov proposal_id) [
  | none ↦ (false, gov)
  | some p ↦
      if not (is_active_vote p.state)
      then (false, gov)
      else elim (recast gov.voters voter power choice) [
        | some (old, voters) ↦ (
          true,
          store (record gov { voters = voters }) proposal_id
              (add_vote (take_back p old.vote old.voting_power) choice power),
        )
        | none ↦ if leb max_voters (length gov.voters) then (false, gov) else (
          true,
          store (record gov { voters = gov.voters ++ (new_voter voter power choice ∷ []) })
              proposal_id (add_vote p choice power),
        )
      ]
]

unfoldable pub vote_get_result : Governor → ℕ → VoteType
vote_get_result gov proposal_id = elim (lookup gov proposal_id) [
  | none ↦ against
  | some p ↦
      if not (is_succeeded p.state) && not (is_queued p.state)
      then against
      else if ltb p.against_votes p.for_votes
      then for_it
      else against
]

-- The first active delegation of `delegator`, overwritten.
unfoldable pub redelegate : List Delegation → List ℕ → List ℕ → ℕ → ℕ → Option (List Delegation)
redelegate [] delegator delegate amount expiry = none
redelegate (d ∷ ds) delegator delegate amount expiry =
    let later = redelegate ds delegator delegate amount expiry in
    if d.active && bytes_eq d.delegator_addr delegator
    then some
        (record d { delegated_power = amount; expiry = expiry; delegate_addr = delegate } ∷ ds)
    else elim later [ none ↦ none | some ds' ↦ some (d ∷ ds') ]

abbrev pub new_delegation : List ℕ → List ℕ → ℕ → ℕ → Delegation
new_delegation delegator delegate amount expiry = record {
  delegate_addr = delegate;
  delegator_addr = delegator;
  delegated_power = amount;
  expiry = expiry;
  active = true;
}

unfoldable pub vote_delegate : Governor → List ℕ → List ℕ → ℕ → ℕ → Bool × Governor
vote_delegate gov delegator delegate amount expiry =
    if leb max_delegates (length gov.delegations)
    then (false, gov)
    else elim (redelegate gov.delegations delegator delegate amount expiry) [
      | some ds ↦ (true, record gov { delegations = ds })
      | none ↦ (
        true,
        record gov {
          delegations = gov.delegations ++ (new_delegation delegator delegate amount expiry ∷ []);
        },
      )
    ]

-- The first active delegation of `delegator`, switched off.
unfoldable pub switch_off : List Delegation → List ℕ → Option (List Delegation)
switch_off [] delegator = none
switch_off (d ∷ ds) delegator =
    let later = switch_off ds delegator in
    if d.active && bytes_eq d.delegator_addr delegator
    then some (record d { active = false } ∷ ds)
    else elim later [ none ↦ none | some ds' ↦ some (d ∷ ds') ]

unfoldable pub vote_undelegate : Governor → List ℕ → Bool × Governor
vote_undelegate gov delegator = elim (switch_off gov.delegations delegator) [
  | none ↦ (false, gov)
  | some ds ↦ (true, record gov { delegations = ds })
]
