-- ===== src/Governance/Tests.antt =====
-- The theorems on governance_dao.c (mini-defi-crosschain/src) at concrete governors.
use mini_security_crypto_web.Prelude.{
  ℕ, ◌+◌, ◌-◌, ◌*◌, ◌%◌, ◌≤◌, ◌<◌, ◌≡◌, ◌≢◌, refl, Bool, true, false, ◌&&◌, Option, none, some, ◌⊎◌,
  inl, inr, List, [], ◌∷◌, replicate, length, get_elem?, arith, leb, u64_mod, u32_mod, add64, IsU64,
  All, if◌then◌else◌,
}
use mini_security_crypto_web.Prelude.ByteString.{bytes_eq}
use mini_security_crypto_web.Governance.{
  Governor, Proposal, active_vote, done, defeated, Voter, for_it, against, abstain, lookup,
  governor_init, has_quorum, dao_rand,
}
use mini_security_crypto_web.Governance.Ballot.{vote_cast, recast, new_delegation}
use mini_security_crypto_web.Governance.Weight.{
  quadratic_voting_power, quadratic_voting_power-greatest,
}
use mini_security_crypto_web.Governance.Call.{
  Call, vote, transition, queue, execute, process, Follows,
}
use mini_security_crypto_web.Governance.Lifecycle.{run, run-Follows}
use mini_security_crypto_web.Governance.Passing.{passed_proposal_executes}
use mini_security_crypto_web.Governance.Tally.{IsTallied, vote_cast-IsTallied}
use mini_security_crypto_web.Governance.Delegate.{IsSingle, count_active}

abbrev alice : List ℕ
alice = replicate 20 1

abbrev bob : List ℕ
bob = replicate 20 2

abbrev open_proposal : Proposal
open_proposal = record {
  proposal_id = 0;
  proposer = alice;
  targets = alice ∷ [];
  values = 0 ∷ [];
  calldatas = replicate 128 0 ∷ [];
  target_count = 1;
  start_time = 1000000;
  end_time = 1600000;
  for_votes = 0;
  against_votes = 0;
  abstain_votes = 0;
  state = active_vote;
  execution_time = 0;
  description_hash = replicate 32 0;
  executed = false;
}

abbrev voted : Voter
voted = record {
  voter_addr = alice;
  voting_power = 40;
  delegated_from = 0;
  has_voted = true;
  vote = for_it;
}

abbrev empty : Governor
empty = governor_init 1000 0 0 7

abbrev executed_one : Proposal
executed_one = record open_proposal { state = done; executed = true }

abbrev defeated_one : Proposal
defeated_one = record open_proposal { state = defeated }

abbrev counted_one : Proposal
counted_one = record open_proposal { for_votes = 40 }

abbrev gov : Governor
gov = record empty {
  proposals = counted_one ∷ open_proposal ∷ executed_one ∷ defeated_one ∷ [];
  voters = voted ∷ [];
}

abbrev calls : List Call
calls = vote 1 bob 5 against ∷ transition 1 ∷ queue 1 ∷ execute 1 ∷ process 5000000 ∷ []

run-Follows_example :
    (p' : Proposal) × (get_elem? (run gov calls).proposals 0 ≡ some p')
    × Follows calls 0 active_vote p'.state
run-Follows_example = run-Follows gov calls 0 counted_one refl

first_is_counted : lookup gov 1 ≡ some counted_one
unfolding lookup
first_is_counted = refl

counted_IsTallied : IsTallied gov.voters counted_one
counted_IsTallied for_it = refl
counted_IsTallied against = refl
counted_IsTallied abstain = refl

vote_cast-IsTallied_example :
    let gov' = (vote_cast gov 1 alice 30 against).1 in
    (p' : Proposal) × (lookup gov' 1 ≡ some p') × IsTallied gov'.voters p'
vote_cast-IsTallied_example =
    vote_cast-IsTallied gov 1 alice 30 against counted_one first_is_counted (omega arith)
      counted_IsTallied

second_is_open : lookup gov 2 ≡ some open_proposal
unfolding lookup
second_is_open = refl

alice_is_recast :
    recast gov.voters alice 30 against
    ≡ some (voted, record voted { voting_power = 30; vote = against } ∷ [])
unfolding recast mini_security_crypto_web.Prelude.ByteString.bytes_eq
alice_is_recast = refl

quadratic_voting_power-greatest_example :
    (r : ℕ) × (quadratic_voting_power 101 100 7 ≡ some r) × (r ≤ 7) × (r * r ≤ 100) × (5 ≤ r)
quadratic_voting_power-greatest_example =
    quadratic_voting_power-greatest 100 7 5 (omega arith) (omega arith) (omega arith) (omega arith)

abbrev delegated : Governor
delegated = record gov { delegations = new_delegation alice bob 9 0 ∷ [] }

delegated-IsSingle : IsSingle delegated
delegated-IsSingle who = ground arith

apart : bytes_eq alice bob ≡ false
unfolding mini_security_crypto_web.Prelude.ByteString.bytes_eq
apart = refl

bob_has_none : count_active bob delegated.delegations ≡ 0
unfolding mini_security_crypto_web.Prelude.ByteString.bytes_eq
bob_has_none = refl

abbrev majority_one : Proposal
majority_one = record open_proposal { for_votes = 500 }

abbrev majority_gov : Governor
majority_gov = record empty { proposals = majority_one ∷ [] }

passed_proposal_executes_example :
    (p' : Proposal) × (lookup (run majority_gov (transition 1 ∷ queue 1 ∷ execute 1 ∷ [])) 1
      ≡ some p')
    × (p'.state ≡ done)
    × (p'.executed ≡ true)
unfolding lookup has_quorum dao_rand
passed_proposal_executes_example =
    passed_proposal_executes majority_gov 1 majority_one refl refl refl refl (omega arith)
      (omega arith) (omega arith)
