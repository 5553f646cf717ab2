-- ===== src/Governance.antt =====
-- The DAO governor of mini-defi-crosschain/src/governance_dao.c: proposals, votes, delegations.
-- Addresses are byte lists; `dao_rand_seed` is a field; the arrays' parts in use are lists.
pub mod Progress
pub mod Ballot
pub mod Weight
pub mod Call
pub mod Moves
pub mod Lifecycle
pub mod Passing
pub mod Tally
pub mod Delegate
mod Tests
use mini_security_crypto_web.Prelude.{
  ℕ, zero, suc, ◌+◌, ◌-◌, ◌*◌, ◌/◌, ◌%◌, Bool, true, false, not, ◌&&◌, ◌||◌, Option, none, some,
  List, [], ◌∷◌, ◌++◌, leb, ltb, ◌==◌, add64, sub64, mul64, u32_mod, length, get_elem?, set, take,
  replicate, if◌then◌else◌,
}
use mini_security_crypto_web.Prelude.ByteString.{bytes_eq}

abbrev pub max_proposals : ℕ
max_proposals = 128

abbrev pub max_voters : ℕ
max_voters = 1024

abbrev pub max_delegates : ℕ
max_delegates = 256

abbrev pub bps_denom : ℕ
bps_denom = 10000

pub data ProposalState : Type 0 where
  pending : ProposalState
  active_vote : ProposalState
  canceled : ProposalState
  defeated : ProposalState
  succeeded : ProposalState
  queued : ProposalState
  done : ProposalState
  expired : ProposalState
  vetoed : ProposalState

pub data VoteType : Type 0 where
  against : VoteType
  for_it : VoteType
  abstain : VoteType

pub record Voter : Type 0 where
  pub voter_addr : List ℕ
  pub voting_power : ℕ
  pub delegated_from : ℕ
  pub has_voted : Bool
  vote : VoteType

pub record Delegation : Type 0 where
  pub delegate_addr : List ℕ
  pub delegator_addr : List ℕ
  pub delegated_power : ℕ
  pub expiry : ℕ
  pub active : Bool

pub record Proposal : Type 0 where
  pub proposal_id : ℕ
  pub proposer : List ℕ
  pub targets : List (List ℕ)
  pub values : List ℕ
  pub calldatas : List (List ℕ)
  pub target_count : ℕ
  pub start_time : ℕ
  pub end_time : ℕ
  pub for_votes : ℕ
  pub against_votes : ℕ
  pub abstain_votes : ℕ
  state : ProposalState
  pub execution_time : ℕ
  pub description_hash : List ℕ
  pub executed : Bool

pub record Governor : Type 0 where
  pub total_supply : ℕ
  pub quorum_bps : ℕ
  pub proposal_threshold_bps : ℕ
  pub voting_period : ℕ
  pub timelock_delay : ℕ
  pub proposals : List Proposal
  pub voters : List Voter
  pub delegations : List Delegation
  pub timelock_controller : List ℕ
  pub emergency_mode : Bool
  pub seed : ℕ

-- The file's static seed is left as it is.
abbrev pub governor_init : ℕ → ℕ → ℕ → ℕ → Governor
governor_init total_supply quorum_bps voting_period seed = record {
  total_supply = total_supply;
  quorum_bps = if ltb 0 quorum_bps then quorum_bps else 4000;
  proposal_threshold_bps = 100;
  voting_period = if ltb 0 voting_period then voting_period else 604800;
  timelock_delay = 172800;
  proposals = [];
  voters = [];
  delegations = [];
  timelock_controller = replicate 20 0;
  emergency_mode = false;
  seed = seed;
}

unfoldable pub dao_rand : ℕ → ℕ
dao_rand seed = (seed * 1103515245 + 12345) % u32_mod

-- `dao_rand() + d`, in 32 bits.
abbrev pub clock : ℕ → ℕ → ℕ
clock seed d = (dao_rand seed + d) % u32_mod

-- The proposal with a given identifier, from 1 on.
unfoldable pub lookup : Governor → ℕ → Option Proposal
lookup gov zero = none
lookup gov (suc i) = get_elem? gov.proposals i

-- The write through the pointer `p`.
abbrev pub store : Governor → ℕ → Proposal → Governor
store gov proposal_id p = record gov { proposals = set gov.proposals (proposal_id - 1) p }

unfoldable pub power_from : List Delegation → List ℕ → ℕ → ℕ
power_from [] addr power = power
power_from (d ∷ ds) addr power =
    power_from ds addr
      (if d.active && bytes_eq d.delegate_addr addr then add64 power d.delegated_power else power)

unfoldable pub get_voting_power : Governor → List ℕ → ℕ
get_voting_power gov addr = power_from gov.delegations addr 0

unfoldable pub has_quorum : Governor → Proposal → Bool
has_quorum gov p =
    leb (mul64 gov.total_supply gov.quorum_bps / bps_denom)
      (add64 (add64 p.for_votes p.against_votes) p.abstain_votes)

unfoldable pub vote_has_quorum : Governor → ℕ → Bool
vote_has_quorum gov proposal_id = elim (lookup gov proposal_id) [
  | none ↦ false
  | some p ↦ has_quorum gov p
]

-- What the arrays of calls hold: `none` is a null pointer, and a null `targets` copies nothing.
abbrev stored : {A : Type 0} → Option (List (List ℕ)) → Option (List A) → A → ℕ → List A
stored (some ts) (some xs) z n = take n xs
stored (some ts) none z n = replicate n z
stored none xs z n = replicate n z

-- The proposal that `proposal_create` writes.
abbrev pub new_proposal :
    Governor
    → List ℕ
    → Option (List (List ℕ))
    → Option (List ℕ)
    → Option (List (List ℕ))
    → ℕ
    → Option (List ℕ)
    → Proposal
new_proposal gov proposer targets values calldatas target_count desc_hash = record {
  proposal_id = length gov.proposals;
  proposer = proposer;
  targets = stored targets targets (replicate 20 0) target_count;
  values = stored targets values 0 target_count;
  calldatas = stored targets calldatas (replicate 128 0) target_count;
  target_count = target_count;
  start_time = clock gov.seed 1000000;
  end_time = add64 (clock gov.seed 1000000) gov.voting_period;
  for_votes = 0;
  against_votes = 0;
  abstain_votes = 0;
  state = active_vote;
  execution_time = 0;
  description_hash = elim desc_hash [ none ↦ replicate 32 0 | some h ↦ h ];
  executed = false;
}

unfoldable pub proposal_create :
    Governor
    → List ℕ
    → Option (List (List ℕ))
    → Option (List ℕ)
    → Option (List (List ℕ))
    → ℕ
    → Option (List ℕ)
    → ℕ × Governor
proposal_create gov proposer targets values calldatas target_count desc_hash =
    if leb target_count 0 || ltb 8 target_count
    then (0, gov)
    else if leb max_proposals (length gov.proposals)
    then (0, gov)
    else if ltb (get_voting_power gov proposer)
        (mul64 gov.total_supply gov.proposal_threshold_bps / bps_denom)
    then (0, gov)
    else (
      length gov.proposals + 1,
      record gov {
        proposals =
            gov.proposals
            ++ (new_proposal gov proposer targets values calldatas target_count desc_hash ∷ []);
        seed = dao_rand gov.seed;
      },
    )

abbrev pub is_open : ProposalState → Bool
is_open active_vote = true
is_open pending = true
is_open _ = false

abbrev pub is_active_vote : ProposalState → Bool
is_active_vote active_vote = true
is_active_vote _ = false

abbrev pub is_pending : ProposalState → Bool
is_pending pending = true
is_pending _ = false

abbrev pub is_succeeded : ProposalState → Bool
is_succeeded succeeded = true
is_succeeded _ = false

abbrev pub is_queued : ProposalState → Bool
is_queued queued = true
is_queued _ = false

abbrev pub is_done : ProposalState → Bool
is_done done = true
is_done _ = false
