-- ===== src/Governance/Call.antt =====
-- The calls of mini-defi-crosschain/src/governance_dao.c that change a governor, and the arrow that each may take.
use mini_security_crypto_web.Prelude.{ℕ, suc, ◌≡◌, ◌≢◌, Option, ◌⊎◌, List, [], ◌∷◌}
use mini_security_crypto_web.Governance.{
  ProposalState, pending, active_vote, canceled, defeated, succeeded, queued, done, expired, vetoed,
  VoteType,
}

-- The calls of the component that change the governor; `quadratic` has the fuel of its loop.
pub data Call : Type 0 where
  create :
      List ℕ
      → Option (List (List ℕ))
      → Option (List ℕ)
      → Option (List (List ℕ))
      → ℕ
      → Option (List ℕ)
      → Call
  cancel : ℕ → List ℕ → Call
  veto : ℕ → Call
  vote : ℕ → List ℕ → ℕ → VoteType → Call
  quadratic : ℕ → ℕ → List ℕ → ℕ → VoteType → Call
  queue : ℕ → Call
  execute : ℕ → Call
  transition : ℕ → Call
  process : ℕ → Call
  delegate : List ℕ → List ℕ → ℕ → ℕ → Call
  undelegate : List ℕ → Call

-- The verdict on a vote, and the expiry.
abbrev pub Closes : ProposalState → ProposalState → Type 0
Closes s t = (s ≡ active_vote) × ((t ≡ succeeded) ⊎ (t ≡ defeated))

abbrev pub Lapses : ProposalState → ProposalState → Type 0
Lapses s t = (s ≡ queued) × (t ≡ expired)

-- The arrow that a call takes for the proposal at an index; ids start at 1.
abbrev pub Arrow : Call → ℕ → ProposalState → ProposalState → Type 0
Arrow (cancel k who) i s t = (k ≡ suc i) × ((s ≡ pending) ⊎ (s ≡ active_vote)) × (t ≡ canceled)
Arrow (veto k) i s t = (k ≡ suc i) × (s ≢ done) × (t ≡ vetoed)
Arrow (queue k) i s t = (k ≡ suc i) × (s ≡ succeeded) × (t ≡ queued)
Arrow (execute k) i s t = (k ≡ suc i) × (s ≡ queued) × (t ≡ done)
Arrow (transition k) i s t = (k ≡ suc i) × (((s ≡ pending) × (t ≡ active_vote)) ⊎ Closes s t)
Arrow (process now) i s t = Closes s t ⊎ Lapses s t
Arrow _ i s t = ⊥

-- A proposal at an index goes from `s` to `t` over the calls, each of which leaves its state or takes
-- its own arrow.
unfoldable pub Follows : List Call → ℕ → ProposalState → ProposalState → Type 0
Follows [] i s t = s ≡ t
Follows (c ∷ cs) i s t = (m : ProposalState) × ((s ≡ m) ⊎ Arrow c i s m) × Follows cs i m t
