-- ===== src/Governance/Passing.antt =====
-- A proposal from its vote to its execution, mini-defi-crosschain/src/governance_dao.c.
use mini_security_crypto_web.Prelude.{
  ℕ, ◌≡◌, ◌≤◌, ◌<◌, refl, arith, true, false, some, [], ◌∷◌, leb, ltb, add64,
}
use mini_security_crypto_web.Governance.{
  Governor, Proposal, dao_rand, clock, lookup, store, has_quorum, vote_has_quorum, active_vote,
  succeeded, queued, done,
}
use mini_security_crypto_web.Governance.Progress.{
  proposal_queue, proposal_execute, proposal_state_transition,
}
use mini_security_crypto_web.Governance.Call.{transition, queue, execute}
use mini_security_crypto_web.Governance.Lifecycle.{call, run}
use mini_security_crypto_web.Governance.Tally.{lookup-store}

quorum_of :
    (gov : Governor) (k : ℕ) (p : Proposal)
    → lookup gov k ≡ some p
    → vote_has_quorum gov k ≡ has_quorum gov p
unfolding vote_has_quorum
quorum_of gov k p h = rw (vote_has_quorum, h) refl

transition_passes :
    (gov : Governor) (k : ℕ) (p : Proposal)
    → lookup gov k ≡ some p
    → p.state ≡ active_vote
    → has_quorum gov p ≡ true
    → p.against_votes < p.for_votes
    → p.end_time ≤ clock gov.seed 2000000
    → (proposal_state_transition gov k).1
      ≡ store (record gov { seed = dao_rand gov.seed }) k (record p { state = succeeded })
unfolding proposal_state_transition
transition_passes gov k p h s q v t =
    let l : leb p.end_time (clock gov.seed 2000000) ≡ true = ground (arith, t) in
    let m : ltb p.against_votes p.for_votes ≡ true = ground (arith, v) in
    rw (proposal_state_transition, h, s, l, quorum_of gov k p h, q, m) refl

queue_passes :
    (gov : Governor) (k : ℕ) (p : Proposal)
    → lookup gov k ≡ some p
    → p.state ≡ succeeded
    → has_quorum gov p ≡ true
    → (proposal_queue gov k).1
      ≡ store gov k
          (record p { state = queued; execution_time = add64 p.end_time gov.timelock_delay })
unfolding proposal_queue
queue_passes gov k p h s q = rw (proposal_queue, h, s, quorum_of gov k p h, q) refl

execute_passes :
    (gov : Governor) (k : ℕ) (p : Proposal)
    → lookup gov k ≡ some p
    → p.state ≡ queued
    → p.executed ≡ false
    → p.execution_time ≤ clock gov.seed 3000000
    → (proposal_execute gov k).1
      ≡ store
          (record gov { seed = dao_rand gov.seed })
          k
          (record p { executed = true; state = done })
unfolding proposal_execute
execute_passes gov k p h s x t =
    let l : ltb (clock gov.seed 3000000) p.execution_time ≡ false = ground (arith, t) in
    rw (proposal_execute, h, s, x, l) refl

-- An active proposal with a quorum and a majority is executed by a transition, a queueing and an
-- execution, when the clock is past its end at the first and past its timelock at the last.
pub passed_proposal_executes :
    (gov : Governor) (k : ℕ) (p : Proposal)
    → lookup gov k ≡ some p
    → p.state ≡ active_vote
    → p.executed ≡ false
    → has_quorum gov p ≡ true
    → p.against_votes < p.for_votes
    → p.end_time ≤ clock gov.seed 2000000
    → add64 p.end_time gov.timelock_delay ≤ clock (dao_rand gov.seed) 3000000
    → (p' : Proposal) × (lookup (run gov (transition k ∷ queue k ∷ execute k ∷ [])) k ≡ some p')
      × (p'.state ≡ done)
      × (p'.executed ≡ true)
unfolding run call lookup has_quorum
passed_proposal_executes gov k p h s x q v t u =
    let g1 : Governor = record gov { seed = dao_rand gov.seed } in
    let p1 : Proposal = record p { state = succeeded } in
    let l1 = lookup-store g1 k p p1 h in
    let p2 : Proposal = record p1 {
      state = queued;
      execution_time = add64 p.end_time gov.timelock_delay;
    } in
    let g2 : Governor = store g1 k p1 in
    let l2 = lookup-store g2 k p1 p2 l1 in
    let g3 : Governor = store g2 k p2 in
    let p3 : Proposal = record p2 { executed = true; state = done } in
    let l3 = lookup-store (record g3 { seed = dao_rand g3.seed }) k p2 p3 l2 in
    (
      p3,
      rw
          (
            transition_passes gov k p h s q v t,
            queue_passes g2 k p1 l1 refl q,
            execute_passes g3 k p2 l2 refl x u,
          )
          l3,
      refl,
      refl,
    )
