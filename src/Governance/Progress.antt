-- ===== src/Governance/Progress.antt =====
-- What moves a proposal through its life, in mini-defi-crosschain/src/governance_dao.c: cancel, veto,
-- queue, execute, the transition and the expiry.
use mini_security_crypto_web.Prelude.{
  ℕ, zero, suc, Bool, true, false, not, ◌&&◌, ◌||◌, none, some, List, leb, ltb, add64, mul64,
  length, get_elem?, if◌then◌else◌,
}
use mini_security_crypto_web.Prelude.ByteString.{bytes_eq}
use mini_security_crypto_web.Governance.{
  Governor, dao_rand, clock, lookup, store, vote_has_quorum, is_open, is_active_vote, is_pending,
  is_succeeded, is_queued, is_done, active_vote, canceled, defeated, succeeded, queued, done,
  expired, vetoed,
}

unfoldable pub proposal_cancel : Governor → ℕ → List ℕ → Bool × Governor
proposal_cancel gov proposal_id caller = elim (lookup gov proposal_id) [
  | none ↦ (false, gov)
  | some p ↦
      if not (is_open p.state)
      then (false, gov)
      else if not (bytes_eq p.proposer caller)
      then (false, gov)
      else (true, store gov proposal_id (record p { state = canceled }))
]

unfoldable pub proposal_veto : Governor → ℕ → Bool × Governor
proposal_veto gov proposal_id = elim (lookup gov proposal_id) [
  | none ↦ (false, gov)
  | some p ↦
      if not gov.emergency_mode
      then (false, gov)
      else if is_done p.state
      then (false, gov)
      else (true, store gov proposal_id (record p { state = vetoed }))
]

unfoldable pub proposal_queue : Governor → ℕ → Bool × Governor
proposal_queue gov proposal_id = elim (lookup gov proposal_id) [
  | none ↦ (false, gov)
  | some p ↦
      if not (is_succeeded p.state)
      then (false, gov)
      else if not (vote_has_quorum gov proposal_id)
      then (false, gov)
      else (
        true,
        store gov proposal_id
            (record p { state = queued; execution_time = add64 p.end_time gov.timelock_delay }),
      )
]

unfoldable pub proposal_execute : Governor → ℕ → Bool × Governor
proposal_execute gov proposal_id = elim (lookup gov proposal_id) [
  | none ↦ (false, gov)
  | some p ↦
      if not (is_queued p.state) || p.executed
      then (false, gov)
      else (let gov' = record gov { seed = dao_rand gov.seed } in
          if ltb (clock gov.seed 3000000) p.execution_time
          then (false, gov')
          else (true, store gov' proposal_id (record p { executed = true; state = done })))
]

unfoldable pub proposal_state_transition : Governor → ℕ → Bool × Governor
proposal_state_transition gov proposal_id = elim (lookup gov proposal_id) [
  | none ↦ (false, gov)
  | some p ↦
      let gov' = record gov { seed = dao_rand gov.seed } in
      let now = clock gov.seed 2000000 in
      if is_active_vote p.state && leb p.end_time now
      then (
        true,
        store gov' proposal_id (
            if vote_has_quorum gov proposal_id && ltb p.against_votes p.for_votes
            then record p { state = succeeded }
            else record p { state = defeated }),
      )
      else if is_pending p.state && leb p.start_time now
      then (true, store gov' proposal_id (record p { state = active_vote }))
      else (false, gov')
]

-- The second test of the loop of `proposal_process_expired`.
unfoldable pub expire_queued : Governor → ℕ → ℕ → Governor
expire_queued gov i current_time = elim (get_elem? gov.proposals i) [
  | none ↦ gov
  | some p ↦
      if is_queued p.state && ltb (add64 p.execution_time (mul64 gov.timelock_delay 2)) current_time
      then store gov (suc i) (record p { state = expired })
      else gov
]

-- One turn of the loop.
unfoldable pub process_one : Governor → ℕ → ℕ → Governor
process_one gov i current_time = elim (get_elem? gov.proposals i) [
  | none ↦ gov
  | some p ↦
      if is_active_vote p.state && ltb p.end_time current_time
      then expire_queued (proposal_state_transition gov (suc i)).1 i current_time
      else expire_queued gov i current_time
]

-- The loop from `i` on, with `n` proposals left.
unfoldable pub process_from : Governor → ℕ → ℕ → ℕ → Governor
process_from gov current_time i zero = gov
process_from gov current_time i (suc n) =
    process_from (process_one gov i current_time) current_time (suc i) n

unfoldable pub process_expired : Governor → ℕ → Governor
process_expired gov current_time = process_from gov current_time 0 (length gov.proposals)
