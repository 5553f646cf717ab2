-- ===== src/Governance/Lifecycle.antt =====
-- The states a proposal goes through, over any sequence of calls.
use mini_security_crypto_web.Prelude.{
  ℕ, zero, suc, ◌≤◌, ◌≡◌, ◌≢◌, refl, sym, ◌∙◌, true, ltb, some, ◌⊎◌, inl, inr, List, [], ◌∷◌, arith,
  length, get_elem?, Option-cases, Bool-cases,
}
use mini_security_crypto_web.Governance.{
  Governor, Proposal, ProposalState, pending, active_vote, canceled, defeated, done, expired,
  vetoed, proposal_create, is_active_vote,
}
use mini_security_crypto_web.Governance.Call.{
  Call, create, cancel, veto, vote, quadratic, queue, execute, transition, process, delegate,
  undelegate, Arrow, Closes, Lapses, Follows,
}
use mini_security_crypto_web.Governance.Progress.{
  proposal_cancel, proposal_veto, proposal_queue, proposal_execute, proposal_state_transition,
  expire_queued, process_one, process_from, process_expired,
}
use mini_security_crypto_web.Governance.Ballot.{vote_cast, vote_delegate, vote_undelegate}
use mini_security_crypto_web.Governance.Moves.{
  Evolves, Evolves-same, cancel-Evolves, veto-Evolves, queue-Evolves, execute-Evolves,
  after_quadratic, quadratic-Evolves, vote-Evolves, transition-Evolves, expire-Evolves,
  create-Evolves, Expiry,
}

unfoldable pub call : Governor → Call → Governor
call gov (create p t v c n d) = (proposal_create gov p t v c n d).1
call gov (cancel i who) = (proposal_cancel gov i who).1
call gov (veto i) = (proposal_veto gov i).1
call gov (vote i who power choice) = (vote_cast gov i who power choice).1
call gov (quadratic fuel i who credits c) = after_quadratic fuel gov i who credits c
call gov (queue i) = (proposal_queue gov i).1
call gov (execute i) = (proposal_execute gov i).1
call gov (transition i) = (proposal_state_transition gov i).1
call gov (process now) = process_expired gov now
call gov (delegate a b n e) = (vote_delegate gov a b n e).1
call gov (undelegate a) = (vote_undelegate gov a).1

abbrev Relation : Type 1
Relation = ℕ → ProposalState → ProposalState → Type 0

-- One turn of `process_expired` may close or expire the proposal at its index.
Turn : ℕ → Relation
Turn k i s t = (k ≡ i) × (Closes s t ⊎ Lapses s t)

process_one-cases :
    (gov : Governor) (i now : ℕ)
    → (process_one gov i now ≡ gov)
      ⊎ ((process_one gov i now ≡ expire_queued gov i now)
          ⊎ ((p : Proposal) × (get_elem? gov.proposals i ≡ some p)
              × (p.state ≡ active_vote)
              × (process_one gov i now
                  ≡ expire_queued (proposal_state_transition gov (suc i)).1 i now)))
unfolding process_one
process_one-cases gov i now = elim (Option-cases (get_elem? gov.proposals i)) [
  | inl e ↦ inl (rw (process_one, e) refl)
  | inr (p, e) ↦ elim (Bool-cases (is_active_vote p.state)) [
    | inr a ↦ inr (inl (rw (process_one, e, a) refl))
    | inl a ↦ elim (Bool-cases (ltb p.end_time now)) [
      | inr b ↦ inr (inl (rw (process_one, e, a, b) refl))
      | inl b ↦ inr (inr (p, e, is_active p.state a, rw (process_one, e, a, b) refl))
    ]
  ]
]
  where
    is_active : (s : ProposalState) → is_active_vote s ≡ true → s ≡ active_vote
    is_active active_vote h = refl
    is_active _ h = cc

-- What the transition of an active proposal and the expiry behind it do together.
closes_then_lapses :
    (i j : ℕ) (s m t : ProposalState)
    → (j ≡ i → s ≡ active_vote)
    → (s ≡ m) ⊎ Arrow (transition (suc i)) j s m
    → (m ≡ t) ⊎ Expiry i j m t
    → (s ≡ t) ⊎ Turn i j s t
unfolding Turn
closes_then_lapses i j s m t a (inl e) (inl f) = inl (e ∙ f)
closes_then_lapses i j s m t a (inl e) (inr (f, l)) = inr (f, inr (rw e l))
closes_then_lapses i j s m t a (inr (k, c)) (inl f) =
    let same : i ≡ j = omega arith in inr (same, inl (closed (a (sym same)) c))
  where
    closed : s ≡ active_vote → ((s ≡ pending) × (m ≡ active_vote)) ⊎ Closes s m → Closes s t
    closed q (inl (u, v)) = cc
    closed q (inr (u, inl v)) = (u, inl (sym f ∙ v))
    closed q (inr (u, inr v)) = (u, inr (sym f ∙ v))
closes_then_lapses i j s m t a (inr (k, c)) (inr (f, l)) = absurd (never c)
  where
    never : ((s ≡ pending) × (m ≡ active_vote)) ⊎ Closes s m → ⊥
    never (inl (u, v)) = let e = l.0 in cc
    never (inr (u, inl v)) = let e = l.0 in cc
    never (inr (u, inr v)) = let e = l.0 in cc

lapses : (i j : ℕ) (s t : ProposalState) → (s ≡ t) ⊎ Expiry i j s t → (s ≡ t) ⊎ Turn i j s t
unfolding Turn
lapses i j s t (inl e) = inl e
lapses i j s t (inr (f, l)) = inr (f, inr l)

process_one-Evolves : (gov : Governor) (i now : ℕ) → Evolves (Turn i) gov (process_one gov i now)
process_one-Evolves gov i now = elim (process_one-cases gov i now) [
  | inl e ↦ rw e (λ j p h. (p, h, inl refl))
  | inr (inl e) ↦ rw e (λ j p h.
      let (p', h', m) = expire-Evolves gov i now j p h in (p', h', lapses i j p.state p'.state m))
  | inr (inr (q, g, a, e)) ↦
      let gov' = (proposal_state_transition gov (suc i)).1 in
      rw e (λ j p h.
        let (p', h', m) = transition-Evolves gov (suc i) j p h in
        let (p'', h'', n) = expire-Evolves gov' i now j p' h' in
        (
          p'',
          h'',
          closes_then_lapses i j p.state p'.state p''.state
              (λ same. let both : q ≡ p = cc in rw (← both) a) m n,
        ))
]

-- A turn each, so at most one arrow for each proposal, and none below the index.
process_from-Evolves :
    (gov : Governor) (now i n : ℕ)
    → Evolves (λ j s t. (i ≤ j) × (Closes s t ⊎ Lapses s t)) gov (process_from gov now i n)
unfolding process_from Turn
process_from-Evolves gov now i zero j p h = (p, h, inl refl)
process_from-Evolves gov now i (suc n) j p h =
    let (p', h', m) = process_one-Evolves gov i now j p h in
    let (p'', h'', r) = process_from-Evolves (process_one gov i now) now (suc i) n j p' h' in
    (p'', h'', joined p.state p'.state p''.state m r)
  where
    joined :
        (s m t : ProposalState)
        → (s ≡ m) ⊎ ((i ≡ j) × (Closes s m ⊎ Lapses s m))
        → (m ≡ t) ⊎ ((suc i ≤ j) × (Closes m t ⊎ Lapses m t))
        → (s ≡ t) ⊎ ((i ≤ j) × (Closes s t ⊎ Lapses s t))
    joined s m t (inl e) (inl f) = inl (e ∙ f)
    joined s m t (inl e) (inr (f, g)) = inr (omega arith, rw e g)
    joined s m t (inr (e, g)) (inl f) = inr (omega arith, rw (← f) g)
    joined s m t (inr (e, g)) (inr (f, k)) = absurd (omega arith)

process-Evolves :
    (gov : Governor) (now : ℕ) → Evolves (Arrow (process now)) gov (process_expired gov now)
unfolding process_expired
process-Evolves gov now j p h =
    let (p', h', m) = process_from-Evolves gov now 0 (length gov.proposals) j p h in
    (p', h', elim m [ inl e ↦ inl e | inr (l, a) ↦ inr a ])

call-Evolves : (gov : Governor) (c : Call) → Evolves (Arrow c) gov (call gov c)
unfolding call vote_delegate vote_undelegate
call-Evolves gov (create who t v c n d) = create-Evolves gov who t v c n d
call-Evolves gov (cancel i who) = cancel-Evolves gov i who
call-Evolves gov (veto i) = veto-Evolves gov i
call-Evolves gov (vote i who n c) = vote-Evolves gov i who n c
call-Evolves gov (quadratic fuel i who credits c) = quadratic-Evolves fuel gov i who credits c
call-Evolves gov (queue i) = queue-Evolves gov i
call-Evolves gov (execute i) = execute-Evolves gov i
call-Evolves gov (transition i) = transition-Evolves gov i
call-Evolves gov (process now) = process-Evolves gov now
call-Evolves gov (delegate a b n e) =
    Evolves-same (Arrow (delegate a b n e)) gov (vote_delegate gov a b n e).1 (ground arith)
call-Evolves gov (undelegate a) =
    Evolves-same (Arrow (undelegate a)) gov (vote_undelegate gov a).1 (ground arith)

unfoldable pub run : Governor → List Call → Governor
run gov [] = gov
run gov (c ∷ cs) = run (call gov c) cs

-- Over any sequence of calls, every proposal is kept, and each call leaves its state or takes the one
-- arrow that the call has: canceling a pending or active proposal, vetoing one that is not executed,
-- queueing a passed one, executing a queued one, opening a pending one or closing the vote of an
-- active one, each for the proposal with the id that the call names; and processing, which closes
-- votes and expires queued ones.
pub run-Follows :
    (gov : Governor) (cs : List Call) (i : ℕ) (p : Proposal)
    → get_elem? gov.proposals i ≡ some p
    → (p' : Proposal) × (get_elem? (run gov cs).proposals i ≡ some p')
      × Follows cs i p.state p'.state
unfolding run Follows
run-Follows gov [] i p h = (p, h, refl)
run-Follows gov (c ∷ cs) i p h =
    let (q, g, m) = call-Evolves gov c i p h in
    let (p', h', f) = run-Follows (call gov c) cs i q g in (p', h', (q.state, m, f))

-- The states that nothing but a veto leaves.
abbrev pub IsOver : ProposalState → Type 0
IsOver s = (s ≡ canceled) ⊎ ((s ≡ defeated) ⊎ ((s ≡ expired) ⊎ (s ≡ vetoed)))

Arrow-IsOver : (c : Call) (i : ℕ) (s t : ProposalState) → Arrow c i s t → IsOver s → IsOver t
Arrow-IsOver (cancel k who) i s t a o = inl a.2
Arrow-IsOver (veto k) i s t a o = inr (inr (inr a.2))
Arrow-IsOver (process now) i s t a o = ground arith
Arrow-IsOver c i s t a o = ground arith

Follows-IsOver :
    (cs : List Call) (i : ℕ) (s t : ProposalState) → Follows cs i s t → IsOver s → IsOver t
unfolding Follows
Follows-IsOver [] i s t f o = rw (← f) o
Follows-IsOver (c ∷ cs) i s t (m, inl e, f) o = Follows-IsOver cs i m t f (rw (← e) o)
Follows-IsOver (c ∷ cs) i s t (m, inr a, f) o = Follows-IsOver cs i m t f (Arrow-IsOver c i s m a o)

Arrow-done : (c : Call) (i : ℕ) (s t : ProposalState) → Arrow c i s t → s ≢ done
Arrow-done (veto k) i s t a = a.1
Arrow-done c i s t a = λ e. ground arith

Follows-done :
    (cs : List Call) (i : ℕ) (s t : ProposalState) → Follows cs i s t → s ≡ done → t ≡ done
unfolding Follows
Follows-done [] i s t f e = sym f ∙ e
Follows-done (c ∷ cs) i s t (m, inl q, f) e = Follows-done cs i m t f (sym q ∙ e)
Follows-done (c ∷ cs) i s t (m, inr a, f) e = absurd (Arrow-done c i s m a e)

over_ne_done : (s : ProposalState) → IsOver s → s ≢ done
over_ne_done s o e = ground arith

-- An executed proposal stays executed over any sequence of calls.
pub executed_stays :
    (gov : Governor) (cs : List Call) (i : ℕ) (p : Proposal)
    → get_elem? gov.proposals i ≡ some p
    → p.state ≡ done
    → (p' : Proposal) × (get_elem? (run gov cs).proposals i ≡ some p') × (p'.state ≡ done)
executed_stays gov cs i p h e =
    let (p', h', f) = run-Follows gov cs i p h in (p', h', Follows-done cs i p.state p'.state f e)

-- A canceled, defeated, expired or vetoed proposal is not executed by any sequence of calls.
pub over_never_executes :
    (gov : Governor) (cs : List Call) (i : ℕ) (p : Proposal)
    → get_elem? gov.proposals i ≡ some p
    → IsOver p.state
    → (p' : Proposal) × (get_elem? (run gov cs).proposals i ≡ some p') × (p'.state ≢ done)
over_never_executes gov cs i p h o =
    let (p', h', f) = run-Follows gov cs i p h in
    (p', h', over_ne_done p'.state (Follows-IsOver cs i p.state p'.state f o))
