-- ===== src/Governance/Weight.antt =====
-- The weights of votes in mini-defi-crosschain/src/governance_dao.c: quadratic, locked, conviction.
use mini_security_crypto_web.Prelude.{
  ℕ, Bool, zero, suc, ◌+◌, ◌-◌, ◌*◌, ◌/◌, ◌%◌, ◌≤◌, ◌<◌, ◌≡◌, true, false, Option, none, some,
  arith, leb, ltb, Bool-cases, inl, inr, refl, ◌==◌, add64, mul64, u32_mod, u64_mod, ◌||◌,
  if◌then◌else◌, List,
}
use native.Mathlib.Nat.{mul-le-mul, le-mul_of_pos_right, mod-eq_of_lt}
use mini_security_crypto_web.Governance.{Governor, lookup, store, bps_denom, VoteType, abstain}
use mini_security_crypto_web.Governance.Ballot.{add_vote}

-- The loop of the square root, from `m` on; `none` is a loop that the fuel does not finish.
unfoldable pub root_from : ℕ → ℕ → ℕ → Option ℕ
root_from zero m n = none
root_from (suc fuel) m n = elim (leb (mul64 (add64 m 1) (add64 m 1)) n) [
  | true ↦ root_from fuel (add64 m 1) n
  | false ↦ some m
]

unfoldable pub quadratic_voting_power : ℕ → ℕ → ℕ → Option ℕ
quadratic_voting_power fuel voice_credits votes_spent =
    if voice_credits == 0 then some 0 else elim (root_from fuel 0 voice_credits) [
      | none ↦ none
      | some max_votes ↦ some (if ltb max_votes votes_spent then max_votes else votes_spent)
    ]

pub record QuadraticVote : Type 0 where
  pub voice_credits : ℕ
  pub raw_votes : ℕ
  pub quadratic_weight : ℕ
  pub effective_power : ℕ

abbrev pub quadratic_vote_init : ℕ → QuadraticVote
quadratic_vote_init credits = record {
  voice_credits = credits;
  raw_votes = 0;
  quadratic_weight = 0;
  effective_power = 0;
}

abbrev pub quadratic_voting_cost : ℕ → ℕ
quadratic_voting_cost vote_count = mul64 vote_count vote_count

unfoldable pub quadratic_vote_cast :
    ℕ → Governor → ℕ → List ℕ → ℕ → VoteType → Option (VoteType × Governor)
quadratic_vote_cast fuel gov proposal_id voter voice_credits preference =
    elim (lookup gov proposal_id) [
      | none ↦ some (abstain, gov)
      | some p ↦ elim (quadratic_voting_power fuel voice_credits (add64 (voice_credits / 100) 1)) [
        | none ↦ none
        | some qv_power ↦ some (preference, store gov proposal_id (add_vote p preference qv_power))
      ]
    ]

unfoldable pub time_weighted_voting_power : ℕ → ℕ → ℕ → ℕ
time_weighted_voting_power raw_power lock_duration max_lock =
    if max_lock == 0
    then raw_power
    else (let lock = if ltb max_lock lock_duration then max_lock else lock_duration in
        add64 raw_power (mul64 raw_power lock / max_lock))

-- A maximum whose hundredfold wraps round to 0 makes the code divide by 0; here the quotient is 0.
unfoldable pub vote_boost_from_lock : ℕ → ℕ → ℕ
vote_boost_from_lock lock_days max_lock_days =
    if (max_lock_days == 0) || (lock_days == 0)
    then bps_denom
    else (let days = if ltb max_lock_days lock_days then max_lock_days else lock_days in
        let whole = mul64 max_lock_days 100 in
        add64 bps_denom (mul64 (mul64 days 150) bps_denom / whole))

unfoldable pub conviction_voting_weight : ℕ → ℕ → ℕ → Option ℕ
conviction_voting_weight fuel preference_intensity time_staked =
    elim (root_from fuel 0 time_staked) [
      | none ↦ none
      | some sqrt_time ↦ some (mul64 preference_intensity sqrt_time / 100)
    ]

abbrev pub conviction_threshold_met : ℕ → ℕ → Bool
conviction_threshold_met conviction threshold = leb threshold conviction

-- Numbers whose root the loop finds without a wrap-around.
abbrev pub IsSmall : ℕ → Type 0
IsSmall n = n < (u32_mod - 1) * (u32_mod - 1)

-- The root of a small number fits in 32 bits, so that its successor's square does not wrap around.
root_bound : (m n : ℕ) → m * m ≤ n → IsSmall n → m < u32_mod - 1
root_bound m n h s = elim (Bool-cases (ltb m (u32_mod - 1))) [
  | inl p ↦ ground arith
  | inr p ↦
      let a : u32_mod - 1 ≤ m = ground arith in
      let q : (u32_mod - 1) * (u32_mod - 1) ≤ m * m = mul-le-mul a a in omega (arith, q, h, s)
]

next_square :
    (m : ℕ)
    → m < u32_mod - 1
    → (add64 m 1 ≡ m + 1) × (mul64 (add64 m 1) (add64 m 1) ≡ (m + 1) * (m + 1))
next_square m h =
    let e : add64 m 1 ≡ m + 1 = omega arith in
    let p : m + 1 ≤ u32_mod - 1 = omega arith in
    let q : (m + 1) * (m + 1) ≤ (u32_mod - 1) * (u32_mod - 1) = mul-le-mul p p in
    (e, rw e (mod-eq_of_lt (omega (arith, q))))

root_from-bound :
    (fuel m n : ℕ)
    → m * m ≤ n
    → IsSmall n
    → n < fuel + m
    → (r : ℕ) × (root_from fuel m n ≡ some r) × (r * r ≤ n) × (n < (r + 1) * (r + 1))
unfolding root_from
root_from-bound zero m n h s f =
    let p : 0 < m = omega arith in
    let q : m ≤ m * m = le-mul_of_pos_right m p in absurd (omega (arith, q))
root_from-bound (suc fuel) m n h s f =
    let (e, q) = next_square m (root_bound m n h s) in
    elim (Bool-cases (leb ((m + 1) * (m + 1)) n)) [
      | inl t ↦
          let w : (m + 1) * (m + 1) ≤ n = ground arith in
          let (r, a, b, c) = root_from-bound fuel (m + 1) n w s (omega arith) in
          (r, ground (arith, e, q, a), b, c)
      | inr t ↦ (m, ground (arith, e, q), h, ground arith)
    ]

-- A square that fits is that of a number up to the root.
root_is_greatest : (v r n : ℕ) → v * v ≤ n → n < (r + 1) * (r + 1) → v ≤ r
root_is_greatest v r n h k = elim (Bool-cases (leb v r)) [
  | inl t ↦ ground arith
  | inr t ↦
      let a : r + 1 ≤ v = ground arith in
      let q : (r + 1) * (r + 1) ≤ v * v = mul-le-mul a a in omega (arith, q, h, k)
]

cost_wide : (v n : ℕ) → v < u32_mod → quadratic_voting_cost v ≤ n → v * v ≤ n
cost_wide v n w c =
    let p : v ≤ u32_mod - 1 = omega arith in
    let q : v * v ≤ (u32_mod - 1) * (u32_mod - 1) = mul-le-mul p p in
    let e : v * v % u64_mod ≡ v * v = mod-eq_of_lt (omega (arith, q)) in omega (arith, e, c)

-- For credits below (2^32 - 1)^2, `quadratic_voting_power` ends within credits + 1 turns; the votes
-- it gives are at most those asked for, the credits pay their square, and so they are at least every
-- number `v` of votes that is asked for and paid.
pub quadratic_voting_power-greatest :
    (credits spent v : ℕ)
    → IsSmall credits
    → v ≤ spent
    → quadratic_voting_cost v ≤ credits
    → v < u32_mod
    → (r : ℕ) × (quadratic_voting_power (credits + 1) credits spent ≡ some r)
      × (r ≤ spent)
      × (r * r ≤ credits)
      × (v ≤ r)
unfolding quadratic_voting_power
quadratic_voting_power-greatest zero spent v s k c w =
    let q : v * v ≤ 0 = cost_wide v 0 w c in
    (0, refl, omega arith, omega arith, root_is_greatest v 0 0 q (omega arith))
quadratic_voting_power-greatest (suc n) spent v s k c w =
    let (r, e, low, high) = root_from-bound (suc n + 1) 0 (suc n) (omega arith) s (omega arith) in
    elim (Bool-cases (ltb r spent)) [
      | inl t ↦ (
        r,
        ground (arith, e),
        ground arith,
        low,
        root_is_greatest v r (suc n) ((cost_wide v (suc n) w c)) high,
      )
      | inr t ↦
          let a : spent ≤ r = ground arith in
          let q : spent * spent ≤ r * r = mul-le-mul a a in
          (spent, ground (arith, e), omega arith, omega (arith, q, low), k)
    ]

-- With the largest credits, the loop of `quadratic_voting_power` ends on no amount of fuel: every
-- square, wrapped around, is at most those credits.
pub root_diverges : (fuel m : ℕ) → root_from fuel m (u64_mod - 1) ≡ none
unfolding root_from
root_diverges zero m = refl
root_diverges (suc fuel) m = ground (arith, root_diverges fuel (add64 m 1))

-- The conviction weight of a time below (2^32 - 1)^2 ends within time + 1 turns, and it is the
-- wrapped product of the preference and the time's whole square root, over 100.
pub conviction_voting_weight-root :
    (preference time : ℕ)
    → IsSmall time
    → (r : ℕ) × (conviction_voting_weight (time + 1) preference time
        ≡ some (mul64 preference r / 100))
      × (r * r ≤ time)
      × (time < (r + 1) * (r + 1))
unfolding conviction_voting_weight
conviction_voting_weight-root preference time s =
    let (r, e, low, high) = root_from-bound (time + 1) 0 time (omega arith) s (omega arith) in
    (r, ground (arith, e), low, high)
