-- ===== src/Bridge/Accounts.antt =====
-- What the calls of the bridge do to the locked and the minted amount.
use mini_security_crypto_web.Prelude.{
  ℕ, ◌+◌, ◌≤◌, ◌<◌, ◌≡◌, ◌≢◌, refl, Bool, true, false, Option, none, List, [], ◌∷◌, arith, length,
  u64_mod, IsU64, add64,
}
use mini_security_crypto_web.Bridge.{
  Bridge, RelayMessage, multi_sig, max_events, bridge_lock, bridge_mint, bridge_burn,
  bridge_release,
}

-- A halted bridge refuses to lock, mint, burn and release, and stays as it is.
pub halted_refuses :
    (b : Bridge) (sender receiver : List ℕ) (amount dest : ℕ) (msg : Option RelayMessage)
    → b.halted ≡ true
    → (bridge_lock b sender receiver amount dest ≡ (false, b))
      × (bridge_mint b amount msg ≡ (false, b))
      × (bridge_burn b sender amount dest ≡ (false, b))
      × (bridge_release b amount msg ≡ (false, b))
unfolding bridge_lock bridge_mint bridge_burn bridge_release
halted_refuses b sender receiver amount dest msg h = ground arith

-- The calls that move locked funds.
pub data Move : Type 0 where
  lock : List ℕ → List ℕ → ℕ → ℕ → Move
  release : ℕ → Option RelayMessage → Move

abbrev pub apply : Bridge → Move → Bool × Bridge
apply b (lock sender receiver amount dest) = bridge_lock b sender receiver amount dest
apply b (release amount msg) = bridge_release b amount msg

-- What a call that succeeded brings in, and what it takes out.
abbrev pub inflow : Move → Bool → ℕ
inflow (lock sender receiver amount dest) true = amount
inflow m ok = 0

abbrev pub outflow : Move → Bool → ℕ
outflow (release amount msg) true = amount
outflow m ok = 0

-- A sequence of calls, with the totals of what came in and went out.
unfoldable pub run : Bridge → List Move → ℕ → ℕ → Bridge × ℕ × ℕ
run b [] paid_in paid_out = (b, paid_in, paid_out)
run b (m ∷ moves) paid_in paid_out =
    let (ok, b') = apply b m in run b' moves (paid_in + inflow m ok) (paid_out + outflow m ok)

apply_moves :
    (b : Bridge) (m : Move)
    → let (ok, b') = apply b m in
      b.locked_amount + inflow m ok < u64_mod
      → (b'.locked_amount + outflow m ok ≡ b.locked_amount + inflow m ok)
unfolding bridge_lock bridge_release
apply_moves b (lock sender receiver amount dest) h = ground arith
apply_moves b (release amount msg) h = ground arith

run_grows : (moves : List Move) (b : Bridge) (i o : ℕ) → i ≤ (run b moves i o).1
unfolding run
run_grows [] b i o = omega arith
run_grows (m ∷ moves) b i o =
    let (ok, b') = apply b m in
    omega (arith, run_grows moves b' (i + inflow m ok) (o + outflow m ok))

run_balance :
    (moves : List Move) (b : Bridge) (i o : ℕ)
    → let (b', i', o') = run b moves i o in
      b.locked_amount + o ≤ i → i' < u64_mod → b'.locked_amount + o' + i ≡ b.locked_amount + o + i'
unfolding run
run_balance [] b i o h k = refl
run_balance (m ∷ moves) b i o h k =
    let (ok, b') = apply b m in
    let grows = run_grows moves b' (i + inflow m ok) (o + outflow m ok) in
    let step : b'.locked_amount + outflow m ok ≡ b.locked_amount + inflow m ok =
      apply_moves b m (omega (arith, grows)) in
    omega (
      arith,
      step,
      run_balance moves b' (i + inflow m ok) (o + outflow m ok) (omega (arith, step)) k,
    )

-- Over any sequence of lock and release calls on a bridge that starts with nothing locked, while the
-- total brought in fits 64 bits, the locked amount and the total released make up exactly the total
-- brought in. So no sequence releases more than was locked.
pub locked_balance :
    (b : Bridge) (moves : List Move)
    → b.locked_amount ≡ 0
    → (run b moves 0 0).1 < u64_mod
    → let (b', paid_in, paid_out) = run b moves 0 0 in b'.locked_amount + paid_out ≡ paid_in
locked_balance b moves h k = omega (arith, run_balance moves b 0 0 (omega arith) k)

-- A burn of more than was minted is not refused by a running bridge with room for an event: it
-- succeeds, and the minted amount wraps round to a larger number.
pub burn_wraps :
    (b : Bridge) (sender : List ℕ) (amount dest : ℕ)
    → b.halted ≡ false
    → length b.events < max_events
    → IsU64 amount
    → b.minted_amount < amount
    → let (ok, b') = bridge_burn b sender amount dest in
      (ok ≡ true) × (b'.minted_amount + amount ≡ b.minted_amount + u64_mod)
unfolding bridge_burn
burn_wraps b sender amount dest h room small over = ground arith

-- A running bridge whose security is not `BRIDGE_MULTI_SIG` mints any amount with no message at all.
pub mint_unchecked :
    (b : Bridge) (amount : ℕ)
    → b.halted ≡ false
    → b.security ≢ multi_sig
    → bridge_mint b amount none ≡ (true, record b { minted_amount = add64 b.minted_amount amount })
unfolding bridge_mint
mint_unchecked b amount h s = ground arith
