-- ===== src/Bridge/Tests.antt =====
-- The theorems on crosschain_bridge.c (mini-defi-crosschain/src) at concrete bridges.
use mini_security_crypto_web.Prelude.{
  ℕ, ◌+◌, ◌<◌, ◌≡◌, ◌≢◌, refl, Bool, true, false, Option, none, some, ◌⊎◌, inr, List, [], ◌∷◌,
  replicate, length, get_elem?, arith, u64_mod, if◌then◌else◌,
}
use mini_security_crypto_web.Bridge.{
  Bridge, Event, RelayMessage, BridgeSignature, multi_sig, lock_mint, bridge_lock, bridge_burn,
  is_active,
}
use mini_security_crypto_web.Bridge.Accounts.{Move, lock, release, run, locked_balance}
use mini_security_crypto_web.Bridge.Events.{HasNonces}

abbrev carol : List ℕ
carol = replicate 20 3

abbrev opened : Bridge
opened = record {
  model = lock_mint;
  security = multi_sig;
  chain_id = 1;
  validators = record { pubkey = replicate 33 2; addr = carol; active = true; stake = 10 } ∷ [];
  events = [];
  locked_amount = 0;
  minted_amount = 0;
  halted = false;
  seed = 12345;
}

abbrev signed : BridgeSignature
signed = record { hash = replicate 32 0; signer = carol; signature = replicate 65 0; valid = true }

abbrev message : RelayMessage
message = record { body = []; source_height = 1; required_signers = 14; sigs = replicate 14 signed }

abbrev moves : List Move
moves = lock carol carol 50 2 ∷ release 20 (some message) ∷ []

moves_fit : (run opened moves 0 0).1 < u64_mod
unfolding run bridge_lock
moves_fit = ground arith

locked_balance_example :
    let (b', paid_in, paid_out) = run opened moves 0 0 in b'.locked_amount + paid_out ≡ paid_in
locked_balance_example = locked_balance opened moves refl moves_fit

opened-HasNonces : HasNonces opened
opened-HasNonces = record { fits = omega arith; nonces = λ i e h. cc }

abbrev locked_event : Event
locked_event = record {
  tx_hash = replicate 32 0;
  sender = carol;
  receiver = carol;
  amount = 50;
  source_chain_id = 1;
  dest_chain_id = 2;
  nonce = 0;
  timestamp = 7;
  processed = false;
  confirmed = false;
}

abbrev with_event : Bridge
with_event = record opened { events = locked_event ∷ locked_event ∷ [] }

carol-is_active : is_active opened.validators carol ≡ true
unfolding is_active mini_security_crypto_web.Prelude.ByteString.bytes_eq
carol-is_active = refl
