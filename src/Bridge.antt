-- ===== src/Bridge.antt =====
-- The bridge of mini-defi-crosschain/src/crosschain_bridge.c. Addresses are lists of 20 bytes.
pub mod Hash
pub mod Accounts
pub mod Events
pub mod Multisig
pub mod Messages
mod Tests
use mini_security_crypto_web.Prelude.{
  ℕ, zero, suc, ◌+◌, ◌-◌, ◌%◌, Bool, true, false, ◌&&◌, ◌||◌, not, Option, none, some, List, [],
  ◌∷◌, ◌++◌, ltb, leb, if◌then◌else◌, length, get_elem?, set, take, u32_mod, add64, sub64,
}
use mini_security_crypto_web.Prelude.ByteString.{bytes_eq}
use Hash.{bridge_rand, simulate_event}

pub data BridgeModel : Type 0 where
  lock_mint burn_release atomic_swap : BridgeModel

pub data BridgeSecurity : Type 0 where
  multi_sig light_client optimistic : BridgeSecurity

-- `BridgeValidator`
pub record Validator : Type 0 where
  pub pubkey : List ℕ
  pub addr : List ℕ
  pub active : Bool
  pub stake : ℕ

-- `BridgeEvent`
pub record Event : Type 0 where
  pub tx_hash : List ℕ
  pub sender : List ℕ
  pub receiver : List ℕ
  pub amount : ℕ
  pub source_chain_id : ℕ
  pub dest_chain_id : ℕ
  pub nonce : ℕ
  pub timestamp : ℕ
  pub processed : Bool
  pub confirmed : Bool

-- `Bridge`, with the validators and events in use: their lists' lengths are `validator_count` and
-- `event_count`. `seed` is the static state of `bridge_rand`.
pub record Bridge : Type 0 where
  pub model : BridgeModel
  pub security : BridgeSecurity
  pub chain_id : ℕ
  pub validators : List Validator
  pub events : List Event
  pub locked_amount : ℕ
  pub minted_amount : ℕ
  pub halted : Bool
  pub seed : ℕ

-- `BridgeSignature`
pub record BridgeSignature : Type 0 where
  pub hash : List ℕ
  pub signer : List ℕ
  pub signature : List ℕ
  pub valid : Bool

-- `BridgeRelayMessage`; `sigs` are the first `sig_count`.
pub record RelayMessage : Type 0 where
  pub body : List ℕ
  pub source_height : ℕ
  pub required_signers : ℕ
  pub sigs : List BridgeSignature

abbrev pub max_validators : ℕ
max_validators = 21

abbrev pub threshold : ℕ
threshold = 14

abbrev pub max_events : ℕ
max_events = 256

unfoldable pub bridge_init : BridgeModel → BridgeSecurity → ℕ → ℕ → Bridge
bridge_init model security chain_id seed = record {
  model = model;
  security = security;
  chain_id = chain_id;
  validators = [];
  events = [];
  locked_amount = 0;
  minted_amount = 0;
  halted = false;
  seed = seed;
}

unfoldable pub add_validator : Bridge → List ℕ → List ℕ → ℕ → Bridge
add_validator b pubkey addr stake =
    if leb max_validators (length b.validators) then b else record b {
      validators =
          b.validators
          ++ (record { pubkey = pubkey; addr = addr; active = true; stake = stake } ∷ []);
    }

-- The loop of `bridge_remove_validator`: the first validator of the address is made inactive.
unfoldable pub deactivate : List Validator → List ℕ → Bool × List Validator
deactivate [] addr = (false, [])
deactivate (v ∷ vs) addr =
    if bytes_eq v.addr addr
    then (true, record v { active = false } ∷ vs)
    else (let (found, rest) = deactivate vs addr in (found, v ∷ rest))

unfoldable pub remove_validator : Bridge → List ℕ → Bool × Bridge
remove_validator b addr =
    let (found, vs) = deactivate b.validators addr in (found, record b { validators = vs })

-- The record that `bridge_lock` and `bridge_burn` append, and the generator's state behind it.
abbrev pub new_event : Bridge → List ℕ → List ℕ → ℕ → ℕ → Event × ℕ
new_event b sender receiver amount dest_chain =
    let (hash, seed) = simulate_event b.seed sender receiver amount dest_chain in
    let stamp = bridge_rand seed in
    (
      record {
        tx_hash = hash;
        sender = sender;
        receiver = receiver;
        amount = amount;
        source_chain_id = b.chain_id;
        dest_chain_id = dest_chain;
        nonce = length b.events;
        timestamp = (stamp + 1000000) % u32_mod;
        processed = false;
        confirmed = false;
      },
      stamp,
    )

unfoldable pub bridge_lock : Bridge → List ℕ → List ℕ → ℕ → ℕ → Bool × Bridge
bridge_lock b sender receiver amount dest_chain =
    if b.halted
    then (false, b)
    else if leb max_events (length b.events)
    then (false, b)
    else (let (event, seed) = new_event b sender receiver amount dest_chain in
        (
          true,
          record b {
            events = b.events ++ (event ∷ []);
            locked_amount = add64 b.locked_amount amount;
            seed = seed;
          },
        ))

-- The inner loop of `bridge_verify_multisig`: an active validator has the address.
unfoldable pub is_active : List Validator → List ℕ → Bool
is_active [] signer = false
is_active (v ∷ vs) signer = (v.active && bytes_eq v.addr signer) || is_active vs signer

-- The outer loop, from the count `n` on.
unfoldable pub count_valid : List Validator → List BridgeSignature → ℕ → ℕ
count_valid vs [] n = n
count_valid vs (s ∷ sigs) n =
    count_valid vs sigs (if s.valid && is_active vs s.signer then n + 1 else n)

-- `none` is a null pointer.
unfoldable pub verify_multisig : Bridge → Option RelayMessage → Bool
verify_multisig b none = false
verify_multisig b (some msg) =
    if leb (length b.validators) 0
    then false
    else leb threshold (count_valid b.validators (take max_validators msg.sigs) 0)

abbrev pub needs_signatures : BridgeSecurity → Bool
needs_signatures multi_sig = true
needs_signatures _ = false

unfoldable pub bridge_mint : Bridge → ℕ → Option RelayMessage → Bool × Bridge
bridge_mint b amount msg =
    if b.halted
    then (false, b)
    else if needs_signatures b.security && not (verify_multisig b msg)
    then (false, b)
    else (true, record b { minted_amount = add64 b.minted_amount amount })

unfoldable pub bridge_burn : Bridge → List ℕ → ℕ → ℕ → Bool × Bridge
bridge_burn b sender amount dest_chain =
    if b.halted
    then (false, b)
    else if leb max_events (length b.events)
    then (false, b)
    else (let (event, seed) = new_event b sender sender amount dest_chain in
        (
          true,
          record b {
            events = b.events ++ (event ∷ []);
            minted_amount = sub64 b.minted_amount amount;
            seed = seed;
          },
        ))

unfoldable pub bridge_release : Bridge → ℕ → Option RelayMessage → Bool × Bridge
bridge_release b amount msg =
    if b.halted
    then (false, b)
    else if needs_signatures b.security && not (verify_multisig b msg)
    then (false, b)
    else if ltb b.locked_amount amount
    then (false, b)
    else (true, record b { locked_amount = sub64 b.locked_amount amount })

abbrev pub mark_processed : Event → Event
mark_processed e = record e { processed = true; confirmed = true }

-- An index from `event_count` on is refused.
unfoldable pub process_event : Bridge → ℕ → Bool × Bridge
process_event b event_id = elim (get_elem? b.events event_id) [
  | none ↦ (false, b)
  | some e ↦
      if e.processed
      then (false, b)
      else (true, record b { events = set b.events event_id (mark_processed e) })
]

unfoldable pub get_event_nonce : Bridge → ℕ
get_event_nonce b = length b.events
