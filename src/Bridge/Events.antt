-- ===== src/Bridge/Events.antt =====
-- The list of events: nonces, and processing at most once.
use mini_security_crypto_web.Prelude.{
  ℕ, zero, suc, ◌≤◌, ◌<◌, ◌≡◌, ◌≢◌, sym, true, false, some, ◌⊎◌, inl, inr, List, [], ◌∷◌, ◌++◌,
  arith, length, length-append, get_elem?, get_elem?-set_self, get_elem?-set_ne, get_elem?-bound,
}
use mini_security_crypto_web.Bridge.{
  Bridge, Event, max_events, new_event, bridge_lock, bridge_burn, process_event, mark_processed,
}

-- Every event's nonce is its position, and the array is not overrun.
pub record HasNonces (b : Bridge) : Type 0 where
  pub fits : length b.events ≤ max_events
  pub nonces : (i : ℕ) (e : Event) → get_elem? b.events i ≡ some e → e.nonce ≡ i

get_elem?-snoc :
    (es : List Event) (x e : Event) (i : ℕ)
    → get_elem? (es ++ (x ∷ [])) i ≡ some e
    → (get_elem? es i ≡ some e) ⊎ ((i ≡ length es) × (x ≡ e))
get_elem?-snoc [] x e zero h = ground arith
get_elem?-snoc [] x e (suc i) h = cc
get_elem?-snoc (y ∷ es) x e zero h = inl h
get_elem?-snoc (y ∷ es) x e (suc i) h = ground (arith, get_elem?-snoc es x e i h)

-- A bridge with the events of `b`, or with one more that has the next nonce.
abbrev Appends : Bridge → Event → Bridge → Type 0
Appends b x b' =
    (b'.events ≡ b.events)
    ⊎ ((length b.events < max_events)
        × (b'.events ≡ b.events ++ (x ∷ []))
        × (x.nonce ≡ length b.events))

Appends-HasNonces : (b b' : Bridge) (x : Event) → HasNonces b → Appends b x b' → HasNonces b'
Appends-HasNonces b b' x v (inl e) = record {
  fits = rw e v.fits;
  nonces = λ i y h. v.nonces i y (rw e at h);
}
Appends-HasNonces b b' x v (inr (room, e, q)) = record {
  fits = rw e (omega (arith, length-append b.events (x ∷ [])));
  nonces = λ i y h. found i y (get_elem?-snoc b.events x y i (rw e at h));
}
  where
    found :
        (i : ℕ) (y : Event)
        → (get_elem? b.events i ≡ some y) ⊎ ((i ≡ length b.events) × (x ≡ y))
        → y.nonce ≡ i
    found i y (inl h) = v.nonces i y h
    found i y (inr (p, r)) = rw (← r, p) q

-- `bridge_lock` and `bridge_burn` keep every event's nonce equal to its position, and never append
-- to a full array of events.
pub lock_burn-HasNonces :
    (b : Bridge) (sender receiver : List ℕ) (amount dest : ℕ)
    → HasNonces b
    → HasNonces (bridge_lock b sender receiver amount dest).1
      × HasNonces (bridge_burn b sender amount dest).1
unfolding bridge_lock bridge_burn
lock_burn-HasNonces b sender receiver amount dest v = (
  Appends-HasNonces b (bridge_lock b sender receiver amount dest).1
      (new_event b sender receiver amount dest).0 v (ground arith),
  Appends-HasNonces b (bridge_burn b sender amount dest).1 (new_event b sender sender amount dest).0
      v (ground arith),
)

-- `bridge_process_event` succeeds on an event that is there and not processed, changes that event
-- alone, and refuses it from then on.
pub process_event_once :
    (b : Bridge) (i j : ℕ) (e : Event)
    → get_elem? b.events i ≡ some e
    → e.processed ≡ false
    → j ≢ i
    → let (ok, b') = process_event b i in
      (ok ≡ true)
      × (get_elem? b'.events i ≡ some (mark_processed e))
      × (get_elem? b'.events j ≡ get_elem? b.events j)
      × (process_event b' i ≡ (false, b'))
unfolding process_event
process_event_once b i j e h p ne =
    let bound : i < length b.events = get_elem?-bound b.events i e h in
    let here = get_elem?-set_self b.events i (mark_processed e) bound in
    let there = get_elem?-set_ne b.events i j (mark_processed e) (λ q. ne (sym q)) in
    ground (arith, here, there)
