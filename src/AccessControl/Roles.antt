-- ===== src/AccessControl/Roles.antt =====
-- What granting and revoking do to `ac_has_role`.
use mini_security_crypto_web.Prelude.{
  ℕ, zero, suc, ◌<◌, ◌≡◌, ◌≢◌, refl, Bool, true, false, ◌&&◌, Option, none, some, List, [], ◌∷◌,
  ◌++◌, arith, if◌then◌else◌, inl, inr, Option-cases, length,
}
use mini_security_crypto_web.Prelude.ByteString.{bytes_eq, bytes_eq_iff, bytes_eq_refl}
use mini_security_crypto_web.AccessControl.{
  ac_ok, ac_unauthorized, RoleEntry, Analyzer, is_entry, find_role, role_max, new_entry, grant_role,
  clear_granted, revoke_role, granted_at_index, has_role,
}

-- The flag of the first entry for the pair.
flag : List RoleEntry → List ℕ → List ℕ → Option Bool
flag [] role addr = none
flag (e ∷ es) role addr = if is_entry e role addr then some e.granted else flag es role addr

has_flag : List RoleEntry → List ℕ → List ℕ → Bool
has_flag es role addr = elim (flag es role addr) [ some true ↦ true | _ ↦ false ]

find_role-none :
    (es : List RoleEntry) (role addr : List ℕ)
    → find_role es role addr ≡ none
    → flag es role addr ≡ none
unfolding find_role flag
find_role-none [] role addr h = refl
find_role-none (e ∷ es) role addr h = ground (arith, find_role-none es role addr)

find_role-some :
    (es : List RoleEntry) (role addr : List ℕ) (i : ℕ)
    → find_role es role addr ≡ some i
    → flag es role addr ≡ some (granted_at_index es i)
unfolding find_role flag
find_role-some [] role addr i h = cc
find_role-some (e ∷ es) role addr zero h = ground arith
find_role-some (e ∷ es) role addr (suc i) h = ground (arith, find_role-some es role addr i)

has_role-eq-has_flag :
    (a : Analyzer) (role addr : List ℕ) → has_role a role addr ≡ has_flag a.entries role addr
unfolding has_role has_flag
has_role-eq-has_flag a role addr = elim (Option-cases (find_role a.entries role addr)) [
  | inl e ↦ ground (arith, find_role-none a.entries role addr e)
  | inr (i, e) ↦ ground (arith, find_role-some a.entries role addr i e)
]

-- Two pairs of a role and an address are the same.
abbrev pub same_pair : List ℕ → List ℕ → List ℕ → List ℕ → Bool
same_pair role addr role' addr' = bytes_eq role role' && bytes_eq addr addr'

flag-append :
    (es : List RoleEntry) (role addr role' addr' : List ℕ)
    → flag es role addr ≡ none
    → flag (es ++ (new_entry role addr ∷ [])) role' addr'
      ≡ (if same_pair role addr role' addr' then some true else flag es role' addr')
unfolding flag
flag-append [] role addr role' addr' h = refl
flag-append (e ∷ es) role addr role' addr' h =
    ground (
      arith,
      flag-append es role addr role' addr',
      bytes_eq_iff role role',
      bytes_eq_iff addr addr',
    )

flag-clear_granted :
    (es : List RoleEntry) (role addr role' addr' : List ℕ) (i : ℕ)
    → find_role es role addr ≡ some i
    → flag (clear_granted es i) role' addr'
      ≡ (if same_pair role addr role' addr' then some false else flag es role' addr')
unfolding flag find_role
flag-clear_granted [] role addr role' addr' i h = cc
flag-clear_granted (e ∷ es) role addr role' addr' zero h = ground (
  arith,
  bytes_eq_iff role role',
  bytes_eq_iff addr addr',
  bytes_eq_iff e.role role,
  bytes_eq_iff e.member addr,
)
flag-clear_granted (e ∷ es) role addr role' addr' (suc i) h = ground (
  arith,
  flag-clear_granted es role addr role' addr' i,
  bytes_eq_iff role role',
  bytes_eq_iff addr addr',
)

-- A grant or a revocation by anyone but the admin is refused and changes nothing.
pub not_admin :
    (a : Analyzer) (role addr caller : List ℕ)
    → caller ≢ a.admin
    → (grant_role a role addr caller ≡ (ac_unauthorized, a))
      × (revoke_role a role addr caller ≡ (ac_unauthorized, a))
unfolding grant_role revoke_role
not_admin a role addr caller h = ground (arith, bytes_eq_iff a.admin caller)

-- A grant by the admin of a pair that has no entry, with fewer than 256 entries in use, succeeds;
-- after it the pair is held, and every other pair is held exactly as before.
pub has_role-grant_role :
    (a : Analyzer) (role addr role' addr' : List ℕ)
    → find_role a.entries role addr ≡ none
    → length a.entries < role_max
    → let (r, a') = grant_role a role addr a.admin in
      (r ≡ ac_ok)
      × (has_role a' role' addr'
          ≡ (if same_pair role addr role' addr' then true else has_role a role' addr'))
unfolding grant_role has_flag
has_role-grant_role a role addr role' addr' h room = ground (
  arith,
  bytes_eq_refl a.admin,
  find_role-none a.entries role addr h,
  flag-append a.entries role addr role' addr',
  has_role-eq-has_flag a role' addr',
  has_role-eq-has_flag (record a { entries = a.entries ++ (new_entry role addr ∷ []) }) role' addr',
)

-- A revocation by the admin succeeds; after it the pair is not held, and every other pair is held
-- exactly as before.
pub has_role-revoke_role :
    (a : Analyzer) (role addr role' addr' : List ℕ)
    → let (r, a') = revoke_role a role addr a.admin in
      (r ≡ ac_ok)
      × (has_role a' role' addr'
          ≡ (if same_pair role addr role' addr' then false else has_role a role' addr'))
unfolding revoke_role has_flag
has_role-revoke_role a role addr role' addr' = elim (Option-cases (find_role a.entries role addr)) [
  | inl e ↦ ground (
    arith,
    bytes_eq_refl a.admin,
    find_role-none a.entries role addr e,
    bytes_eq_iff role role',
    bytes_eq_iff addr addr',
    has_role-eq-has_flag a role' addr',
  )
  | inr (i, e) ↦ ground (
    arith,
    bytes_eq_refl a.admin,
    flag-clear_granted a.entries role addr role' addr' i e,
    has_role-eq-has_flag a role' addr',
    has_role-eq-has_flag (record a { entries = clear_granted a.entries i }) role' addr',
  )
]

find_role-clear_granted :
    (es : List RoleEntry) (role addr : List ℕ) (i : ℕ)
    → find_role es role addr ≡ some i
    → find_role (clear_granted es i) role addr ≡ some i
unfolding find_role
find_role-clear_granted [] role addr i h = cc
find_role-clear_granted (e ∷ es) role addr zero h = ground arith
find_role-clear_granted (e ∷ es) role addr (suc i) h =
    ground (arith, find_role-clear_granted es role addr i)

-- For a pair that has an entry, a revocation by the admin followed by a grant by the admin reports
-- success, and yet the pair is not held.
pub regrant_lost :
    (a : Analyzer) (role addr : List ℕ)
    → find_role a.entries role addr ≢ none
    → let a' = (revoke_role a role addr a.admin).1 in
      let (r, b) = grant_role a' role addr a.admin in (r ≡ ac_ok) × (has_role b role addr ≡ false)
unfolding revoke_role grant_role has_flag
regrant_lost a role addr h = elim (Option-cases (find_role a.entries role addr)) [
  | inl e ↦ absurd (h e)
  | inr (i, e) ↦ ground (
    arith,
    bytes_eq_refl a.admin,
    bytes_eq_refl role,
    bytes_eq_refl addr,
    find_role-clear_granted a.entries role addr i e,
    flag-clear_granted a.entries role addr role addr i e,
    has_role-eq-has_flag (record a { entries = clear_granted a.entries i }) role addr,
  )
]
