-- ===== src/AccessControl/Tests.antt =====
-- The theorems on access_control.c (mini-smart-contract-sec/src/access_control.c) at concrete data.
use mini_security_crypto_web.Prelude.{
  ℕ, ◌≤◌, ◌<◌, ◌≡◌, ◌≢◌, ◌↔◌, refl, Bool, true, false, Option, none, some, ◌⊎◌, inl, inr, List, [],
  ◌∷◌, replicate, length, arith, if◌then◌else◌,
}
use mini_security_crypto_web.AccessControl.{
  Analyzer, ac_ok, ac_init, find_role, grant_role, revoke_role, has_role,
}
use mini_security_crypto_web.AccessControl.Roles.{
  same_pair, has_role-grant_role, has_role-revoke_role,
}
use mini_security_crypto_web.AccessControl.Signatures.{Signature}

abbrev minter : List ℕ
minter = replicate 32 5

abbrev alice : List ℕ
alice = replicate 20 1

abbrev bob : List ℕ
bob = replicate 20 2

abbrev fresh : Analyzer
fresh = ac_init

fresh_has_none : find_role fresh.entries minter alice ≡ none
unfolding ac_init find_role
fresh_has_none = refl

fresh_has_room : length fresh.entries < 256
unfolding ac_init
fresh_has_room = omega arith

has_role-grant_role_example :
    let (r, a') = grant_role fresh minter alice fresh.admin in
    (r ≡ ac_ok)
    × (has_role a' minter bob
        ≡ (if same_pair minter alice minter bob then true else has_role fresh minter bob))
has_role-grant_role_example =
    has_role-grant_role fresh minter alice minter bob fresh_has_none fresh_has_room

abbrev granted : Analyzer
granted = (grant_role fresh minter alice fresh.admin).1

has_role-revoke_role_example :
    let (r, a') = revoke_role granted minter alice granted.admin in
    (r ≡ ac_ok)
    × (has_role a' minter alice
        ≡ (if same_pair minter alice minter alice then false else has_role granted minter alice))
has_role-revoke_role_example = has_role-revoke_role granted minter alice minter alice

granted_index : find_role granted.entries minter alice ≡ some 0
unfolding ac_init find_role grant_role mini_security_crypto_web.Prelude.ByteString.bytes_eq
granted_index = refl

granted_has_one : find_role granted.entries minter alice ≢ none
granted_has_one = rw granted_index (λ e. cc)

abbrev permit : Signature
permit = record { r = 1 ∷ []; s = replicate 32 9; v = 27 }
