-- ===== src/AccessControl.antt =====
-- Owner, roles and signature checks of mini-smart-contract-sec/src/access_control.c. Addresses are
-- lists of 20 bytes, roles and signature parts lists of 32.
pub mod Roles
pub mod Owner
pub mod Signatures
mod Tests
use mini_security_crypto_web.Prelude.{
  ℕ, zero, suc, ◌+◌, Bool, true, false, ◌&&◌, ◌||◌, not, Option, none, some, List, [], ◌∷◌, ◌++◌,
  ltb, leb, ◌==◌, if◌then◌else◌, length, get_elem?, set, take, replicate,
}
use mini_security_crypto_web.Prelude.ByteString.{bytes_eq}

-- `ac_result_t`
pub data AcResult : Type 0 where
  ac_ok ac_unauthorized ac_invalid_sig ac_expired ac_replayed ac_not_initialized : AcResult
  ac_already_init ac_delegatecall_risk ac_tx_origin_issue : AcResult

pub record RoleEntry : Type 0 where
  pub role : List ℕ
  pub member : List ℕ
  pub granted : Bool
  pub granted_at : ℕ

-- An entry of `findings` with what its text depends on.
pub data Finding : Type 0 where
  delegatecall_risk : List ℕ → Finding
  already_init not_initialized : Finding

-- `ac_analyzer_t`; `entries` and `findings` are the parts of the arrays in use.
pub record Analyzer : Type 0 where
  pub owner : List ℕ
  pub initialized : Bool
  pub entries : List RoleEntry
  pub admin_role : List ℕ
  pub admin : List ℕ
  pub tx_origin : List ℕ
  pub msg_sender : List ℕ
  pub is_delegatecall : Bool
  pub initialized_state : Bool
  pub findings : List Finding

unfoldable pub ac_init : Analyzer
ac_init = record {
  owner = replicate 20 0;
  initialized = false;
  entries = [];
  admin_role = replicate 32 0;
  admin = replicate 20 0xff;
  tx_origin = replicate 20 0;
  msg_sender = replicate 20 0;
  is_delegatecall = false;
  initialized_state = false;
  findings = [];
}

-- `ac_role_init`, for a name of bytes other than 0
unfoldable pub role_init : List ℕ → List ℕ
role_init name = take 32 (name ++ replicate 32 0)

unfoldable pub set_owner : Analyzer → List ℕ → AcResult × Analyzer
set_owner a addr =
    if a.initialized && not (bytes_eq a.owner addr) && not (bytes_eq a.admin addr)
    then (ac_unauthorized, a)
    else (ac_ok, record a { owner = addr; initialized = true })

unfoldable pub only_owner : Analyzer → List ℕ → AcResult
only_owner a caller =
    if not a.initialized
    then ac_not_initialized
    else if not (bytes_eq a.owner caller)
    then ac_unauthorized
    else ac_ok

abbrev pub is_entry : RoleEntry → List ℕ → List ℕ → Bool
is_entry e role addr = bytes_eq e.role role && bytes_eq e.member addr

abbrev pub next_index : Option ℕ → Option ℕ
next_index none = none
next_index (some i) = some (suc i)

-- `ac_rbac_find_role`: the first index, or none for -1
unfoldable pub find_role : List RoleEntry → List ℕ → List ℕ → Option ℕ
find_role [] role addr = none
find_role (e ∷ es) role addr =
    if is_entry e role addr then some 0 else next_index (find_role es role addr)

abbrev pub role_max : ℕ
role_max = 256

abbrev pub new_entry : List ℕ → List ℕ → RoleEntry
new_entry role addr = record { role = role; member = addr; granted = true; granted_at = 0 }

unfoldable pub grant_role : Analyzer → List ℕ → List ℕ → List ℕ → AcResult × Analyzer
grant_role a role addr caller =
    if not (bytes_eq a.admin caller)
    then (ac_unauthorized, a)
    else elim (find_role a.entries role addr) [
      | some i ↦ (ac_ok, a)
      | none ↦
          if leb role_max (length a.entries)
          then (ac_unauthorized, a)
          else (ac_ok, record a { entries = a.entries ++ (new_entry role addr ∷ []) })
    ]

-- `entries[idx].granted = false`
abbrev pub clear_granted : List RoleEntry → ℕ → List RoleEntry
clear_granted es i = elim (get_elem? es i) [
  | none ↦ es
  | some e ↦ set es i (record e { granted = false })
]

unfoldable pub revoke_role : Analyzer → List ℕ → List ℕ → List ℕ → AcResult × Analyzer
revoke_role a role addr caller =
    if not (bytes_eq a.admin caller)
    then (ac_unauthorized, a)
    else elim (find_role a.entries role addr) [
      | none ↦ (ac_ok, a)
      | some i ↦ (ac_ok, record a { entries = clear_granted a.entries i })
    ]

abbrev pub granted_at_index : List RoleEntry → ℕ → Bool
granted_at_index es i = elim (get_elem? es i) [ none ↦ false | some e ↦ e.granted ]

unfoldable pub has_role : Analyzer → List ℕ → List ℕ → Bool
has_role a role addr = elim (find_role a.entries role addr) [
  | none ↦ false
  | some i ↦ granted_at_index a.entries i
]

unfoldable pub check_tx_origin : Analyzer → AcResult
check_tx_origin a = if not (bytes_eq a.tx_origin a.msg_sender) then ac_tx_origin_issue else ac_ok

-- A finding is recorded while there is room for it.
abbrev pub report : Analyzer → Finding → Analyzer
report a f =
    if ltb (length a.findings) 64 then record a { findings = a.findings ++ (f ∷ []) } else a

unfoldable pub check_delegatecall_risk : Analyzer → List ℕ → Bool → AcResult × Analyzer
check_delegatecall_risk a target target_trusted =
    if not a.is_delegatecall
    then (ac_ok, a)
    else if not target_trusted
    then (ac_delegatecall_risk, report a (delegatecall_risk target))
    else (ac_ok, a)

unfoldable pub check_initializer : Analyzer → Bool → AcResult × Analyzer
check_initializer a is_initializer =
    if is_initializer && a.initialized_state
    then (ac_already_init, report a already_init)
    else if not is_initializer && not a.initialized_state
    then (ac_not_initialized, report a not_initialized)
    else (ac_ok, a)
