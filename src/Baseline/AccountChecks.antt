-- ===== src/Baseline/AccountChecks.antt =====
-- jobs/lib/host_baseline.py, `_validate_accounts`: the service accounts of the config context.
pub mod Distinct
use nautobot_proxmox.Prelude.{
  ℕ, suc, ◌/◌, Bool, true, not, Option, none, some, List, [], ◌∷◌, ◌++◌, if◌then◌else◌, is_some,
}
use nautobot_proxmox.Prelude.Text.{Text, codes, mem_text, lower}
use nautobot_proxmox.Python.Value.{
  Value, Dict, elems, entries, get_or, get, truthy, print_nat, null, bool, str, list, dict,
}
use nautobot_proxmox.Baseline.Checks.{
  check_match, user_part, Problem, Checked, problem, is_token_id, is_pve_id, is_acl_path, is_userid,
  is_account_name, missing, not_boolean, not_mapping, not_list, reserved_user, reserved_name,
  listed_twice, bad_name,
}

-- A service account that is accepted; a part that has a problem is left out.
pub record Accepted : Type 0 where
  pub user : Text
  pub token : Text
  pub role : Option Text
  pub path : Option Text
  pub privsep : Option Bool
  pub name : Text

-- `RESERVED_ACCOUNT_USERS` and `RESERVED_ACCOUNT_NAMES`.
abbrev pub reserved_users : List Text
reserved_users = codes "root@pam" ∷ codes "svc-nfv@pve" ∷ []

abbrev pub reserved_names : List Text
reserved_names = codes "proxmox" ∷ []

-- `entry.get("name") or ...`: the name, if it is a text.
unfoldable pub name_of : Text → Value → Option Text
unfolding truthy user_part lower
name_of user v =
    if truthy v then elim v [ Value.str s ↦ some s | _ ↦ none ] else some (lower (user_part user))

-- From the name on: the name, or the problem with it.
unfoldable pub check_name : Text → List Text → List Text → Text → Option Text → Checked Text
unfolding is_account_name mem_text
check_name path users names user none = (none, problem path (bad_name []))
check_name path users names user (some name) =
    if not (is_account_name name)
    then (none, problem path (bad_name name))
    else if mem_text name reserved_names
    then (none, problem path (reserved_name name))
    else if mem_text user users
    then (none, problem path (listed_twice user))
    else if mem_text name names
    then (none, problem path (listed_twice name))
    else (some name, [])

pub privsep_of : Value → Option Bool
privsep_of (Value.bool b) = some b
privsep_of _ = none

-- The account, if its name is accepted.
unfoldable pub accept :
    Text → Text → Option Text → Option Text → Option Bool → Option Text → Option Accepted
accept user token role acl privsep none = none
accept user token role acl privsep (some name) =
    some (record {
      user = user;
      token = token;
      role = role;
      path = acl;
      privsep = privsep;
      name = name;
    })

-- From the user and the token on.
unfoldable pub check_user :
    Text
    → List Text
    → List Text
    → Dict
    → Option Text
    → Option Text
    → Option Text
    → Option Text
    → Checked Accepted
unfolding mem_text check_name name_of get privsep_of accept
check_user path users names entry (some user) (some token) role acl =
    if mem_text user reserved_users
    then (none, problem path (reserved_user user))
    else let (name, ps) =
        check_name path users names user (name_of user (get (codes "name") entry)) in
      (accept user token role acl (privsep_of (get (codes "privsep") entry)) name, ps)
check_user path users names entry _ _ role acl = (none, [])

-- The body of the loop, for a mapping.
unfoldable pub check_account : Text → List Text → List Text → Dict → Checked Accepted
unfolding check_match is_userid is_token_id is_pve_id is_acl_path get get_or privsep_of check_user
check_account path users names entry =
    let user = check_match (get (codes "user") entry) (path ++ codes ".user") is_userid true in
    let token = check_match (get (codes "token") entry) (path ++ codes ".token") is_token_id true in
    let role = check_match (get (codes "role") entry) (path ++ codes ".role") is_pve_id true in
    let acl =
      check_match (get_or (codes "path") (Value.str (codes "/")) entry) (path ++ codes ".path")
        is_acl_path true in
    let (account, ps) = check_user path users names entry user.0 token.0 role.0 acl.0 in
    (
      account,
      user.1
          ++ (token.1
              ++ (role.1
                  ++ (acl.1
                      ++ ((if is_some (privsep_of (get (codes "privsep") entry))
                            then []
                            else problem (path ++ codes ".privsep") not_boolean)
                          ++ ps)))),
    )

unfoldable pub check_entry : Text → List Text → List Text → Value → Checked Accepted
unfolding check_account
check_entry path users names (Value.dict fs) = check_account path users names (entries fs)
check_entry path users names _ = (none, problem path not_mapping)

abbrev pub at_index : ℕ → Text
at_index n = codes "host_baseline.service_accounts[" ++ print_nat n ++ codes "]"

-- The loop, with the users and names taken so far.
unfoldable pub check_accounts :
    ℕ → List Text → List Text → List Value → List Accepted × List Problem
unfolding check_entry print_nat
check_accounts n users names [] = ([], [])
check_accounts n users names (v ∷ values) = elim (check_entry (at_index n) users names v).0 [
  | none ↦
      let (out, ps) = check_accounts (suc n) users names values in
      (out, (check_entry (at_index n) users names v).1 ++ ps)
  | some a ↦
      let (out, ps) = check_accounts (suc n) (a.user ∷ users) (a.name ∷ names) values in
      (a ∷ out, (check_entry (at_index n) users names v).1 ++ ps)
]

-- `_validate_accounts`.
unfoldable pub validate_accounts : Value → List Accepted × List Problem
unfolding check_accounts
validate_accounts Value.null = ([], problem (codes "host_baseline.service_accounts") missing)
validate_accounts (Value.list vs) = check_accounts 0 [] [] (elems vs)
validate_accounts _ = ([], problem (codes "host_baseline.service_accounts") not_list)
