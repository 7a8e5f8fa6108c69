-- ===== src/Baseline/Tests/Accounts.antt =====
-- `_validate_accounts` (jobs/lib/host_baseline.py) on two accounts, one of them listed twice.
use nautobot_proxmox.Prelude.{◌≡◌, refl, true, [], ◌∷◌, map}
use nautobot_proxmox.Prelude.Text.{Text, codes, text_eq, mem_text, lower}
use nautobot_proxmox.Python.Value.{pair, item, Value, get_or, get, truthy, empty, blank}
use nautobot_proxmox.Python.Assoc.{lookup}
use nautobot_proxmox.Baseline.Checks.{
  user_part, is_control, check_length, check_text, matched, check_match, is_token_id, is_pve_id,
  is_acl_path, is_userid, is_account_name,
}
use nautobot_proxmox.Baseline.AccountChecks.{
  name_of, check_name, accept, check_user, check_account, check_entry, check_accounts,
  validate_accounts,
}
use nautobot_proxmox.Baseline.AccountChecks.Distinct.{AreFree, validate_accounts-AreFree}

abbrev account : Text → Text → Value
account user token = Value.dict (
    pair (codes "user") (Value.str user) (
      pair (codes "token") (Value.str token) (
        pair (codes "role") (Value.str (codes "PVEAuditor"))
          (pair (codes "privsep") (Value.bool true) blank))))

abbrev accounts : Value
accounts = Value.list (
    item (account (codes "datadog@pam") (codes "agent")) (
      item (account (codes "datadog@pam") (codes "agent2"))
        (item (account (codes "backup@pve") (codes "t0")) empty)))

validated : map (λ a. a.name) (validate_accounts accounts).0 ≡ codes "datadog" ∷ codes "backup" ∷ []
unfolding validate_accounts check_accounts check_entry check_account check_user check_name
    check_match matched check_text check_length get get_or lookup text_eq mem_text name_of truthy
    user_part lower accept is_userid is_token_id is_pve_id is_acl_path is_account_name is_control
validated = refl

validate_accounts-AreFree_example : AreFree [] [] (validate_accounts accounts).0
validate_accounts-AreFree_example = validate_accounts-AreFree accounts
