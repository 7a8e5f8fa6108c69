-- ===== src/Baseline/Tests.antt =====
-- The plans of jobs/lib/host_baseline.py on one node with a bonded bridge and one service account.
mod Network
mod Sync
mod Accounts
use mathlib.Core.Path.{subst}
use nautobot_proxmox.Prelude.{sym, inr, arith}
use nautobot_proxmox.Baseline.Acl.{acl_eq}
use nautobot_proxmox.Baseline.Accounts.{token_action, missing, rotate}
use nautobot_proxmox.Baseline.Ports.Matched.{IsMatching, match_ports-IsMatching}
use nautobot_proxmox.Baseline.Ports.{Port, Link, match_ports}
use nautobot_proxmox.Baseline.Options.{flags, store}
use nautobot_proxmox.Prelude.{if◌then◌else◌, drop}
use nautobot_proxmox.Baseline.Options.{unmatched}
use nautobot_proxmox.Prelude.Text.{mem_text}
use nautobot_proxmox.Python.Assoc.{put, erase}
use nautobot_proxmox.Baseline.Realm.{modify_argv, realm_options, current_option, deletes}
use nautobot_proxmox.Prelude.{
  ℕ, ◌≡◌, refl, ◌↔◌, Bool, true, false, not, ◌&&◌, ◌||◌, Option, none, some, List, [], ◌∷◌, ◌++◌,
  is_some,
}
use nautobot_proxmox.Prelude.Text.{Text, codes, text_eq}
use nautobot_proxmox.Python.Value.{Value, Dict, get_or, get}
use nautobot_proxmox.Python.Result.{ok}
use nautobot_proxmox.Python.Assoc.{lookup}
use nautobot_proxmox.Baseline.Acl.{
  token, plan_acl_changes, user, mem_acl, Kind, Acl, kind_eq, acl_set, Identity, is_managed,
}
use nautobot_proxmox.Baseline.Acl.Converges.{run_commands, plan_acl_changes-converges}
use nautobot_proxmox.Baseline.Acl.Pveum.{run_command, run_command-Modifies, run_command-Deletes}
use nautobot_proxmox.Baseline.Accounts.{
  Account, NodeUser, Stored, desired_acls, managed_by, standing_acls, stored_state, node_token,
  plan_account, good, keep,
}
use nautobot_proxmox.Baseline.Accounts.Least.{plan_account-exact, StartsFrom}
use nautobot_proxmox.Baseline.Realm.{Ad, is_ad, plan_realm, unchanged}
use nautobot_proxmox.Baseline.Realm.Settles.{run_planned, after_modify, plan_realm-settles}
use nautobot_proxmox.Baseline.Nic.{
  lag, bridge, IfaceType, Iface, is_bridge, is_lag, refers_to, pick_flagged, pick_member, by_id,
  assigned, only_one, Chain, follow, through_bridge, through_lag, at_port, derive_install_interface,
  physical,
}
use nautobot_proxmox.Baseline.Nic.Reached.{Reaches, derive_install_interface_iff}
use nautobot_proxmox.Baseline.Vids.{insert_once, sorted_set, ranges_from, ranges}
use nautobot_proxmox.Baseline.Vids.Covers.{mem_nat, covers, AreApart, ranges-exact}

-- How a list or a mapping prints plays no part here.
abbrev no_repr : Value → Text
no_repr v = []

abbrev acl : Kind → Text → Acl
acl k u = record { path = codes "/vms"; kind = k; ugid = u; role = codes "NFVRole" }

abbrev svc : Identity
svc = (user, codes "svc@pve")

plan_acl_changes-converges_example :
    let (adds, removals) =
      plan_acl_changes
        (acl user (codes "svc@pve") ∷ [])
        (acl token (codes "svc@pve!t") ∷ [])
        ((token, codes "svc@pve!t") ∷ svc ∷ []) in
    mem_acl
      (acl token (codes "svc@pve!t"))
      (run_commands run_command (adds ++ removals) (acl token (codes "svc@pve!t") ∷ []))
    ≡ (mem_acl (acl token (codes "svc@pve!t")) (acl user (codes "svc@pve") ∷ [])
        || (mem_acl (acl token (codes "svc@pve!t")) (acl token (codes "svc@pve!t") ∷ [])
            && not (
                is_managed
                  ((token, codes "svc@pve!t") ∷ svc ∷ [])
                  (acl token (codes "svc@pve!t")))))
plan_acl_changes-converges_example =
    plan_acl_changes-converges run_command run_command-Modifies run_command-Deletes
      (acl user (codes "svc@pve") ∷ []) (acl token (codes "svc@pve!t") ∷ [])
      ((token, codes "svc@pve!t") ∷ svc ∷ []) (acl token (codes "svc@pve!t"))

abbrev account : Account
account = record {
  user = codes "svc@pve";
  token = codes "t";
  role = codes "NFVRole";
  path = codes "/vms";
  privsep = true;
  name = codes "svc";
}

abbrev node_users : List NodeUser
node_users =
    record {
      userid = codes "svc@pve";
      tokens = record { tokenid = codes "t"; privsep = none } ∷ [];
    }
    ∷ []

abbrev sample_stored : List (Text × Stored)
sample_stored = (codes "svc", good) ∷ []

-- The node lists an entry of the token, whose Secrets are missing in Nautobot: it is rotated.
abbrev listed_acls : List Acl
listed_acls = acl token (codes "svc@pve!t") ∷ []

rotated : (plan_account no_repr node_users listed_acls [] account).token ≡ rotate
unfolding plan_account token_action text_eq
rotated = refl

account-StartsFrom :
    StartsFrom account (plan_account no_repr node_users listed_acls [] account).token listed_acls []
unfolding mem_acl acl_eq
account-StartsFrom =
    subst (λ a. StartsFrom account a listed_acls []) (sym rotated) (λ y. ground arith)

plan_account-exact_example :
    let plan = plan_account no_repr node_users listed_acls [] account in
    mem_acl
      (acl token (codes "svc@pve!t"))
      (run_commands run_command (plan.acl_adds ++ plan.acl_deletes) [])
    ≡ (acl_eq (acl token (codes "svc@pve!t")) (acl user (codes "svc@pve"))
        || (true && acl_eq (acl token (codes "svc@pve!t")) (acl token (codes "svc@pve!t"))))
plan_account-exact_example =
    plan_account-exact run_command run_command-Modifies run_command-Deletes no_repr node_users
      listed_acls [] account [] (acl token (codes "svc@pve!t")) account-StartsFrom
      (inr (refl, refl))

abbrev ad : Ad
ad = record {
  realm = codes "corp";
  domain = some (codes "corp.example");
  server1 = codes "dc1";
  server2 = none;
  port = some 636;
  mode = some (codes "ldaps");
  verify = some true;
  base_dn = none;
  bind_dn = none;
  user_filter = none;
  group_filter = none;
  sync_attributes = none;
  sync_defaults_options = none;
  case_sensitive = none;
  comment = none;
  default_realm = none;
  sync_job = record {
    name = codes "corp-sync";
    schedule = codes "hourly";
    scope = codes "both";
    enable_new = none;
    remove_vanished = none;
  };
}

-- The realm on the node has another server and a second one that is no longer wanted.
abbrev current_realm : Dict
current_realm =
    (codes "type", Value.str (codes "ad"))
    ∷ (codes "domain", Value.str (codes "corp.example"))
    ∷ (codes "server1", Value.str (codes "dc9"))
    ∷ (codes "server2", Value.str (codes "dc2"))
    ∷ []

current_realm-IsAd : is_ad no_repr current_realm ≡ true
unfolding is_ad get get_or lookup text_eq
current_realm-IsAd = refl

-- One reading of the options of `pveum realm modify`.
set_flags : List Text → Dict → Dict
unfolding text_eq put erase
set_flags (flag ∷ v ∷ rest) d =
    set_flags rest
      (if text_eq flag (codes "--delete") then erase v d else put (drop 2 flag) (Value.str v) d)
set_flags _ d = d

run_realm : List Text → Dict → Dict
unfolding set_flags
run_realm argv d = set_flags (drop 4 argv) d

realm_effect :
    run_realm
      (modify_argv ad.realm
        (unmatched (current_option no_repr) current_realm (realm_options ad))
        (deletes no_repr (realm_options ad) current_realm))
      current_realm
    ≡ after_modify no_repr ad current_realm
unfolding run_realm modify_argv unmatched current_option realm_options deletes after_modify text_eq
    store flags mem_text
realm_effect = refl

plan_realm-settles_example :
    (plan_realm no_repr ad (
      some (
        run_planned run_realm
          (plan_realm no_repr ad (some current_realm)).argv
          current_realm))).action
    ≡ unchanged
plan_realm-settles_example =
    plan_realm-settles no_repr run_realm ad current_realm current_realm-IsAd realm_effect

abbrev iface : Text → IfaceType → Option Text → Option Text → Bool → Iface
iface id type group parent primary = record {
  id = id;
  name = id;
  type = type;
  lag = group;
  bridge = parent;
  mac = none;
  mtu = none;
  mode = [];
  tagged_vids = [];
  description = [];
  lag_mode = none;
  lag_xmit_hash = none;
  primary_member = primary;
  ips = [];
}

-- A bridge over a bond of two ports, the second one flagged.
abbrev sample_ifaces : List Iface
sample_ifaces =
    iface (codes "vmbr0") bridge none none false
    ∷ iface (codes "bond0") lag none (some (codes "vmbr0")) false
    ∷ iface (codes "p1") (physical (codes "10g")) (some (codes "bond0")) none false
    ∷ iface (codes "p2") (physical (codes "10g")) (some (codes "bond0")) none true
    ∷ []

abbrev sample_chain : Chain
sample_chain = (
  iface (codes "p2") (physical (codes "10g")) (some (codes "bond0")) none true,
  codes "vmbr0" ∷ codes "bond0" ∷ codes "p2" ∷ [],
)

derive_install_interface_iff_example :
    (derive_install_interface sample_ifaces (codes "vmbr0" ∷ []) ≡ ok sample_chain)
    ↔ Reaches sample_ifaces (codes "vmbr0" ∷ []) sample_chain
derive_install_interface_iff_example =
    derive_install_interface_iff sample_ifaces (codes "vmbr0" ∷ []) sample_chain

derived_port : derive_install_interface sample_ifaces (codes "vmbr0" ∷ []) ≡ ok sample_chain
unfolding derive_install_interface assigned only_one through_bridge through_lag at_port by_id
    is_bridge is_lag refers_to pick_member pick_flagged follow text_eq
derived_port = refl

ranges-exact_example :
    ((v : ℕ)
      → covers v (ranges (sorted_set (12 ∷ 10 ∷ 11 ∷ 20 ∷ [])))
        ≡ mem_nat v (12 ∷ 10 ∷ 11 ∷ 20 ∷ []))
    × AreApart (ranges (sorted_set (12 ∷ 10 ∷ 11 ∷ 20 ∷ [])))
ranges-exact_example = ranges-exact (12 ∷ 10 ∷ 11 ∷ 20 ∷ [])

sample_ranges : ranges (sorted_set (12 ∷ 10 ∷ 11 ∷ 20 ∷ [])) ≡ (10, 12) ∷ (20, 20) ∷ []
unfolding ranges ranges_from sorted_set insert_once
sample_ranges = refl

abbrev link : Text → Text → Link
link name mac = record { name = name; mac = some mac; permaddr = none }

abbrev port : Text → Text → Port
port id mac = record { id = id; name = id; mac = mac; mtu = none; description = [] }

-- The second port's NIC is not there, and the third has the address of the first.
match_ports-IsMatching_example :
    IsMatching
      (link (codes "eno1") (codes "aa") ∷ [])
      (codes "eno1" ∷ [])
      (port (codes "1") (codes "aa")
        ∷ port (codes "2") (codes "bb")
        ∷ port (codes "3") (codes "aa")
        ∷ [])
      (match_ports (link (codes "eno1") (codes "aa") ∷ []) (codes "eno1" ∷ []) (
        port (codes "1") (codes "aa")
        ∷ port (codes "2") (codes "bb")
        ∷ port (codes "3") (codes "aa")
        ∷ []))
match_ports-IsMatching_example =
    match_ports-IsMatching (link (codes "eno1") (codes "aa") ∷ []) (codes "eno1" ∷ []) (
      port (codes "1") (codes "aa")
      ∷ port (codes "2") (codes "bb")
      ∷ port (codes "3") (codes "aa")
      ∷ [])
