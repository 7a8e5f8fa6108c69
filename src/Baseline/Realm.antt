-- ===== src/Baseline/Realm.antt =====
-- jobs/lib/host_baseline.py: the AD realm, its sync job and the root e-mail.
pub mod Table
pub mod Settles
pub mod Keys
use nautobot_proxmox.Prelude.{
  ℕ, ◌-◌, Bool, true, false, not, ◌&&◌, Option, none, some, List, [], ◌∷◌, ◌++◌, map, if◌then◌else◌,
  filter, is_empty,
}
use nautobot_proxmox.Prelude.Text.{Text, codes, text_eq, mem_text}
use nautobot_proxmox.Python.Value.{Value, Dict, get, truthy, print_nat, null, str}
use nautobot_proxmox.Baseline.Accounts.{pve_str, bool_text}
use nautobot_proxmox.Baseline.Vids.{join}
use nautobot_proxmox.Baseline.Options.{Options, keys, unmatched, flags}

pub record SyncJob : Type 0 where
  pub name : Text
  pub schedule : Text
  pub scope : Text
  pub enable_new : Option Bool
  pub remove_vanished : Option Text

-- The validated `ad` section, as the plan reads it.
pub record Ad : Type 0 where
  pub realm : Text
  pub domain : Option Text
  pub server1 : Text
  pub server2 : Option Text
  pub port : Option ℕ
  pub mode : Option Text
  pub verify : Option Bool
  pub base_dn : Option Text
  pub bind_dn : Option Text
  pub user_filter : Option Text
  pub group_filter : Option Text
  pub sync_attributes : Option Text
  pub sync_defaults_options : Option Text
  pub case_sensitive : Option Bool
  pub comment : Option Text
  pub default_realm : Option Bool
  pub sync_job : SyncJob

pub data RealmAction : Type 0 where
  add modify unchanged refuse : RealmAction

pub record RealmPlan : Type 0 where
  pub action : RealmAction
  pub argv : Option (List Text)
  pub changes : List Text

-- An option that is set, as `(PVE key, text)`.
abbrev pub opt_text : Text → Option Text → Option (Text × Text)
opt_text k none = none
opt_text k (some v) = some (k, v)

abbrev pub opt_bool : Text → Option Bool → Option (Text × Text)
opt_bool k none = none
opt_bool k (some b) = some (k, bool_text b)

abbrev pub opt_nat : Text → Option ℕ → Option (Text × Text)
opt_nat k none = none
opt_nat k (some n) = some (k, print_nat n)

-- `_REALM_OPTIONS` at a section: each PVE key in order with the value, if it is set.
unfoldable pub option_table : Ad → List (Option (Text × Text))
option_table ad =
    opt_text (codes "domain") ad.domain
    ∷ some (codes "server1", ad.server1)
    ∷ opt_text (codes "server2") ad.server2
    ∷ opt_nat (codes "port") ad.port
    ∷ opt_text (codes "mode") ad.mode
    ∷ opt_bool (codes "verify") ad.verify
    ∷ opt_text (codes "base_dn") ad.base_dn
    ∷ opt_text (codes "bind_dn") ad.bind_dn
    ∷ opt_text (codes "filter") ad.user_filter
    ∷ opt_text (codes "group_filter") ad.group_filter
    ∷ opt_text (codes "sync_attributes") ad.sync_attributes
    ∷ opt_text (codes "sync-defaults-options") ad.sync_defaults_options
    ∷ opt_bool (codes "case-sensitive") ad.case_sensitive
    ∷ opt_text (codes "comment") ad.comment
    ∷ opt_bool (codes "default") ad.default_realm
    ∷ []

-- The options that are set.
unfoldable pub set_options : List (Option (Text × Text)) → Options
set_options [] = []
set_options (none ∷ table) = set_options table
set_options (some o ∷ table) = o ∷ set_options table

unfoldable pub realm_options : Ad → Options
unfolding option_table set_options
realm_options ad = set_options (option_table ad)

-- `_REALM_BOOL_DEFAULTS.get`.
unfoldable pub bool_default : Text → Option Text
bool_default k =
    if text_eq k (codes "verify")
    then some (codes "0")
    else if text_eq k (codes "case-sensitive")
    then some (codes "1")
    else if text_eq k (codes "default")
    then some (codes "0")
    else none

abbrev is_null : Value → Bool
is_null Value.null = true
is_null _ = false

-- `["--delete", ",".join(deletes)]`, where there is one.
delete_flags : List Text → List Text
unfolding join
delete_flags [] = []
delete_flags (d ∷ ds) = codes "--delete" ∷ join (codes ",") (d ∷ ds) ∷ []

-- `pveum realm modify`.
unfoldable pub modify_argv : Text → Options → List Text → List Text
unfolding delete_flags
modify_argv realm changed gone =
    codes "pveum" ∷ codes "realm" ∷ codes "modify" ∷ realm ∷ (flags changed ++ delete_flags gone)

module _ (repr : Value → Text) where
  -- `_current_option`.
  unfoldable pub current_option : Dict → Text → Option Text
  unfolding get bool_default pve_str
  current_option current k =
      let v = get k current in if is_null v then bool_default k else some (pve_str repr v)

  -- `current.get("type") in (None, "ad")`.
  unfoldable pub is_ad : Dict → Bool
  unfolding get
  is_ad current = elim (get (codes "type") current) [
    | Value.null ↦ true
    | Value.str s ↦ text_eq s (codes "ad")
    | _ ↦ false
  ]

  -- The options to delete: the second server, where it is no longer wanted.
  unfoldable pub deletes : Options → Dict → List Text
  unfolding get truthy
  deletes want current =
      if not (mem_text (codes "server2") (keys want)) && truthy (get (codes "server2") current)
      then codes "server2" ∷ []
      else []

  -- The plan where the realm is there.
  unfoldable pub plan_existing : Ad → Dict → RealmPlan
  unfolding current_option is_ad deletes modify_argv realm_options
  plan_existing ad current =
      let want = realm_options ad in
      let changed = unmatched current_option current want in
      let gone = deletes want current in
      if not (is_ad current)
      then record { action = refuse; argv = none; changes = [] }
      else if is_empty changed && is_empty gone
      then record { action = unchanged; argv = none; changes = [] }
      else record {
        action = modify;
        argv = some (modify_argv ad.realm changed gone);
        changes = keys changed ++ map (λ d. codes "-" ++ d) gone;
      }

  unfoldable pub plan_realm : Ad → Option Dict → RealmPlan
  unfolding plan_existing
  plan_realm ad none =
      let want = realm_options ad in
      record {
        action = add;
        argv = some (
            codes "pveum"
            ∷ codes "realm"
            ∷ codes "add"
            ∷ ad.realm
            ∷ codes "--type"
            ∷ codes "ad"
            ∷ flags want);
        changes = keys want;
      }
  plan_realm ad (some current) = plan_existing ad current

-- `pveum realm sync` with the sync job's scope.
unfoldable pub realm_sync_argv : Ad → Bool → List Text
realm_sync_argv ad dry_run =
    codes "pveum"
    ∷ codes "realm"
    ∷ codes "sync"
    ∷ ad.realm
    ∷ codes "--scope"
    ∷ ad.sync_job.scope
    ∷ (flags (set_options (opt_bool (codes "enable-new") ad.sync_job.enable_new ∷ []))
        ++ (if dry_run then codes "--dry-run" ∷ codes "1" ∷ [] else []))
