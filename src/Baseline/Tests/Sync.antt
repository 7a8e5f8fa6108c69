-- ===== src/Baseline/Tests/Sync.antt =====
-- `plan_sync_job` (jobs/lib/host_baseline.py) on a job that is disabled and has another schedule.
use nautobot_proxmox.Baseline.Realm.{SyncJob, Ad, set_options}
use nautobot_proxmox.Prelude.{◌≡◌, refl, true, none, some, List, [], ◌∷◌, drop}
use nautobot_proxmox.Prelude.Text.{Text, codes, text_eq}
use nautobot_proxmox.Python.Value.{Value, Dict, get_or, get, pos}
use nautobot_proxmox.Python.Assoc.{lookup, put}
use nautobot_proxmox.Baseline.Options.{unmatched, flags, store}
use nautobot_proxmox.Baseline.Realm.Settles.{run_planned}
use nautobot_proxmox.Baseline.SyncJob.{
  sync_options, set_argv, is_text, job_option, enable_flag, job_changes, plan_existing_job,
  unchanged,
}
use nautobot_proxmox.Baseline.SyncJob.Settled.{after_set, plan_existing_job-settles}

-- How a list or a mapping prints plays no part here.
abbrev no_repr : Value → Text
no_repr v = []

abbrev job : SyncJob
job = record {
  name = codes "corp-sync";
  schedule = codes "hourly";
  scope = codes "both";
  enable_new = some true;
  remove_vanished = none;
}

abbrev sync_ad : Ad
sync_ad = record {
  realm = codes "corp";
  domain = none;
  server1 = codes "dc1";
  server2 = none;
  port = none;
  mode = none;
  verify = none;
  base_dn = none;
  bind_dn = none;
  user_filter = none;
  group_filter = none;
  sync_attributes = none;
  sync_defaults_options = none;
  case_sensitive = none;
  comment = none;
  default_realm = none;
  sync_job = job;
}

abbrev current_job : Dict
current_job =
    (codes "realm", Value.str (codes "corp"))
    ∷ (codes "schedule", Value.str (codes "daily"))
    ∷ (codes "enabled", Value.int (pos 0))
    ∷ []

same_realm : is_text sync_ad.realm (get (codes "realm") current_job) ≡ true
unfolding get get_or lookup text_eq
same_realm = refl

-- One reading of the options of `pvesh set`.
set_job_flags : List Text → Dict → Dict
unfolding put
set_job_flags (flag ∷ v ∷ rest) d = set_job_flags rest (put (drop 2 flag) (Value.str v) d)
set_job_flags _ d = d

run_set : List Text → Dict → Dict
unfolding set_job_flags
run_set argv d = set_job_flags (drop 3 argv) d

set_effect :
    run_set (set_argv job (job_changes no_repr job current_job)) current_job
    ≡ after_set no_repr sync_ad current_job
unfolding run_set set_argv job_changes job_option enable_flag sync_options unmatched text_eq store
    flags after_set set_options
set_effect = refl

plan_existing_job-settles_example :
    (plan_existing_job no_repr sync_ad
      (run_planned run_set (plan_existing_job no_repr sync_ad current_job).argv current_job)).action
    ≡ unchanged
plan_existing_job-settles_example =
    plan_existing_job-settles no_repr sync_ad current_job run_set same_realm set_effect
