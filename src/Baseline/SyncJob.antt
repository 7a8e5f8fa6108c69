-- ===== src/Baseline/SyncJob.antt =====
-- jobs/lib/host_baseline.py, `plan_sync_job` and `plan_root_email`.
pub mod Settled
use nautobot_proxmox.Prelude.{
  some, Bool, false, not, Option, none, List, [], ◌∷◌, ◌++◌, if◌then◌else◌, find, is_empty,
}
use nautobot_proxmox.Prelude.Text.{Text, codes, text_eq}
use nautobot_proxmox.Python.Value.{non_empty, Value, Dict, get_or, get, pos}
use nautobot_proxmox.Baseline.Accounts.{pve_str}
use nautobot_proxmox.Baseline.Options.{Options, keys, unmatched, flags}
use nautobot_proxmox.Baseline.Realm.{SyncJob, Ad, opt_text, opt_bool, set_options}

pub data SyncAction : Type 0 where
  create set unchanged refuse : SyncAction

pub record SyncPlan : Type 0 where
  pub action : SyncAction
  pub argv : Option (List Text)
  pub changes : List Text

-- The options of the job that the section sets, in order.
unfoldable pub sync_table : SyncJob → List (Option (Text × Text))
sync_table job =
    some (codes "schedule", job.schedule)
    ∷ some (codes "scope", job.scope)
    ∷ opt_bool (codes "enable-new") job.enable_new
    ∷ opt_text (codes "remove-vanished") (non_empty job.remove_vanished)
    ∷ []

unfoldable pub sync_options : SyncJob → Options
unfolding sync_table
sync_options job = set_options (sync_table job)

abbrev job_path : SyncJob → Text
job_path job = codes "/cluster/jobs/realm-sync/" ++ job.name

-- `pvesh set`.
unfoldable pub set_argv : SyncJob → Options → List Text
set_argv job changes = codes "pvesh" ∷ codes "set" ∷ job_path job ∷ flags changes

abbrev pub is_text : Text → Value → Bool
is_text s (Value.str t) = text_eq t s
is_text s _ = false

module _ (repr : Value → Text) where
  -- `_pve_str(current.get(k))`.
  unfoldable pub job_option : Dict → Text → Option Text
  unfolding pve_str get
  job_option current k = some (pve_str repr (get k current))

  -- `_pve_str(current.get("enabled", 1)) != "1"`.
  unfoldable pub enable_flag : Dict → Options
  unfolding pve_str get_or
  enable_flag current =
      if text_eq (pve_str repr (get_or (codes "enabled") (Value.int (pos 1)) current)) (codes "1")
      then []
      else (codes "enabled", codes "1") ∷ []

  -- The options to change on a job that is there.
  unfoldable pub job_changes : SyncJob → Dict → Options
  unfolding job_option enable_flag sync_options
  job_changes job current = unmatched job_option current (sync_options job) ++ enable_flag current

  unfoldable pub plan_existing_job : Ad → Dict → SyncPlan
  unfolding job_changes get set_argv
  plan_existing_job ad current =
      let changes = job_changes ad.sync_job current in
      if not (is_text ad.realm (get (codes "realm") current))
      then record { action = refuse; argv = none; changes = [] }
      else if is_empty changes
      then record { action = unchanged; argv = none; changes = [] }
      else record {
        action = set;
        argv = some (set_argv ad.sync_job changes);
        changes = keys changes;
      }

  -- `next((j for j in current_jobs if j.get("id") == jid), None)` decides which case it is.
  unfoldable pub plan_sync_job : Ad → List Dict → SyncPlan
  unfolding plan_existing_job
  plan_sync_job ad jobs = elim (find (λ j. is_text ad.sync_job.name (get (codes "id") j)) jobs) [
    | some current ↦ plan_existing_job ad current
    | none ↦
        let want = sync_options ad.sync_job in
        record {
          action = create;
          argv = some (
              codes "pvesh"
              ∷ codes "create"
              ∷ job_path ad.sync_job
              ∷ codes "--realm"
              ∷ ad.realm
              ∷ flags want);
          changes = keys want;
        }
  ]

-- `plan_root_email`, over each user's id and e-mail; an e-mail that is not set is empty.
unfoldable pub plan_root_email : Text → List (Text × Text) → Option (List Text)
plan_root_email email users =
    let change = some (
      codes "pveum"
      ∷ codes "user"
      ∷ codes "modify"
      ∷ codes "root@pam"
      ∷ codes "--email"
      ∷ email
      ∷ []) in
    elim (find (λ u. text_eq u.0 (codes "root@pam")) users) [
      | none ↦ change
      | some u ↦ if text_eq u.1 email then none else change
    ]
