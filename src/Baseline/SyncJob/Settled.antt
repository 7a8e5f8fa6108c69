-- ===== src/Baseline/SyncJob/Settled.antt =====
-- `plan_sync_job` (jobs/lib/host_baseline.py): after its command has run, the job needs no change.
use nautobot_proxmox.Prelude.Text.{text_eq, text_eq_refl}
use nautobot_proxmox.Prelude.{sym, ap, ◌∙◌, true, is_empty}
use nautobot_proxmox.Baseline.Realm.Settles.{run_planned}
use nautobot_proxmox.Baseline.SyncJob.{unchanged, set_argv, is_text, plan_existing_job}
use mathlib.Core.Path.{subst}
use nautobot_proxmox.Prelude.{
  ◌≡◌, refl, inl, inr, Bool, false, some, List, [], ◌∷◌, ◌++◌, arith, if◌then◌else◌, Bool-cases,
  Pointwise,
}
use nautobot_proxmox.Prelude.Text.{Text, codes, mem_text}
use nautobot_proxmox.Python.Value.{Value, Dict, get_or, get, str_of, non_empty, pos}
use nautobot_proxmox.Python.Assoc.{lookup, put, lookup-put}
use nautobot_proxmox.Baseline.Options.{
  unmatched-store, Options, keys, unmatched, store, HasDistinctKeys, lookup-store_absent,
}
use nautobot_proxmox.Baseline.Realm.{SyncJob, Ad}
use nautobot_proxmox.Baseline.Realm.Keys.{
  opt_text-HasKey, opt_bool-HasKey, set_options-distinct, HasKey, set_options-absent,
}
use nautobot_proxmox.Baseline.SyncJob.{
  text_eq, sync_table, sync_options, job_option, enable_flag, job_changes,
}
use nautobot_proxmox.Baseline.Accounts.{pve_str}

sync_keys : List Text
sync_keys = codes "schedule" ∷ codes "scope" ∷ codes "enable-new" ∷ codes "remove-vanished" ∷ []

sync_table-HasKey : (job : SyncJob) → Pointwise HasKey (sync_table job) sync_keys
unfolding sync_table sync_keys
sync_table-HasKey job = (
  refl,
  (
    refl,
    (
      opt_bool-HasKey (codes "enable-new") job.enable_new,
      (opt_text-HasKey (codes "remove-vanished") (non_empty job.remove_vanished), tt),
    ),
  ),
)

sync_options-distinct : (job : SyncJob) → HasDistinctKeys (keys (sync_options job))
unfolding sync_options
sync_options-distinct job =
    set_options-distinct (sync_table job) sync_keys (sync_table-HasKey job)
      (unfold sync_keys mem_text text_eq in (refl, (refl, (refl, (refl, tt)))))

sync_options-absent :
    (job : SyncJob) (k : Text)
    → mem_text k sync_keys ≡ false
    → mem_text k (keys (sync_options job)) ≡ false
unfolding sync_options
sync_options-absent job k h =
    set_options-absent k (sync_table job) sync_keys (sync_table-HasKey job) h

store-append : (xs ys : Options) (d : Dict) → store (xs ++ ys) d ≡ store ys (store xs d)
unfolding store
store-append [] ys d = refl
store-append ((k, v) ∷ xs) ys d = store-append xs ys (put k (Value.str v) d)

module _ (repr : Value → Text) where
  job_option-put :
      (k j v : Text) (d : Dict)
      → job_option repr (put k (Value.str v) d) j
        ≡ (if text_eq k j then some v else job_option repr d j)
  unfolding job_option get get_or pve_str str_of
  job_option-put k j v d = ground (arith, lookup-put k j (Value.str v) d)

  unmatched-put :
      (k v : Text) (want : Options) (d : Dict)
      → mem_text k (keys want) ≡ false
      → unmatched (job_option repr) (put k (Value.str v) d) want
        ≡ unmatched (job_option repr) d want
  unfolding unmatched mem_text
  unmatched-put k v [] d h = refl
  unmatched-put k v ((j, w) ∷ want) d h =
      ground (arith, job_option-put k j v d, unmatched-put k v want d)

  module _ (ad : Ad) (current : Dict) where
    want : Options
    want = sync_options ad.sync_job

    stored : Dict
    stored = store (unmatched (job_option repr) current want) current

    no_enabled : mem_text (codes "enabled") (keys want) ≡ false
    unfolding want
    no_enabled =
        sync_options-absent ad.sync_job (codes "enabled")
          (unfold sync_keys mem_text text_eq in refl)

    no_realm : mem_text (codes "realm") (keys want) ≡ false
    unfolding want
    no_realm =
        sync_options-absent ad.sync_job (codes "realm") (unfold sync_keys mem_text text_eq in refl)

    stored_option : (k : Text) → mem_text k (keys want) ≡ false → lookup k stored ≡ lookup k current
    unfolding stored
    stored_option k h = lookup-store_absent (job_option repr) k want current current h

    stored-unmatched : unmatched (job_option repr) stored want ≡ []
    unfolding stored want
    stored-unmatched =
        unmatched-store (job_option repr) job_option-put (sync_options ad.sync_job) current
          (sync_options-distinct ad.sync_job)

    -- The job's configuration after `pvesh set` with the changed options.
    unfoldable pub after_set : Dict
    after_set = store (job_changes repr ad.sync_job current) current

    after_set_lem : after_set ≡ store (enable_flag repr current) stored
    unfolding after_set stored want job_changes
    after_set_lem =
        store-append (unmatched (job_option repr) current (sync_options ad.sync_job))
          (enable_flag repr current) current

    enabled_now : Bool
    unfolding get_or pve_str
    enabled_now =
        text_eq (pve_str repr (get_or (codes "enabled") (Value.int (pos 1)) current)) (codes "1")

    enable_flag_same :
        (c d : Dict)
        → lookup (codes "enabled") c ≡ lookup (codes "enabled") d
        → enable_flag repr c ≡ enable_flag repr d
    unfolding enable_flag get_or
    enable_flag_same c d h = rw (h, enable_flag, get_or) refl

    enable_flag_on : enabled_now ≡ true → enable_flag repr current ≡ []
    unfolding enabled_now enable_flag
    enable_flag_on e = rw e refl

    enable_flag_off :
        enabled_now ≡ false → enable_flag repr current ≡ (codes "enabled", codes "1") ∷ []
    unfolding enabled_now enable_flag
    enable_flag_off e = rw e refl

    enabled : Dict
    enabled = put (codes "enabled") (Value.str (codes "1")) stored

    enable_flag-enabled : enable_flag repr enabled ≡ []
    unfolding enabled enable_flag get_or pve_str str_of
    enable_flag-enabled = ground (
      arith,
      lookup-put (codes "enabled") (codes "enabled") (Value.str (codes "1")) stored,
      text_eq_refl (codes "enabled"),
      text_eq_refl (codes "1"),
    )

    abbrev Settled : Dict → Type 0
    Settled d =
        (enable_flag repr d ≡ [])
        × (unmatched (job_option repr) d want ≡ [])
        × (lookup (codes "realm") d ≡ lookup (codes "realm") current)

    enabled-Settled : Settled enabled
    unfolding enabled text_eq
    enabled-Settled = (
      enable_flag-enabled,
      unmatched-put (codes "enabled") (codes "1") want stored no_enabled ∙ stored-unmatched,
      lookup-put (codes "enabled") (codes "realm") (Value.str (codes "1")) stored
          ∙ stored_option (codes "realm") no_realm,
    )

    after_set-Settled : Settled after_set
    unfolding store enabled
    after_set-Settled = elim (Bool-cases enabled_now) [
      | inl e ↦
          let same : after_set ≡ stored =
            after_set_lem ∙ ap (λ o. store o stored) (enable_flag_on e) in
          subst Settled (sym same) (
            enable_flag_same stored current (stored_option (codes "enabled") no_enabled)
                ∙ enable_flag_on e,
            stored-unmatched,
            stored_option (codes "realm") no_realm,
          )
      | inr e ↦
          let same : after_set ≡ enabled =
            after_set_lem ∙ ap (λ o. store o stored) (enable_flag_off e) in
          subst Settled (sym same) enabled-Settled
    ]

    get_same :
        (c d : Dict)
        → lookup (codes "realm") c ≡ lookup (codes "realm") d
        → get (codes "realm") c ≡ get (codes "realm") d
    unfolding get get_or
    get_same c d h = rw (h, get_or) refl

    settles_at :
        is_text ad.realm (get (codes "realm") current) ≡ true
        → (plan_existing_job repr ad after_set).action ≡ unchanged
    unfolding plan_existing_job job_changes want
    settles_at h =
        let (flag, met, realm) = after_set-Settled in
        ground (arith, flag, met, get_same after_set current realm)

    -- Where the job on the node is for the realm, and `pvesh set` stores the options it is given, a plan
    -- made after the planned command, if there is one, has run finds nothing to change.
    pub plan_existing_job-settles :
        (run : List Text → Dict → Dict)
        → is_text ad.realm (get (codes "realm") current) ≡ true
        → run (set_argv ad.sync_job (job_changes repr ad.sync_job current)) current ≡ after_set
        → (plan_existing_job repr ad
            (run_planned run (plan_existing_job repr ad current).argv current)).action
          ≡ unchanged
    unfolding plan_existing_job
    plan_existing_job-settles run h e =
        elim (Bool-cases (is_empty (job_changes repr ad.sync_job current))) [
          | inl p ↦ ground arith
          | inr p ↦ ground (arith, settles_at h)
        ]
