-- ===== src/Storage/Plan/Steps/Distinct.antt =====
-- `plan_volumes` (jobs/lib/storage_layout.py): the plan follows the spec's order, and no drive backs
-- two created volumes.
use nautobot_proxmox.Storage.Plan.Create.{create_step-shape}
use nautobot_proxmox.Prelude.{sym, ap, All-intro}
use nautobot_proxmox.Storage.Spec.{Raid}
use mathlib.Core.Path.{subst, ap₂}
use nautobot_proxmox.Prelude.{
  All-map, All, ◌≡◌, refl, ◌⊎◌, Bool, true, false, not, Option, some, List, [], ◌∷◌, map, arith,
  All-filter, All-filter_test,
}
use nautobot_proxmox.Prelude.Text.{Text, text_eq_iff, mem_text}
use nautobot_proxmox.Python.Result.{ok}
use nautobot_proxmox.Storage.Spec.{VolumeSpec, raid_text}
use nautobot_proxmox.Storage.Drives.{Drive, paths}
use nautobot_proxmox.Storage.Pick.{pick-All}
use nautobot_proxmox.Storage.Plan.{
  Volume, Action, PlanStep, reported_raid, keep_step, create_step, without_paths, keep, create,
}
use nautobot_proxmox.Storage.Plan.Steps.{made, kept, Run, done}

-- The drives that a step takes for a new volume.
abbrev taken : Action → List Text → List Text
taken keep ps = []
taken create ps = ps

abbrev pub created_paths : PlanStep → List Text
created_paths s = taken s.action s.drives

-- No drive of a created volume is taken by a later step.
abbrev pub NoReuse : List PlanStep → Type 0
NoReuse [] = Unit
NoReuse (s ∷ ss) =
    All (λ t. All (λ p. mem_text p (created_paths s) ≡ false) (created_paths t)) ss × NoReuse ss

pub keep_step-ok :
    (vol : VolumeSpec) (v : Volume) (from : Option Text) (step : PlanStep)
    → keep_step vol v from ≡ ok step
    → (step.action ≡ keep)
      × (step.name ≡ vol.name)
      × (step.raid ≡ vol.raid)
      × (step.drives ≡ v.drives)
      × (step.existing_path ≡ some v.path)
      × (step.adopted_from ≡ from)
      × ((reported_raid v ≡ []) ⊎ (reported_raid v ≡ raid_text vol.raid))
unfolding keep_step
keep_step-ok vol v from step h = ground (arith, text_eq_iff (reported_raid v) (raid_text vol.raid))

-- What holds of the path of every free drive holds of every path that a create step takes.
create_step-All :
    (P : Text → Type 0) (drives : List Drive) (vol : VolumeSpec) (free : List Drive)
    (step : PlanStep)
    → create_step drives vol free ≡ ok step
    → All (λ d. P d.path) free
    → All P (created_paths step)
create_step-All P drives vol free step h k =
    let (size, shape) = create_step-shape drives vol free step h in
    rw shape (All-paths P _ (pick-All (λ d. P d.path) vol.select vol.count free k).0)
  where
    All-paths : (Q : Text → Type 0) (ds : List Drive) → All (λ d. Q d.path) ds → All Q (paths ds)
    All-paths Q [] h = tt
    All-paths Q (d ∷ ds) (p, h) = (p, All-paths Q ds h)

without_paths-absent :
    (ps : List Text) (free : List Drive)
    → All (λ d. mem_text d.path ps ≡ false) (without_paths ps free)
unfolding without_paths
without_paths-absent ps free =
    All-map (λ d h. not-eq-true _ h) _ (All-filter_test (λ d. not (mem_text d.path ps)) free)
  where
    not-eq-true : (b : Bool) → not b ≡ true → b ≡ false
    not-eq-true true h = ground arith
    not-eq-true false h = refl

created_paths_kept :
    (s : PlanStep) → s.action ≡ keep → (p : Text) → mem_text p (created_paths s) ≡ false
unfolding mem_text
created_paths_kept s h p = rw h refl

created_paths_made :
    (drives : List Drive) (vol : VolumeSpec) (free : List Drive) (step : PlanStep)
    → create_step drives vol free ≡ ok step
    → created_paths step ≡ step.drives
created_paths_made drives vol free step h =
    let (size, shape) = create_step-shape drives vol free step h in rw shape

abbrev pub step_label : PlanStep → Text × Raid
step_label s = (s.name, s.raid)

abbrev pub volume_label : VolumeSpec → Text × Raid
volume_label v = (v.name, v.raid)

module _ (drives : List Drive) (volumes : List Volume) (names : List Text) where
  Run-All :
      {claimed : List Text} {free : List Drive} {vols : List VolumeSpec} {plan : List PlanStep}
      (P : Text → Type 0)
      → Run drives volumes names claimed free vols plan
      → All (λ d. P d.path) free
      → All (λ s. All P (created_paths s)) plan
  Run-All P done h = tt
  Run-All P (kept {step = step} v from r k run) h =
      (rw ((keep_step-ok _ v from step k).0) tt, Run-All P run h)
  Run-All {free} P (made {vol = vol} {step = step} r k run) h = (
    create_step-All P drives vol free step k h,
    Run-All P run (unfold without_paths in All-filter (λ d. P d.path) _ free h),
  )

  pub Run-NoReuse :
      {claimed : List Text} {free : List Drive} {vols : List VolumeSpec} {plan : List PlanStep}
      → Run drives volumes names claimed free vols plan
      → NoReuse plan
  Run-NoReuse done = tt
  Run-NoReuse (kept {vol = vol} {step = step} {steps = steps} v from r k run) =
      let keeps = (keep_step-ok vol v from step k).0 in
      (
        All-intro (λ t. All (λ p. mem_text p (created_paths step) ≡ false) (created_paths t))
            (λ t. All-intro _ (created_paths_kept step keeps) (created_paths t)) steps,
        Run-NoReuse run,
      )
  Run-NoReuse {free} (made {vol = vol} {step = step} {steps = steps} r k run) =
      let takes = created_paths_made drives vol free step k in
      (
        subst (λ q. All (λ t. All (λ p. mem_text p q ≡ false) (created_paths t)) steps) (sym takes)
            (Run-All (λ p. mem_text p step.drives ≡ false) run
              (without_paths-absent step.drives free)),
        Run-NoReuse run,
      )

  pub Run-labels :
      {claimed : List Text} {free : List Drive} {vols : List VolumeSpec} {plan : List PlanStep}
      → Run drives volumes names claimed free vols plan
      → map step_label plan ≡ map volume_label vols
  Run-labels done = refl
  Run-labels (kept {vol = vol} {step = step} v from r k run) =
      let (_, n, q, _, _, _, _) = keep_step-ok vol v from step k in
      ap₂ ◌∷◌ (λ i. (n i, q i)) (Run-labels run)
  Run-labels {free} (made {vol = vol} {step = step} r k run) =
      let (size, shape) = create_step-shape drives vol free step k in
      ap₂ ◌∷◌ (ap step_label shape) (Run-labels run)
