-- ===== src/Storage/Plan/Steps.antt =====
-- The loop of `plan_volumes` (jobs/lib/storage_layout.py) as a run of keep and create steps.
pub mod Distinct
pub mod Fits
pub mod Claims
use mathlib.Core.Path.{subst}
use nautobot_proxmox.Prelude.{◌≡◌, Option, none, some, List, [], ◌∷◌, arith}
use nautobot_proxmox.Python.Result.{bind-eq-ok, ok, Result, ◌>>=◌}
use nautobot_proxmox.Storage.Spec.{VolumeSpec}
use nautobot_proxmox.Storage.Drives.{Drive, paths}
use nautobot_proxmox.Storage.Plan.{
  Text, Volume, LayoutError, PlanStep, keep_step, create_step, without_paths, resolve, plan_from,
  keep, create,
}

module _ (drives : List Drive) (volumes : List Volume) (spec_names : List Text) where
  -- A successful run of the loop from claimed paths and free drives.
  pub data Run : List Text → List Drive → List VolumeSpec → List PlanStep → Type 0 where
    done : {claimed : List Text} {free : List Drive} → Run claimed free [] []
    kept :
        {claimed : List Text} {free : List Drive} {vol : VolumeSpec} {vols : List VolumeSpec}
        {step : PlanStep} {steps : List PlanStep} (v : Volume) (from : Option Text)
        → resolve drives volumes spec_names vol claimed free ≡ ok (some (v, from))
        → keep_step vol v from ≡ ok step
        → Run (v.path ∷ claimed) free vols steps
        → Run claimed free (vol ∷ vols) (step ∷ steps)
    made :
        {claimed : List Text} {free : List Drive} {vol : VolumeSpec} {vols : List VolumeSpec}
        {step : PlanStep} {steps : List PlanStep}
        → resolve drives volumes spec_names vol claimed free ≡ ok none
        → create_step drives vol free ≡ ok step
        → Run claimed (without_paths step.drives free) vols steps
        → Run claimed free (vol ∷ vols) (step ∷ steps)

  -- One round of the loop, by what `resolve` found.
  unfoldable pub round :
      List Text
      → List Drive
      → VolumeSpec
      → List VolumeSpec
      → Option (Volume × Option Text)
      → Result LayoutError (List PlanStep)
  round claimed free vol vols (some (v, from)) = do
    step ← keep_step vol v from
    rest ← plan_from drives volumes spec_names (v.path ∷ claimed) free vols
    ok (step ∷ rest)
  round claimed free vol vols none = do
    step ← create_step drives vol free
    rest ← plan_from drives volumes spec_names claimed (without_paths step.drives free) vols
    ok (step ∷ rest)

  pub plan_from-cons :
      (claimed : List Text) (free : List Drive) (vol : VolumeSpec) (vols : List VolumeSpec)
      → plan_from drives volumes spec_names claimed free (vol ∷ vols)
        ≡ (resolve drives volumes spec_names vol claimed free >>= round claimed free vol vols)
  unfolding plan_from round
  plan_from-cons claimed free vol vols = ground arith

  round-Run :
      (claimed : List Text) (free : List Drive) (vol : VolumeSpec) (vols : List VolumeSpec)
      (plan : List PlanStep) (found : Option (Volume × Option Text))
      → resolve drives volumes spec_names vol claimed free ≡ ok found
      → round claimed free vol vols found ≡ ok plan
      → ((c : List Text) (f : List Drive) (p : List PlanStep)
          → plan_from drives volumes spec_names c f vols ≡ ok p
          → Run c f vols p)
      → Run claimed free (vol ∷ vols) plan
  unfolding round
  round-Run claimed free vol vols plan (some (v, from)) r h ih =
      let (step, k, h₁) = bind-eq-ok (keep_step vol v from) _ h in
      let (rest, h₂, e) = bind-eq-ok (plan_from drives volumes spec_names _ free vols) _ h₁ in
      let same : step ∷ rest ≡ plan = ground arith in
      subst (Run claimed free (vol ∷ vols)) same (kept v from r k (ih _ free rest h₂))
  round-Run claimed free vol vols plan none r h ih =
      let (step, k, h₁) = bind-eq-ok (create_step drives vol free) _ h in
      let (rest, h₂, e) = bind-eq-ok (plan_from drives volumes spec_names claimed _ vols) _ h₁ in
      let same : step ∷ rest ≡ plan = ground arith in
      subst (Run claimed free (vol ∷ vols)) same (made r k (ih claimed _ rest h₂))

  pub plan_from-Run :
      (claimed : List Text) (free : List Drive) (vols : List VolumeSpec) (plan : List PlanStep)
      → plan_from drives volumes spec_names claimed free vols ≡ ok plan
      → Run claimed free vols plan
  plan_from-Run claimed free [] plan h =
      let same : [] ≡ plan = unfold plan_from in ground arith in
      subst (Run claimed free []) same done
  plan_from-Run claimed free (vol ∷ vols) plan h =
      let (found, r, k) =
        bind-eq-ok (resolve drives volumes spec_names vol claimed free)
          (round claimed free vol vols) (rw plan_from-cons at h) in
      round-Run claimed free vol vols plan found r k (λ c f p. plan_from-Run c f vols p)
