-- ===== src/Storage/Plan/Steps/Fits.antt =====
-- `plan_volumes` (jobs/lib/storage_layout.py): every step is a listed volume or a sound creation.
use nautobot_proxmox.Prelude.{All-zip}
use nautobot_proxmox.Storage.Plan.{with_name}
use nautobot_proxmox.Prelude.{
  All-map, ℕ, ◌<◌, ◌≡◌, refl, sym, ap, ◌⊎◌, inl, inr, true, Option, none, some, List, [], ◌∷◌,
  arith, Option-cases, length, all, All, All-filter, In, Pointwise,
}
use nautobot_proxmox.Prelude.Text.{Text}
use nautobot_proxmox.Prelude.Sort.{IsSortedBy, filter-IsSortedBy}
use nautobot_proxmox.Python.Result.{bind-eq-ok, ok}
use nautobot_proxmox.Storage.Spec.{VolumeSpec, raid_text}
use nautobot_proxmox.Storage.Drives.{Drive, is_free, known_capacity, capacity, pick, paths}
use nautobot_proxmox.Storage.Pick.{pick-All}
use nautobot_proxmox.Storage.Plan.{
  Volume, Action, PlanStep, reported_raid, index_by_path, adopt, find_named, create_step,
  without_paths, resolve, keep, create,
}
use nautobot_proxmox.Storage.Plan.Create.{create_step-Creates}
use nautobot_proxmox.Storage.Plan.Adopt.{adopt-IsAdoptable, IsAdoptable}
use nautobot_proxmox.Storage.Plan.Steps.{made, kept, Run, done}
use nautobot_proxmox.Storage.Plan.Steps.Distinct.{keep_step-ok}
use mathlib.Core.Path.{subst}

module _ (drives : List Drive) (volumes : List Volume) where
  abbrev IsKept : VolumeSpec → PlanStep → Type 0
  IsKept vol step =
      (v : Volume) × In v volumes
      × (step.existing_path ≡ some v.path)
      × (step.drives ≡ v.drives)
      × ((reported_raid v ≡ []) ⊎ (reported_raid v ≡ raid_text vol.raid))

  abbrev IsCreated : VolumeSpec → PlanStep → Type 0
  IsCreated vol step =
      (ds : List Drive) × (size : ℕ) × (step.drives ≡ paths ds)
      × (length ds ≡ vol.count)
      × All (λ d. In d drives × (is_free d ≡ true) × (known_capacity d ≡ some size)) ds

  abbrev FitsBy : Action → VolumeSpec → PlanStep → Type 0
  FitsBy keep vol step = IsKept vol step
  FitsBy create vol step = IsCreated vol step

  -- What a plan's step owes to the spec's entry: a kept volume is listed, and its reported RAID type,
  -- if any, is the entry's; a created one takes the entry's count of listed free drives, all of one
  -- reported capacity.
  abbrev pub Fits : VolumeSpec → PlanStep → Type 0
  Fits vol step = FitsBy step.action vol step

  pub find_named-In :
      (name : Text) (vs : List Volume) (v : Volume) → find_named name vs ≡ some v → In v vs
  unfolding find_named
  find_named-In name [] v h = absurd (ground arith)
  find_named-In name (w ∷ vs) v h = elim (Option-cases (find_named name vs)) [
    | inl e ↦ inl (ground arith)
    | inr (u, e) ↦ inr (find_named-In name vs v (ground arith))
  ]

  with_name-some :
      (found : Option Volume) (v : Volume) (from : Option Text)
      → with_name found ≡ ok (some (v, from))
      → found ≡ some v
  unfolding with_name
  with_name-some none v from h = absurd (ground arith)
  with_name-some (some w) v from h = ground arith

  -- What stands for a spec entry: the volume of its name, or one that may be adopted.
  pub resolve-cases :
      (names : List Text) (vol : VolumeSpec) (claimed : List Text) (free : List Drive) (v : Volume)
      (from : Option Text)
      → resolve drives volumes names vol claimed free ≡ ok (some (v, from))
      → (find_named vol.name volumes ≡ some v)
        ⊎ IsAdoptable volumes names (index_by_path drives) vol claimed free v
  unfolding resolve
  resolve-cases names vol claimed free v from h =
      elim (Option-cases (find_named vol.name volumes)) [
        | inr (w, e) ↦ inl (ground arith)
        | inl e ↦
            let (found, h₁, h₂) =
              bind-eq-ok (adopt volumes names (index_by_path drives) vol claimed free) with_name
                (ground arith) in
            let same = with_name-some found v from h₂ in
            inr (
              adopt-IsAdoptable volumes names (index_by_path drives) vol claimed free v
                (rw same at h₁))
      ]

  pub resolve-In :
      (names : List Text) (vol : VolumeSpec) (claimed : List Text) (free : List Drive) (v : Volume)
      (from : Option Text)
      → resolve drives volumes names vol claimed free ≡ ok (some (v, from))
      → In v volumes
  resolve-In names vol claimed free v from h =
      elim (resolve-cases names vol claimed free v from h) [
        | inl e ↦ find_named-In vol.name volumes v e
        | inr a ↦ a.listed
      ]

  create_step-Fits :
      (vol : VolumeSpec) (free : List Drive) (step : PlanStep)
      → 0 < vol.count
      → IsSortedBy capacity free
      → All (λ d. In d drives × (is_free d ≡ true)) free
      → create_step drives vol free ≡ ok step
      → Fits vol step
  create_step-Fits vol free step pos sorted all h =
      let c = create_step-Creates drives vol free step pos sorted h in
      let picks : (pick vol.select vol.count free).0 ≡ c.picked = ap (λ p. p.0) c.picks in
      let listed =
        subst (All (λ d. In d drives × (is_free d ≡ true))) picks
          (pick-All (λ d. In d drives × (is_free d ≡ true)) vol.select vol.count free all).0 in
      rw c.shape (
        c.picked,
        c.size,
        refl,
        c.exact,
        All-map (λ d ((i, f), k). (i, f, k)) c.picked
            (All-zip (λ d. In d drives × (is_free d ≡ true)) (λ d. known_capacity d ≡ some c.size)
              c.picked listed c.known),
      )

  pub Run-Fits :
      {names : List Text} {claimed : List Text} {free : List Drive} {vols : List VolumeSpec}
      {plan : List PlanStep}
      → Run drives volumes names claimed free vols plan
      → All (λ v. 0 < v.count) vols
      → IsSortedBy capacity free
      → All (λ d. In d drives × (is_free d ≡ true)) free
      → Pointwise Fits vols plan
  Run-Fits done pos sorted all = tt
  Run-Fits {names} {claimed} {free} (kept {vol = vol} {step = step} v from r k run) (p, pos) sorted
        all =
      let (action, _, _, own, path, _, raid) = keep_step-ok vol v from step k in
      (
        subst (λ a. FitsBy a vol step) (sym action)
            (v, resolve-In names vol claimed free v from r, path, own, raid),
        Run-Fits run pos sorted all,
      )
  Run-Fits {free} (made {vol = vol} {step = step} r k run) (p, pos) sorted all = (
    create_step-Fits vol free step p sorted all k,
    Run-Fits run pos (unfold without_paths in filter-IsSortedBy capacity _ free sorted)
        (unfold without_paths in All-filter (λ d. In d drives × (is_free d ≡ true)) _ free all),
  )
