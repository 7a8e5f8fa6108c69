-- ===== src/Storage/Guarantees.antt =====
-- The RAID layout of jobs/lib/storage_layout.py end to end: from the profile's storage section and
-- the adapter's inventory to the plan.
use nautobot_proxmox.Storage.Plan.Steps.Claims.{mem_text_head}
use nautobot_proxmox.Prelude.{
  All-map, ◌≤◌, ◌<◌, ◌≡◌, refl, true, false, some, List, [], ◌∷◌, map, arith, filter, All,
  All-filter, All-filter_test, In, All-In, Pointwise, All-zip,
}
use nautobot_proxmox.Prelude.Text.{Text, text_eq_iff, mem_text}
use nautobot_proxmox.Prelude.Sort.{All-sort, IsSortedBy, sort-IsSortedBy}
use nautobot_proxmox.Python.Result.{ok}
use nautobot_proxmox.Python.Value.{Value, Dict}
use nautobot_proxmox.Storage.Spec.{VolumeSpec, StorageSpec, parse_storage_spec}
use nautobot_proxmox.Storage.Drives.{Drive, is_free, capacity, drive_lt, by_capacity}
use nautobot_proxmox.Storage.Plan.{Volume, PlanStep, plan_volumes}
use nautobot_proxmox.Storage.Plan.Steps.{Run, plan_from-Run}
use nautobot_proxmox.Storage.Plan.Steps.Distinct.{
  NoReuse, step_label, volume_label, Run-NoReuse, Run-labels,
}
use nautobot_proxmox.Storage.Plan.Steps.Fits.{Fits, Run-Fits}
use nautobot_proxmox.Storage.Plan.Steps.Claims.{
  IsDistinct, names, KeepsOnce, All-names, Run-unclaimed,
}
use nautobot_proxmox.Storage.Spec.Accepted.{
  HasFreshNames, parse_storage_spec-IsAccepted, CountFits-pos,
}

fresh-absent :
    (seen : List Text) (vols : List VolumeSpec) (x : Text)
    → HasFreshNames seen vols
    → mem_text x seen ≡ true
    → mem_text x (names vols) ≡ false
unfolding mem_text
fresh-absent seen [] x h k = refl
fresh-absent seen (v ∷ vs) x (f, h) k =
    ground (arith, text_eq_iff x v.name, fresh-absent (v.name ∷ seen) vs x h, text_eq_iff v.name x)

fresh-IsDistinct :
    (seen : List Text) (vols : List VolumeSpec) → HasFreshNames seen vols → IsDistinct (names vols)
fresh-IsDistinct seen [] h = tt
fresh-IsDistinct seen (v ∷ vs) (f, h) = (
  fresh-absent (v.name ∷ seen) vs v.name h (mem_text_head v.name seen),
  fresh-IsDistinct (v.name ∷ seen) vs h,
)

plan_volumes-Run :
    (spec : StorageSpec) (drives : List Drive) (volumes : List Volume) (plan : List PlanStep)
    → plan_volumes spec drives volumes ≡ ok plan
    → Run drives volumes
        (names spec.volumes)
        []
        (by_capacity (filter is_free drives))
        spec.volumes
        plan
unfolding plan_volumes
plan_volumes-Run spec drives volumes plan h =
    plan_from-Run drives volumes (names spec.volumes) [] (by_capacity (filter is_free drives))
      spec.volumes plan h

drive_lt_below : (a b : Drive) → drive_lt a b ≡ true → capacity a ≤ capacity b
unfolding drive_lt
drive_lt_below a b h = ground arith

drive_lt_above : (a b : Drive) → drive_lt a b ≡ false → capacity b ≤ capacity a
unfolding drive_lt
drive_lt_above a b h = ground arith

-- The free drives of the inventory, sorted by capacity.
free_drives_sorted :
    (drives : List Drive) → IsSortedBy capacity (by_capacity (filter is_free drives))
unfolding by_capacity
free_drives_sorted drives =
    sort-IsSortedBy drive_lt capacity drive_lt_below drive_lt_above (filter is_free drives)

free_drives_listed :
    (drives : List Drive)
    → All (λ d. In d drives × (is_free d ≡ true)) (by_capacity (filter is_free drives))
unfolding by_capacity
free_drives_listed drives =
    All-sort drive_lt (λ d. In d drives × (is_free d ≡ true)) (filter is_free drives)
      (All-zip (λ d. In d drives) (λ d. is_free d ≡ true) (filter is_free drives)
        (All-filter (λ d. In d drives) is_free drives (All-In drives))
        (All-filter_test is_free drives))

module _ (repr : Value → Text) (profile : Dict) (spec : StorageSpec)
    (parsed : parse_storage_spec repr profile ≡ ok (some spec)) where
  accepted_counts : All (λ v. 0 < v.count) spec.volumes
  accepted_counts =
      All-map (λ v (_, h). CountFits-pos v.raid v.count h) spec.volumes
        (parse_storage_spec-IsAccepted repr profile spec parsed).valid

-- For an accepted storage section, a plan has one step for each entry, in the entries' order, and
-- every step fits its entry: a kept volume is one that the adapter lists, whose reported RAID type,
-- if any, is the entry's; a created one takes exactly the entry's count of listed drives, all of
-- them free and of one reported capacity.
pub plan_volumes-Fits :
    (repr : Value → Text) (profile : Dict) (spec : StorageSpec) (drives : List Drive)
    (volumes : List Volume) (plan : List PlanStep)
    → parse_storage_spec repr profile ≡ ok (some spec)
    → plan_volumes spec drives volumes ≡ ok plan
    → (map step_label plan ≡ map volume_label spec.volumes)
      × Pointwise (Fits drives volumes) spec.volumes plan
plan_volumes-Fits repr profile spec drives volumes plan parsed h =
    let run = plan_volumes-Run spec drives volumes plan h in
    (
      Run-labels drives volumes (names spec.volumes) run,
      Run-Fits drives volumes run (accepted_counts repr profile spec parsed)
          (free_drives_sorted drives) (free_drives_listed drives),
    )

-- In a plan, no path that one created volume is built over is used by a later created volume.
pub plan_volumes-NoReuse :
    (spec : StorageSpec) (drives : List Drive) (volumes : List Volume) (plan : List PlanStep)
    → plan_volumes spec drives volumes ≡ ok plan
    → NoReuse plan
plan_volumes-NoReuse spec drives volumes plan h =
    Run-NoReuse drives volumes (names spec.volumes) (plan_volumes-Run spec drives volumes plan h)

-- For an accepted storage section and an inventory that lists every volume path once, no existing
-- volume is kept for two entries, whether it is found by name or adopted.
pub plan_volumes-KeepsOnce :
    (repr : Value → Text) (profile : Dict) (spec : StorageSpec) (drives : List Drive)
    (volumes : List Volume) (plan : List PlanStep)
    → parse_storage_spec repr profile ≡ ok (some spec)
    → ((v w : Volume) → In v volumes → In w volumes → v.path ≡ w.path → v ≡ w)
    → plan_volumes spec drives volumes ≡ ok plan
    → KeepsOnce plan
plan_volumes-KeepsOnce repr profile spec drives volumes plan parsed one_path h =
    let accepted = parse_storage_spec-IsAccepted repr profile spec parsed in
    (Run-unclaimed drives volumes (names spec.volumes) one_path
      (plan_volumes-Run spec drives volumes plan h)
      (fresh-IsDistinct [] spec.volumes accepted.fresh) (All-names spec.volumes)
      (λ w i c. unfold mem_text in absurd (ground arith))).1
