-- ===== src/Storage/Tests.antt =====
-- The RAID layout of jobs/lib/storage_layout.py on the documented SE455 V3 layout: two mirrors, the
-- smaller pair for `boot`.
use nautobot_proxmox.Prelude.{inl, inr, true, arith, In}
use nautobot_proxmox.Prelude.Sort.{IsSortedBy}
use nautobot_proxmox.Storage.Plan.{Volume, index_by_path, same_paths, kept_as, keep_step, created}
use nautobot_proxmox.Storage.Plan.Create.{Creates, create_step-Creates}
use nautobot_proxmox.Storage.Plan.Adopt.{IsAdoptable, adopt-IsAdoptable}
use nautobot_proxmox.Storage.Plan.Steps.Claims.{KeepsOnce}
use nautobot_proxmox.Storage.Spec.Accepted.{IsAccepted, parse_storage_spec-IsAccepted}
use nautobot_proxmox.Storage.Guarantees.{
  plan_volumes-Fits, plan_volumes-NoReuse, plan_volumes-KeepsOnce,
}
use nautobot_proxmox.Prelude.{ℕ, ◌≡◌, refl, some, List, [], ◌∷◌, ◌++◌, map, Pointwise}
use nautobot_proxmox.Prelude.Text.{Text, codes, text_eq, mem_text, lower, upper}
use nautobot_proxmox.Python.Assoc.{lookup}
use nautobot_proxmox.Python.Result.{ok}
use nautobot_proxmox.Python.Value.{
  Value, Dict, get_or, get, truthy, int_of, pos, empty, item, blank, pair,
}
use nautobot_proxmox.Storage.Spec.{
  VolumeSpec, StorageSpec, find_raid, find_select, name_matches, check_count, text_or_empty,
  parse_volume, parse_volumes, parse_storage_spec, raid1, smallest, largest,
}
use nautobot_proxmox.Storage.Drives.{
  Drive, is_free, capacity, unknown_ids, by_capacity, pick, common_size,
}
use nautobot_proxmox.Storage.Plan.{
  PlanStep, adopt, find_named, create_step, without_paths, resolve, plan_volumes,
}
use nautobot_proxmox.Storage.Plan.Steps.Distinct.{NoReuse, step_label, volume_label}
use nautobot_proxmox.Storage.Plan.Steps.Fits.{Fits}

-- How a list or a mapping prints plays no part here.
abbrev no_repr : Value → Text
no_repr v = []

abbrev entry : Text → Text → Value
entry name select = Value.dict (
    pair (codes "name") (Value.str name) (
      pair (codes "raid") (Value.str (codes "raid1")) (
        pair (codes "select") (Value.str select) (pair (codes "count") (Value.int (pos 2)) blank))))

abbrev sample_profile : Dict
sample_profile =
    (
      codes "storage",
      Value.dict (
          pair (codes "controller") (Value.str (codes "RAID_*")) (
            pair (codes "volumes")
              (Value.list (
                item (entry (codes "boot") (codes "smallest"))
                  (item (entry (codes "datastore") (codes "largest")) empty)))
              blank)),
    )
    ∷ []

abbrev boot : VolumeSpec
boot = record { name = codes "boot"; raid = raid1; select = smallest; count = 2 }

abbrev datastore : VolumeSpec
datastore = record { name = codes "datastore"; raid = raid1; select = largest; count = 2 }

abbrev sample_spec : StorageSpec
sample_spec = record {
  controller = some (codes "RAID_*");
  volumes = boot ∷ datastore ∷ [];
  power_wait_seconds = pos 300;
  create_wait_seconds = pos 180;
}

sample_parsed : parse_storage_spec no_repr sample_profile ≡ ok (some sample_spec)
unfolding parse_storage_spec parse_volumes parse_volume find_raid find_select check_count
    name_matches get get_or lookup text_eq mem_text upper lower truthy int_of text_or_empty
sample_parsed = refl

abbrev drive : Text → ℕ → List Text → Drive
drive id size volumes = record {
  path = codes "/d/" ++ id;
  id = id;
  capacity_bytes = Value.int (pos size);
  status = codes "Unconfigured good, Spun up";
  state = some (codes "Enabled");
  volumes = volumes;
}

abbrev sample_drives : List Drive
sample_drives =
    drive (codes "0") 960 []
    ∷ drive (codes "1") 480 []
    ∷ drive (codes "2") 960 []
    ∷ drive (codes "3") 480 []
    ∷ []

abbrev small_drives : List Drive
small_drives = drive (codes "1") 480 [] ∷ drive (codes "3") 480 [] ∷ []

abbrev large_drives : List Drive
large_drives = drive (codes "0") 960 [] ∷ drive (codes "2") 960 [] ∷ []

abbrev sample_plan : List PlanStep
sample_plan = created boot small_drives 480 ∷ created datastore large_drives 960 ∷ []

sample_planned : plan_volumes sample_spec sample_drives [] ≡ ok sample_plan
unfolding plan_volumes is_free capacity pick common_size find_named adopt mem_text resolve
    create_step without_paths text_eq unknown_ids by_capacity
sample_planned = refl

plan_volumes-Fits_example :
    (map step_label sample_plan ≡ map volume_label sample_spec.volumes)
    × Pointwise (Fits sample_drives []) sample_spec.volumes sample_plan
plan_volumes-Fits_example =
    plan_volumes-Fits no_repr sample_profile sample_spec sample_drives [] sample_plan sample_parsed
      sample_planned

plan_volumes-NoReuse_example : NoReuse sample_plan
plan_volumes-NoReuse_example =
    plan_volumes-NoReuse sample_spec sample_drives [] sample_plan sample_planned

-- The same unit built by hand, with the data volume listed first.
abbrev used_drives : List Drive
used_drives =
    drive (codes "0") 960 (codes "/v/0" ∷ [])
    ∷ drive (codes "1") 480 (codes "/v/1" ∷ [])
    ∷ drive (codes "2") 960 (codes "/v/0" ∷ [])
    ∷ drive (codes "3") 480 (codes "/v/1" ∷ [])
    ∷ []

abbrev volume : Text → Text → Text → List Text → Volume
volume path id name drives = record {
  path = path;
  id = id;
  name = some name;
  raid_type = codes "RAID1";
  capacity_bytes = Value.null;
  drives = drives;
}

abbrev data_volume : Volume
data_volume = volume (codes "/v/0") (codes "0") (codes "VD_0") (codes "/d/0" ∷ codes "/d/2" ∷ [])

abbrev boot_volume : Volume
boot_volume = volume (codes "/v/1") (codes "1") (codes "VD_1") (codes "/d/1" ∷ codes "/d/3" ∷ [])

abbrev hand_made : List Volume
hand_made = data_volume ∷ boot_volume ∷ []

abbrev adopting_plan : List PlanStep
adopting_plan =
    kept_as boot boot_volume (some (codes "VD_1"))
    ∷ kept_as datastore data_volume (some (codes "VD_0"))
    ∷ []

adopting_planned : plan_volumes sample_spec used_drives hand_made ≡ ok adopting_plan
unfolding plan_volumes is_free capacity pick common_size find_named adopt mem_text resolve keep_step
    text_eq unknown_ids by_capacity same_paths
adopting_planned = refl

one_path : (v w : Volume) → In v hand_made → In w hand_made → v.path ≡ w.path → v ≡ w
one_path v w (inl i) (inl j) e = ground arith
one_path v w (inl i) (inr (inl j)) e = ground arith
one_path v w (inr (inl i)) (inl j) e = ground arith
one_path v w (inr (inl i)) (inr (inl j)) e = ground arith
one_path v w (inr (inr i)) _ e = absurd i
one_path v w _ (inr (inr j)) e = absurd j

plan_volumes-KeepsOnce_example : KeepsOnce adopting_plan
plan_volumes-KeepsOnce_example =
    plan_volumes-KeepsOnce no_repr sample_profile sample_spec used_drives hand_made adopting_plan
      sample_parsed one_path adopting_planned

adopted_boot :
    adopt hand_made (codes "boot" ∷ codes "datastore" ∷ []) (index_by_path used_drives) boot [] []
    ≡ ok (some boot_volume)
unfolding index_by_path capacity pick common_size adopt mem_text text_eq unknown_ids by_capacity
    same_paths
adopted_boot = refl

adopt-IsAdoptable_example :
    IsAdoptable hand_made
      (codes "boot" ∷ codes "datastore" ∷ [])
      (index_by_path used_drives)
      boot
      []
      []
      boot_volume
adopt-IsAdoptable_example =
    adopt-IsAdoptable hand_made (codes "boot" ∷ codes "datastore" ∷ []) (index_by_path used_drives)
      boot [] [] boot_volume adopted_boot

sorted_drives : IsSortedBy capacity (small_drives ++ large_drives)
unfolding capacity int_of
sorted_drives = omega arith

create_step-boot :
    create_step sample_drives boot (small_drives ++ large_drives)
    ≡ ok (created boot small_drives 480)
unfolding create_step capacity pick common_size unknown_ids
create_step-boot = refl

create_step-Creates_example :
    Creates boot (small_drives ++ large_drives) (created boot small_drives 480)
create_step-Creates_example =
    create_step-Creates sample_drives boot (small_drives ++ large_drives)
      (created boot small_drives 480) (omega arith) sorted_drives create_step-boot

parse_storage_spec-IsAccepted_example : IsAccepted sample_spec
parse_storage_spec-IsAccepted_example =
    parse_storage_spec-IsAccepted no_repr sample_profile sample_spec sample_parsed

abbrev named_volumes : List Volume
named_volumes =
    record boot_volume { name = some (codes "boot") }
    ∷ record data_volume { name = some (codes "datastore") }
    ∷ []

-- The name pattern's `$` lets a newline at the end through.
newline_name : name_matches (codes "boot" ++ 10 ∷ []) ≡ true
unfolding name_matches
newline_name = refl
