-- ===== src/Storage/Plan.antt =====
-- jobs/lib/storage_layout.py, `_adopt` and `plan_volumes`: keep, adopt or create each volume.
pub mod Adopt
pub mod Create
pub mod Steps
use nautobot_proxmox.Prelude.{
  ℕ, Bool, false, not, ◌&&◌, ◌||◌, Option, none, some, List, [], ◌∷◌, ltb, ◌==◌, if◌then◌else◌,
  length, any, all, filter, is_empty, map, is_some, filter_map,
}
use nautobot_proxmox.Prelude.Text.{Text, codes, text_eq, mem_text, lower, upper, is_infix}
use nautobot_proxmox.Python.Assoc.{lookup, put}
use nautobot_proxmox.Python.Value.{pos, Value}
use nautobot_proxmox.Python.Result.{Result, ok, err, ◌>>=◌, unless}
use nautobot_proxmox.Storage.Spec.{Raid, raid_text, VolumeSpec, StorageSpec}
use nautobot_proxmox.Storage.Drives.{
  Drive, unusable, is_free, capacity, unknown_ids, by_capacity, pick, common_size, paths,
}

-- One entry of `controller_volumes`, as the plan reads it.
pub record Volume : Type 0 where
  pub path : Text
  pub id : Text
  pub name : Option Text
  pub raid_type : Text
  pub capacity_bytes : Value
  pub drives : List Text

-- The `StorageLayoutError`s of the plan, with what the message names.
pub data LayoutError : Type 0 where
  unknown_capacity : Text → List Text → LayoutError
  ambiguous_role : Text → Option Text → LayoutError
  raid_mismatch : Text → Text → Raid → LayoutError
  too_few_free : Text → ℕ → ℕ → List Text → List Text → LayoutError
  sizes_differ : Text → List Text → LayoutError
  ambiguous_pick : Text → ℕ → LayoutError

pub data Action : Type 0 where
  keep create : Action

pub record PlanStep : Type 0 where
  pub action : Action
  pub name : Text
  pub raid : Raid
  pub drives : List Text
  pub capacity_bytes : Value
  pub existing_id : Option Text
  pub existing_path : Option Text
  pub adopted_from : Option Text

-- `str(v.get("raid_type") or "").upper().replace(" ", "")`.
unfoldable pub reported_raid : Volume → Text
unfolding upper
reported_raid v = filter (λ c. not (c == b' ')) (upper v.raid_type)

-- `_refuse_unknown_capacity`, and then the rest.
unfoldable pub refuse_unknown_capacity :
    {B : Type 0} → VolumeSpec → List Drive → Result LayoutError B → Result LayoutError B
unfolding unknown_ids
refuse_unknown_capacity vol drives rest =
    let unknown = unknown_ids drives in
    unless (not (is_empty unknown)) (unknown_capacity vol.name unknown) rest

-- The drives at the paths, or `none` where one is not listed.
pub all_found : List (Text × Drive) → List Text → Option (List Drive)
unfolding lookup
all_found by_path [] = some []
all_found by_path (p ∷ ps) = elim (lookup p by_path) [
  | none ↦ none
  | some d ↦ elim (all_found by_path ps) [ none ↦ none | some ds ↦ some (d ∷ ds) ]
]

put_all : List Drive → List (Text × Drive) → List (Text × Drive)
unfolding put
put_all [] pool = pool
put_all (d ∷ ds) pool = put_all ds (put d.path d pool)

-- `{d["path"]: d for d in drives}`.
unfoldable pub index_by_path : List Drive → List (Text × Drive)
unfolding put_all
index_by_path drives = put_all drives []

values : List (Text × Drive) → List Drive
values pool = map (λ e. e.1) pool

-- The set of one list of paths is that of the other.
unfoldable pub same_paths : List Text → List Text → Bool
unfolding mem_text
same_paths ps qs = all (λ p. mem_text p qs) ps && all (λ q. mem_text q ps) qs

join_candidates : List (Volume × List Drive) → List (Text × Drive) → List (Text × Drive)
unfolding put_all
join_candidates [] pool = pool
join_candidates ((v, ds) ∷ rest) pool = join_candidates rest (put_all ds pool)

-- The free drives and those of every candidate, each once.
unfoldable pub adoption_pool : List Drive → List (Volume × List Drive) → List Drive
unfolding index_by_path values join_candidates
adoption_pool free cands = values (join_candidates cands (index_by_path free))

-- The first candidate whose drives are the picked ones.
pub adopt_from :
    VolumeSpec
    → List Drive
    → List Drive
    → List (Volume × List Drive)
    → Result LayoutError (Option Volume)
unfolding same_paths common_size
adopt_from vol picked rest [] = ok none
adopt_from vol picked rest ((v, ds) ∷ cands) =
    let later = adopt_from vol picked rest cands in
    if not (same_paths (paths picked) (paths ds)) then later else elim (common_size picked) [
      | none ↦ ok (some v)
      | some size ↦
          if any (λ d. capacity d == size) rest
          then err (ambiguous_role vol.name v.name)
          else ok (some v)
    ]

pub adopt_among :
    VolumeSpec → List Drive → List (Volume × List Drive) → Result LayoutError (Option Volume)
unfolding adoption_pool adopt_from by_capacity pick refuse_unknown_capacity
adopt_among vol free [] = ok none
adopt_among vol free (c ∷ cs) =
    let pool = adoption_pool free (c ∷ cs) in
    let (picked, rest) = pick vol.select vol.count (by_capacity pool) in
    refuse_unknown_capacity vol pool (adopt_from vol picked rest (c ∷ cs))

module _ (volumes : List Volume) (spec_names : List Text) (by_path : List (Text × Drive)) where
  -- The drives of a volume that the spec entry may adopt.
  pub candidate_drives : VolumeSpec → List Text → Volume → Option (List Drive)
  unfolding all_found mem_text reported_raid
  candidate_drives vol claimed v =
      if mem_text v.path claimed || elim v.name [ none ↦ false | some n ↦ mem_text n spec_names ]
      then none
      else if not (text_eq (reported_raid v) (raid_text vol.raid))
      then none
      else elim (all_found by_path v.drives) [
        | none ↦ none
        | some ds ↦ if is_empty ds || not (length ds == vol.count) then none else some ds
      ]

  unfoldable pub candidates : VolumeSpec → List Text → List (Volume × List Drive)
  unfolding candidate_drives
  candidates vol claimed =
      filter_map
        (λ v. elim (candidate_drives vol claimed v) [ none ↦ none | some ds ↦ some (v, ds) ])
        volumes

  unfoldable pub adopt : VolumeSpec → List Text → List Drive → Result LayoutError (Option Volume)
  unfolding candidates adopt_among
  adopt vol claimed free = adopt_among vol free (candidates vol claimed)

-- `{v.get("name"): v for v in volumes}` read at a name: the last volume of that name.
unfoldable pub find_named : Text → List Volume → Option Volume
find_named name [] = none
find_named name (v ∷ vs) = elim (find_named name vs) [
  | some w ↦ some w
  | none ↦ elim v.name [ none ↦ none | some n ↦ if text_eq n name then some v else none ]
]

-- The step that keeps a volume.
abbrev pub kept_as : VolumeSpec → Volume → Option Text → PlanStep
kept_as vol v adopted_from = record {
  action = keep;
  name = vol.name;
  raid = vol.raid;
  drives = v.drives;
  capacity_bytes = v.capacity_bytes;
  existing_id = some v.id;
  existing_path = some v.path;
  adopted_from = adopted_from;
}

-- The keep branch of the loop, refused where the volume reports another RAID type.
unfoldable pub keep_step : VolumeSpec → Volume → Option Text → Result LayoutError PlanStep
unfolding reported_raid
keep_step vol v adopted_from =
    let have = reported_raid v in
    if not (is_empty have) && not (text_eq have (raid_text vol.raid))
    then err (raid_mismatch vol.name have vol.raid)
    else ok (kept_as vol v adopted_from)

-- `jbod` and `unusable`: the ids that the refusal for missing drives names.
jbod_ids : List Drive → List Text
unfolding lower is_infix
jbod_ids drives =
    map (λ d. d.id)
      (filter (λ d. is_empty d.volumes && is_infix (codes "jbod") (lower d.status)) drives)

unusable_ids : List Drive → List Text
unfolding unusable
unusable_ids drives =
    map (λ d. d.id) (filter (λ d. is_empty d.volumes && is_some (unusable d)) drives)

-- The step that creates a volume, over the picked drives.
abbrev pub created : VolumeSpec → List Drive → ℕ → PlanStep
created vol picked size = record {
  action = create;
  name = vol.name;
  raid = vol.raid;
  drives = paths picked;
  capacity_bytes = Value.int (pos size);
  existing_id = none;
  existing_path = none;
  adopted_from = none;
}

-- Refuses drives of several sizes and an ambiguous pick.
pub create_over : VolumeSpec → List Drive → List Drive → Result LayoutError PlanStep
unfolding common_size
create_over vol picked rest = elim (common_size picked) [
  | none ↦ err (sizes_differ vol.name (map (λ d. d.id) picked))
  | some size ↦
      if any (λ d. capacity d == size) rest
      then err (ambiguous_pick vol.name size)
      else ok (created vol picked size)
]

-- The create branch of the loop, over the free drives that are left.
unfoldable pub create_step : List Drive → VolumeSpec → List Drive → Result LayoutError PlanStep
unfolding create_over pick refuse_unknown_capacity jbod_ids unusable_ids
create_step drives vol free =
    let (picked, rest) = pick vol.select vol.count free in
    unless (ltb (length free) vol.count)
      (too_few_free vol.name vol.count (length free) (jbod_ids drives) (unusable_ids drives))
      (refuse_unknown_capacity vol free (create_over vol picked rest))

-- `[d for d in free if d["path"] not in picked]`.
unfoldable pub without_paths : List Text → List Drive → List Drive
unfolding mem_text
without_paths picked free = filter (λ d. not (mem_text d.path picked)) free

-- An adopted volume with the name that it had.
pub with_name : Option Volume → Result LayoutError (Option (Volume × Option Text))
with_name none = ok none
with_name (some v) = ok (some (v, v.name))

module _ (drives : List Drive) (volumes : List Volume) (spec_names : List Text) where
  -- The existing volume for a spec entry and the name that it is adopted from.
  unfoldable pub resolve :
      VolumeSpec → List Text → List Drive → Result LayoutError (Option (Volume × Option Text))
  unfolding find_named adopt index_by_path with_name
  resolve vol claimed free = elim (find_named vol.name volumes) [
    | some v ↦ ok (some (v, none))
    | none ↦ do
      found ← adopt volumes spec_names (index_by_path drives) vol claimed free
      with_name found
  ]

  -- The loop over the spec's volumes, with the claimed paths and the drives still free.
  unfoldable pub plan_from :
      List Text → List Drive → List VolumeSpec → Result LayoutError (List PlanStep)
  plan_from claimed free [] = ok []
  plan_from claimed free (vol ∷ vols) = do
    existing ← resolve vol claimed free
    elim existing [
      | some (v, adopted_from) ↦ do
        step ← keep_step vol v adopted_from
        rest ← plan_from (v.path ∷ claimed) free vols
        ok (step ∷ rest)
      | none ↦ do
        step ← create_step drives vol free
        rest ← plan_from claimed (without_paths step.drives free) vols
        ok (step ∷ rest)
    ]

unfoldable pub plan_volumes :
    StorageSpec → List Drive → List Volume → Result LayoutError (List PlanStep)
unfolding plan_from by_capacity
plan_volumes spec drives volumes =
    plan_from drives volumes (map (λ v. v.name) spec.volumes) []
      (by_capacity (filter is_free drives)) spec.volumes

-- `_boot_position`: whether the boot volume is the adapter's first.
unfoldable pub boot_position : Option Text → List Volume → Bool
boot_position none volumes = false
boot_position (some id) [] = false
boot_position (some id) (v ∷ vs) = text_eq v.id id
