-- ===== src/Storage/Spec/Accepted.antt =====
-- `parse_storage_spec` (jobs/lib/storage_layout.py): what an accepted storage section guarantees.
use nautobot_proxmox.Prelude.{suc, ◌+◌, ◌<◌, ap, Bool-cases}
use nautobot_proxmox.Prelude.Text.{codes}
use nautobot_proxmox.Python.Value.{Dict, elems, get, truthy, item}
use nautobot_proxmox.Storage.Spec.{
  parse_options, parse_list, present, parse_section, StorageSpec, parse_storage_spec,
}
use nautobot_proxmox.Prelude.{refl, inl, inr, Option-cases, length, All}
use nautobot_proxmox.Storage.Spec.{
  with_select, finish, check_fields, with_raid, Select, find_raid, find_select, parse_volumes,
}
use nautobot_proxmox.Prelude.{
  ℕ, ◌%◌, ◌≤◌, ◌≡◌, true, false, Option, none, some, List, [], ◌∷◌, arith,
}
use nautobot_proxmox.Prelude.Text.{Text, mem_text}
use nautobot_proxmox.Python.Result.{bind-eq-ok, ok}
use nautobot_proxmox.Python.Value.{ℤ, Value, entries, pos, negsuc}
use nautobot_proxmox.Storage.Spec.{
  Raid, VolumeSpec, name_matches, check_count, parse_volume, raid0, raid1, raid10,
}

-- The drives that a RAID type takes: RAID1 exactly two, RAID10 an even number of at least four.
abbrev pub CountFits : Raid → ℕ → Type 0
CountFits raid0 n = 1 ≤ n
CountFits raid1 n = n ≡ 2
CountFits raid10 n = (4 ≤ n) × (n % 2 ≡ 0)

-- An accepted entry.
abbrev pub IsValidVolume : VolumeSpec → Type 0
IsValidVolume v = (name_matches v.name ≡ true) × CountFits v.raid v.count

-- No two entries have one name, and no entry has one of the names seen before.
abbrev pub HasFreshNames : List Text → List VolumeSpec → Type 0
HasFreshNames seen [] = Unit
HasFreshNames seen (v ∷ vs) = (mem_text v.name seen ≡ false) × HasFreshNames (v.name ∷ seen) vs

pub check_count-CountFits :
    (raid : Raid) (z : ℤ) (n : ℕ) → check_count raid z ≡ some n → CountFits raid n
unfolding check_count
check_count-CountFits raid0 (pos m) n h = ground arith
check_count-CountFits raid1 (pos m) n h = ground arith
check_count-CountFits raid10 (pos m) n h = ground arith
check_count-CountFits raid (negsuc m) n h = absurd (ground arith)

finish-ok :
    (i : ℕ) (name : Text) (r : Raid) (s : Select) (count : ℤ) (v : VolumeSpec)
    → name_matches name ≡ true
    → finish i name r s (check_count r count) ≡ ok v
    → IsValidVolume v × (v.name ≡ name)
unfolding finish
finish-ok i name r s count v named h = elim (Option-cases (check_count r count)) [
  | inl e ↦ absurd (ground arith)
  | inr (n, e) ↦
      let same : record { name = name; raid = r; select = s; count = n } ≡ v = ground arith in
      rw (← same) ((named, check_count-CountFits r count n e), refl)
]

with_raid-ok :
    (i : ℕ) (name select : Text) (count : ℤ) (o : Option Raid) (v : VolumeSpec)
    → name_matches name ≡ true
    → with_raid i name select count o ≡ ok v
    → IsValidVolume v × (v.name ≡ name)
unfolding with_raid with_select
with_raid-ok i name select count none v named h = absurd (ground arith)
with_raid-ok i name select count (some r) v named h = elim (Option-cases (find_select select)) [
  | inl e ↦ absurd (ground arith)
  | inr (s, e) ↦ finish-ok i name r s count v named (rw (e, with_select) at h)
]

check_fields-ok :
    (i : ℕ) (seen : List Text) (name raid select : Text) (o : Option ℤ) (v : VolumeSpec)
    → check_fields i seen name raid select o ≡ ok v
    → IsValidVolume v × (mem_text v.name seen ≡ false)
unfolding check_fields
check_fields-ok i seen name raid select none v h = absurd (ground arith)
check_fields-ok i seen name raid select (some count) v h =
    let named : name_matches name ≡ true = ground arith in
    let fresh : mem_text name seen ≡ false = ground arith in
    let (valid, same) = with_raid-ok i name select count (find_raid raid) v named (ground arith) in
    (valid, rw same fresh)

-- What the parser promises of a section.
pub record IsAccepted (spec : StorageSpec) : Type 0 where
  pub some_volume : 0 < length spec.volumes
  pub valid : All IsValidVolume spec.volumes
  pub fresh : HasFreshNames [] spec.volumes

module _ (repr : Value → Text) where
  parse_volume-ok :
      (i : ℕ) (seen : List Text) (value : Value) (v : VolumeSpec)
      → parse_volume repr i seen value ≡ ok v
      → IsValidVolume v × (mem_text v.name seen ≡ false)
  unfolding parse_volume
  parse_volume-ok i seen (Value.dict fs) v h = check_fields-ok i seen _ _ _ _ v h
  parse_volume-ok i seen _ v h = absurd (ground arith)

  parse_volumes-ok :
      (i : ℕ) (seen : List Text) (values : List Value) (vs : List VolumeSpec)
      → parse_volumes repr i seen values ≡ ok vs
      → All IsValidVolume vs × HasFreshNames seen vs × (length vs ≡ length values)
  unfolding parse_volumes
  parse_volumes-ok i seen [] vs h = let same : [] ≡ vs = ground arith in rw (← same) (tt, tt, refl)
  parse_volumes-ok i seen (value ∷ values) vs h =
      let (v, h₁, h₂) = bind-eq-ok (parse_volume repr i seen value) _ h in
      let (rest, h₃, h₄) = bind-eq-ok (parse_volumes repr (i + 1) (v.name ∷ seen) values) _ h₂ in
      let (valid, fresh) = parse_volume-ok i seen value v h₁ in
      let (valids, freshes, same) = parse_volumes-ok (i + 1) (v.name ∷ seen) values rest h₃ in
      let e : v ∷ rest ≡ vs = ground arith in
      rw (← e) ((valid, valids), (fresh, freshes), ap suc same)

  parse_list-ok :
      (value : Value) (vs : List VolumeSpec)
      → parse_list repr value ≡ ok vs
      → (0 < length vs) × All IsValidVolume vs × HasFreshNames [] vs
  unfolding parse_list
  parse_list-ok (Value.list (item v rest)) vs h =
      let (valid, fresh, same) = parse_volumes-ok 0 [] (v ∷ elems rest) vs h in
      (omega arith, valid, fresh)
  parse_list-ok _ vs h = absurd (ground arith)

  parse_options-volumes :
      (d : Dict) (parsed : List VolumeSpec) (spec : StorageSpec)
      → parse_options d parsed ≡ ok spec
      → spec.volumes ≡ parsed
  unfolding parse_options
  parse_options-volumes d parsed spec h = ground arith

  parse_section-IsAccepted :
      (raw : Value) (spec : StorageSpec) → parse_section repr raw ≡ ok spec → IsAccepted spec
  unfolding parse_section
  parse_section-IsAccepted (Value.dict fs) spec h =
      let (vs, h₁, h₂) = bind-eq-ok (parse_list repr (get (codes "volumes") (entries fs))) _ h in
      let (many, valid, fresh) = parse_list-ok _ vs h₁ in
      let same = parse_options-volumes (entries fs) vs spec h₂ in
      record { some_volume = rw same many; valid = rw same valid; fresh = rw same fresh }
  parse_section-IsAccepted _ spec h = absurd (ground arith)

  -- A storage section that the parser accepts has at least one volume; every name passes the name
  -- pattern, no name is listed twice, and every count is one that the RAID type takes.
  pub parse_storage_spec-IsAccepted :
      (profile : Dict) (spec : StorageSpec)
      → parse_storage_spec repr profile ≡ ok (some spec)
      → IsAccepted spec
  unfolding parse_storage_spec present
  parse_storage_spec-IsAccepted profile spec h =
      elim (Bool-cases (truthy (get (codes "storage") profile))) [
        | inr e ↦ absurd (ground arith)
        | inl e ↦
            let (found, h₁, h₂) =
              bind-eq-ok (parse_section repr (get (codes "storage") profile)) present
                {y = some spec} (ground arith) in
            let same : found ≡ spec = ground arith in
            parse_section-IsAccepted _ spec (rw same at h₁)
      ]

-- The counts that a RAID type takes are positive.
pub CountFits-pos : (r : Raid) (n : ℕ) → CountFits r n → 0 < n
CountFits-pos raid0 n h = omega arith
CountFits-pos raid1 n h = omega arith
CountFits-pos raid10 n h = omega arith
