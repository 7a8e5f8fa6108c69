-- ===== src/Storage/Spec.antt =====
-- jobs/lib/storage_layout.py, `parse_storage_spec`: the profile's storage section.
pub mod Accepted
use nautobot_proxmox.Prelude.{
  ℕ, ◌+◌, ◌%◌, Bool, true, false, not, ◌&&◌, ◌||◌, Option, none, some, List, [], ◌∷◌, ltb, ◌==◌,
  if◌then◌else◌,
}
use nautobot_proxmox.Prelude.Text.{Text, codes, text_eq, mem_text, lower, upper}
use nautobot_proxmox.Python.Value.{
  item, ℤ, pos, negsuc, Value, Dict, elems, entries, get, get_or, truthy, str_of, int_of,
}
use nautobot_proxmox.Python.Result.{Result, ok, err, ◌>>=◌, unless}
use nautobot_proxmox.Python.Pattern.{is_alnum, matches_dollar, repeated}

pub data Raid : Type 0 where
  raid0 raid1 raid10 : Raid

pub data Select : Type 0 where
  smallest largest : Select

-- One entry of the spec's `volumes`.
pub record VolumeSpec : Type 0 where
  pub name : Text
  pub raid : Raid
  pub select : Select
  pub count : ℕ

pub record StorageSpec : Type 0 where
  pub controller : Option Text
  pub volumes : List VolumeSpec
  pub power_wait_seconds : ℤ
  pub create_wait_seconds : ℤ

-- The `StorageLayoutError`s of the parser, with the place that the message names.
pub data SpecError : Type 0 where
  not_mapping no_volumes bad_controller bad_wait_seconds : SpecError
  volume_not_mapping count_not_integer bad_name bad_raid bad_select bad_count : ℕ → SpecError
  duplicate_name : Text → SpecError

abbrev pub raid_text : Raid → Text
raid_text raid0 = codes "RAID0"
raid_text raid1 = codes "RAID1"
raid_text raid10 = codes "RAID10"

-- `raid in VALID_RAID` and `select in VALID_SELECT`, with the member found.
unfoldable pub find_raid : Text → Option Raid
find_raid s =
    if text_eq s (codes "RAID0")
    then some raid0
    else if text_eq s (codes "RAID1")
    then some raid1
    else if text_eq s (codes "RAID10")
    then some raid10
    else none

unfoldable pub find_select : Text → Option Select
find_select s =
    if text_eq s (codes "smallest")
    then some smallest
    else if text_eq s (codes "largest")
    then some largest
    else none

unfoldable pub is_name_char : ℕ → Bool
unfolding is_alnum
is_name_char c = is_alnum c || c == b'.' || c == b'_' || c == b'-'

-- `_NAME_RE.match`.
unfoldable pub name_matches : Text → Bool
unfolding matches_dollar repeated is_name_char
name_matches name = matches_dollar (repeated is_name_char 1 15) name

abbrev pub minimum : Raid → ℕ
minimum raid0 = 1
minimum raid1 = 2
minimum raid10 = 4

abbrev is_raid1 : Raid → Bool
is_raid1 raid1 = true
is_raid1 _ = false

abbrev is_raid10 : Raid → Bool
is_raid10 raid10 = true
is_raid10 _ = false

-- The count that the RAID type takes, or `none` for the refusal.
unfoldable pub check_count : Raid → ℤ → Option ℕ
check_count raid (negsuc n) = none
check_count raid (pos n) =
    if ltb n (minimum raid)
      || (is_raid10 raid && not (n % 2 == 0))
      || (is_raid1 raid && not (n == 2))
    then none
    else some n

-- `x` of `some x`, or the refusal.
abbrev pub require : {E A : Type 0} → E → Option A → Result E A
require e none = err e
require e (some a) = ok a

-- `str(vol.get(key) or "")`.
unfoldable pub text_or_empty : (Value → Text) → Text → Dict → Text
unfolding get truthy str_of
text_or_empty repr key d = let v = get key d in if truthy v then str_of repr v else []

-- The end of the loop's body: the count against the RAID type, and the entry.
finish : ℕ → Text → Raid → Select → Option ℕ → Result SpecError VolumeSpec
finish i name r s none = err (bad_count i)
finish i name r s (some n) = ok (record { name = name; raid = r; select = s; count = n })

with_select : ℕ → Text → Raid → ℤ → Option Select → Result SpecError VolumeSpec
unfolding finish
with_select i name r count none = err (bad_select i)
with_select i name r count (some s) = finish i name r s (check_count r count)

with_raid : ℕ → Text → Text → ℤ → Option Raid → Result SpecError VolumeSpec
unfolding with_select
with_raid i name select count none = err (bad_raid i)
with_raid i name select count (some r) = with_select i name r count (find_select select)

-- The checks behind the count's conversion, on the texts of the entry.
check_fields : ℕ → List Text → Text → Text → Text → Option ℤ → Result SpecError VolumeSpec
unfolding with_raid
check_fields i seen name raid select none = err (count_not_integer i)
check_fields i seen name raid select (some count) =
    if not (name_matches name)
    then err (bad_name i)
    else if mem_text name seen
    then err (duplicate_name name)
    else with_raid i name select count (find_raid raid)

module _ (repr : Value → Text) where
  -- The body of the loop over `volumes`, at index `i` with the names seen so far.
  unfoldable pub parse_volume : ℕ → List Text → Value → Result SpecError VolumeSpec
  unfolding check_fields
  parse_volume i seen (Value.dict fs) =
      let d = entries fs in
      check_fields i seen (text_or_empty repr (codes "name") d)
        (upper (text_or_empty repr (codes "raid") d))
        (lower (text_or_empty repr (codes "select") d))
        (int_of (get_or (codes "count") (Value.int (pos 2)) d))
  parse_volume i seen _ = err (volume_not_mapping i)

  unfoldable pub parse_volumes : ℕ → List Text → List Value → Result SpecError (List VolumeSpec)
  parse_volumes i seen [] = ok []
  parse_volumes i seen (vol ∷ vols) = do
    v ← parse_volume i seen vol
    rest ← parse_volumes (i + 1) (v.name ∷ seen) vols
    ok (v ∷ rest)

  -- A non-empty list of entries.
  parse_list : Value → Result SpecError (List VolumeSpec)
  parse_list (Value.list (item v vs)) = parse_volumes 0 [] (v ∷ elems vs)
  parse_list _ = err no_volumes

parse_controller : Value → Result SpecError (Option Text)
parse_controller Value.null = ok none
parse_controller (Value.str s) = ok (some s)
parse_controller _ = err bad_controller

-- The rest of the section behind its volumes.
parse_options : Dict → List VolumeSpec → Result SpecError StorageSpec
unfolding parse_controller
parse_options d parsed = do
  controller ← parse_controller (get (codes "controller") d)
  power ←
      require bad_wait_seconds
        (int_of (get_or (codes "power_wait_seconds") (Value.int (pos 300)) d))
  create ←
      require bad_wait_seconds
        (int_of (get_or (codes "create_wait_seconds") (Value.int (pos 180)) d))
  ok (record {
    controller = controller;
    volumes = parsed;
    power_wait_seconds = power;
    create_wait_seconds = create;
  })

parse_section : (Value → Text) → Value → Result SpecError StorageSpec
unfolding parse_list parse_options
parse_section repr (Value.dict fs) =
    parse_list repr (get (codes "volumes") (entries fs)) >>= parse_options (entries fs)
parse_section repr _ = err not_mapping

present : StorageSpec → Result SpecError (Option StorageSpec)
present spec = ok (some spec)

-- `None` when the section is absent or empty.
unfoldable pub parse_storage_spec : (Value → Text) → Dict → Result SpecError (Option StorageSpec)
unfolding parse_section present get truthy
parse_storage_spec repr profile =
    if truthy (get (codes "storage") profile)
    then parse_section repr (get (codes "storage") profile) >>= present
    else ok none
