-- ===== src/Storage/Drives.antt =====
-- jobs/lib/storage_layout.py: drives, which of them are free, and the capacity rule's pick.
use nautobot_proxmox.Prelude.{
  ℕ, zero, suc, ◌-◌, Bool, false, not, ◌&&◌, ◌||◌, Option, none, some, List, [], ◌∷◌, ◌++◌, ltb,
  ◌==◌, if◌then◌else◌, length, take, drop, any, all, filter, is_empty, map, is_some,
}
use nautobot_proxmox.Prelude.Text.{
  Text, codes, text_eq, text_ltb, lower, strip, starts_with, is_infix,
}
use nautobot_proxmox.Prelude.Sort.{sort}
use nautobot_proxmox.Python.Value.{ℤ, pos, Value, int_of}
use nautobot_proxmox.Storage.Spec.{Select, smallest, largest}

-- One entry of `controller_drives`, as the plan reads it; an absent or empty text is `[]`, an
-- absent `state` is `none`.
pub record Drive : Type 0 where
  pub path : Text
  pub id : Text
  pub capacity_bytes : Value
  pub status : Text
  pub state : Option Text
  pub volumes : List Text

-- Why a drive must never back a new volume, or `none`.
unfoldable pub unusable : Drive → Option Text
unfolding strip lower is_infix
unusable d =
    let status = strip d.status in
    if is_infix (codes "bad") (lower status) then some status else elim d.state [
      | none ↦ none
      | some state ↦
          if text_eq (lower (strip state)) (codes "enabled")
          then none
          else some (codes "State " ++ state)
    ]

abbrev free_states : List Text
free_states = codes "unconfigured good" ∷ codes "unconfigured" ∷ codes "ready" ∷ []

unfoldable pub is_free : Drive → Bool
unfolding unusable starts_with
is_free d =
    if not (is_empty d.volumes) || is_some (unusable d)
    then false
    else any (λ s. starts_with s (lower (strip d.status))) free_states

-- A positive number of bytes.
positive : Option ℤ → Option ℕ
positive (some (pos (suc n))) = some (suc n)
positive _ = none

unfoldable pub known_capacity : Drive → Option ℕ
unfolding int_of positive
known_capacity d = positive (int_of d.capacity_bytes)

-- The sort key: an unknown capacity counts as 0.
unfoldable pub capacity : Drive → ℕ
unfolding known_capacity
capacity d = elim (known_capacity d) [ none ↦ 0 | some n ↦ n ]

-- The ids of the drives whose capacity is not reported, sorted.
unfoldable pub unknown_ids : List Drive → List Text
unfolding sort text_ltb
unknown_ids drives =
    sort text_ltb (map (λ d. d.id) (filter (λ d. not (is_some (known_capacity d))) drives))

-- The order of the key `(_capacity(d), str(d["id"]))`.
unfoldable pub drive_lt : Drive → Drive → Bool
unfolding text_ltb
drive_lt a b = ltb (capacity a) (capacity b) || (capacity a == capacity b && text_ltb a.id b.id)

unfoldable pub by_capacity : List Drive → List Drive
unfolding sort drive_lt
by_capacity drives = sort drive_lt drives

-- `_pick`: `free[-0:]` is the whole list.
unfoldable pub pick : Select → ℕ → List Drive → List Drive × List Drive
pick smallest n free = (take n free, drop n free)
pick largest zero free = (free, [])
pick largest (suc n) free = (drop (length free - suc n) free, take (length free - suc n) free)

-- The one element of `{_capacity(d) for d in ds}`, where it has exactly one.
unfoldable pub common_size : List Drive → Option ℕ
unfolding capacity
common_size [] = none
common_size (d ∷ ds) = if all (λ e. capacity e == capacity d) ds then some (capacity d) else none

abbrev pub paths : List Drive → List Text
paths ds = map (λ d. d.path) ds
