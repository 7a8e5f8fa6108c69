-- ===== src/Python/Unique.antt =====
-- A dict whose values are kept apart by a second dict of the values in use.
use nautobot_proxmox.Prelude.{◌≡◌, true, none, some, List, arith, is_some}
use nautobot_proxmox.Prelude.Text.{Text, text_eq_iff}
use nautobot_proxmox.Python.Assoc.{lookup, put, lookup-put}

abbrev pub IsInjective : List (Text × Text) → Type 0
IsInjective names = (i j v : Text) → lookup i names ≡ some v → lookup j names ≡ some v → i ≡ j

-- A value that is given is in use, and is given to one key.
abbrev pub IsKeptApart : List (Text × Text) → List (Text × Text) → Type 0
IsKeptApart names used =
    ((i v : Text) → lookup i names ≡ some v → is_some (lookup v used) ≡ true) × IsInjective names

-- Giving a value that is not in use keeps them apart.
pub put-IsKeptApart :
    (k v w : Text) (names used : List (Text × Text))
    → lookup v used ≡ none
    → IsKeptApart names used
    → IsKeptApart (put k v names) (put v w used)
put-IsKeptApart k v w names used free (given, one) = (
  λ i n h.
      ground (arith, lookup-put k i v names, lookup-put v n w used, text_eq_iff v n, given i n),
  λ i j n h e. ground (
    arith,
    lookup-put k i v names,
    lookup-put k j v names,
    text_eq_iff k i,
    text_eq_iff k j,
    given i n,
    given j n,
    one i j n,
  ),
)
