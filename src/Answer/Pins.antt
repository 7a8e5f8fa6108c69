-- ===== src/Answer/Pins.antt =====
-- bmc/answer_service/app.py, `pin_name` and `build_pin_mapping`: the names that the installer gives to
-- the NICs of a node.
pub mod Distinct
use nautobot_proxmox.Python.Value.{str_or_empty}
use mathlib.Core.List.{reverse}
use nautobot_proxmox.Prelude.{
  ℕ, ◌+◌, Bool, true, false, not, ◌&&◌, ◌||◌, List, [], ◌∷◌, ◌++◌, map, leb, ◌==◌, if◌then◌else◌,
  is_some, length, take, drop, all, filter, is_empty,
}
use nautobot_proxmox.Prelude.Text.{starts_with, Text, codes, text_eq, mem_text, lower, strip}
use nautobot_proxmox.Python.Pattern.{is_lower_alpha, is_upper_alpha, matches_dollar, repeated}
use nautobot_proxmox.Python.Value.{Value, Dict, get, truthy, is_digit, empty}
use nautobot_proxmox.Python.Assoc.{lookup, put}
use nautobot_proxmox.Answer.Nic.{iface_type}

is_pin_char : ℕ → Bool
unfolding is_lower_alpha is_digit
is_pin_char c = is_lower_alpha c || is_digit c || c == b'_'

-- `re.sub(r"[^a-z0-9_]+", "_", s)`; `inside` tells that a run has been replaced already.
unfoldable pub squeeze : Bool → Text → Text
unfolding is_pin_char
squeeze inside [] = []
squeeze inside (c ∷ s) =
    let next = squeeze false s in
    let run = squeeze true s in
    if is_pin_char c then c ∷ next else if inside then run else b'_' ∷ run

drop_underscores : Text → Text
drop_underscores [] = []
drop_underscores (c ∷ s) = let rest = drop_underscores s in if c == b'_' then rest else c ∷ s

-- `s.strip("_")`.
unfoldable pub strip_underscores : Text → Text
unfolding drop_underscores
strip_underscores s = reverse (drop_underscores (reverse (drop_underscores s)))

-- `"p_" + value`, unless the value is empty or starts with a letter.
unfoldable pub with_letter : Text → Text
unfolding is_lower_alpha is_upper_alpha
with_letter [] = []
with_letter (c ∷ s) = if is_lower_alpha c || is_upper_alpha c then c ∷ s else codes "p_" ++ c ∷ s

unfoldable pub pin_name : Text → Text
unfolding with_letter strip_underscores squeeze lower
pin_name name = take 15 (with_letter (strip_underscores (squeeze false (lower name))))

ifname : Text → Bool
unfolding is_lower_alpha repeated is_pin_char
ifname [] = false
ifname (c ∷ s) = is_lower_alpha c && repeated is_pin_char 1 14 s

-- `_IFNAME_RE`.
unfoldable pub is_ifname : Text → Bool
unfolding matches_dollar ifname
is_ifname s = matches_dollar ifname s

default_pin : Text → Bool
unfolding starts_with is_digit
default_pin s = starts_with (codes "nic") s && (leb 4 (length s) && all is_digit (drop 3 s))

-- `_DEFAULT_PIN_RE`.
unfoldable pub is_default_pin : Text → Bool
unfolding matches_dollar default_pin
is_default_pin s = matches_dollar default_pin s

-- What the loop collects: the names by MAC, and the MACs by name.
pub record Pins : Type 0 where
  pub mapping : List (Text × Text)
  pub used : List (Text × Text)

-- The body of the loop where the interface is a port with this MAC that the installer has seen.
unfoldable pub pin : Pins → Text → Text → Pins
unfolding is_ifname is_default_pin lookup put
pin pins mac linux =
    if not (is_ifname linux)
    then pins
    else if is_default_pin linux
    then pins
    else if is_some (lookup linux pins.used)
    then pins
    else record { mapping = put mac linux pins.mapping; used = put linux mac pins.used }

module _ (repr : Value → Text) where
  -- `str(v.get("mac") or "").lower()` and its like.
  abbrev lower_field : Text → Dict → Text
  lower_field k d = lower (str_or_empty repr (get k d))

  -- `seen`.
  unfoldable pub seen_macs : List Dict → List Text
  unfolding lower get truthy str_or_empty
  seen_macs nics = map (lower_field (codes "mac")) (filter (λ n. truthy (get (codes "mac") n)) nics)

  -- `not mac or name == "xcc" or _iface_type(iface) in ("lag", "bridge")`.
  unfoldable pub is_no_port : Text → Text → Dict → Bool
  unfolding text_eq iface_type
  is_no_port mac name iface =
      is_empty mac
      || (text_eq name (codes "xcc")
          || (text_eq (iface_type repr iface) (codes "lag")
              || text_eq (iface_type repr iface) (codes "bridge")))

  -- The body of the loop.
  unfoldable pub pin_iface : List Text → Pins → Dict → Pins
  unfolding lower get str_or_empty is_no_port mem_text pin pin_name
  pin_iface seen pins iface =
      let mac = lower_field (codes "mac_address") iface in
      let name = str_or_empty repr (get (codes "name") iface) in
      if is_no_port mac name iface
      then pins
      else if not (mem_text mac seen)
      then pins
      else pin pins mac (pin_name name)

  unfoldable pub pin_all : List Text → Pins → List Dict → Pins
  unfolding pin_iface
  pin_all seen pins [] = pins
  pin_all seen pins (i ∷ ifaces) = pin_all seen (pin_iface seen pins i) ifaces

  unfoldable pub build_pin_mapping : List Dict → List Dict → List (Text × Text)
  unfolding pin_all seen_macs
  build_pin_mapping ifaces nics =
      (pin_all (seen_macs nics) (record { mapping = []; used = [] }) ifaces).mapping
