-- ===== src/Answer/Nic.antt =====
-- bmc/answer_service/app.py: the interface records and the install port that they name. The refusals
-- are those of jobs/lib/host_baseline.py, which this code is to be kept in step with.
pub mod Agrees
use nautobot_proxmox.Python.Value.{str_or_empty, fields_of}
use nautobot_proxmox.Baseline.Nic.{
  Group, NicError, a_bridge, a_lag, no_members, several_flagged, none_flagged, not_assigned,
  on_several, too_deep, refers_to,
}
use nautobot_proxmox.Prelude.{
  Bool, true, false, ◌||◌, Option, none, some, List, [], ◌∷◌, ◌++◌, map, ◌==◌, if◌then◌else◌, any,
  filter, find_last,
}
use nautobot_proxmox.Prelude.Text.{Text, codes, text_eq, lower}
use nautobot_proxmox.Python.Value.{Value, Dict, entries, get, truthy, str_of, non_empty, bool, dict}
use nautobot_proxmox.Python.Result.{Result, ◌>>=◌, err, ok}

-- The result of `_iface_record`.
pub record Record : Type 0 where
  pub id : Text
  pub name : Text
  pub type : Text
  pub lag : Option Text
  pub bridge : Option Text
  pub mac : Option Text
  pub primary_member : Bool

abbrev is_dict : Value → Bool
is_dict (Value.dict fs) = true
is_dict _ = false

abbrev is_true : Value → Bool
is_true (Value.bool b) = b
is_true _ = false

module _ (repr : Value → Text) where
  -- `_ref_id`.
  unfoldable pub ref_id : Value → Option Text
  unfolding get truthy str_of
  ref_id value =
      let v = if is_dict value then get (codes "id") (fields_of value) else value in
      if truthy v then some (str_of repr v) else none

  -- `_iface_type`.
  unfoldable pub iface_type : Dict → Text
  unfolding get str_or_empty
  iface_type iface =
      let value = get (codes "type") iface in
      str_or_empty repr (if is_dict value then get (codes "value") (fields_of value) else value)

  -- `_iface_record`; Nautobot sends `custom_fields` as a mapping.
  unfoldable pub iface_record : Dict → Record
  unfolding get str_of str_or_empty iface_type ref_id lower
  iface_record iface = record {
    id = str_of repr (get (codes "id") iface);
    name = str_or_empty repr (get (codes "name") iface);
    type = iface_type iface;
    lag = ref_id (get (codes "lag") iface);
    bridge = ref_id (get (codes "bridge") iface);
    mac = non_empty (some (lower (str_or_empty repr (get (codes "mac_address") iface))));
    primary_member =
        is_true (get (codes "primary_member") (fields_of (get (codes "custom_fields") iface)));
  }

-- `iface["type"] == "bridge"` and `iface["type"] == "lag"`.
abbrev pub is_bridge : Record → Bool
is_bridge i = text_eq i.type (codes "bridge")

abbrev pub is_lag : Record → Bool
is_lag i = text_eq i.type (codes "lag")

-- `_pick_member`, by the flagged members.
unfoldable pub pick_flagged : Group → Text → List Record → List Record → Result NicError Record
pick_flagged g parent [] flagged = err (no_members g parent)
pick_flagged g parent members (f ∷ f' ∷ fs) = err (several_flagged g parent)
pick_flagged g parent (m ∷ []) flagged = ok m
pick_flagged g parent members (f ∷ []) = ok f
pick_flagged g parent members [] = err (none_flagged g parent)

unfoldable pub pick_member : Group → Text → List Record → Result NicError Record
unfolding pick_flagged
pick_member g parent members =
    pick_flagged g parent members (filter (λ m. m.primary_member) members)

-- `by_id.get(id)`.
unfoldable pub by_id : Text → List Record → Option Record
unfolding find_last
by_id id ifaces = find_last (λ i. text_eq i.id id) ifaces

-- `mine`: an entry of `by_id` is known by its id.
unfoldable pub assigned : List Record → List Text → List Record → List Record
unfolding by_id
assigned ifaces [] mine = mine
assigned ifaces (x ∷ xs) mine = assigned ifaces xs (elim (by_id x ifaces) [
  | none ↦ mine
  | some i ↦ if any (λ j. text_eq j.id i.id) mine then mine else mine ++ i ∷ []
])

unfoldable pub only_one : List Record → Result NicError Record
only_one [] = err not_assigned
only_one (i ∷ []) = ok i
only_one (i ∷ j ∷ rest) = err (on_several (map (λ k. k.name) (i ∷ j ∷ rest)))

unfoldable pub follow : List Text → Record → Result NicError (Record × List Text)
follow chain m = ok (m, chain ++ m.name ∷ [])

module _ (ifaces : List Record) where
  -- From a bridge to its port.
  unfoldable pub through_bridge : Record × List Text → Result NicError (Record × List Text)
  unfolding refers_to pick_member follow text_eq
  through_bridge (i, chain) =
      if is_bridge i
      then pick_member a_bridge i.name (filter (λ j. refers_to j.bridge i.id) ifaces)
        >>= follow chain
      else ok (i, chain)

  -- From a LAG to its member.
  unfoldable pub through_lag : Record × List Text → Result NicError (Record × List Text)
  unfolding refers_to pick_member follow text_eq
  through_lag (i, chain) =
      if is_lag i
      then pick_member a_lag i.name (filter (λ j. refers_to j.lag i.id) ifaces) >>= follow chain
      else ok (i, chain)

  -- The nesting that is supported ends at a port.
  unfoldable pub at_port : Record × List Text → Result NicError (Record × List Text)
  unfolding text_eq
  at_port (i, chain) =
      if is_bridge i || is_lag i then err (too_deep i.name chain) else ok (i, chain)

  unfoldable pub derive_install_interface : List Text → Result NicError (Record × List Text)
  unfolding assigned only_one through_bridge through_lag at_port
  derive_install_interface primary_ids = do
    carrier ← only_one (assigned ifaces primary_ids [])
    c ← through_bridge (carrier, carrier.name ∷ [])
    d ← through_lag c
    at_port d
