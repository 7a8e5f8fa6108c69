-- ===== src/Baseline/Model/Bridges.antt =====
-- jobs/lib/host_baseline.py, `build_network_model`: the loop over the bridges.
pub mod Checked
use nautobot_proxmox.Prelude.{
  ℕ, Bool, true, false, not, ◌&&◌, ◌||◌, Option, none, some, List, [], ◌∷◌, ◌++◌, ltb,
  if◌then◌else◌, is_some, filter, is_empty, find_last,
}
use nautobot_proxmox.Prelude.Text.{Text, codes, text_eq}
use nautobot_proxmox.Python.Pattern.{matches_dollar}
use nautobot_proxmox.Baseline.Nic.{Iface, is_bridge, is_lag, refers_to}
use nautobot_proxmox.Baseline.Vids.{bridge_vids}
use nautobot_proxmox.Baseline.Model.{
  when, NetProblem, Net, report, mtu_of, mtu_problems, add_port, by_name, flagged, is_many,
  of_bridge, bad_bridge_name, several_primary_ports, nested_bridge, bridge_mtu_above_port,
  no_tagged_vlans, access_mode, extra_addresses,
}
use nautobot_proxmox.Baseline.Model.Bonds.{Bond, numbered}

pub record Bridge : Type 0 where
  pub name : Text
  pub id : Text
  pub ports : List Text
  pub vlan_aware : Bool
  pub vids : Option Text
  pub mtu : Option ℕ
  pub description : Text
  pub address : Option Text
  pub gateway : Option Text

-- `_BRIDGE_NAME_RE`.
unfoldable pub bridge_name : Text → Bool
unfolding matches_dollar numbered
bridge_name s = matches_dollar (numbered (codes "vmbr") 4) s

-- `bond_by_id.get(id)`.
unfoldable pub bond_by_id : Text → List Bond → Option Bond
unfolding find_last
bond_by_id id bonds = find_last (λ b. text_eq b.id id) bonds

abbrev pub above : Option ℕ → Option ℕ → Bool
above (some m) (some n) = ltb n m
above _ _ = false

-- The MTU of a port, where it is not a bridge.
unfoldable pub port_mtu : List Bond → Iface → Option ℕ
unfolding is_lag bond_by_id mtu_of
port_mtu bonds port =
    if is_lag port.type
    then elim (bond_by_id port.id bonds) [ none ↦ none | some b ↦ b.mtu ]
    else mtu_of port

-- A port that is not a bond is added to the model's ports.
unfoldable pub enter_port : Iface → Iface → Net → Net
unfolding is_lag report mtu_problems mtu_of add_port
enter_port br port s =
    if is_lag port.type
    then s
    else add_port port (of_bridge br.name) (mtu_of port) (report (mtu_problems port) s)

-- The body of the loop over the ports of a bridge: the id, if the port is taken.
unfoldable pub add_bridge_port : List Bond → Iface → Net → Iface → List Text × Net
unfolding is_bridge port_mtu enter_port report mtu_of
add_bridge_port bonds br s port =
    if is_bridge port.type then ([], report (nested_bridge br.name ∷ []) s) else (
      port.id ∷ [],
      report
          (when (above (mtu_of br) (port_mtu bonds port)) (bridge_mtu_above_port br.name port.name))
          (enter_port br port s),
    )

unfoldable pub add_bridge_ports : List Bond → Iface → Net → List Iface → List Text × Net
unfolding add_bridge_port
add_bridge_ports bonds br s [] = ([], s)
add_bridge_ports bonds br s (p ∷ ports) =
    let (ids, after) = add_bridge_port bonds br s p in
    let (rest, end) = add_bridge_ports bonds br after ports in (ids ++ rest, end)

abbrev pub is_mode : Text → Iface → Bool
is_mode mode br = text_eq br.mode mode

-- `vids`.
unfoldable pub vids_of : Iface → Option Text
unfolding text_eq bridge_vids
vids_of br =
    if is_mode (codes "tagged-all") br
    then some (codes "2-4094")
    else if is_mode (codes "tagged") br && not (is_empty br.tagged_vids)
    then some (bridge_vids br.tagged_vids)
    else none

-- `bridge["id"] == mgmt["id"]`, where there is a management bridge.
abbrev pub is_mgmt : Option Iface → Iface → Bool
is_mgmt none br = false
is_mgmt (some m) br = text_eq br.id m.id

-- The problems reported before the ports, and those reported after them.
unfoldable pub bridge_problems : Iface → List Iface → List NetProblem
unfolding bridge_name mtu_problems
bridge_problems br ports =
    when (not (bridge_name br.name)) (bad_bridge_name br.name)
    ++ (when (is_many (flagged ports)) (several_primary_ports br.name) ++ mtu_problems br)

abbrev pub extra_ips : Text → Bool → Iface → List Text
extra_ips primary mgmt br = filter (λ ip. not mgmt || not (text_eq ip primary)) br.ips

unfoldable pub mode_problems : Text → Option Iface → Iface → List NetProblem
unfolding text_eq
mode_problems primary mgmt br =
    let extra = extra_ips primary (is_mgmt mgmt br) br in
    when (is_mode (codes "tagged") br && is_empty br.tagged_vids) (no_tagged_vlans br.name)
    ++ (when (is_mode (codes "access") br) (access_mode br.name)
        ++ when (not (is_empty extra)) (extra_addresses br.name extra))

abbrev if_mgmt : Bool → Option Text → Option Text
if_mgmt true o = o
if_mgmt false o = none

-- `interfaces` that refer to the bridge, by name.
unfoldable pub ports_of : List Iface → Iface → List Iface
unfolding by_name refers_to
ports_of ifaces br = by_name (filter (λ i. refers_to i.bridge br.id) ifaces)

module _ (primary : Text) (gateway : Option Text) (mgmt : Option Iface) (bonds : List Bond)
    (ifaces : List Iface) where
  unfoldable pub bridge_of : Iface → List Text → Bridge
  unfolding vids_of mtu_of
  bridge_of br ports = record {
    name = br.name;
    id = br.id;
    ports = ports;
    vlan_aware = is_some (vids_of br);
    vids = vids_of br;
    mtu = mtu_of br;
    description = br.description;
    address = if_mgmt (is_mgmt mgmt br) (some primary);
    gateway = if_mgmt (is_mgmt mgmt br) gateway;
  }

  -- The body of the loop.
  unfoldable pub add_bridge : Net → Iface → Bridge × Net
  unfolding ports_of bridge_problems mode_problems report add_bridge_ports bridge_of
  add_bridge s br =
      let ports = ports_of ifaces br in
      let (ids, after) = add_bridge_ports bonds br (report (bridge_problems br ports) s) ports in
      (bridge_of br ids, report (mode_problems primary mgmt br) after)

  unfoldable pub add_bridges : Net → List Iface → List Bridge × Net
  unfolding add_bridge
  add_bridges s [] = ([], s)
  add_bridges s (b ∷ bridges) =
      let (br, after) = add_bridge s b in
      let (rest, end) = add_bridges after bridges in (br ∷ rest, end)
