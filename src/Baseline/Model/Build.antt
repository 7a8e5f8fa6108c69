-- ===== src/Baseline/Model/Build.antt =====
-- jobs/lib/host_baseline.py, `build_network_model`. What the module `ipaddress` makes of an address
-- is an argument: `has_prefix` tells that `ip_interface` accepts the text, and `inside` that the
-- gateway is an address in the network of the other one.
use nautobot_proxmox.Prelude.{
  Bool, not, ◌&&◌, ◌||◌, Option, none, some, List, [], ◌∷◌, ◌++◌, map, if◌then◌else◌, is_some,
  length, filter, is_empty, filter_map,
}
use nautobot_proxmox.Prelude.Sort.{sort}
use nautobot_proxmox.Prelude.Text.{Text, codes, text_eq, text_ltb}
use nautobot_proxmox.Python.Assoc.{lookup, put}
use nautobot_proxmox.Baseline.Nic.{Iface, is_bridge, is_lag, by_id}
use nautobot_proxmox.Baseline.Ports.{Port}
use nautobot_proxmox.Baseline.Model.{
  when, NetProblem, Net, NetCfg, by_name, not_on_one, not_on_bridge, bad_address, no_gateway,
  gateway_outside, stray_addresses,
}
use nautobot_proxmox.Baseline.Model.Bonds.{Bond, add_bonds}
use nautobot_proxmox.Baseline.Model.Bridges.{Bridge, add_bridges}

pub record Model : Type 0 where
  pub ports : List Port
  pub bonds : List Bond
  pub bridges : List Bridge
  pub mgmt_bridge : Option Text
  pub names : List (Text × Text)

-- `[by_id[x] for x in primary_ids if x in by_id]`.
unfoldable pub carriers : List Iface → List Text → List Iface
unfolding by_id
carriers ifaces ids = filter_map (λ x. by_id x ifaces) ids

-- The management bridge, and the problems with it.
unfoldable pub mgmt_of : List Iface → Option Iface × List NetProblem
unfolding is_bridge
mgmt_of (i ∷ []) = if is_bridge i.type then (some i, []) else (none, not_on_bridge i.name ∷ [])
mgmt_of mine = (none, not_on_one (length mine) ∷ [])

-- The ports of the model, by name.
unfoldable pub ports_by_name : List (Text × Port) → List Port
unfolding sort text_ltb
ports_by_name ports =
    sort (λ p q. text_ltb p.name q.name) (map (λ e. record e.1 { id = e.0 }) ports)

-- The names by id.
unfoldable pub names_by_id : List Iface → List (Text × Text)
unfolding put
names_by_id ifaces = fold_names [] ifaces
  where
    fold_names : List (Text × Text) → List Iface → List (Text × Text)
    fold_names d [] = d
    fold_names d (i ∷ is) = fold_names (put i.id i.name d) is

-- The interfaces outside the topology that carry addresses.
unfoldable pub stray_problems : List (Text × Port) → List Iface → List NetProblem
unfolding is_bridge is_lag lookup text_eq
stray_problems ports [] = []
stray_problems ports (i ∷ ifaces) =
    when
      (not (
          is_bridge i.type
          || is_lag i.type
          || is_some (lookup i.id ports)
          || text_eq i.name (codes "xcc"))
        && not (is_empty i.ips))
      (stray_addresses i.name i.ips)
    ++ stray_problems ports ifaces

module _ (has_prefix : Text → Bool) (inside : Text → Text → Bool) where
  -- The problems with the address and the gateway.
  unfoldable pub address_problems : Text → Option Text → List NetProblem
  address_problems primary none = when (not (has_prefix primary)) bad_address ++ no_gateway ∷ []
  address_problems primary (some gateway) =
      when (not (has_prefix primary)) bad_address
      ++ when (has_prefix primary && not (inside gateway primary)) (gateway_outside gateway)

  unfoldable pub build_network_model :
      List Iface → Text → List Text → Option Text → NetCfg → Model × List NetProblem
  unfolding mgmt_of carriers address_problems add_bonds add_bridges by_name is_lag is_bridge
      stray_problems ports_by_name names_by_id
  build_network_model ifaces primary ids gateway cfg =
      let (mgmt, mgmt_problems) = mgmt_of (carriers ifaces ids) in
      let start : Net = record {
        ports = [];
        problems = mgmt_problems ++ address_problems primary gateway;
      } in
      let (bonds, bonded) =
        add_bonds cfg ifaces start (by_name (filter (λ i. is_lag i.type) ifaces)) in
      let (bridges, bridged) =
        add_bridges primary gateway mgmt bonds ifaces bonded
          (by_name (filter (λ i. is_bridge i.type) ifaces)) in
      (
        record {
          ports = ports_by_name bridged.ports;
          bonds = bonds;
          bridges = bridges;
          mgmt_bridge = elim mgmt [ none ↦ none | some m ↦ some m.name ];
          names = names_by_id ifaces;
        },
        bridged.problems ++ stray_problems bridged.ports ifaces,
      )
