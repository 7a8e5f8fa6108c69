-- ===== src/Baseline/Model.antt =====
-- jobs/lib/host_baseline.py, `build_network_model`: the data of the network model, its problems, and
-- the functions inside it that bonds and bridges share.
pub mod Bonds
pub mod Bridges
pub mod Build
pub mod Grows
pub mod Sound
use nautobot_proxmox.Prelude.{
  ℕ, Bool, true, false, not, ◌&&◌, Option, none, some, List, [], ◌∷◌, ◌++◌, ltb, leb, if◌then◌else◌,
  is_some, length, filter,
}
use nautobot_proxmox.Prelude.Text.{Text, text_ltb}
use nautobot_proxmox.Prelude.Sort.{sort}
use nautobot_proxmox.Python.Value.{ℤ, non_empty, pos, negsuc}
use nautobot_proxmox.Python.Assoc.{put}
use nautobot_proxmox.Baseline.Nic.{IfaceType, Iface, bridge, lag, physical}
use nautobot_proxmox.Baseline.Ports.{Port}

-- What a port is a member of, with its name.
pub data Parent : Type 0 where
  of_lag of_bridge : Text → Parent

-- The problems, with the names in their messages.
pub data NetProblem : Type 0 where
  not_on_one : ℕ → NetProblem
  not_on_bridge : Text → NetProblem
  bad_address no_gateway : NetProblem
  gateway_outside : Text → NetProblem
  bad_mtu : Text → NetProblem
  not_a_port both_lag_and_bridge no_mac : Text → Parent → NetProblem
  bad_bond_name bond_without_members bad_lag_mode bad_xmit_hash xmit_hash_missing :
      Text → NetProblem
  xmit_hash_unused miimon_missing lacp_rate_missing several_primaries no_primary : Text → NetProblem
  member_mtu_differs : Text → Text → NetProblem
  bad_bridge_name several_primary_ports nested_bridge : Text → NetProblem
  bridge_mtu_above_port : Text → Text → NetProblem
  no_tagged_vlans access_mode : Text → NetProblem
  extra_addresses stray_addresses : Text → List Text → NetProblem

-- What the function collects: `model_ports`, whose keys are `port_ids` too, and the problems.
pub record Net : Type 0 where
  pub ports : List (Text × Port)
  pub problems : List NetProblem

-- The two settings of the `network` section that it reads.
pub record NetCfg : Type 0 where
  pub bond_miimon : Option ℕ
  pub lacp_rate : Option Text

unfoldable pub report : List NetProblem → Net → Net
report ps s = record s { problems = s.problems ++ ps }

-- `if bad: problems.append(p)`.
abbrev pub when : Bool → NetProblem → List NetProblem
when true p = p ∷ []
when false p = []

in_range : ℤ → Option ℕ
in_range (pos n) = if leb 576 n && leb n 9216 then some n else none
in_range (negsuc n) = none

-- `mtu_of`: the value, and the problem that it reports.
unfoldable pub mtu_of : Iface → Option ℕ
unfolding in_range
mtu_of i = elim i.mtu [ none ↦ none | some z ↦ in_range z ]

unfoldable pub mtu_problems : Iface → List NetProblem
unfolding in_range
mtu_problems i = elim i.mtu [
  | none ↦ []
  | some z ↦ when (not (is_some (in_range z))) (bad_mtu i.name)
]

-- `iface["type"] in _NON_PORT_TYPES`.
unfoldable pub is_port_type : IfaceType → Bool
is_port_type (physical t) = true
is_port_type _ = false

-- `iface["lag"] and iface["bridge"]`.
abbrev pub is_set : Option Text → Bool
is_set o = is_some (non_empty o)

-- A port with its address enters the model.
unfoldable pub enter_mac : Iface → Parent → Option ℕ → Net → Option Text → Net
unfolding report put
enter_mac i parent mtu s none = report (no_mac i.name parent ∷ []) s
enter_mac i parent mtu s (some mac) = record s {
  ports =
      put i.id
        (record { id = i.id; name = i.name; mac = mac; mtu = mtu; description = i.description })
        s.ports;
}

-- `add_port`.
unfoldable pub add_port : Iface → Parent → Option ℕ → Net → Net
unfolding is_port_type report enter_mac
add_port i parent mtu s =
    let entered = enter_mac i parent mtu s (non_empty i.mac) in
    if not (is_port_type i.type)
    then report (not_a_port i.name parent ∷ []) s
    else if is_set i.lag && is_set i.bridge
    then report (both_lag_and_bridge i.name parent ∷ []) s
    else entered

-- `sorted(ifaces, key=lambda i: i["name"])`.
unfoldable pub by_name : List Iface → List Iface
unfolding sort text_ltb
by_name ifaces = sort (λ i j. text_ltb i.name j.name) ifaces

-- The flagged ones.
abbrev pub flagged : List Iface → List Iface
flagged members = filter (λ m. m.primary_member) members

abbrev pub is_many {ℓ} : {A : Type ℓ} → List A → Bool
is_many xs = ltb 1 (length xs)
