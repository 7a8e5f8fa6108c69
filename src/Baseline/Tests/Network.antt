-- ===== src/Baseline/Tests/Network.antt =====
-- `build_network_model` (jobs/lib/host_baseline.py) on a bridge over an LACP bond of two ports.
use nautobot_proxmox.Prelude.{
  ◌≡◌, refl, Bool, true, false, Option, none, some, List, [], ◌∷◌, is_empty,
}
use nautobot_proxmox.Prelude.Text.{Text, codes, text_eq}
use nautobot_proxmox.Prelude.Sort.{sort}
use nautobot_proxmox.Python.Value.{pos}
use nautobot_proxmox.Baseline.Nic.{
  lag, bridge, IfaceType, Iface, is_bridge, is_lag, by_id, physical,
}
use nautobot_proxmox.Baseline.Model.{NetCfg, by_name}
use nautobot_proxmox.Baseline.Model.Bonds.{add_bonds}
use nautobot_proxmox.Baseline.Model.Bridges.{add_bridges}
use nautobot_proxmox.Baseline.Model.Build.{
  carriers, mgmt_of, stray_problems, address_problems, build_network_model,
}
use nautobot_proxmox.Baseline.Model.Sound.{SoundModel, build_network_model-SoundModel}

abbrev iface : Text → IfaceType → Option Text → Option Text → Iface
iface id type group parent = record {
  id = id;
  name = id;
  type = type;
  lag = group;
  bridge = parent;
  mac = some id;
  mtu = some (pos 9000);
  mode = codes "tagged-all";
  tagged_vids = [];
  description = [];
  lag_mode = some (codes "802.3ad");
  lag_xmit_hash = some (codes "layer3+4");
  primary_member = false;
  ips = [];
}

abbrev net_ifaces : List Iface
net_ifaces =
    iface (codes "vmbr0") bridge none none
    ∷ iface (codes "bond0") lag none (some (codes "vmbr0"))
    ∷ iface (codes "p2") (physical (codes "10g")) (some (codes "bond0")) none
    ∷ iface (codes "p1") (physical (codes "10g")) (some (codes "bond0")) none
    ∷ []

abbrev net_cfg : NetCfg
net_cfg = record { bond_miimon = some 100; lacp_rate = some (codes "fast") }

abbrev every : Text → Bool
every s = true

abbrev every_pair : Text → Text → Bool
every_pair s t = true

no_net_problem :
    is_empty
      (build_network_model every every_pair net_ifaces
        (codes "10.0.0.2/24")
        (codes "vmbr0" ∷ [])
        (some (codes "10.0.0.1"))
        net_cfg).1
    ≡ true
unfolding build_network_model mgmt_of carriers by_id is_bridge is_lag by_name sort address_problems
    add_bonds add_bridges stray_problems text_eq
no_net_problem = refl

build_network_model-SoundModel_example :
    SoundModel every every_pair net_ifaces
      (codes "10.0.0.2/24")
      (codes "vmbr0" ∷ [])
      (some (codes "10.0.0.1"))
      net_cfg
      (build_network_model every every_pair net_ifaces
        (codes "10.0.0.2/24")
        (codes "vmbr0" ∷ [])
        (some (codes "10.0.0.1"))
        net_cfg).0
build_network_model-SoundModel_example =
    build_network_model-SoundModel every every_pair net_ifaces (codes "10.0.0.2/24")
      (codes "vmbr0" ∷ []) (some (codes "10.0.0.1")) net_cfg no_net_problem
