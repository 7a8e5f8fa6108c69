-- ===== src/Baseline/Model/Sound.antt =====
-- `build_network_model` (jobs/lib/host_baseline.py): a model without a problem is sound.
use nautobot_proxmox.Prelude.{◌⊎◌, inl, inr, Bool-cases, is_some, All}
use nautobot_proxmox.Prelude.Text.{codes, text_eq, text_eq_iff}
use nautobot_proxmox.Python.Assoc.{lookup}
use nautobot_proxmox.Baseline.Model.{stray_addresses}
use mathlib.Core.Path.{subst, ap}
use nautobot_proxmox.Prelude.{
  is_empty, Pointwise, ◌≡◌, refl, Bool, true, not, Option, none, some, List, [], ◌∷◌, ◌++◌, arith,
  not-false, filter,
}
use nautobot_proxmox.Prelude.Text.{Text}
use nautobot_proxmox.Baseline.Nic.{Iface, is_bridge, is_lag}
use nautobot_proxmox.Baseline.Model.{Net, NetCfg, when, by_name, bad_address, no_gateway}
use nautobot_proxmox.Baseline.Model.Bonds.{add_bonds}
use nautobot_proxmox.Baseline.Model.Bridges.{add_bridges}
use nautobot_proxmox.Baseline.Model.Grows.{is_empty-append, is_empty-when, Grows-refl}
use nautobot_proxmox.Baseline.Model.Build.{
  Model, carriers, mgmt_of, ports_by_name, stray_problems, address_problems, build_network_model,
}
use nautobot_proxmox.Baseline.Model.Bonds.Checked.{SoundBond, add_bonds-Grows, add_bonds-SoundBond}
use nautobot_proxmox.Baseline.Model.Bridges.Checked.{
  SoundBridge, add_bridges-Grows, add_bridges-SoundBridge,
}

module _ (has_prefix : Text → Bool) (inside : Text → Text → Bool) (ifaces : List Iface)
    (primary : Text) (ids : List Text) (gateway : Option Text) (cfg : NetCfg) where
  abbrev bonds_of : List Iface
  bonds_of = by_name (filter (λ i. is_lag i.type) ifaces)

  abbrev bridges_of : List Iface
  bridges_of = by_name (filter (λ i. is_bridge i.type) ifaces)

  -- The interface has a place in the topology, as a bridge, a LAG or an entered port, or is the BMC's.
  abbrev pub IsPlace : Net → Iface → Type 0
  IsPlace entered i =
      (is_bridge i.type ≡ true)
      ⊎ (is_lag i.type ≡ true)
      ⊎ (is_some (lookup i.id entered.ports) ≡ true)
      ⊎ (i.name ≡ codes "xcc")

  -- A sound model: primary_ip4 is read as an address and is on the management bridge only, the gateway
  -- is in its network, each LAG interface has a sound bond and each bridge interface a sound bridge, and
  -- no interface without a place carries an address.
  pub record SoundModel (m : Model) : Type 0 where
    pub mgmt : Iface
    pub carried : carriers ifaces ids ≡ mgmt ∷ []
    pub mgmt_is_bridge : is_bridge mgmt.type ≡ true
    pub mgmt_named : m.mgmt_bridge ≡ some mgmt.name
    pub prefixed : has_prefix primary ≡ true
    pub gateway_inside : (g : Text) × (gateway ≡ some g) × (inside g primary ≡ true)
    pub entered : Net
    pub ports : m.ports ≡ ports_by_name entered.ports
    pub bonds : Pointwise (SoundBond cfg ifaces entered) bonds_of m.bonds
    pub bridges :
        Pointwise
          (SoundBridge m.bonds primary gateway (some mgmt) ifaces entered)
          bridges_of
          m.bridges
    pub strays : All (λ i. IsPlace entered i ⊎ (i.ips ≡ [])) ifaces

  abbrev named : Option Iface → Option Text
  named o = elim o [ none ↦ none | some m ↦ some m.name ]

  ips-nil : (ips : List Text) → is_empty ips ≡ true → ips ≡ []
  ips-nil [] h = refl
  ips-nil (x ∷ ips) h = absurd (ground arith)

  stray_problems-All :
      (entered : Net) (is : List Iface)
      → is_empty (stray_problems entered.ports is) ≡ true
      → All (λ i. IsPlace entered i ⊎ (i.ips ≡ [])) is
  unfolding stray_problems
  stray_problems-All entered [] h = tt
  stray_problems-All entered (i ∷ is) h =
      let (first, rest) = is_empty-append (when _ (stray_addresses i.name i.ips)) _ h in
      let quiet = is_empty-when _ _ first in
      (
        elim (Bool-cases (is_bridge i.type)) [
          | inl b ↦ inl (inl b)
          | inr nb ↦ elim (Bool-cases (is_lag i.type)) [
            | inl l ↦ inl (inr (inl l))
            | inr nl ↦ elim (Bool-cases (is_some (lookup i.id entered.ports))) [
              | inl p ↦ inl (inr (inr (inl p)))
              | inr np ↦ elim (Bool-cases (text_eq i.name (codes "xcc"))) [
                | inl x ↦ inl (inr (inr (inr ((text_eq_iff i.name (codes "xcc")).0 x))))
                | inr nx ↦ inr (ips-nil i.ips (ground arith))
              ]
            ]
          ]
        ],
        stray_problems-All entered is rest,
      )

  mgmt_lem :
      (mine : List Iface)
      → is_empty (mgmt_of mine).1 ≡ true
      → (i : Iface) × (mine ≡ i ∷ []) × (is_bridge i.type ≡ true) × ((mgmt_of mine).0 ≡ some i)
  unfolding mgmt_of
  mgmt_lem [] h = absurd (ground arith)
  mgmt_lem (i ∷ j ∷ rest) h = absurd (ground arith)
  mgmt_lem (i ∷ []) h = (i, refl, ground arith, ground arith)

  address_lem :
      (g : Option Text)
      → is_empty (address_problems has_prefix inside primary g) ≡ true
      → (has_prefix primary ≡ true) × ((x : Text) × (g ≡ some x) × (inside x primary ≡ true))
  unfolding address_problems
  address_lem none h = absurd (
      ground (
        arith,
        (is_empty-append (when (not (has_prefix primary)) bad_address) (no_gateway ∷ []) h).1,
      ))
  address_lem (some x) h =
      let (p, q) = is_empty-append (when (not (has_prefix primary)) bad_address) _ h in
      let prefixed = not-false _ (is_empty-when _ _ p) in
      (prefixed, (x, refl, ground (arith, is_empty-when _ _ q)))

  -- Where no problem is reported, the model is sound: primary_ip4 is read as an address and is on one
  -- interface only, a bridge, the gateway is in its network, each LAG interface has a bond with members,
  -- a valid mode, the settings that the mode needs and only entered physical members, each bridge
  -- interface a bridge whose ports are LAGs or entered physical ports, and no interface carries an
  -- address but bridges, LAGs, entered ports and the BMC's own, xcc.
  pub build_network_model-SoundModel :
      is_empty (build_network_model has_prefix inside ifaces primary ids gateway cfg).1 ≡ true
      → SoundModel (build_network_model has_prefix inside ifaces primary ids gateway cfg).0
  unfolding build_network_model
  build_network_model-SoundModel h =
      let mgmt = mgmt_of (carriers ifaces ids) in
      let start : Net = record {
        ports = [];
        problems = mgmt.1 ++ address_problems has_prefix inside primary gateway;
      } in
      let bonded = add_bonds cfg ifaces start bonds_of in
      let bridged = add_bridges primary gateway mgmt.0 bonded.0 ifaces bonded.1 bridges_of in
      let (clean, strays) = is_empty-append bridged.1.problems _ h in
      let over = add_bridges-Grows bonded.0 primary gateway mgmt.0 ifaces bonded.1 bridges_of in
      let under = add_bonds-Grows cfg ifaces start bonds_of in
      let (m, a) = is_empty-append mgmt.1 _ (under.clean (over.clean clean)) in
      let (i, only, bridge_type, found) = mgmt_lem (carriers ifaces ids) m in
      let (prefixed, inside_net) = address_lem gateway a in
      record {
        mgmt = i;
        carried = only;
        mgmt_is_bridge = bridge_type;
        mgmt_named = ap named found;
        prefixed = prefixed;
        gateway_inside = inside_net;
        entered = bridged.1;
        ports = refl;
        bonds = add_bonds-SoundBond cfg ifaces start bridged.1 bonds_of over clean;
        bridges =
            subst
              (λ o.
                Pointwise (SoundBridge bonded.0 primary gateway o ifaces bridged.1) bridges_of
                  bridged.0)
              found
              (add_bridges-SoundBridge bonded.0 primary gateway mgmt.0 ifaces bonded.1 bridged.1
                bridges_of (Grows-refl bridged.1) clean);
        strays = stray_problems-All bridged.1 ifaces strays;
      }
