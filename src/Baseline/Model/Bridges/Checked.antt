-- ===== src/Baseline/Model/Bridges/Checked.antt =====
-- The loop over the bridges (jobs/lib/host_baseline.py, `build_network_model`): what a bridge is like
-- when no problem has been reported.
use nautobot_proxmox.Prelude.{
  refl, not, ◌&&◌, Option, some, [], ◌∷◌, map, arith, not-false, is_empty, All, Pointwise,
}
use nautobot_proxmox.Prelude.Text.{Text, codes}
use nautobot_proxmox.Baseline.Model.{
  flagged, is_many, bad_bridge_name, several_primary_ports, nested_bridge, bridge_mtu_above_port,
  no_tagged_vlans, access_mode,
}
use nautobot_proxmox.Baseline.Model.Bridges.{
  mode_problems, if_mgmt, Bridge, bridge_name, above, port_mtu, add_bridge_port, add_bridge_ports,
  is_mode, is_mgmt, bridge_problems, extra_ips, ports_of, bridge_of, add_bridge, add_bridges,
}
use nautobot_proxmox.Baseline.Model.Grows.{is_empty-append, is_empty-when, report-IsClean}
use nautobot_proxmox.Prelude.{◌≡◌, ◌⊎◌, inl, inr, true, false, List, Bool-cases}
use nautobot_proxmox.Baseline.Nic.{Iface, is_bridge, is_lag}
use nautobot_proxmox.Baseline.Model.{
  Net, report, when, mtu_of, mtu_problems, is_port_type, of_bridge,
}
use nautobot_proxmox.Baseline.Model.Bonds.{Bond}
use nautobot_proxmox.Baseline.Model.Bridges.{enter_port}
use nautobot_proxmox.Baseline.Model.Grows.{
  IsClean, has_port, Grows, Grows-refl, Grows-trans, report-Grows, add_port-Entered,
}

module _ (bonds : List Bond) where
  -- A port of a bridge without a problem: a LAG, or a port that has entered.
  abbrev pub IsSoundPort : Net → Iface → Type 0
  IsSoundPort s p =
      (is_bridge p.type ≡ false)
      × ((is_lag p.type ≡ true) ⊎ ((is_port_type p.type ≡ true) × (has_port p.id s ≡ true)))

  IsSoundPort-kept : (s t : Net) (p : Iface) → Grows s t → IsSoundPort s p → IsSoundPort t p
  IsSoundPort-kept s t p g (e, inl l) = (e, inl l)
  IsSoundPort-kept s t p g (e, inr (q, k)) = (e, inr (q, g.kept p.id k))

  enter_port-Grows : (br : Iface) (s : Net) (p : Iface) → Grows s (enter_port br p s)
  unfolding enter_port
  enter_port-Grows br s p = elim (Bool-cases (is_lag p.type)) [
    | inl e ↦ rw e (Grows-refl s)
    | inr e ↦ rw e (
        Grows-trans s (report (mtu_problems p) s) _ (report-Grows (mtu_problems p) s)
          (add_port-Entered p (of_bridge br.name) (mtu_of p) (report (mtu_problems p) s)).grows)
  ]

  enter_port-IsSoundPort :
      (br : Iface) (s : Net) (p : Iface)
      → is_bridge p.type ≡ false
      → IsClean (enter_port br p s)
      → IsSoundPort (enter_port br p s) p
  unfolding enter_port
  enter_port-IsSoundPort br s p n = elim (Bool-cases (is_lag p.type)) [
    | inl e ↦ λ c. (n, inl e)
    | inr e ↦
        let entered =
          add_port-Entered p (of_bridge br.name) (mtu_of p) (report (mtu_problems p) s) in
        rw e (λ c. (n, inr (entered.physical c, entered.there c)))
  ]

  abbrev Taken : Iface → Net → List Text × Net → Type 0
  Taken p s (ids, t) = Grows s t × (IsClean t → IsSoundPort t p × (ids ≡ p.id ∷ []))

  add_bridge_port-Taken :
      (br : Iface) (s : Net) (p : Iface) → Taken p s (add_bridge_port bonds br s p)
  unfolding add_bridge_port
  add_bridge_port-Taken br s p =
      let above_port =
        when (above (mtu_of br) (port_mtu bonds p)) (bridge_mtu_above_port br.name p.name) in
      let entered = enter_port br p s in
      let g = report-Grows above_port entered in
      elim (Bool-cases (is_bridge p.type)) [
        | inl e ↦ rw e (
          report-Grows (nested_bridge br.name ∷ []) s,
          λ c. absurd (ground (arith, report-IsClean (nested_bridge br.name ∷ []) s c)),
        )
        | inr e ↦ rw e (
          Grows-trans s entered (report above_port entered) (enter_port-Grows br s p) g,
          λ c.
              let (_, kept) =
                IsSoundPort-kept entered (report above_port entered) p g
                  (enter_port-IsSoundPort br s p e (g.clean c)) in
              ((refl, kept), refl),
        )
      ]

  add_bridge_ports-Grows :
      (br : Iface) (s : Net) (ps : List Iface) → Grows s (add_bridge_ports bonds br s ps).1
  unfolding add_bridge_ports
  add_bridge_ports-Grows br s [] = Grows-refl s
  add_bridge_ports-Grows br s (p ∷ ps) =
      let next = (add_bridge_port bonds br s p).1 in
      Grows-trans s next (add_bridge_ports bonds br next ps).1 (add_bridge_port-Taken br s p).0
        (add_bridge_ports-Grows br next ps)

  add_bridge_ports-All :
      (br : Iface) (s t : Net) (ps : List Iface)
      → Grows (add_bridge_ports bonds br s ps).1 t
      → IsClean t
      → All (IsSoundPort t) ps × ((add_bridge_ports bonds br s ps).0 ≡ map (λ p. p.id) ps)
  unfolding add_bridge_ports
  add_bridge_ports-All br s t [] g c = (tt, refl)
  add_bridge_ports-All br s t (p ∷ ps) g c =
      let next = (add_bridge_port bonds br s p).1 in
      let on =
        Grows-trans next (add_bridge_ports bonds br next ps).1 t (add_bridge_ports-Grows br next ps)
          g in
      let (sound, id) = (add_bridge_port-Taken br s p).1 (on.clean c) in
      let (rest, ids) = add_bridge_ports-All br next t ps g c in
      ((IsSoundPort-kept next t p on sound, rest), rw (id, ids) refl)

  module _ (primary : Text) (gateway : Option Text) (mgmt : Option Iface)
      (ifaces : List Iface) where
    -- A bridge of the model without a problem, for the interface `b`, when the ports of `s` have
    -- entered.
    pub record SoundBridge (s : Net) (b : Iface) (r : Bridge) : Type 0 where
      pub named : bridge_name b.name ≡ true
      pub listed : r.ports ≡ map (λ p. p.id) (ports_of ifaces b)
      pub ports : All (IsSoundPort s) (ports_of ifaces b)
      pub one_flagged : is_many (flagged (ports_of ifaces b)) ≡ false
      pub tagged : (is_mode (codes "tagged") b && is_empty b.tagged_vids) ≡ false
      pub not_access : is_mode (codes "access") b ≡ false
      pub only_primary : extra_ips primary (is_mgmt mgmt b) b ≡ []
      pub address : r.address ≡ if_mgmt (is_mgmt mgmt b) (some primary)

    is_empty-nil : {A : Type 0} (xs : List A) → not (is_empty xs) ≡ false → xs ≡ []
    is_empty-nil [] h = refl
    is_empty-nil (x ∷ xs) h = absurd (ground arith)

    add_bridge-Grows :
        (s : Net) (b : Iface) → Grows s (add_bridge primary gateway mgmt bonds ifaces s b).1
    unfolding add_bridge
    add_bridge-Grows s b =
        let ps = ports_of ifaces b in
        let checked = report (bridge_problems b ps) s in
        let after = (add_bridge_ports bonds b checked ps).1 in
        Grows-trans s checked _ (report-Grows (bridge_problems b ps) s) (
          Grows-trans checked after _ (add_bridge_ports-Grows b checked ps)
            (report-Grows (mode_problems primary mgmt b) after))

    add_bridge-SoundBridge :
        (s t : Net) (b : Iface)
        → Grows (add_bridge primary gateway mgmt bonds ifaces s b).1 t
        → IsClean t
        → SoundBridge t b (add_bridge primary gateway mgmt bonds ifaces s b).0
    unfolding add_bridge bridge_problems mode_problems bridge_of
    add_bridge-SoundBridge s t b g c =
        let ps = ports_of ifaces b in
        let checked = report (bridge_problems b ps) s in
        let after = (add_bridge_ports bonds b checked ps).1 in
        let last = report-Grows (mode_problems primary mgmt b) after in
        let extra = extra_ips primary (is_mgmt mgmt b) b in
        let on = Grows-trans after (report (mode_problems primary mgmt b) after) t last g in
        let start = Grows-trans checked after t (add_bridge_ports-Grows b checked ps) on in
        let (p₁, t₁) =
          is_empty-append (when (not (bridge_name b.name)) (bad_bridge_name b.name)) _
            (report-IsClean (bridge_problems b ps) s (start.clean c)) in
        let (p₂, _) =
          is_empty-append (when (is_many (flagged ps)) (several_primary_ports b.name)) _ t₁ in
        let (p₃, t₃) =
          is_empty-append
            (when (is_mode (codes "tagged") b && is_empty b.tagged_vids) (no_tagged_vlans b.name)) _
            (report-IsClean (mode_problems primary mgmt b) after (g.clean c)) in
        let (p₄, p₅) =
          is_empty-append (when (is_mode (codes "access") b) (access_mode b.name)) _ t₃ in
        let (sound, ids) = add_bridge_ports-All b checked t ps on c in
        record {
          named = not-false _ (is_empty-when _ _ p₁);
          listed = ids;
          ports = sound;
          one_flagged = is_empty-when _ _ p₂;
          tagged = is_empty-when _ _ p₃;
          not_access = is_empty-when _ _ p₄;
          only_primary = is_empty-nil extra (is_empty-when _ _ p₅);
          address = refl;
        }

    pub add_bridges-Grows :
        (s : Net) (bs : List Iface) → Grows s (add_bridges primary gateway mgmt bonds ifaces s bs).1
    unfolding add_bridges
    add_bridges-Grows s [] = Grows-refl s
    add_bridges-Grows s (b ∷ bs) =
        let next = (add_bridge primary gateway mgmt bonds ifaces s b).1 in
        Grows-trans s next (add_bridges primary gateway mgmt bonds ifaces next bs).1
          (add_bridge-Grows s b) (add_bridges-Grows next bs)

    pub add_bridges-SoundBridge :
        (s t : Net) (bs : List Iface)
        → Grows (add_bridges primary gateway mgmt bonds ifaces s bs).1 t
        → IsClean t
        → Pointwise (SoundBridge t) bs (add_bridges primary gateway mgmt bonds ifaces s bs).0
    unfolding add_bridges
    add_bridges-SoundBridge s t [] g c = tt
    add_bridges-SoundBridge s t (b ∷ bs) g c =
        let next = (add_bridge primary gateway mgmt bonds ifaces s b).1 in
        let on =
          Grows-trans next (add_bridges primary gateway mgmt bonds ifaces next bs).1 t
            (add_bridges-Grows next bs) g in
        (add_bridge-SoundBridge s t b on c, add_bridges-SoundBridge next t bs g c)
