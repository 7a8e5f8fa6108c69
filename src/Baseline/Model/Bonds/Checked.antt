-- ===== src/Baseline/Model/Bonds/Checked.antt =====
-- The loop over the LAGs (jobs/lib/host_baseline.py, `build_network_model`): what a bond is like when
-- no problem has been reported.
use nautobot_proxmox.Prelude.{not-false}
use nautobot_proxmox.Prelude.{All-map, refl, not, Pointwise}
use nautobot_proxmox.Baseline.Model.{
  xmit_hash_missing, bad_xmit_hash, bad_lag_mode, bond_without_members, bad_bond_name, flagged,
  xmit_hash_unused, miimon_missing, lacp_rate_missing, several_primaries, no_primary,
}
use nautobot_proxmox.Baseline.Model.Bonds.{
  xmit_hash_policies, wastes_hash, bond_problems, bond_of, add_bond, add_bonds,
}
use nautobot_proxmox.Baseline.Model.Grows.{is_empty-append, report-IsClean, is_empty-when}
use nautobot_proxmox.Prelude.{
  ◌≡◌, true, false, ◌&&◌, Option, none, some, List, [], ◌∷◌, ◌++◌, map, arith, if◌then◌else◌,
  is_some, is_empty, All,
}
use nautobot_proxmox.Prelude.Text.{Text, codes, mem_text}
use nautobot_proxmox.Baseline.Nic.{Iface}
use nautobot_proxmox.Baseline.Model.{
  Net, NetCfg, report, when, mtu_of, mtu_problems, is_port_type, is_set, is_many, of_lag,
  member_mtu_differs,
}
use nautobot_proxmox.Baseline.Model.Bonds.{
  mtus_differ, id_of, Bond, lag_modes, xmit_hash_modes, xmit_hash_required, primary_modes,
  bond_name, one_of, if_in, lacks_hash, lacks_rate, only_flagged, lacks_primary, members_of,
  or_else, add_member, add_members,
}
use nautobot_proxmox.Baseline.Model.Grows.{
  IsClean, has_port, Grows, Grows-refl, Grows-trans, report-Grows, Entered, add_port-Entered,
}

module _ (cfg : NetCfg) (ifaces : List Iface) where
  -- A bond of the model without a problem, for the interface `b`, when the ports of `s` have entered.
  pub record SoundBond (s : Net) (b : Iface) (r : Bond) : Type 0 where
    pub named : bond_name b.name ≡ true
    pub staffed : is_empty (members_of ifaces b) ≡ false
    pub mode : (m : Text) × (r.mode ≡ some m) × (mem_text m lag_modes ≡ true)
    pub hash : one_of r.mode xmit_hash_required ≡ true → is_some r.xmit_hash ≡ true
    pub monitored : is_some r.miimon ≡ true
    pub rate : one_of r.mode (codes "802.3ad" ∷ []) ≡ true → is_some r.lacp_rate ≡ true
    pub primary :
        one_of r.mode (codes "active-backup" ∷ []) ≡ true
        → is_many (members_of ifaces b) ≡ true
        → is_some r.primary ≡ true
    pub listed : r.members ≡ map (λ m. m.id) (members_of ifaces b)
    pub entered :
        All
          (λ m.
            (is_port_type m.type ≡ true)
            × ((is_set m.lag && is_set m.bridge) ≡ false)
            × (has_port m.id s ≡ true))
          (members_of ifaces b)

  add_member-Entered : (b : Iface) (s : Net) (m : Iface) → Entered m s (add_member b s m)
  unfolding add_member
  add_member-Entered b s m =
      let ps =
        mtu_problems m
        ++ when (mtus_differ (mtu_of b) (mtu_of m)) (member_mtu_differs m.name b.name) in
      let e = add_port-Entered m (of_lag b.name) (or_else (mtu_of m) (mtu_of b)) (report ps s) in
      record {
        grows = Grows-trans s (report ps s) _ (report-Grows ps s) e.grows;
        physical = e.physical;
        single = e.single;
        there = e.there;
      }

  abbrev IsEntered : Net → Iface → Type 0
  IsEntered s m =
      (is_port_type m.type ≡ true)
      × ((is_set m.lag && is_set m.bridge) ≡ false)
      × (has_port m.id s ≡ true)

  add_members-Grows : (b : Iface) (s : Net) (ms : List Iface) → Grows s (add_members b s ms)
  unfolding add_members
  add_members-Grows b s [] = Grows-refl s
  add_members-Grows b s (m ∷ ms) =
      Grows-trans s (add_member b s m) (add_members b (add_member b s m) ms)
        (add_member-Entered b s m).grows (add_members-Grows b (add_member b s m) ms)

  add_members-All :
      (b : Iface) (s : Net) (ms : List Iface)
      → IsClean (add_members b s ms)
      → All (IsEntered (add_members b s ms)) ms
  unfolding add_members
  add_members-All b s [] c = tt
  add_members-All b s (m ∷ ms) c =
      let next = add_member b s m in
      let e = add_member-Entered b s m in
      let g = add_members-Grows b next ms in
      (
        (e.physical (g.clean c), e.single (g.clean c), g.kept m.id (e.there (g.clean c))),
        add_members-All b next ms c,
      )

  hash_lem :
      (mode xmit : Option Text)
      → lacks_hash mode xmit ≡ false
      → one_of mode xmit_hash_required ≡ true
      → is_some (if one_of mode xmit_hash_modes then xmit else none) ≡ true
  unfolding mem_text
  hash_lem none xmit h k = absurd (ground arith)
  hash_lem (some m) xmit h k = ground arith

  rate_lem :
      (mode rate : Option Text)
      → lacks_rate mode rate ≡ false
      → one_of mode (codes "802.3ad" ∷ []) ≡ true
      → is_some (if one_of mode (codes "802.3ad" ∷ []) then rate else none) ≡ true
  rate_lem mode rate h k = ground arith

  is_some-id_of : (o : Option Iface) → is_some (id_of o) ≡ is_some o
  is_some-id_of none = refl
  is_some-id_of (some m) = refl

  primary_lem :
      (mode : Option Text) (ms : List Iface)
      → lacks_primary mode ms ≡ false
      → one_of mode (codes "active-backup" ∷ []) ≡ true
      → is_many ms ≡ true
      → is_some (if one_of mode primary_modes then id_of (only_flagged ms) else none) ≡ true
  unfolding mem_text
  primary_lem none ms h k n = absurd (ground arith)
  primary_lem (some m) ms h k n = ground (arith, is_some-id_of (only_flagged ms))

  mode_lem :
      (v : Option Text) (values : List Text)
      → is_some (if_in v values) ≡ true
      → (m : Text) × (if_in v values ≡ some m) × (mem_text m values ≡ true)
  mode_lem none values h = absurd (ground arith)
  mode_lem (some v) values h = (v, ground arith, ground arith)

  add_bond-Grows : (s : Net) (b : Iface) → Grows s (add_bond cfg ifaces s b).1
  unfolding add_bond
  add_bond-Grows s b =
      let ms = members_of ifaces b in
      Grows-trans s (report (bond_problems cfg b ms) s) _ (report-Grows (bond_problems cfg b ms) s)
        (add_members-Grows b (report (bond_problems cfg b ms) s) ms)

  add_bond-SoundBond :
      (s : Net) (b : Iface)
      → IsClean (add_bond cfg ifaces s b).1
      → SoundBond (add_bond cfg ifaces s b).1 b (add_bond cfg ifaces s b).0
  unfolding add_bond bond_problems bond_of
  add_bond-SoundBond s b c =
      let ms = members_of ifaces b in
      let mode = if_in b.lag_mode lag_modes in
      let xmit = if_in b.lag_xmit_hash xmit_hash_policies in
      let checked = report (bond_problems cfg b ms) s in
      let none_left =
        report-IsClean (bond_problems cfg b ms) s ((add_members-Grows b checked ms).clean c) in
      let (p₁, t₁) =
        is_empty-append (when (not (bond_name b.name)) (bad_bond_name b.name)) _ none_left in
      let (p₂, t₂) = is_empty-append (when (is_empty ms) (bond_without_members b.name)) _ t₁ in
      let (p₃, t₃) = is_empty-append (when (not (is_some mode)) (bad_lag_mode b.name)) _ t₂ in
      let (p₄, t₄) =
        is_empty-append
          (when (is_some b.lag_xmit_hash && not (is_some xmit)) (bad_xmit_hash b.name)) _ t₃ in
      let (p₅, t₅) =
        is_empty-append (when (lacks_hash mode xmit) (xmit_hash_missing b.name)) _ t₄ in
      let (p₆, t₆) =
        is_empty-append (when (wastes_hash mode xmit) (xmit_hash_unused b.name)) _ t₅ in
      let (p₇, t₇) =
        is_empty-append (when (not (is_some cfg.bond_miimon)) (miimon_missing b.name)) _ t₆ in
      let (p₈, t₈) =
        is_empty-append (when (lacks_rate mode cfg.lacp_rate) (lacp_rate_missing b.name)) _ t₇ in
      let (p₉, t₉) =
        is_empty-append (when (is_many (flagged ms)) (several_primaries b.name)) _ t₈ in
      let (q, _) = is_empty-append (when (lacks_primary mode ms) (no_primary b.name)) _ t₉ in
      record {
        named = not-false _ (is_empty-when _ _ p₁);
        staffed = is_empty-when _ _ p₂;
        mode = mode_lem b.lag_mode lag_modes (not-false _ (is_empty-when _ _ p₃));
        hash = λ h. hash_lem mode xmit (is_empty-when _ _ p₅) h;
        monitored = not-false _ (is_empty-when _ _ p₇);
        rate = λ h. rate_lem mode cfg.lacp_rate (is_empty-when _ _ p₈) h;
        primary = λ h many. primary_lem mode ms (is_empty-when _ _ q) h many;
        listed = refl;
        entered = add_members-All b checked ms c;
      }

  SoundBond-kept :
      (s t : Net) (b : Iface) (r : Bond) → Grows s t → SoundBond s b r → SoundBond t b r
  SoundBond-kept s t b r g h = record {
    named = h.named;
    staffed = h.staffed;
    mode = h.mode;
    hash = h.hash;
    monitored = h.monitored;
    rate = h.rate;
    primary = h.primary;
    listed = h.listed;
    entered = All-map (λ m (p, q, k). (p, q, g.kept m.id k)) (members_of ifaces b) h.entered;
  }

  pub add_bonds-Grows : (s : Net) (bs : List Iface) → Grows s (add_bonds cfg ifaces s bs).1
  unfolding add_bonds
  add_bonds-Grows s [] = Grows-refl s
  add_bonds-Grows s (b ∷ bs) =
      let next = (add_bond cfg ifaces s b).1 in
      Grows-trans s next (add_bonds cfg ifaces next bs).1 (add_bond-Grows s b)
        (add_bonds-Grows next bs)

  pub add_bonds-SoundBond :
      (s t : Net) (bs : List Iface)
      → Grows (add_bonds cfg ifaces s bs).1 t
      → IsClean t
      → Pointwise (SoundBond t) bs (add_bonds cfg ifaces s bs).0
  unfolding add_bonds
  add_bonds-SoundBond s t [] g c = tt
  add_bonds-SoundBond s t (b ∷ bs) g c =
      let next = (add_bond cfg ifaces s b).1 in
      let on = Grows-trans next (add_bonds cfg ifaces next bs).1 t (add_bonds-Grows next bs) g in
      (
        SoundBond-kept next t b (add_bond cfg ifaces s b).0 on
            (add_bond-SoundBond s b (on.clean c)),
        add_bonds-SoundBond next t bs g c,
      )
