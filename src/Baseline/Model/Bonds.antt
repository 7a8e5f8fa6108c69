-- ===== src/Baseline/Model/Bonds.antt =====
-- jobs/lib/host_baseline.py, `build_network_model`: the loop over the LAGs.
pub mod Checked
use Prim.Native.Nat.{max}
use nautobot_proxmox.Prelude.{
  ℕ, Bool, false, not, ◌&&◌, Option, none, some, List, [], ◌∷◌, ◌++◌, map, ◌==◌, if◌then◌else◌,
  is_some, length, drop, filter, is_empty,
}
use nautobot_proxmox.Prelude.Text.{Text, codes, mem_text, starts_with}
use nautobot_proxmox.Python.Pattern.{matches_dollar, repeated}
use nautobot_proxmox.Python.Value.{is_digit}
use nautobot_proxmox.Python.Assoc.{lookup}
use nautobot_proxmox.Baseline.Nic.{Iface, refers_to}
use nautobot_proxmox.Baseline.Ports.{Port}
use nautobot_proxmox.Baseline.Model.{
  xmit_hash_missing, bad_xmit_hash, bad_lag_mode, bond_without_members, bad_bond_name, when,
  NetProblem, Net, NetCfg, report, mtu_of, mtu_problems, add_port, by_name, flagged, is_many,
  of_lag, xmit_hash_unused, miimon_missing, lacp_rate_missing, several_primaries, no_primary,
  member_mtu_differs,
}

pub record Bond : Type 0 where
  pub name : Text
  pub id : Text
  pub members : List Text
  pub mode : Option Text
  pub xmit_hash : Option Text
  pub lacp_rate : Option Text
  pub miimon : Option ℕ
  pub primary : Option Text
  pub mtu : Option ℕ
  pub description : Text

-- `LAG_MODES`.
abbrev pub lag_modes : List Text
lag_modes =
    codes "balance-rr"
    ∷ codes "active-backup"
    ∷ codes "balance-xor"
    ∷ codes "broadcast"
    ∷ codes "802.3ad"
    ∷ codes "balance-tlb"
    ∷ codes "balance-alb"
    ∷ []

-- `XMIT_HASH_POLICIES`.
abbrev pub xmit_hash_policies : List Text
xmit_hash_policies =
    codes "layer2"
    ∷ codes "layer2+3"
    ∷ codes "layer3+4"
    ∷ codes "encap2+3"
    ∷ codes "encap3+4"
    ∷ codes "vlan+srcmac"
    ∷ []

-- `_XMIT_HASH_MODES`, `_XMIT_HASH_REQUIRED` and `_PRIMARY_MODES`.
abbrev pub xmit_hash_modes : List Text
xmit_hash_modes =
    codes "balance-xor" ∷ codes "802.3ad" ∷ codes "balance-tlb" ∷ codes "balance-alb" ∷ []

abbrev pub xmit_hash_required : List Text
xmit_hash_required = codes "balance-xor" ∷ codes "802.3ad" ∷ []

abbrev pub primary_modes : List Text
primary_modes = codes "active-backup" ∷ codes "balance-tlb" ∷ codes "balance-alb" ∷ []

-- The prefix, and then from one to `hi` digits.
unfoldable pub numbered : Text → ℕ → Text → Bool
unfolding starts_with repeated is_digit
numbered prefix hi s = starts_with prefix s && repeated is_digit 1 hi (drop (length prefix) s)

-- `_BOND_NAME_RE`.
unfoldable pub bond_name : Text → Bool
unfolding matches_dollar numbered
bond_name s = matches_dollar (numbered (codes "bond") 3) s

-- `value in values`; None is in no list of texts.
abbrev pub one_of : Option Text → List Text → Bool
one_of none values = false
one_of (some v) values = mem_text v values

abbrev pub if_in : Option Text → List Text → Option Text
if_in v values = if one_of v values then v else none

-- `mode in _XMIT_HASH_REQUIRED and not xmit`, `mode and mode not in _XMIT_HASH_MODES and xmit`, `mode ==
-- "802.3ad" and lacp_rate is None` and `mode == "active-backup" and len(members) > 1 and primary is None`.
abbrev pub lacks_hash : Option Text → Option Text → Bool
lacks_hash mode xmit = one_of mode xmit_hash_required && not (is_some xmit)

abbrev pub wastes_hash : Option Text → Option Text → Bool
wastes_hash mode xmit = is_some mode && (not (one_of mode xmit_hash_modes) && is_some xmit)

abbrev pub lacks_rate : Option Text → Option Text → Bool
lacks_rate mode rate = one_of mode (codes "802.3ad" ∷ []) && not (is_some rate)

abbrev pub first_of {ℓ} : {A : Type ℓ} → List A → Option A
first_of [] = none
first_of (x ∷ xs) = some x

-- `primary`: the flagged member, if it is the only one.
abbrev pub only_flagged : List Iface → Option Iface
only_flagged members = if is_many (flagged members) then none else first_of (flagged members)

abbrev id_of : Option Iface → Option Text
id_of none = none
id_of (some m) = some m.id

abbrev pub lacks_primary : Option Text → List Iface → Bool
lacks_primary mode members =
    one_of mode (codes "active-backup" ∷ [])
    && (is_many members && not (is_some (only_flagged members)))

-- `interfaces` that refer to the bond, by name.
unfoldable pub members_of : List Iface → Iface → List Iface
unfolding by_name refers_to
members_of ifaces bond = by_name (filter (λ i. refers_to i.lag bond.id) ifaces)

-- The problems that the loop reports before it comes to the members.
unfoldable pub bond_problems : NetCfg → Iface → List Iface → List NetProblem
unfolding bond_name mem_text
bond_problems cfg bond members =
    let name = bond.name in
    let mode = if_in bond.lag_mode lag_modes in
    let xmit = if_in bond.lag_xmit_hash xmit_hash_policies in
    when (not (bond_name name)) (bad_bond_name name)
    ++ (when (is_empty members) (bond_without_members name)
        ++ (when (not (is_some mode)) (bad_lag_mode name)
            ++ (when (is_some bond.lag_xmit_hash && not (is_some xmit)) (bad_xmit_hash name)
                ++ (when (lacks_hash mode xmit) (xmit_hash_missing name)
                    ++ (when (wastes_hash mode xmit) (xmit_hash_unused name)
                        ++ (when (not (is_some cfg.bond_miimon)) (miimon_missing name)
                            ++ (when (lacks_rate mode cfg.lacp_rate) (lacp_rate_missing name)
                                ++ (when (is_many (flagged members)) (several_primaries name)
                                    ++ (when (lacks_primary mode members) (no_primary name)
                                        ++ mtu_problems bond)))))))))

abbrev pub or_else {ℓ} : {A : Type ℓ} → Option A → Option A → Option A
or_else none o = o
or_else (some x) o = some x

-- `bond_mtu and member_mtu and bond_mtu != member_mtu`.
abbrev mtus_differ : Option ℕ → Option ℕ → Bool
mtus_differ (some m) (some n) = not (m == n)
mtus_differ _ _ = false

-- The body of the loop over the members.
unfoldable pub add_member : Iface → Net → Iface → Net
unfolding mtu_of mtu_problems report add_port
add_member bond s member =
    let bond_mtu = mtu_of bond in
    let mtu = mtu_of member in
    add_port member (of_lag bond.name) (or_else mtu bond_mtu) (
      report
        (mtu_problems member
          ++ when (mtus_differ bond_mtu mtu) (member_mtu_differs member.name bond.name))
        s)

unfoldable pub add_members : Iface → Net → List Iface → Net
unfolding add_member
add_members bond s [] = s
add_members bond s (m ∷ members) = add_members bond (add_member bond s m) members

-- `max([model_ports[...]["mtu"] or 0 ...] or [0])`.
unfoldable pub largest_mtu : List (Text × Port) → List Iface → ℕ
unfolding lookup
largest_mtu ports [] = 0
largest_mtu ports (m ∷ members) =
    max (elim (lookup m.id ports) [ none ↦ 0 | some p ↦ elim p.mtu [ none ↦ 0 | some n ↦ n ] ])
      (largest_mtu ports members)

abbrev non_zero : ℕ → Option ℕ
non_zero n = if n == 0 then none else some n

-- The bond as it goes into the model, when its members have been added.
unfoldable pub bond_of : NetCfg → Iface → List Iface → List (Text × Port) → Bond
unfolding mtu_of largest_mtu mem_text
bond_of cfg bond members ports =
    let mode = if_in bond.lag_mode lag_modes in
    let xmit = if_in bond.lag_xmit_hash xmit_hash_policies in
    record {
      name = bond.name;
      id = bond.id;
      members = map (λ m. m.id) members;
      mode = mode;
      xmit_hash = if one_of mode xmit_hash_modes then xmit else none;
      lacp_rate = if one_of mode (codes "802.3ad" ∷ []) then cfg.lacp_rate else none;
      miimon = cfg.bond_miimon;
      primary = if one_of mode primary_modes then id_of (only_flagged members) else none;
      mtu = or_else (mtu_of bond) (non_zero (largest_mtu ports members));
      description = bond.description;
    }

-- The body of the loop.
unfoldable pub add_bond : NetCfg → List Iface → Net → Iface → Bond × Net
unfolding members_of bond_problems report add_members bond_of
add_bond cfg ifaces s bond =
    let members = members_of ifaces bond in
    let after = add_members bond (report (bond_problems cfg bond members) s) members in
    (bond_of cfg bond members after.ports, after)

unfoldable pub add_bonds : NetCfg → List Iface → Net → List Iface → List Bond × Net
unfolding add_bond
add_bonds cfg ifaces s [] = ([], s)
add_bonds cfg ifaces s (b ∷ bonds) =
    let (bond, after) = add_bond cfg ifaces s b in
    let (rest, end) = add_bonds cfg ifaces after bonds in (bond ∷ rest, end)
