-- ===== src/Baseline/Model/Grows.antt =====
-- `build_network_model` (jobs/lib/host_baseline.py): problems are only added, and a port that has
-- entered the model stays.
use nautobot_proxmox.Prelude.{
  ℕ, ◌≡◌, refl, inl, inr, Bool, true, false, ◌&&◌, Option, none, some, List, [], ◌∷◌, ◌++◌, arith,
  Bool-cases, is_some, is_empty,
}
use nautobot_proxmox.Prelude.Text.{Text, text_eq_refl}
use nautobot_proxmox.Python.Value.{non_empty}
use nautobot_proxmox.Python.Assoc.{lookup, lookup-put}
use nautobot_proxmox.Baseline.Nic.{Iface}
use nautobot_proxmox.Baseline.Ports.{Port}
use nautobot_proxmox.Baseline.Model.{
  Parent, NetProblem, Net, report, when, is_port_type, is_set, enter_mac, add_port, not_a_port,
  both_lag_and_bridge, no_mac,
}

pub is_empty-append :
    (xs ys : List NetProblem)
    → is_empty (xs ++ ys) ≡ true
    → (is_empty xs ≡ true) × (is_empty ys ≡ true)
is_empty-append [] ys h = (refl, h)
is_empty-append (x ∷ xs) ys h = absurd (ground arith)

pub is_empty-when : (b : Bool) (p : NetProblem) → is_empty (when b p) ≡ true → b ≡ false
is_empty-when true p h = absurd (ground arith)
is_empty-when false p h = refl

abbrev pub IsClean : Net → Type 0
IsClean s = is_empty s.problems ≡ true

abbrev pub has_port : Text → Net → Bool
has_port id s = is_some (lookup id s.ports)

pub record Grows (s t : Net) : Type 0 where
  pub clean : IsClean t → IsClean s
  pub kept : (id : Text) → has_port id s ≡ true → has_port id t ≡ true

pub Grows-refl : (s : Net) → Grows s s
Grows-refl s = record { clean = λ h. h; kept = λ id h. h }

pub Grows-trans : (s t u : Net) → Grows s t → Grows t u → Grows s u
Grows-trans s t u g h = record {
  clean = λ c. g.clean (h.clean c);
  kept = λ id k. h.kept id (g.kept id k);
}

pub report-Grows : (ps : List NetProblem) (s : Net) → Grows s (report ps s)
unfolding report
report-Grows ps s = record { clean = λ c. (is_empty-append s.problems ps c).0; kept = λ id h. h }

pub report-IsClean : (ps : List NetProblem) (s : Net) → IsClean (report ps s) → is_empty ps ≡ true
unfolding report
report-IsClean ps s c = (is_empty-append s.problems ps c).1

-- A port that is entered without a problem.
pub record Entered (i : Iface) (s t : Net) : Type 0 where
  pub grows : Grows s t
  pub physical : IsClean t → is_port_type i.type ≡ true
  pub single : IsClean t → (is_set i.lag && is_set i.bridge) ≡ false
  pub there : IsClean t → has_port i.id t ≡ true

refused-Entered : (i : Iface) (p : NetProblem) (s : Net) → Entered i s (report (p ∷ []) s)
refused-Entered i p s =
    let never : IsClean (report (p ∷ []) s) → ⊥ =
      λ c. absurd (ground (arith, report-IsClean (p ∷ []) s c)) in
    record {
      grows = report-Grows (p ∷ []) s;
      physical = λ c. absurd (never c);
      single = λ c. absurd (never c);
      there = λ c. absurd (never c);
    }

enter_mac-Entered :
    (i : Iface) (parent : Parent) (mtu : Option ℕ) (s : Net) (mac : Option Text)
    → is_port_type i.type ≡ true
    → (is_set i.lag && is_set i.bridge) ≡ false
    → Entered i s (enter_mac i parent mtu s mac)
unfolding enter_mac
enter_mac-Entered i parent mtu s none h k = refused-Entered i (no_mac i.name parent) s
enter_mac-Entered i parent mtu s (some mac) h k =
    let p : Port = record {
      id = i.id;
      name = i.name;
      mac = mac;
      mtu = mtu;
      description = i.description;
    } in
    record {
      grows = record {
        clean = λ c. c;
        kept = λ id g. ground (arith, lookup-put i.id id p s.ports);
      };
      physical = λ c. h;
      single = λ c. k;
      there = λ c. ground (arith, lookup-put i.id i.id p s.ports, text_eq_refl i.id);
    }

pub add_port-Entered :
    (i : Iface) (parent : Parent) (mtu : Option ℕ) (s : Net) → Entered i s (add_port i parent mtu s)
unfolding add_port
add_port-Entered i parent mtu s = elim (Bool-cases (is_port_type i.type)) [
  | inr e ↦ rw e (refused-Entered i (not_a_port i.name parent) s)
  | inl e ↦ elim (Bool-cases (is_set i.lag && is_set i.bridge)) [
    | inl f ↦ rw (e, f) (refused-Entered i (both_lag_and_bridge i.name parent) s)
    | inr f ↦ rw (e, f) (enter_mac-Entered i parent mtu s (non_empty i.mac) e f)
  ]
]
