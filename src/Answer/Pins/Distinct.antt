-- ===== src/Answer/Pins/Distinct.antt =====
-- `build_pin_mapping` (bmc/answer_service/app.py): the pinned names are valid, distinct and of NICs
-- that the installer has seen.
use nautobot_proxmox.Python.Value.{str_or_empty}
use nautobot_proxmox.Prelude.{[], ◌∷◌}
use nautobot_proxmox.Prelude.Text.{codes, text_eq_iff, lower}
use nautobot_proxmox.Python.Value.{Value, Dict, get}
use nautobot_proxmox.Python.Unique.{IsInjective}
use nautobot_proxmox.Answer.Pins.{
  pin_name, seen_macs, is_no_port, pin_iface, pin_all, build_pin_mapping,
}
use mathlib.Core.Path.{subst}
use nautobot_proxmox.Prelude.{
  ◌≡◌, inl, inr, true, false, some, List, arith, Bool-cases, Option-cases,
}
use nautobot_proxmox.Prelude.Text.{Text, text_eq, mem_text}
use nautobot_proxmox.Python.Assoc.{lookup, lookup-put}
use nautobot_proxmox.Python.Unique.{IsKeptApart, put-IsKeptApart}
use nautobot_proxmox.Answer.Pins.{is_ifname, is_default_pin, Pins, pin}

-- What holds of a name that is given to a MAC.
abbrev pub IsPin : List Text → Text → Text → Type 0
IsPin seen mac linux =
    (is_ifname linux ≡ true) × (is_default_pin linux ≡ false) × (mem_text mac seen ≡ true)

abbrev IsSafe : List Text → Pins → Type 0
IsSafe seen p =
    ((mac linux : Text) → lookup mac p.mapping ≡ some linux → IsPin seen mac linux)
    × IsKeptApart p.mapping p.used

pin-IsSafe :
    (seen : List Text) (p : Pins) (mac linux : Text)
    → mem_text mac seen ≡ true
    → IsSafe seen p
    → IsSafe seen (pin p mac linux)
unfolding pin
pin-IsSafe seen p mac linux m h = elim (Bool-cases (is_ifname linux)) [
  | inr e ↦ rw e h
  | inl e ↦ elim (Bool-cases (is_default_pin linux)) [
    | inl f ↦ rw (e, f) h
    | inr f ↦ elim (Option-cases (lookup linux p.used)) [
      | inr (other_mac, g) ↦ rw (e, f, g) h
      | inl g ↦
          rw (e, f, g)
            (
              λ i n k. elim (Bool-cases (text_eq mac i)) [
                | inl q ↦
                    let same : linux ≡ n = ground (arith, lookup-put mac i linux p.mapping) in
                    subst (λ x. IsPin seen i x) same
                      (subst (λ x. IsPin seen x linux) ((text_eq_iff mac i).0 q) (e, f, m))
                | inr q ↦ h.0 i n (ground (arith, lookup-put mac i linux p.mapping))
              ],
              put-IsKeptApart mac linux mac p.mapping p.used g h.1,
            )
    ]
  ]
]

module _ (repr : Value → Text) where
  pin_iface-IsSafe :
      (seen : List Text) (p : Pins) (iface : Dict)
      → IsSafe seen p
      → IsSafe seen (pin_iface repr seen p iface)
  unfolding pin_iface
  pin_iface-IsSafe seen p iface h =
      let mac = lower (str_or_empty repr (get (codes "mac_address") iface)) in
      let name = str_or_empty repr (get (codes "name") iface) in
      elim (Bool-cases (is_no_port repr mac name iface)) [
        | inl e ↦ rw e h
        | inr e ↦ elim (Bool-cases (mem_text mac seen)) [
          | inl f ↦ rw (e, f) (pin-IsSafe seen p mac (pin_name name) f h)
          | inr f ↦ rw (e, f) h
        ]
      ]

  pin_all-IsSafe :
      (seen : List Text) (p : Pins) (ifaces : List Dict)
      → IsSafe seen p
      → IsSafe seen (pin_all repr seen p ifaces)
  unfolding pin_all
  pin_all-IsSafe seen p [] h = h
  pin_all-IsSafe seen p (i ∷ ifaces) h =
      pin_all-IsSafe seen (pin_iface repr seen p i) ifaces (pin_iface-IsSafe seen p i h)

  -- Every MAC of the mapping is one that the installer reported, its name passes the name pattern and
  -- is none of the installer's default names, and no two MACs have the same name.
  pub build_pin_mapping-IsPin :
      (ifaces nics : List Dict)
      → ((mac linux : Text)
          → lookup mac (build_pin_mapping repr ifaces nics) ≡ some linux
          → IsPin (seen_macs repr nics) mac linux)
        × IsInjective (build_pin_mapping repr ifaces nics)
  unfolding build_pin_mapping
  build_pin_mapping-IsPin ifaces nics =
      let safe =
        pin_all-IsSafe (seen_macs repr nics) (record { mapping = []; used = [] }) ifaces
          (
            λ m l h. absurd (ground arith),
            (λ i v h. absurd (ground arith), λ i j v h k. absurd (ground arith)),
          ) in
      (safe.0, safe.1.1)
