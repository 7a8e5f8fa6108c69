-- ===== src/Proxmox/Contract/Read/Promoted.antt =====
-- jobs/proxmox/deploy_device.py: what holds of the records when the contract of a device is read.
use nautobot_proxmox.Prelude.{ℕ, ◌+◌, not, ◌++◌, map}
use nautobot_proxmox.Proxmox.Contract.{
  String, nic_at, render_from, in_order, order_or, mgmt_address, ipconfig, render_nics,
}
use nautobot_proxmox.Proxmox.Contract.Read.{first_image, image_of, verified_by, promoted}
use nautobot_proxmox.Proxmox.Client.{with_checksum}
use mathlib.Core.Path.{subst}
use nautobot_proxmox.Prelude.Text.{codes, text_eq, text_eq_iff}
use nautobot_proxmox.Python.Value.{Value, Dict, print_nat, non_empty}
use nautobot_proxmox.Python.Result.{bind-eq-ok, unless-eq-ok}
use nautobot_proxmox.Proxmox.Platform.{Facts, NicRefusal, resolve_nic_order}
use nautobot_proxmox.Proxmox.Contract.{
  net_text, bridge_at, is_patterned, IpAddress, VmNic, Software, Network, render_nics, no_interface,
}
use nautobot_proxmox.Prelude.{sym, ap, ◌∙◌, inl, inr, Bool-cases, some_inj, find, In}
use nautobot_proxmox.Prelude.Text.{Text}
use nautobot_proxmox.Python.Result.{Result, ok_inj, err, ok}
use nautobot_proxmox.Proxmox.Server.{Failure}
use nautobot_proxmox.Proxmox.Client.{require_image_checksum}
use nautobot_proxmox.Proxmox.Contract.{Image, need}
use nautobot_proxmox.Prelude.{◌≡◌, refl, false, true, List, [], ◌∷◌, Option, some, none, Bool}

pub equal_text : (s t : Text) → not (text_eq s t) ≡ false → s ≡ t
equal_text s t h = elim (Bool-cases (text_eq s t)) [
  | inl y ↦ (text_eq_iff s t).0 y
  | inr n ↦ (let k : true ≡ false = rw n at h in cc)
]

module _ {A : Type 0} (p : A → Bool) where
  find-In : (xs : List A) (x : A) → find p xs ≡ some x → In x xs
  find-In [] x h = cc
  find-In (y ∷ ys) x h = elim (Bool-cases (p y)) [
    | inl t ↦ inl (some_inj x y (sym h ∙ rw t refl))
    | inr f ↦ inr (find-In ys x (rw f at h))
  ]

  find-holds : (xs : List A) (x : A) → find p xs ≡ some x → p x ≡ true
  find-holds [] x h = cc
  find-holds (y ∷ ys) x h = elim (Bool-cases (p y)) [
    | inl t ↦ subst (λ z. p z ≡ true) (some_inj y x (sym (rw t refl) ∙ h)) t
    | inr f ↦ find-holds ys x (rw f at h)
  ]

first_image-In : (is : List Image) (i : Image) → first_image is ≡ some i → In i is
unfolding first_image
first_image-In [] i h = cc
first_image-In (j ∷ is) i h = inl (some_inj i j (sym h))

or_first-In :
    (is : List Image) (found : Option Image) (i : Image)
    → find (λ i. i.is_default) is ≡ found
    → elim found [ some j ↦ some j | none ↦ first_image is ] ≡ some i
    → In i is
or_first-In is none i e h = first_image-In is i h
or_first-In is (some j) i e h = find-In (λ i. i.is_default) is i (e ∙ h)

image_of-In : (is : List Image) (i : Image) → image_of is ≡ some i → In i is
unfolding image_of
image_of-In is i h = or_first-In is (find (λ i. i.is_default) is) i refl h

pub need-eq-ok :
    {A : Type 0} (what : String) (v : Option A) (a : A) → need what v ≡ ok a → v ≡ some a
unfolding need
need-eq-ok what none a h = cc
need-eq-ok what (some b) a h = ap some (ok_inj b a h)

-- The image is of the software version, and the contract names it with its checksum.
abbrev pub HasImage : List Image → Image × (Text × Text) → Type 0
HasImage is image =
    In image.0 is × (require_image_checksum image.0.checksum image.0.algorithm ≡ ok image.1)

verified_by-eq-ok :
    (r : Result Failure (Text × Text)) (sum : Text × Text) → verified_by r ≡ ok sum → r ≡ ok sum
unfolding verified_by
verified_by-eq-ok (err why) sum h = cc
verified_by-eq-ok (ok s) sum h = ap ok (ok_inj s sum h)

checked-eq :
    (t : Text) (algorithm : Option Text) (sum : Text × Text)
    → with_checksum (non_empty (some t)) algorithm ≡ ok sum
    → (c : ℕ) × (rest : Text) × (sum.0 ≡ c ∷ rest)
unfolding with_checksum
checked-eq [] algorithm sum h = cc
checked-eq (c ∷ t) algorithm sum h = (c, t, sym (ap (λ p. p.0) (ok_inj _ sum h)))

-- A checksum that passes is not empty.
pub require_image_checksum-nonempty :
    (v algorithm : Option Text) (sum : Text × Text)
    → require_image_checksum v algorithm ≡ ok sum
    → (c : ℕ) × (rest : Text) × (sum.0 ≡ c ∷ rest)
unfolding require_image_checksum
require_image_checksum-nonempty v algorithm sum h = checked-eq _ algorithm sum h

pub promoted-Active :
    (sv : Software) (image : Image × (Text × Text))
    → promoted sv ≡ ok image
    → (sv.status ≡ codes "Active") × HasImage sv.images image
unfolding promoted
promoted-Active sv image h =
    let (active, h₁) = unless-eq-ok (not (text_eq sv.status (codes "Active"))) _ _ h in
    let (i, found, h₂) = bind-eq-ok (need "SoftwareImageFile" (image_of sv.images)) _ h₁ in
    let (sum, same, h₃) =
      bind-eq-ok (verified_by (require_image_checksum i.checksum i.algorithm)) _ h₂ in
    let whole : (i, sum) ≡ image = ok_inj (i, sum) image h₃ in
    (
      equal_text sv.status (codes "Active") active,
      subst (HasImage sv.images) whole (
        image_of-In sv.images i (need-eq-ok "SoftwareImageFile" (image_of sv.images) i found),
        verified_by-eq-ok (require_image_checksum i.checksum i.algorithm) sum same,
      ),
    )

found_nic-eq-ok :
    (name : Text) (o : Option VmNic) (nic : VmNic)
    → elim o [ none ↦ err (no_interface name) | some n ↦ ok n ] ≡ ok nic
    → o ≡ some nic
found_nic-eq-ok name none nic h = cc
found_nic-eq-ok name (some n) nic h = ap some (ok_inj n nic h)

-- The entry of the NIC at a position: its key counts the position, and it is rendered with the MAC
-- address and the VLANs of the interface of that name, on the bridge for the position.
abbrev pub IsEntry : Facts → Text → Option Text → List VmNic → ℕ → Text → Text × Value → Type 0
IsEntry facts bridge mgmt nics index name entry =
    (nic : VmNic) × In nic nics
    × (nic.name ≡ name)
    × (mac : Text) × (non_empty nic.mac_address ≡ some mac)
    × (entry ≡ (
      codes "net" ++ print_nat index,
      Value.str (
          net_text facts.nic_model mac (bridge_at index (is_patterned facts.naming) bridge mgmt)
            nic),
    ))

-- One entry for each name, in order, from a position on; only the first may be on the management
-- bridge.
abbrev pub AreEntries : Facts → Text → Option Text → List VmNic → ℕ → List Text → Dict → Type 0
AreEntries facts bridge mgmt nics index [] [] = Unit
AreEntries facts bridge mgmt nics index (name ∷ names) (entry ∷ d) =
    IsEntry facts bridge mgmt nics index name entry
    × AreEntries facts bridge none nics (index + 1) names d
AreEntries facts bridge mgmt nics index _ _ = ⊥

nic_at-IsEntry :
    (facts : Facts) (bridge : Text) (mgmt : Option Text) (nics : List VmNic) (index : ℕ)
    (name : Text) (r : (Text × Value) × VmNic)
    → nic_at facts bridge mgmt nics index name ≡ ok r
    → IsEntry facts bridge mgmt nics index name r.0
unfolding nic_at
nic_at-IsEntry facts bridge mgmt nics index name r h =
    let found = find (λ n. text_eq n.name name) nics in
    let (nic, is_found, h₁) =
      bind-eq-ok (elim found [ none ↦ err (no_interface name) | some n ↦ ok n ]) _ h in
    let (mac, set, h₂) = bind-eq-ok (need "MAC address" (non_empty nic.mac_address)) _ h₁ in
    let there = found_nic-eq-ok name found nic is_found in
    (
      nic,
      find-In (λ n. text_eq n.name name) nics nic there,
      (text_eq_iff nic.name name).0 (find-holds (λ n. text_eq n.name name) nics nic there),
      mac,
      need-eq-ok "MAC address" (non_empty nic.mac_address) mac set,
      sym (ap (λ p. p.0) (ok_inj _ r h₂)),
    )

render_from-AreEntries :
    (facts : Facts) (bridge : Text) (nics : List VmNic) (index : ℕ) (names : List Text) (d : Dict)
    → render_from facts bridge nics index names ≡ ok d
    → AreEntries facts bridge none nics index names d
unfolding render_from
render_from-AreEntries facts bridge nics index [] d h =
    subst (AreEntries facts bridge none nics index []) (ok_inj [] d h) tt
render_from-AreEntries facts bridge nics index (name ∷ names) d h =
    let (first, h₁, h₂) = bind-eq-ok (nic_at facts bridge none nics index name) _ h in
    let (rest, h₃, h₄) = bind-eq-ok (render_from facts bridge nics (index + 1) names) _ h₂ in
    subst (AreEntries facts bridge none nics index (name ∷ names)) (ok_inj _ d h₄) (
      nic_at-IsEntry facts bridge none nics index name first h₁,
      render_from-AreEntries facts bridge nics (index + 1) names rest h₃,
    )

in_order-AreEntries :
    (facts : Facts) (bridge : Text) (mgmt_bridge : Option Text) (primary : Option IpAddress)
    (nics : List VmNic) (order : List Text) (net : Network)
    → in_order facts bridge mgmt_bridge primary nics order ≡ ok net
    → AreEntries facts bridge mgmt_bridge nics 0 order net.net_entries
unfolding in_order
in_order-AreEntries facts bridge mgmt_bridge primary nics [] net h =
    subst (λ n. AreEntries facts bridge mgmt_bridge nics 0 [] n.net_entries) (ok_inj _ net h) tt
in_order-AreEntries facts bridge mgmt_bridge primary nics (name ∷ names) net h =
    let (first, h₁, h₂) = bind-eq-ok (nic_at facts bridge mgmt_bridge nics 0 name) _ h in
    let (mgmt, h₃, h₄) = bind-eq-ok (mgmt_address name primary first.1.ip_addresses) _ h₂ in
    let (config, h₅, h₆) = bind-eq-ok (ipconfig mgmt) _ h₄ in
    let (rest, h₇, h₈) = bind-eq-ok (render_from facts bridge nics 1 names) _ h₆ in
    subst (λ n. AreEntries facts bridge mgmt_bridge nics 0 (name ∷ names) n.net_entries)
      (ok_inj _ net h₈)
      (
        nic_at-IsEntry facts bridge mgmt_bridge nics 0 name first h₁,
        render_from-AreEntries facts bridge nics 1 names rest h₇,
      )

order_or-eq-ok :
    (r : Result NicRefusal (List Text)) (order : List Text) → order_or r ≡ ok order → r ≡ ok order
unfolding order_or
order_or-eq-ok (err why) order h = cc
order_or-eq-ok (ok o) order h = ap ok (ok_inj o order h)

-- The entries are those of the platform's order of the interfaces.
abbrev pub AreOrdered : Facts → Text → Option Text → List VmNic → Dict → Type 0
AreOrdered facts bridge mgmt nics d =
    (order : List Text) × (resolve_nic_order facts (map (λ n. n.name) nics) ≡ ok order)
    × AreEntries facts bridge mgmt nics 0 order d

pub render_nics-AreOrdered :
    (facts : Facts) (bridge : Text) (mgmt_bridge : Option Text) (primary : Option IpAddress)
    (nics : List VmNic) (net : Network)
    → render_nics facts bridge mgmt_bridge primary nics ≡ ok net
    → AreOrdered facts bridge mgmt_bridge nics net.net_entries
unfolding render_nics
render_nics-AreOrdered facts bridge mgmt_bridge primary nics net h =
    let (order, h₁, h₂) =
      bind-eq-ok (order_or (resolve_nic_order facts (map (λ n. n.name) nics))) _ h in
    (
      order,
      order_or-eq-ok (resolve_nic_order facts (map (λ n. n.name) nics)) order h₁,
      in_order-AreEntries facts bridge mgmt_bridge primary nics order net h₂,
    )
