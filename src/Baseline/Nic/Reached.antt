-- ===== src/Baseline/Nic/Reached.antt =====
-- `derive_install_interface` (jobs/lib/host_baseline.py): how the install port is reached.
use nautobot_proxmox.Baseline.Nic.{only_one, through_lag, at_port, derive_install_interface, a_lag}
use nautobot_proxmox.Prelude.{
  ◌≡◌, refl, sym, ap, ◌↔◌, ◌⊎◌, inl, inr, Bool, true, false, ◌||◌, List, [], ◌∷◌, ◌++◌, arith,
  if◌then◌else◌, Bool-cases, filter,
}
use nautobot_proxmox.Prelude.Text.{Text}
use nautobot_proxmox.Python.Result.{◌>>=◌, bind-eq-ok, ok}
use nautobot_proxmox.Baseline.Nic.{
  Iface, Group, is_bridge, is_lag, refers_to, pick_flagged, pick_member, assigned, Chain, follow,
  through_bridge, a_bridge,
}
use mathlib.Core.Path.{subst}

-- `m` is the member that the group's rule names: the only member, or the only one that is flagged.
abbrev pub IsPick : List Iface → Iface → Type 0
IsPick members m = (members ≡ m ∷ []) ⊎ (filter (λ j. j.primary_member) members ≡ m ∷ [])

pick_flagged-ok :
    (g : Group) (parent : Text) (members flagged : List Iface) (m : Iface)
    → pick_flagged g parent members flagged ≡ ok m
    → (members ≡ m ∷ []) ⊎ (flagged ≡ m ∷ [])
unfolding pick_flagged
pick_flagged-ok g parent [] flagged m h = absurd (ground arith)
pick_flagged-ok g parent (n ∷ ms) (f ∷ f' ∷ fs) m h = absurd (ground arith)
pick_flagged-ok g parent (n ∷ []) [] m h = inl (ground arith)
pick_flagged-ok g parent (n ∷ []) (f ∷ []) m h = inl (ground arith)
pick_flagged-ok g parent (n ∷ k ∷ ms) (f ∷ []) m h = inr (ground arith)
pick_flagged-ok g parent (n ∷ k ∷ ms) [] m h = absurd (ground arith)

pick_flagged_one :
    (g : Group) (parent : Text) (m : Iface)
    → pick_flagged g parent (m ∷ []) (filter (λ j. j.primary_member) (m ∷ [])) ≡ ok m
unfolding pick_flagged
pick_flagged_one g parent m = elim (Bool-cases m.primary_member) [
  | inl e ↦ rw e refl
  | inr e ↦ rw e refl
]

pick_flagged_flag :
    (g : Group) (parent : Text) (members : List Iface) (m : Iface)
    → filter (λ j. j.primary_member) members ≡ m ∷ []
    → pick_flagged g parent members (m ∷ []) ≡ ok m
unfolding pick_flagged
pick_flagged_flag g parent [] m h = absurd (ground arith)
pick_flagged_flag g parent (n ∷ []) m h = elim (Bool-cases n.primary_member) [
  | inl e ↦ ground arith
  | inr e ↦ absurd (ground arith)
]
pick_flagged_flag g parent (n ∷ k ∷ ms) m h = refl

pub pick_member_iff :
    (g : Group) (parent : Text) (members : List Iface) (m : Iface)
    → (pick_member g parent members ≡ ok m) ↔ IsPick members m
unfolding pick_member
pick_member_iff g parent members m = (
  λ h. pick_flagged-ok g parent members _ m h,
  λ p. elim p [
    | inl e ↦
        subst (λ ms. pick_flagged g parent ms (filter (λ j. j.primary_member) ms) ≡ ok m) (sym e)
          (pick_flagged_one g parent m)
    | inr e ↦ rw e (pick_flagged_flag g parent members m e)
  ],
)

module _ (ifaces : List Iface) where
  abbrev bridge_ifaces : Iface → List Iface
  bridge_ifaces i = filter (λ j. refers_to j.bridge i.id) ifaces

  abbrev lag_ifaces : Iface → List Iface
  lag_ifaces i = filter (λ j. refers_to j.lag i.id) ifaces

  -- One level of the chain: a group goes to the member that its rule names, anything else stays.
  abbrev Goes : Bool → List Iface → Chain → Chain → Type 0
  Goes false members c d = c ≡ d
  Goes true members c d = (m : Iface) × IsPick members m × ((m, c.1 ++ m.name ∷ []) ≡ d)

  -- The install port with the names on the way to it: the address is on one interface only, a bridge
  -- goes to its port, then a LAG to its member, and the end is neither.
  pub record Reaches (ids : List Text) (d : Chain) : Type 0 where
    pub carrier : Iface
    pub via : Chain
    pub alone : assigned ifaces ids [] ≡ carrier ∷ []
    pub first :
        Goes (is_bridge carrier.type) (bridge_ifaces carrier) (carrier, carrier.name ∷ []) via
    pub second : Goes (is_lag via.0.type) (lag_ifaces via.0) via d
    pub ends : (is_bridge d.0.type || is_lag d.0.type) ≡ false

  level :
      (g : Group) (b : Bool) (members : List Iface) (c d : Chain)
      → ((if b then pick_member g c.0.name members >>= follow c.1 else ok c) ≡ ok d)
        ↔ Goes b members c d
  unfolding follow
  level g false members c d = (λ h. ground arith, λ h. ground arith)
  level g true members c d = (
    λ h.
        let (m, p, e) = bind-eq-ok (pick_member g c.0.name members) (follow c.1) h in
        (m, (pick_member_iff g c.0.name members m).0 p, ground arith),
    λ (m, p, e). rw ((pick_member_iff g c.0.name members m).1 p) (ap ok e),
  )

  through_bridge_iff :
      (c d : Chain)
      → (through_bridge ifaces c ≡ ok d) ↔ Goes (is_bridge c.0.type) (bridge_ifaces c.0) c d
  unfolding through_bridge
  through_bridge_iff c d = level a_bridge (is_bridge c.0.type) (bridge_ifaces c.0) c d

  through_lag_iff :
      (c d : Chain) → (through_lag ifaces c ≡ ok d) ↔ Goes (is_lag c.0.type) (lag_ifaces c.0) c d
  unfolding through_lag
  through_lag_iff c d = level a_lag (is_lag c.0.type) (lag_ifaces c.0) c d

  at_port_iff :
      (c d : Chain)
      → (at_port ifaces c ≡ ok d) ↔ ((c ≡ d) × ((is_bridge d.0.type || is_lag d.0.type) ≡ false))
  unfolding at_port
  at_port_iff c d = elim (Bool-cases (is_bridge c.0.type || is_lag c.0.type)) [
    | inl e ↦ (λ h. absurd (ground arith), λ (q, f). absurd (ground arith))
    | inr e ↦ (λ h. ground arith, λ (q, f). rw e (ap ok q))
  ]

  only_one_iff : (is : List Iface) (i : Iface) → (only_one is ≡ ok i) ↔ (is ≡ i ∷ [])
  unfolding only_one
  only_one_iff [] i = (λ h. absurd (ground arith), λ h. absurd (ground arith))
  only_one_iff (j ∷ []) i = (λ h. ground arith, λ h. ground arith)
  only_one_iff (j ∷ k ∷ rest) i = (λ h. absurd (ground arith), λ h. absurd (ground arith))

  derive_sound :
      (ids : List Text) (d : Chain) → derive_install_interface ifaces ids ≡ ok d → Reaches ids d
  unfolding derive_install_interface
  derive_sound ids d h =
      let (carrier, p, h₁) = bind-eq-ok (only_one (assigned ifaces ids [])) _ h in
      let (c, q, h₂) = bind-eq-ok (through_bridge ifaces (carrier, carrier.name ∷ [])) _ h₁ in
      let (e, r, h₃) = bind-eq-ok (through_lag ifaces c) _ h₂ in
      let (same, ends) = (at_port_iff e d).0 h₃ in
      record {
        carrier = carrier;
        via = c;
        alone = (only_one_iff _ carrier).0 p;
        first = (through_bridge_iff (carrier, carrier.name ∷ []) c).0 q;
        second = subst (Goes (is_lag c.0.type) (lag_ifaces c.0) c) same ((through_lag_iff c e).0 r);
        ends = ends;
      }

  derive_complete :
      (ids : List Text) (d : Chain) → Reaches ids d → derive_install_interface ifaces ids ≡ ok d
  unfolding derive_install_interface
  derive_complete ids d r = rw ((only_one_iff _ r.carrier).1 r.alone) (
      rw ((through_bridge_iff (r.carrier, r.carrier.name ∷ []) r.via).1 r.first)
        (rw ((through_lag_iff r.via d).1 r.second) ((at_port_iff d d).1 (refl, r.ends))))

  -- The derivation returns a port and a chain of names exactly if primary_ip4 is on one interface of
  -- the device only, a bridge leads to its only port or its only flagged port, a LAG to its only
  -- member or its only flagged member, and what is reached is neither a bridge nor a LAG; the chain
  -- lists the names on that way.
  pub derive_install_interface_iff :
      (ids : List Text) (d : Chain) → (derive_install_interface ifaces ids ≡ ok d) ↔ Reaches ids d
  derive_install_interface_iff ids d = (derive_sound ids d, derive_complete ids d)
