-- ===== src/Proxmox/Platform/Covers.antt =====
-- The NIC order of a platform with a dataplane pattern (jobs/lib/platform_facts.py) holds the names of
-- the device's interfaces, each of them, at its place.
use nautobot_proxmox.Prelude.{not-false}
use nautobot_proxmox.Python.Result.{unless-eq-ok, ok_inj}
use nautobot_proxmox.Proxmox.Platform.{mgmt_missing}
use nautobot_proxmox.Prelude.{
  false, not, map, ltb, Option-cases, is_some, filter, is_empty, filter_map, In,
}
use nautobot_proxmox.Prelude.Text.{mem_text}
use nautobot_proxmox.Prelude.Sort.{sort}
use nautobot_proxmox.Prelude.Membership.{
  In-map, map-In, sort-In, filter-In, In-filter, filter_map-In, In-filter_map,
}
use nautobot_proxmox.Python.Result.{ok}
use nautobot_proxmox.Proxmox.Platform.{Facts, resolve_nic_order, nic_pattern}
use mathlib.Core.Path.{subst}
use nautobot_proxmox.Prelude.{
  ℕ, ◌≡◌, refl, sym, ◌∙◌, inl, inr, true, List, [], ◌∷◌, arith, Bool-cases, length,
}
use nautobot_proxmox.Prelude.Text.{Text, text_eq, text_eq_iff}
use nautobot_proxmox.Proxmox.Platform.{
  order_for, pattern_order, index_of, nic_name, up_from, nats_eq,
}
use nautobot_proxmox.Proxmox.Platform.Named.{index_of-name, nats_eq-eq}

mem_text-In : (x : Text) (ys : List Text) → mem_text x ys ≡ true → In x ys
unfolding mem_text
mem_text-In x [] h = absurd (ground arith)
mem_text-In x (y ∷ ys) h = elim (Bool-cases (text_eq x y)) [
  | inl e ↦ inl ((text_eq_iff x y).0 e)
  | inr e ↦ inr (mem_text-In x ys (rw e at h))
]

In-is_empty : {A : Type 0} (x : A) (xs : List A) → In x xs → is_empty xs ≡ false
In-is_empty x [] h = absurd h
In-is_empty x (y ∷ ys) h = refl

-- Whatever the order names is an interface, and every interface is named.
abbrev pub IsCover : List Text → List Text → Type 0
IsCover order names =
    ((x : Text) → In x order → In x names) × ((x : Text) → In x names → In x order)

-- The management NIC comes first, then the dataplane NICs from 1 on.
abbrev pub IsNumbered : Text → Text → Text → List Text → Type 0
IsNumbered mgmt prefix suffix order =
    (n : ℕ) × (order ≡ mgmt ∷ map (nic_name prefix suffix) (up_from 1 n))

module _ (mgmt prefix suffix : Text) (names : List Text) where
  abbrev dataplane : List Text
  dataplane = filter (λ n. not (text_eq n mgmt)) names

  abbrev indices : List ℕ
  indices = filter_map (index_of prefix suffix) dataplane

  ordered-In :
      (x : Text)
      → sort ltb indices ≡ up_from 1 (length indices)
      → In mgmt names
      → In x (mgmt ∷ map (nic_name prefix suffix) (up_from 1 (length indices)))
      → In x names
  ordered-In x e m (inl k) = subst (λ u. In u names) (sym k) m
  ordered-In x e m (inr k) =
      let (n, i, same) = map-In (nic_name prefix suffix) x (up_from 1 (length indices)) k in
      let at : In n indices = (sort-In ltb n indices).0 (subst (λ l. In n l) (sym e) i) in
      let (y, j, found) = filter_map-In (index_of prefix suffix) n dataplane at in
      let here = filter-In (λ n. not (text_eq n mgmt)) y names j in
      subst (λ u. In u names) (index_of-name prefix suffix y n found ∙ sym same) here.0

  In-ordered :
      (x : Text)
      → sort ltb indices ≡ up_from 1 (length indices)
      → is_empty (filter (λ n. not (is_some (index_of prefix suffix n))) dataplane) ≡ true
      → In x names
      → In x (mgmt ∷ map (nic_name prefix suffix) (up_from 1 (length indices)))
  In-ordered x e none_left h = elim (Bool-cases (text_eq x mgmt)) [
    | inl y ↦ inl ((text_eq_iff x mgmt).0 y)
    | inr m ↦
        let at : In x dataplane = In-filter (λ n. not (text_eq n mgmt)) x names h (rw m) in
        elim (Option-cases (index_of prefix suffix x)) [
          | inl lost ↦
              let left = In-is_empty x _ (
                In-filter (λ n. not (is_some (index_of prefix suffix n))) x dataplane at
                  (rw lost)) in
              absurd (ground arith)
          | inr (n, found) ↦
              let i =
                (sort-In ltb n indices).1
                  (In-filter_map (index_of prefix suffix) x n dataplane at found) in
              inr (
                subst (λ u. In u (map (nic_name prefix suffix) (up_from 1 (length indices))))
                  (sym (index_of-name prefix suffix x n found))
                  (In-map (nic_name prefix suffix) n (up_from 1 (length indices))
                    (subst (λ l. In n l) e i)))
        ]
  ]

  pattern_order-IsCover :
      (order : List Text)
      → pattern_order mgmt prefix suffix names ≡ ok order
      → IsNumbered mgmt prefix suffix order × IsCover order names
  unfolding pattern_order
  pattern_order-IsCover order h =
      let (there, h₁) = unless-eq-ok (not (mem_text mgmt names)) mgmt_missing _ h in
      let (matched, h₂) =
        unless-eq-ok
          (not (is_empty (filter (λ n. not (is_some (index_of prefix suffix n))) dataplane))) _ _
          h₁ in
      let (counted, h₃) =
        unless-eq-ok (not (nats_eq (sort ltb indices) (up_from 1 (length indices)))) _ _ h₂ in
      let same =
        ok_inj (mgmt ∷ map (nic_name prefix suffix) (up_from 1 (length indices))) order h₃ in
      let e = nats_eq-eq (sort ltb indices) (up_from 1 (length indices)) (not-false _ counted) in
      let mgmt_in = mem_text-In mgmt names (not-false _ there) in
      (
        (length indices, sym same),
        (
          λ x i. ordered-In x e mgmt_in (subst (In x) (sym same) i),
          λ x i. subst (In x) same (In-ordered x e (not-false _ matched) i),
        ),
      )

-- For a platform with a dataplane pattern, an order that is given starts with the management NIC and
-- counts the dataplane NICs from 1 on without a gap; every name in it is that of an interface of the
-- device, and every interface of the device is in it.
pub resolve_nic_order-IsCover :
    (facts : Facts) (mgmt prefix suffix : Text) (names order : List Text)
    → facts.naming ≡ nic_pattern mgmt prefix suffix
    → resolve_nic_order facts names ≡ ok order
    → IsNumbered mgmt prefix suffix order × IsCover order names
unfolding resolve_nic_order order_for
resolve_nic_order-IsCover facts mgmt prefix suffix names order e h =
    pattern_order-IsCover mgmt prefix suffix names order
      (subst (λ n. order_for n names ≡ ok order) e h)
