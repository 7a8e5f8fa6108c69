-- ===== src/Proxmox/Contract/Read/Gated.antt =====
-- jobs/proxmox/deploy_device.py: the gates that a device has passed when its contract is read.
use nautobot_proxmox.Prelude.{refl}
use nautobot_proxmox.Python.Value.{non_empty}
use mathlib.Core.Path.{subst}
use nautobot_proxmox.Python.Assoc.{lookup}
use nautobot_proxmox.Proxmox.Server.{ProxmoxClient}
use nautobot_proxmox.Proxmox.Record.{resolve_proxmox_credentials}
use nautobot_proxmox.Proxmox.Platform.{Facts}
use nautobot_proxmox.Proxmox.Contract.{need, need_value, render_nics}
use nautobot_proxmox.Proxmox.Contract.Read.{read_contract}
use nautobot_proxmox.Proxmox.Contract.Read.Promoted.{
  HasImage, equal_text, need-eq-ok, require_image_checksum-nonempty, promoted-Active,
  render_nics-AreOrdered,
}
use nautobot_proxmox.Prelude.{
  ℕ, ◌≡◌, ap, inl, inr, not, Option, none, some, List, ◌∷◌, Bool-cases, In,
}
use nautobot_proxmox.Prelude.Text.{Text, codes, text_eq}
use nautobot_proxmox.Python.Value.{Value, get}
use nautobot_proxmox.Python.Result.{bind-eq-ok, unless-eq-ok, ok_inj, ok}
use nautobot_proxmox.Proxmox.Client.{require_image_checksum}
use nautobot_proxmox.Proxmox.Record.{Hypervisor, Vault}
use nautobot_proxmox.Proxmox.Deploy.{Day0, Contract, native_cloudinit, pa_bootstrap}
use nautobot_proxmox.Proxmox.Contract.{Image, Software, VmPlatform, Intent, Network}
use nautobot_proxmox.Proxmox.Contract.Payload.{pa_render_payload}
use nautobot_proxmox.Proxmox.Contract.Read.Promoted.{AreOrdered}
use nautobot_proxmox.Proxmox.Contract.Payload.{required_secret, optional_secret}
use nautobot_proxmox.Proxmox.Contract.Read.{
  facts_of, host_of, shipped, sized, promoted, proxmox_tokens, cloudinit, day0_of, on_host,
  login_day0, pa_day0,
}
use nautobot_proxmox.Proxmox.Contract.Payload.Admin.{
  required_secret-eq-ok, pa_render_payload-HasAdmin, HasAdmin,
}

host_of-eq-ok : (o : Option Hypervisor) (hyp : Hypervisor) → host_of o ≡ ok hyp → o ≡ some hyp
unfolding host_of
host_of-eq-ok none hyp h = cc
host_of-eq-ok (some host) hyp h = ap some (ok_inj host hyp h)

-- The gates that lie before the host is read: Planned, an Active software version and one of its
-- images with a checksum that is not empty.
abbrev pub IsPromoted : Intent → Contract → Type 0
IsPromoted k c =
    (k.row.status ≡ codes "Planned")
    × (sv : Software) × (k.software ≡ some sv)
    × (sv.status ≡ codes "Active")
    × (image : Image) × In image sv.images
    × (c.image_name ≡ image.file_name)
    × (c.image_url ≡ image.url)
    × (first : ℕ) × (rest : Text) × (algorithm : Text) × (require_image_checksum image.checksum
          image.algorithm
        ≡ ok (first ∷ rest, algorithm))
    × (c.image_checksum ≡ some (first ∷ rest))

-- The contract names the image, its origin and its checksum.
abbrev Names : Contract → Image × (Text × Text) → Type 0
Names c image =
    (c.image_name ≡ image.0.file_name)
    × (c.image_url ≡ image.0.url)
    × (c.image_checksum ≡ some image.1.0)

gathered :
    (P : Type 0) (k : Intent) (c : Contract) (sv : Software) (image : Image × (Text × Text))
    → k.row.status ≡ codes "Planned"
    → k.software ≡ some sv
    → (sv.status ≡ codes "Active") × HasImage sv.images image
    → P × Names c image
    → IsPromoted k c × P
gathered P k c sv image planned wants (active, has_image) (placed, named) =
    let (first, rest, nonempty) =
      require_image_checksum-nonempty image.0.checksum image.0.algorithm image.1 has_image.1 in
    (
      (
        planned,
        sv,
        wants,
        active,
        image.0,
        has_image.0,
        named.0,
        named.1,
        first,
        rest,
        image.1.1,
        subst (λ t. require_image_checksum image.0.checksum image.0.algorithm ≡ ok (t, image.1.1))
            nonempty has_image.1,
        subst (λ t. c.image_checksum ≡ some t) nonempty named.2,
      ),
      placed,
    )

module _ (md5 : List ℕ → List ℕ) (salt : Text) where
  module _ (build_iso : Text → Text → Option Text → Option Text) where
    -- The password of the login that the day-0 drive sets up is a secret that is there and not blank;
    -- for PA the drive is built from the package with its hash.
    abbrev HasLogin : Vault → Day0 → Type 0
    HasLogin vault (native_cloudinit d) =
        (password : Text) × (optional_secret (codes "jumphost_console_password") vault
          ≡ some password)
        × (get (codes "cipassword") d ≡ Value.str password)
    HasLogin vault (pa_bootstrap iso) =
        (cfg : Text) × (xml : Text) × (authcodes : Option Text) × (iso
          ≡ build_iso cfg xml authcodes)
        × HasAdmin md5 salt vault xml

    -- What the contract takes from the host, the interfaces and the secrets.
    abbrev pub IsPlaced : Vault → Intent → Contract → Type 0
    IsPlaced vault k c =
        (hyp : Hypervisor) × (k.row.hosted_on ≡ some hyp)
        × (c.node ≡ hyp.name)
        × (c.name ≡ k.row.name)
        × (bridge : Text) × (non_empty hyp.vm_bridge ≡ some bridge)
        × AreOrdered c.facts bridge (non_empty hyp.mgmt_bridge) k.interfaces c.net_params
        × HasLogin vault c.day0

    login_day0-HasLogin :
        (p : VmPlatform) (pubkeys : Text) (net : Network) (vault : Vault) (d : Day0)
        → login_day0 p pubkeys net vault ≡ ok d
        → HasLogin vault d
    unfolding login_day0 cloudinit get lookup text_eq
    login_day0-HasLogin p pubkeys net vault d h =
        let (user, h₁, h₂) = bind-eq-ok (need_value "console_user" p.console_user) _ h in
        let (password, h₃, h₄) =
          bind-eq-ok (required_secret (codes "jumphost_console_password") vault) _ h₂ in
        subst (HasLogin vault) (ok_inj _ d h₄) (
          password,
          required_secret-eq-ok (codes "jumphost_console_password") vault password h₃,
          refl,
        )

    pa_day0-HasLogin :
        (k : Intent) (version : Text) (net : Network) (vault : Vault) (d : Day0)
        → pa_day0 md5 salt build_iso k version net vault ≡ ok d
        → HasLogin vault d
    unfolding pa_day0
    pa_day0-HasLogin k version net vault d h =
        let (payload, h₁, h₂) =
          bind-eq-ok
            (pa_render_payload md5 salt k.row.name version k.pa_mgmt_mode k.primary_ip4 net.mgmt_ip
              vault)
            _ h in
        subst (HasLogin vault) (ok_inj _ d h₂) (
          payload.0,
          payload.1.0,
          payload.1.1,
          refl,
          pa_render_payload-HasAdmin md5 salt k.row.name version k.pa_mgmt_mode k.primary_ip4
              net.mgmt_ip vault payload h₁,
        )

    day0_of-HasLogin :
        (builder : Text) (k : Intent) (p : VmPlatform) (version pubkeys : Text) (net : Network)
        (vault : Vault) (d : Day0)
        → day0_of md5 salt build_iso builder k p version pubkeys net vault ≡ ok d
        → HasLogin vault d
    unfolding day0_of
    day0_of-HasLogin builder k p version pubkeys net vault d h =
        elim (Bool-cases (text_eq builder (codes "pa-bootstrap"))) [
          | inl y ↦ pa_day0-HasLogin k version net vault d (rw y at h)
          | inr n ↦ login_day0-HasLogin p pubkeys net vault d (rw n at h)
        ]

    on_host-IsPlaced :
        (pubkeys : Text) (k : Intent) (p : VmPlatform) (facts : Facts) (builder : Text)
        (machine : Value) (version : Text) (image : Image × (Text × Text))
        (sizes : Value × (Value × Value)) (vault : Vault) (hyp : Hypervisor)
        (r : Contract × ProxmoxClient)
        → on_host md5 salt build_iso pubkeys k p facts builder machine version image sizes vault hyp
          ≡ ok r
        → k.row.hosted_on ≡ some hyp
        → IsPlaced vault k r.0 × Names r.0 image
    unfolding on_host
    on_host-IsPlaced pubkeys k p facts builder machine version image sizes vault hyp r h hosted =
        let (api_host, h₁, h₂) = bind-eq-ok (need "primary_ip4" hyp.primary_ip4) _ h in
        let (bridge, h₃, h₄) = bind-eq-ok (need "vm_bridge" (non_empty hyp.vm_bridge)) _ h₂ in
        let (vm_storage, h₅, h₆) = bind-eq-ok (need "vm_storage" (non_empty hyp.vm_storage)) _ h₄ in
        let (import_storage, h₇, h₈) =
          bind-eq-ok (need "import_storage" (non_empty hyp.import_storage)) _ h₆ in
        let (net, h₉, h₁₀) =
          bind-eq-ok
            (render_nics facts bridge (non_empty hyp.mgmt_bridge) k.primary_ip4 k.interfaces) _
            h₈ in
        let (day0, h₁₁, h₁₂) =
          bind-eq-ok (day0_of md5 salt build_iso builder k p version pubkeys net vault) _ h₁₀ in
        let (tokens, h₁₃, h₁₄) =
          bind-eq-ok (proxmox_tokens (resolve_proxmox_credentials vault hyp)) _ h₁₂ in
        subst (λ r. IsPlaced vault k r.0 × Names r.0 image) (ok_inj _ r h₁₄)
          (
            (
              hyp,
              hosted,
              refl,
              refl,
              bridge,
              need-eq-ok "vm_bridge" (non_empty hyp.vm_bridge) bridge h₃,
              render_nics-AreOrdered facts bridge (non_empty hyp.mgmt_bridge) k.primary_ip4
                  k.interfaces net h₉,
              day0_of-HasLogin builder k p version pubkeys net vault day0 h₁₁,
            ),
            (refl, refl, refl),
          )

    pub read_contract-IsPromoted :
        (pubkeys : Text) (k : Intent) (vault : Vault) (r : Contract × ProxmoxClient)
        → read_contract md5 salt build_iso pubkeys k vault ≡ ok r
        → IsPromoted k r.0 × IsPlaced vault k r.0
    unfolding read_contract
    read_contract-IsPromoted pubkeys k vault r h =
        let (planned, h₁) = unless-eq-ok (not (text_eq k.row.status (codes "Planned"))) _ _ h in
        let (p, h₂, h₃) = bind-eq-ok (need "platform" k.platform) _ h₁ in
        let (facts, h₄, h₅) = bind-eq-ok (facts_of p.name) _ h₃ in
        let (bound, h₆, h₇) = bind-eq-ok (need "day0_builder" k.row.day0_builder) _ h₅ in
        let (day0, h₈, h₉) = bind-eq-ok (need_value "day0_builder" bound) _ h₇ in
        let (machine, h₁₀, h₁₁) = bind-eq-ok (need_value "machine_type" p.machine_type) _ h₉ in
        let (builder, h₁₂, h₁₃) = bind-eq-ok (shipped day0) _ h₁₁ in
        let (sv, h₁₄, h₁₅) = bind-eq-ok (need "software_version" k.software) _ h₁₃ in
        let (image, h₁₆, h₁₇) = bind-eq-ok (promoted sv) _ h₁₅ in
        let (sizes, h₁₈, h₁₉) = bind-eq-ok (sized k) _ h₁₇ in
        let (hyp, h₂₀, h₂₁) = bind-eq-ok (host_of k.row.hosted_on) _ h₁₉ in
        gathered (IsPlaced vault k r.0) k r.0 sv image
          (equal_text k.row.status (codes "Planned") planned)
          (need-eq-ok "software_version" k.software sv h₁₄) (promoted-Active sv image h₁₆)
          (on_host-IsPlaced pubkeys k p facts builder machine sv.version_text image sizes vault hyp
            r h₂₁ (host_of-eq-ok k.row.hosted_on hyp h₂₀))
