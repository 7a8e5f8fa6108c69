-- ===== src/Proxmox/Contract/Payload/Admin.antt =====
-- jobs/proxmox/deploy_device.py: a secret that is read, and the administrator's in the PA package.
use nautobot_proxmox.Proxmox.Contract.Payload.{rendered}
use mathlib.Core.Path.{subst}
use nautobot_proxmox.Python.Result.{Result, err}
use nautobot_proxmox.Proxmox.Values.{encode}
use nautobot_proxmox.Proxmox.Bootstrap.{BootstrapError, md5crypt, render_bootstrap_xml}
use nautobot_proxmox.Proxmox.Contract.Payload.{config_version}
use nautobot_proxmox.Prelude.{ℕ, ◌≡◌, ap, not, Option, none, some, List}
use nautobot_proxmox.Prelude.Text.{Text, codes}
use nautobot_proxmox.Python.Result.{bind-eq-ok, unless-eq-ok, ok_inj, ok}
use nautobot_proxmox.Proxmox.Record.{Vault}
use nautobot_proxmox.Proxmox.Contract.{IpAddress}
use nautobot_proxmox.Proxmox.Contract.Payload.{mgmt_mode, pa_render_payload}
use nautobot_proxmox.Proxmox.Contract.Payload.{
  required_secret, or_missing, optional_secret, pins, agrees, is_ipv6, init_cfg,
}

or_missing-eq-ok :
    (name : Text) (v : Option Text) (t : Text) → or_missing name v ≡ ok t → v ≡ some t
unfolding or_missing
or_missing-eq-ok name none t h = cc
or_missing-eq-ok name (some v) t h = ap some (ok_inj v t h)

pub required_secret-eq-ok :
    (name : Text) (vault : Vault) (t : Text)
    → required_secret name vault ≡ ok t
    → optional_secret name vault ≡ some t
unfolding required_secret
required_secret-eq-ok name vault t h = or_missing-eq-ok name (optional_secret name vault) t h

rendered-eq-ok : (r : Result BootstrapError Text) (t : Text) → rendered r ≡ ok t → r ≡ ok t
unfolding rendered
rendered-eq-ok (err why) t h = cc
rendered-eq-ok (ok u) t h = ap ok (ok_inj u t h)

module _ (md5 : List ℕ → List ℕ) (salt : Text) where
  -- The package sets up the administrator with a password that is a secret, there and not blank: its
  -- hash is in bootstrap.xml.
  abbrev pub HasAdmin : Vault → Text → Type 0
  HasAdmin vault xml =
      (password : Text) × (optional_secret (codes "pa_admin_password") vault ≡ some password)
      × (phash : Text) × (md5crypt md5 (encode password) salt ≡ ok phash)
      × (version : Text) × (render_bootstrap_xml phash version ≡ ok xml)

  pub pa_render_payload-HasAdmin :
      (name version : Text) (cf : Option Text) (primary mgmt : Option IpAddress) (vault : Vault)
      (r : Text × (Text × Option Text))
      → pa_render_payload md5 salt name version cf primary mgmt vault ≡ ok r
      → HasAdmin vault r.1.0
  unfolding pa_render_payload
  pa_render_payload-HasAdmin name version cf primary mgmt vault r h =
      let (mode, h₁, h₂) = bind-eq-ok (mgmt_mode cf) _ h in
      let (same, h₃) = unless-eq-ok (not (agrees primary mgmt)) _ _ h₂ in
      let (v4, h₄) = unless-eq-ok (is_ipv6 mgmt) _ _ h₃ in
      let (pin, h₅, h₆) = bind-eq-ok (pins mode vault) _ h₄ in
      let (cfg, h₇, h₈) = bind-eq-ok (init_cfg name mgmt pin) _ h₆ in
      let (password, h₉, h₁₀) =
        bind-eq-ok (required_secret (codes "pa_admin_password") vault) _ h₈ in
      let (phash, h₁₁, h₁₂) = bind-eq-ok (rendered (md5crypt md5 (encode password) salt)) _ h₁₀ in
      let (xml, h₁₃, h₁₄) =
        bind-eq-ok (rendered (render_bootstrap_xml phash (config_version version))) _ h₁₂ in
      subst (λ (p : Text × (Text × Option Text)). HasAdmin vault p.1.0) (ok_inj _ r h₁₄)
        (
          password,
          required_secret-eq-ok (codes "pa_admin_password") vault password h₉,
          phash,
          rendered-eq-ok (md5crypt md5 (encode password) salt) phash h₁₁,
          config_version version,
          rendered-eq-ok (render_bootstrap_xml phash (config_version version)) xml h₁₃,
        )
