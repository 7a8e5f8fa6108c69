-- ===== src/Proxmox/Contract/Payload.antt =====
-- jobs/proxmox/deploy_device.py: the secrets of the deploy and the texts of the PA package. MD5 and
-- the salt are arguments.
pub mod Admin
use nautobot_proxmox.Prelude.{
  if◌then◌else◌, ℕ, Bool, true, false, not, Option, none, some, List, [], ◌∷◌, ◌++◌, ◌==◌, take,
  is_empty,
}
use nautobot_proxmox.Prelude.Text.{Text, codes, text_eq, lower, strip}
use nautobot_proxmox.Python.Value.{is_digit, non_empty, blank}
use nautobot_proxmox.Python.Result.{◌>>=◌, Result, unless, err, ok}
use nautobot_proxmox.Python.Assoc.{lookup}
use nautobot_proxmox.Proxmox.Values.{encode}
use nautobot_proxmox.Proxmox.Record.{Vault}
use nautobot_proxmox.Proxmox.Deploy.{number}
use nautobot_proxmox.Proxmox.Bootstrap.{
  BootstrapError, render_init_cfg, md5crypt, render_bootstrap_xml, dhcp, static,
}
use nautobot_proxmox.Proxmox.Contract.{
  Prefix, IpAddress, Violation, gateway_for, missing, bad_mgmt_mode, primary_differs, not_ipv4,
  no_secret, payload_refused,
}

secret_name : Text → Vault → Option Text
secret_name name vault = elim (lookup name vault.secrets) [ none ↦ none | some v ↦ v ]

-- A secret that does not exist, cannot be read or is blank counts as missing.
present_secret : Option Text → Option Text
present_secret none = none
present_secret (some v) = if is_empty (strip v) then none else some v

unfoldable pub optional_secret : Text → Vault → Option Text
unfolding secret_name present_secret
optional_secret name vault = present_secret (secret_name name vault)

or_missing : Text → Option Text → Result Violation Text
or_missing name none = err (no_secret name)
or_missing name (some v) = ok v

unfoldable pub required_secret : Text → Vault → Result Violation Text
unfolding optional_secret or_missing
required_secret name vault = or_missing name (optional_secret name vault)

pub data MgmtMode : Type 0 where
  standalone : MgmtMode
  scm : MgmtMode

-- `pa_mgmt_mode` of the device.
unfoldable pub mgmt_mode : Option Text → Result Violation MgmtMode
mgmt_mode cf =
    let mode = lower (strip (elim (non_empty cf) [ none ↦ codes "standalone" | some m ↦ m ])) in
    if text_eq mode (codes "standalone")
    then ok standalone
    else if text_eq mode (codes "scm")
    then ok scm
    else err (bad_mgmt_mode mode)

-- The primary address is the management address where it is set.
agrees : Option IpAddress → Option IpAddress → Bool
agrees none mgmt = true
agrees (some primary) none = false
agrees (some primary) (some mgmt) = text_eq primary.address mgmt.address

is_ipv6 : Option IpAddress → Bool
is_ipv6 none = false
is_ipv6 (some mgmt) = not (mgmt.ip_version == 4)

pins : MgmtMode → Vault → Result Violation (Option Text × Option Text)
unfolding required_secret
pins standalone vault = ok (none, none)
pins scm vault = do
  id ← required_secret (codes "scm_registration_pin_id") vault
  value ← required_secret (codes "scm_registration_pin_value") vault
  ok (some id, some value)

rendered : Result BootstrapError Text → Result Violation Text
rendered (err why) = err (payload_refused why)
rendered (ok text) = ok text

dns_of : Option Prefix → List Text
dns_of none = []
dns_of (some prefix) = take 2 prefix.dns

init_cfg : Text → Option IpAddress → Option Text × Option Text → Result Violation Text
unfolding dns_of rendered
init_cfg name none pin = rendered (render_init_cfg name dhcp none none none [] (pin.0) (pin.1))
init_cfg name (some mgmt) pin = do
  gateway ← gateway_for mgmt
  rendered (
      render_init_cfg name static (some mgmt.host) (some mgmt.netmask) (some gateway)
        (dns_of mgmt.parent) (pin.0) (pin.1))

-- The longest run of digits at the start, and what follows it.
digit_run : Text → Text
digit_run [] = []
digit_run (c ∷ s) = let rest = digit_run s in if is_digit c then c ∷ rest else []

after_run : Text → Text
after_run [] = []
after_run (c ∷ s) = let rest = after_run s in if is_digit c then rest else c ∷ s

default_version : Text
default_version = codes "10.1.0"

with_minor : Text → Text → Text
unfolding default_version
with_minor major [] = default_version
with_minor major (c ∷ minor) = major ++ (b'.' ∷ ((c ∷ minor) ++ codes ".0"))

after_major : Text → Text → Text
unfolding with_minor digit_run default_version
after_major [] rest = default_version
after_major (d ∷ major) [] = default_version
after_major (d ∷ major) (c ∷ rest) =
    if c == b'.' then with_minor (d ∷ major) (digit_run rest) else default_version

-- The major and the minor number of the software version, at patch level 0.
unfoldable pub config_version : Text → Text
unfolding after_major digit_run after_run
config_version v = after_major (digit_run v) (after_run v)

module _ (md5 : List ℕ → List ℕ) (salt : Text) where
  -- init-cfg.txt, bootstrap.xml and the authcodes.
  unfoldable pub pa_render_payload :
      Text
      → Text
      → Option Text
      → Option IpAddress
      → Option IpAddress
      → Vault
      → Result Violation (Text × (Text × Option Text))
  unfolding agrees is_ipv6 pins rendered init_cfg required_secret optional_secret
  pa_render_payload name version cf primary mgmt vault = do
    mode ← mgmt_mode cf
    unless (not (agrees primary mgmt)) primary_differs (
        unless (is_ipv6 mgmt) not_ipv4 do
          pin ← pins mode vault
          cfg ← init_cfg name mgmt pin
          password ← required_secret (codes "pa_admin_password") vault
          phash ← rendered (md5crypt md5 (encode password) salt)
          xml ← rendered (render_bootstrap_xml phash (config_version version))
          ok (cfg, (xml, optional_secret (codes "pa_authcode") vault)))
