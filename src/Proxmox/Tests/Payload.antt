-- ===== src/Proxmox/Tests/Payload.antt =====
-- The texts of the PA bootstrap package (jobs/lib/pa_bootstrap.py) on concrete values.
use nautobot_proxmox.Prelude.{ℕ, ◌≡◌, refl, true, none, List, [], ◌∷◌, arith}
use nautobot_proxmox.Prelude.Text.{codes, starts_with}
use nautobot_proxmox.Python.Value.{is_digit}
use nautobot_proxmox.Python.Result.{err, ok}
use nautobot_proxmox.Python.Pattern.{is_alnum, chop_newline, matches_dollar, repeated}
use nautobot_proxmox.Proxmox.Bootstrap.{
  is_hostname, render_init_cfg, md5crypt_b64, render_bootstrap_xml, bad_version, dhcp,
}
use nautobot_proxmox.Proxmox.Bootstrap.Decodes.{decode, first_sixteen, md5crypt_b64-decode}

abbrev some_digest : List ℕ
some_digest = 0 ∷ 255 ∷ 1 ∷ 2 ∷ 3 ∷ 4 ∷ 5 ∷ 6 ∷ 7 ∷ 8 ∷ 9 ∷ 200 ∷ 128 ∷ 64 ∷ 32 ∷ 16 ∷ []

md5crypt_b64-decode_example : decode (md5crypt_b64 some_digest) ≡ first_sixteen some_digest
md5crypt_b64-decode_example = md5crypt_b64-decode some_digest (omega arith)

dhcp_cfg :
    render_init_cfg (codes "fw1") dhcp none none none [] none none
    ≡ ok (codes "type=dhcp-client\ndhcp-send-hostname=yes\ndhcp-send-client-id=yes\nhostname=fw1\n")
unfolding render_init_cfg is_hostname matches_dollar repeated is_alnum is_digit
dhcp_cfg = refl

-- A name that ends in a newline passes, since `$` matches before it.
open_line : is_hostname (codes "fw1\n") ≡ true
unfolding is_hostname matches_dollar repeated is_alnum is_digit chop_newline
open_line = refl

bad_version_refused : render_bootstrap_xml (codes "$1$a$b") (codes "11.2") ≡ err bad_version
unfolding render_bootstrap_xml matches_dollar starts_with is_digit chop_newline
bad_version_refused = refl
