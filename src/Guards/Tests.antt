-- ===== src/Guards/Tests.antt =====
-- The guards of the bare-metal jobs on an answer and a BMC that they accept.
use nautobot_proxmox.Prelude.{◌↔◌}
use nautobot_proxmox.Prelude.{◌≡◌, refl, none, [], ◌∷◌, ◌++◌}
use nautobot_proxmox.Prelude.Text.{Text, codes, text_eq, upper, strip}
use nautobot_proxmox.Python.Value.{
  pair, Value, Fields, entries, get_or, get, truthy, str_of, str_or_empty, blank,
}
use nautobot_proxmox.Python.Result.{ok}
use nautobot_proxmox.Python.Assoc.{lookup}
use nautobot_proxmox.Guards.Version.{
  split_dots, is_number, number_of, parse_version, older, check_min_jobs, check_service,
  version_handshake, accepted,
}
use nautobot_proxmox.Guards.Version.Accepted.{InStep, version_handshake-InStep}
use nautobot_proxmox.Guards.Identity.{norm, check_reported, check_bmc_identity}
use nautobot_proxmox.Guards.Identity.Proven.{IsProven, check_bmc_identity-IsProven}

abbrev info : Fields
info =
    pair (codes "version") (Value.str (codes "v0.2.0"))
      (pair (codes "min_jobs_version") (Value.str (codes "0.1.0")) blank)

info_accepted : version_handshake (Value.dict info) ≡ accepted
unfolding version_handshake check_service check_min_jobs parse_version split_dots is_number
    number_of older get get_or lookup text_eq
info_accepted = refl

version_handshake-InStep_example :
    (version_handshake (Value.dict info) ≡ accepted)
    ↔ ((fs : Fields) × (Value.dict info ≡ Value.dict fs) × InStep (entries fs))
version_handshake-InStep_example = version_handshake-InStep (Value.dict info)

-- A newline behind makes it no version.
newline_version : parse_version (Value.str (codes "0.1.0" ++ 10 ∷ [])) ≡ none
unfolding parse_version split_dots is_number
newline_version = refl

-- How a list or a mapping prints plays no part here.
abbrev no_repr : Value → Text
no_repr v = []

abbrev system : Value
system = Value.dict (pair (codes "serial_number") (Value.str (codes " j301abc ")) blank)

identity_accepted :
    check_bmc_identity no_repr system (Value.str (codes "J301ABC")) ≡ ok (codes "j301abc")
unfolding check_bmc_identity check_reported norm str_or_empty truthy get get_or lookup text_eq upper
    strip str_of
identity_accepted = refl

check_bmc_identity-IsProven_example :
    IsProven no_repr system (Value.str (codes "J301ABC")) (codes "j301abc")
check_bmc_identity-IsProven_example =
    check_bmc_identity-IsProven no_repr system (Value.str (codes "J301ABC")) (codes "j301abc")
      identity_accepted
