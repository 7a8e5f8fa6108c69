-- ===== src/Baseline/Packages.antt =====
-- jobs/lib/host_baseline.py, `validate_packages`: the packages of the baseline.
use nautobot_proxmox.Prelude.{ℕ, Bool, false, ◌&&◌, ◌||◌, List, [], ◌∷◌, ◌++◌, ◌==◌, if◌then◌else◌}
use nautobot_proxmox.Prelude.Text.{Text, codes, mem_text}
use nautobot_proxmox.Python.Pattern.{is_lower_alpha, matches_dollar, repeated}
use nautobot_proxmox.Python.Value.{Value, elems, is_digit}
use nautobot_proxmox.Baseline.Checks.{Problem, not_list, bad_package}

-- `REQUIRED_PACKAGES`.
abbrev pub required_packages : List Text
required_packages = codes "lldpd" ∷ codes "snmpd" ∷ []

package_char : ℕ → Bool
unfolding is_lower_alpha is_digit
package_char c = is_lower_alpha c || (is_digit c || (c == b'+' || (c == b'.' || c == b'-')))

package_name : Text → Bool
unfolding is_lower_alpha is_digit repeated package_char
package_name [] = false
package_name (c ∷ s) = (is_lower_alpha c || is_digit c) && repeated package_char 1 62 s

-- `_PKG_RE`, which is the same in bmc/answer_service/app.py.
unfoldable pub is_package : Text → Bool
unfolding matches_dollar package_name
is_package s = matches_dollar package_name s

-- `if item not in out: out.append(item)`.
unfoldable pub append_new : List Text → Text → List Text
unfolding mem_text
append_new out s = if mem_text s out then out else out ++ s ∷ []

abbrev packages_path : Text
packages_path = codes "host_baseline.packages"

-- The loop.
unfoldable pub add_packages : List Text → List Value → List Text × List Problem
unfolding is_package append_new
add_packages out [] = (out, [])
add_packages out (Value.str s ∷ items) =
    let kept = add_packages (append_new out s) items in
    let (rest, ps) = add_packages out items in
    if is_package s then kept else (rest, record { path = packages_path; why = bad_package s } ∷ ps)
add_packages out (v ∷ items) =
    let (rest, ps) = add_packages out items in
    (rest, record { path = packages_path; why = bad_package [] } ∷ ps)

unfoldable pub validate_packages : Value → List Text × List Problem
unfolding add_packages
validate_packages Value.null = (required_packages, [])
validate_packages (Value.list vs) = add_packages required_packages (elems vs)
validate_packages _ = (required_packages, record { path = packages_path; why = not_list } ∷ [])
