-- ===== src/Guards/Version.antt =====
-- jobs/lib/version.py and `version_handshake` of jobs/lib/answer_service.py.
pub mod Accepted
use mathlib.Core.List.{reverse}
use nautobot_proxmox.Prelude.{
  ℕ, ◌+◌, ◌-◌, ◌*◌, Bool, not, ◌&&◌, ◌||◌, Option, none, some, List, [], ◌∷◌, ltb, ◌==◌,
  if◌then◌else◌, all, is_empty,
}
use nautobot_proxmox.Prelude.Text.{Text, codes}
use nautobot_proxmox.Python.Value.{Value, Dict, entries, get, is_digit, null, str, dict}
use nautobot_proxmox.Python.Assoc.{lookup}

-- `(major, minor, patch)`.
abbrev pub Version : Type 0
Version = ℕ × ℕ × ℕ

-- JOBS_VERSION and MIN_ANSWER_SERVICE_VERSION.
abbrev pub jobs_version : Version
jobs_version = (0, 1, 0)

abbrev pub min_answer_service_version : Version
min_answer_service_version = (0, 1, 0)

-- The pieces between dots.
unfoldable pub split_dots : Text → Text → List Text
split_dots piece [] = reverse piece ∷ []
split_dots piece (c ∷ s) =
    let next = split_dots [] s in
    let same = split_dots (c ∷ piece) s in if c == b'.' then reverse piece ∷ next else same

unfoldable pub is_number : Text → Bool
unfolding is_digit
is_number s = not (is_empty s) && all is_digit s

-- `int(part)`.
unfoldable pub number_of : ℕ → Text → ℕ
number_of acc [] = acc
number_of acc (c ∷ s) = number_of (acc * 10 + (c - b'0')) s

-- `^v?`.
drop_v : Text → Text
drop_v [] = []
drop_v (c ∷ s) = if c == b'v' then s else c ∷ s

three_numbers : List Text → Option Version
unfolding is_number number_of
three_numbers (a ∷ b ∷ c ∷ []) =
    if is_number a && (is_number b && is_number c)
    then some (number_of 0 a, number_of 0 b, number_of 0 c)
    else none
three_numbers _ = none

-- `parse_version`; the pattern ends in `\Z`, so a newline behind is no part of a version.
unfoldable pub parse_version : Value → Option Version
unfolding three_numbers split_dots drop_v
parse_version (Value.str s) = three_numbers (split_dots [] (drop_v s))
parse_version _ = none

-- The order of the tuples.
unfoldable pub older : Version → Version → Bool
older (a, b, c) (d, e, f) = ltb a d || (a == d && (ltb b e || (b == e && ltb c f)))

-- The verdicts, with the reason of a refusal.
pub data Verdict : Type 0 where
  accepted warn : Verdict
  no_version too_old no_min_jobs_version jobs_too_old : Verdict

-- On `min_jobs_version`, where it is given.
unfoldable pub check_min_jobs : Option Value → Verdict
unfolding parse_version older
check_min_jobs none = accepted
check_min_jobs (some v) = elim (parse_version v) [
  | none ↦ no_min_jobs_version
  | some m ↦ if older jobs_version m then jobs_too_old else accepted
]

-- On the service's version.
unfoldable pub check_service : Dict → Option Version → Verdict
unfolding older check_min_jobs lookup
check_service info none = no_version
check_service info (some v) =
    if older v min_answer_service_version
    then too_old
    else check_min_jobs (lookup (codes "min_jobs_version") info)

-- `version_handshake`; None is an answer that never arrived.
unfoldable pub version_handshake : Value → Verdict
unfolding check_service parse_version get
version_handshake Value.null = warn
version_handshake (Value.dict fs) =
    check_service (entries fs) (parse_version (get (codes "version") (entries fs)))
version_handshake _ = no_version
