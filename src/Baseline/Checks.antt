-- ===== src/Baseline/Checks.antt =====
-- jobs/lib/host_baseline.py: the checks of single values of the config context.
use nautobot_proxmox.Prelude.{
  ℕ, Bool, true, false, not, ◌&&◌, ◌||◌, Option, none, some, List, [], ◌∷◌, ◌++◌, ltb, leb, ◌==◌,
  if◌then◌else◌, length, drop, any,
}
use nautobot_proxmox.Prelude.Text.{Text, codes, text_eq, is_space}
use nautobot_proxmox.Python.Pattern.{
  is_lower_alpha, is_upper_alpha, is_alnum, matches_dollar, repeated,
}
use nautobot_proxmox.Python.Value.{Value, is_digit, pos, negsuc}

-- Why a value is refused.
pub data Why : Type 0 where
  missing not_string control_character not_boolean not_integer out_of_range : Why
  not_mapping not_list : Why
  too_long : ℕ → Why
  no_match : Text → Why
  reserved_user reserved_name listed_twice bad_name bad_package : Text → Why

-- A problem, with the path that it names.
pub record Problem : Type 0 where
  pub path : Text
  pub why : Why

-- A checked value, and the problems that the check reports.
abbrev pub Checked : Type 0 → Type 0
Checked A = Option A × List Problem

abbrev pub problem : Text → Why → List Problem
problem path why = record { path = path; why = why } ∷ []

-- `_CONTROL_RE`.
unfoldable pub is_control : ℕ → Bool
is_control c = leb c 31 || c == 127

-- `_text` on a text that is not empty.
unfoldable pub check_length : Text → ℕ → Text → Checked Text
unfolding is_control
check_length path max_len s =
    if any is_control s
    then (none, problem path control_character)
    else if ltb max_len (length s)
    then (none, problem path (too_long max_len))
    else (some s, [])

abbrev if_required : Bool → Text → Checked Text
if_required true path = (none, problem path missing)
if_required false path = (none, [])

-- `_text`.
unfoldable pub check_text : Value → Text → Bool → ℕ → Checked Text
unfolding check_length
check_text Value.null path required max_len = if_required required path
check_text (Value.str []) path required max_len = if_required required path
check_text (Value.str (c ∷ s)) path required max_len = check_length path max_len (c ∷ s)
check_text v path required max_len = (none, problem path not_string)

-- `_match`, on what `_text` returns.
unfoldable pub matched : (Text → Bool) → Text → Checked Text → Checked Text
matched pattern path (none, ps) = (none, ps)
matched pattern path (some s, ps) =
    if pattern s then (some s, ps) else (none, ps ++ problem path (no_match s))

unfoldable pub check_match : Value → Text → (Text → Bool) → Bool → Checked Text
unfolding matched check_text
check_match v path pattern required = matched pattern path (check_text v path required 255)

-- `_bool`.
unfoldable pub check_bool : Value → Text → Option Bool → Checked Bool
check_bool Value.null path default = (default, [])
check_bool (Value.bool b) path default = (some b, [])
check_bool v path default = (default, problem path not_boolean)

-- `_int`.
unfoldable pub check_int : Value → Text → ℕ → ℕ → Bool → Checked ℕ
check_int Value.null path lo hi required =
    if required then (none, problem path missing) else (none, [])
check_int (Value.int (pos n)) path lo hi required =
    if leb lo n && leb n hi then (some n, []) else (none, problem path out_of_range)
check_int (Value.int (negsuc n)) path lo hi required = (none, problem path out_of_range)
check_int v path lo hi required = (none, problem path not_integer)

-- Sequences of the class `[A-Za-z0-9._-]`.
unfoldable pub is_id_char : ℕ → Bool
unfolding is_alnum
is_id_char c = is_alnum c || (c == b'.' || (c == b'_' || c == b'-'))

is_letter : ℕ → Bool
unfolding is_lower_alpha is_upper_alpha
is_letter c = is_lower_alpha c || is_upper_alpha c

token_id : Text → Bool
unfolding is_letter repeated is_id_char
token_id [] = false
token_id (c ∷ s) = is_letter c && repeated is_id_char 1 63 s

-- `_TOKEN_ID_RE`.
unfoldable pub is_token_id : Text → Bool
unfolding matches_dollar token_id
is_token_id s = matches_dollar token_id s

-- `_PVE_ID_RE`.
unfoldable pub is_pve_id : Text → Bool
unfolding matches_dollar repeated is_id_char
is_pve_id s = matches_dollar (repeated is_id_char 1 64) s

-- Segments between slashes, none of them empty; `open_` tells that the current one has a character.
segments : Bool → Text → Bool
unfolding is_id_char
segments open_ [] = open_
segments open_ (c ∷ s) =
    let next = segments false s in
    let same = segments true s in if c == b'/' then open_ && next else is_id_char c && same

acl_path : Text → Bool
unfolding segments
acl_path [] = false
acl_path (c ∷ []) = c == b'/'
acl_path (c ∷ d ∷ s) = c == b'/' && segments false (d ∷ s)

-- `_ACL_PATH_RE`.
unfoldable pub is_acl_path : Text → Bool
unfolding matches_dollar acl_path
is_acl_path s = matches_dollar acl_path s

user_char : ℕ → Bool
unfolding is_space
user_char c = not (is_space c || (c == b'@' || (c == b':' || (c == b'!' || c == b'/'))))

-- The group before the `@`, and the rest from it on.
unfoldable pub user_part : Text → Text
user_part [] = []
user_part (c ∷ s) = let rest = user_part s in if c == b'@' then [] else c ∷ rest

userid : Text → Bool
unfolding user_part repeated user_char text_eq
userid s =
    repeated user_char 1 60 (user_part s)
    && (text_eq (drop (length (user_part s)) s) (codes "@pam")
        || text_eq (drop (length (user_part s)) s) (codes "@pve"))

-- `_USERID_RE`.
unfoldable pub is_userid : Text → Bool
unfolding matches_dollar userid
is_userid s = matches_dollar userid s

name_char : ℕ → Bool
unfolding is_lower_alpha is_digit
name_char c = is_lower_alpha c || (is_digit c || c == b'-')

account_name : Text → Bool
unfolding is_lower_alpha repeated name_char
account_name [] = false
account_name (c ∷ s) = is_lower_alpha c && repeated name_char 0 30 s

-- `_ACCOUNT_NAME_RE`.
unfoldable pub is_account_name : Text → Bool
unfolding matches_dollar account_name
is_account_name s = matches_dollar account_name s
