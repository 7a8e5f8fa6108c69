-- ===== src/Answer/Install.antt =====
-- bmc/answer_service/app.py: the parts of a profile's `install` section that end up in a shell script.
pub mod Plain
use nautobot_proxmox.Python.Value.{str_or_empty}
use nautobot_proxmox.Prelude.{
  ℕ, ◌-◌, Bool, false, not, ◌&&◌, ◌||◌, Option, none, some, List, [], ◌∷◌, ◌++◌, map, leb, ◌==◌,
  if◌then◌else◌, any, all, filter, is_empty,
}
use nautobot_proxmox.Prelude.Text.{Text, codes, text_eq, text_ltb, lower, strip}
use nautobot_proxmox.Prelude.Sort.{sort}
use nautobot_proxmox.Python.Pattern.{
  is_lower_alpha, is_upper_alpha, is_alnum, matches_dollar, repeated,
}
use nautobot_proxmox.Python.Value.{
  ℤ, Value, Dict, entries, get_or, get, truthy, print_nat, str_of, int_of, pos, negsuc, null, bool,
  int, dict,
}
use nautobot_proxmox.Python.Result.{unless, Result, ◌>>=◌, err, ok}

-- The refusals (status 500), with the values that their messages show.
pub data InstallError : Type 0 where
  bad_filter_match : Text → InstallError
  pool_not_mapping pool_bad_name pool_not_integer pool_bad_number : InstallError
  pool_bad_raid pool_bad_select : Text → InstallError
  pool_and_volume volume_not_mapping volume_bad_name volume_not_integer volume_bad_number :
      InstallError
  volume_bad_select : Text → InstallError
  console_not_mapping console_bad_unit : InstallError
  console_extra_keys : List Text → InstallError

pub record DataPool : Type 0 where
  pub name : Text
  pub pve_storage : Text
  pub raid : Text
  pub select : Text
  pub count : ℤ
  pub min_size_gib : ℤ

pub record DataVolume : Type 0 where
  pub vg : Text
  pub thinpool : Text
  pub pve_storage : Text
  pub select : Text
  pub min_size_gib : ℤ

pub record SerialPort : Type 0 where
  pub unit : ℕ
  pub tty : Text

unfoldable pub is_alpha : ℕ → Bool
unfolding is_lower_alpha is_upper_alpha
is_alpha c = is_lower_alpha c || is_upper_alpha c

unfoldable pub is_pool_char : ℕ → Bool
unfolding is_alnum
is_pool_char c = is_alnum c || (c == b'_' || (c == b'.' || c == b'-'))

unfoldable pub plain_name : Text → Bool
unfolding is_alpha repeated is_pool_char
plain_name [] = false
plain_name (c ∷ s) = is_alpha c && repeated is_pool_char 0 31 s

-- `_POOL_NAME_RE`.
unfoldable pub pool_name : Text → Bool
unfolding matches_dollar plain_name
pool_name s = matches_dollar plain_name s

-- `n >= k` for a number that is not negative.
abbrev pub at_least : ℕ → ℤ → Bool
at_least k (pos n) = leb k n
at_least k (negsuc n) = false

-- The numbers of a data pool, and the result.
finish_pool : Text → Text → Text → Text → Option ℤ → Option ℤ → Result InstallError DataPool
finish_pool name storage raid select (some count) (some size) =
    unless (not (at_least 2 count) || not (at_least 0 size)) pool_bad_number (
      ok (record {
        name = name;
        pve_storage = storage;
        raid = raid;
        select = select;
        count = count;
        min_size_gib = size;
      }))
finish_pool name storage raid select _ _ = err pool_not_integer

finish_volume : Text → Text → Text → Text → Option ℤ → Result InstallError DataVolume
finish_volume vg thinpool storage select none = err volume_not_integer
finish_volume vg thinpool storage select (some size) =
    unless (not (at_least 0 size)) volume_bad_number (
      ok (record {
        vg = vg;
        thinpool = thinpool;
        pve_storage = storage;
        select = select;
        min_size_gib = size;
      }))

module _ (repr : Value → Text) where
  -- `str(v or default)`.
  unfoldable pub str_or : Text → Value → Text
  unfolding truthy str_of
  str_or default v = if truthy v then str_of repr v else default

  unfoldable pub filter_match_for : Dict → Result InstallError Text
  unfolding get str_or_empty strip lower text_eq
  filter_match_for install =
      let value = lower (strip (str_or_empty repr (get (codes "filter_match") install))) in
      if is_empty value || (text_eq value (codes "any") || text_eq value (codes "all"))
      then ok value
      else err (bad_filter_match value)

  unfoldable pub check_pool : Dict → Result InstallError DataPool
  unfolding get get_or str_or_empty str_or pool_name text_eq int_of finish_pool
  check_pool spec =
      let name = str_or_empty repr (get (codes "name") spec) in
      let storage = str_or name (get (codes "pve_storage") spec) in
      let raid = str_or (codes "mirror") (get (codes "raid") spec) in
      let select = str_or (codes "unused-largest") (get (codes "select") spec) in
      unless (not (pool_name name && pool_name storage)) pool_bad_name (
        unless (not (text_eq raid (codes "mirror"))) (pool_bad_raid raid) (
          unless (not (text_eq select (codes "unused-largest"))) (pool_bad_select select) (
            finish_pool name storage raid select
              (int_of (get_or (codes "count") (Value.int (pos 2)) spec))
              (int_of (get_or (codes "min_size_gib") (Value.int (pos 0)) spec)))))

  pool_of : Value → Result InstallError (Option DataPool)
  unfolding check_pool
  pool_of (Value.dict fs) = check_pool (entries fs) >>= λ p. ok (some p)
  pool_of _ = err pool_not_mapping

  unfoldable pub data_pool_spec : Dict → Result InstallError (Option DataPool)
  unfolding get truthy pool_of
  data_pool_spec install =
      let spec = get (codes "data_pool") install in if truthy spec then pool_of spec else ok none

  unfoldable pub check_volume : Dict → Result InstallError DataVolume
  unfolding get get_or str_or pool_name text_eq int_of finish_volume
  check_volume spec =
      let vg = str_or (codes "datastore") (get (codes "vg") spec) in
      let thinpool = str_or (codes "data") (get (codes "thinpool") spec) in
      let storage = str_or vg (get (codes "pve_storage") spec) in
      let select = str_or (codes "unused-largest") (get (codes "select") spec) in
      unless (not (pool_name vg && (pool_name thinpool && pool_name storage))) volume_bad_name (
        unless (not (text_eq select (codes "unused-largest"))) (volume_bad_select select) (
          finish_volume vg thinpool storage select
            (int_of (get_or (codes "min_size_gib") (Value.int (pos 0)) spec))))

  volume_of : Value → Result InstallError (Option DataVolume)
  unfolding check_volume
  volume_of (Value.dict fs) = check_volume (entries fs) >>= λ v. ok (some v)
  volume_of _ = err volume_not_mapping

  unfoldable pub data_volume_spec : Dict → Result InstallError (Option DataVolume)
  unfolding get truthy volume_of
  data_volume_spec install =
      let spec = get (codes "data_volume") install in
      let checked =
        unless (truthy (get (codes "data_pool") install)) pool_and_volume (volume_of spec) in
      if truthy spec then checked else ok none

-- `unit`: an integer from 0 to 7.
console_unit : Value → Result InstallError (Option SerialPort)
unfolding print_nat
console_unit (Value.int (pos n)) =
    if leb n 7
    then ok (some (record { unit = n; tty = codes "ttyS" ++ print_nat n }))
    else err console_bad_unit
console_unit _ = err console_bad_unit

-- `set(spec) - {"unit"}`, sorted.
extra_keys : Dict → List Text
unfolding sort text_ltb text_eq
extra_keys spec = sort text_ltb (filter (λ k. not (text_eq k (codes "unit"))) (map (λ e. e.0) spec))

console_of : Value → Result InstallError (Option SerialPort)
unfolding extra_keys get console_unit
console_of Value.null = ok none
console_of (Value.bool false) = ok none
console_of (Value.dict fs) =
    let spec = entries fs in
    unless (not (is_empty (extra_keys spec))) (console_extra_keys (extra_keys spec))
      (console_unit (get (codes "unit") spec))
console_of _ = err console_not_mapping

unfoldable pub serial_console_spec : Dict → Result InstallError (Option SerialPort)
unfolding get console_of
serial_console_spec install = console_of (get (codes "serial_console") install)
