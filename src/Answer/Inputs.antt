-- ===== src/Answer/Inputs.antt =====
-- bmc/answer_service/app.py: what the firstboot script takes from the host_baseline config context. The
-- notes for the log are left out.
pub mod Checked
use nautobot_proxmox.Prelude.{
  ℕ, ◌-◌, ◌*◌, Bool, false, not, Option, none, some, List, [], ◌∷◌, ◌++◌, map, leb, ◌==◌,
  if◌then◌else◌, take, any, filter, is_empty,
}
use nautobot_proxmox.Prelude.Text.{Text, codes, text_ltb, mem_text}
use nautobot_proxmox.Prelude.Sort.{sort}
use nautobot_proxmox.Python.Value.{
  Value, Dict, elems, entries, get_or, get, print_nat, pos, null, bool, int, str, list, dict, empty,
}
use nautobot_proxmox.Python.Result.{unless, ok, Result, ◌>>=◌, err}
use nautobot_proxmox.Answer.Install.{InstallError, SerialPort, serial_console_spec}
use nautobot_proxmox.Baseline.Packages.{required_packages, is_package, append_new}

-- The refusals (status 409), and those of the profile's serial port (status 500).
pub data InputError : Type 0 where
  not_mapping packages_not_list console_not_mapping bad_speed bad_word bad_parity bad_stop :
      InputError
  bad_arc bad_nag : InputError
  bad_package : Text → InputError
  unknown_keys : List Text → InputError
  install : InstallError → InputError

pub record Console : Type 0 where
  pub tty : Text
  pub unit : ℕ
  pub speed : ℕ
  pub console_arg : Text
  pub grub_command : Text

pub record Inputs : Type 0 where
  pub packages : List Text
  pub serial : Option Console
  pub zfs_arc_max_bytes : Option ℕ
  pub remove_nag : Bool

-- The loop over the extra packages.
unfoldable pub add_extra : List Text → List Value → Result InputError (List Text)
unfolding is_package append_new
add_extra packages [] = ok packages
add_extra packages (Value.str s ∷ extra) =
    let rest = add_extra (append_new packages s) extra in
    unless (not (is_package s)) (bad_package s) rest
add_extra packages (v ∷ extra) = err (bad_package [])

unfoldable pub read_packages : Value → Result InputError (List Text)
unfolding add_extra
read_packages Value.null = ok required_packages
read_packages (Value.list vs) = add_extra required_packages (elems vs)
read_packages _ = err packages_not_list

-- `SERIAL_SPEEDS`.
abbrev pub serial_speeds : List ℕ
serial_speeds = 9600 ∷ 19200 ∷ 38400 ∷ 57600 ∷ 115200 ∷ []

-- `value in numbers`, and not a Boolean.
unfoldable pub number_in : List ℕ → Value → Option ℕ
number_in ns (Value.int (pos n)) = if any (λ m. m == n) ns then some n else none
number_in ns _ = none

unfoldable pub parity_of : Value → Option Text
unfolding mem_text
parity_of (Value.str s) =
    if mem_text s (codes "no" ∷ codes "odd" ∷ codes "even" ∷ []) then some s else none
parity_of _ = none

-- The values, once each has been looked at.
unfoldable pub console_with :
    SerialPort → Option ℕ → Option ℕ → Option Text → Option ℕ → Result InputError Console
unfolding print_nat
console_with port none word parity stop = err bad_speed
console_with port (some speed) none parity stop = err bad_word
console_with port (some speed) (some word) none stop = err bad_parity
console_with port (some speed) (some word) (some parity) none = err bad_stop
console_with port (some speed) (some word) (some parity) (some stop) = ok (record {
  tty = port.tty;
  unit = port.unit;
  speed = speed;
  console_arg = port.tty ++ codes "," ++ print_nat speed ++ take 1 parity ++ print_nat word;
  grub_command =
      codes "serial --speed="
      ++ print_nat speed
      ++ codes " --unit="
      ++ print_nat port.unit
      ++ codes " --word="
      ++ print_nat word
      ++ codes " --parity="
      ++ parity
      ++ codes " --stop="
      ++ print_nat stop;
})

console_keys : List Text
console_keys = codes "speed" ∷ codes "word" ∷ codes "parity" ∷ codes "stop" ∷ []

-- `set(sc) - {...}`, sorted.
pub extra_console_keys : Dict → List Text
unfolding sort text_ltb mem_text console_keys
extra_console_keys sc =
    sort text_ltb (filter (λ k. not (mem_text k console_keys)) (map (λ e. e.0) sc))

unfoldable pub read_console : SerialPort → Dict → Result InputError Console
unfolding extra_console_keys get get_or number_in parity_of console_with
read_console port sc =
    unless (not (is_empty (extra_console_keys sc))) (unknown_keys (extra_console_keys sc)) (
      console_with port (number_in serial_speeds (get (codes "speed") sc))
        (number_in (5 ∷ 6 ∷ 7 ∷ 8 ∷ []) (get_or (codes "word") (Value.int (pos 8)) sc))
        (parity_of (get_or (codes "parity") (Value.str (codes "no")) sc))
        (number_in (1 ∷ 2 ∷ []) (get_or (codes "stop") (Value.int (pos 1)) sc)))

-- `_serial_console`.
unfoldable pub serial_console : Option SerialPort → Value → Result InputError (Option Console)
unfolding read_console
serial_console none sc = ok none
serial_console (some port) Value.null = ok none
serial_console (some port) (Value.dict fs) = read_console port (entries fs) >>= λ c. ok (some c)
serial_console (some port) sc = err console_not_mapping

-- `ARC_MIN_BYTES`.
abbrev pub arc_min_bytes : ℕ
arc_min_bytes = 64 * 1024 * 1024

unfoldable pub read_arc : Value → Result InputError (Option ℕ)
read_arc Value.null = ok none
read_arc (Value.int (pos n)) = if leb arc_min_bytes n then ok (some n) else err bad_arc
read_arc _ = err bad_arc

unfoldable pub read_nag : Value → Result InputError Bool
read_nag (Value.bool b) = ok b
read_nag _ = err bad_nag

-- `serial_console_spec`, whose refusal passes through.
pub read_port : Dict → Result InputError (Option SerialPort)
unfolding serial_console_spec
read_port profile = elim (serial_console_spec profile) [ err e ↦ err (install e) | ok p ↦ ok p ]

unfoldable pub read_inputs : Dict → Dict → Result InputError Inputs
unfolding read_packages read_port serial_console read_arc read_nag get get_or
read_inputs hb profile = do
  packages ← read_packages (get (codes "packages") hb)
  port ← read_port profile
  serial ← serial_console port (get (codes "serial_console") hb)
  arc ← read_arc (get (codes "zfs_arc_max_bytes") hb)
  nag ← read_nag (get_or (codes "remove_subscription_nag") (Value.bool false) hb)
  ok (record { packages = packages; serial = serial; zfs_arc_max_bytes = arc; remove_nag = nag })

-- The `host_baseline` block: a missing one counts as empty.
unfoldable pub baseline_block : Value → Result InputError Dict
unfolding get
baseline_block (Value.dict fs) = elim (get (codes "host_baseline") (entries fs)) [
  | Value.null ↦ ok []
  | Value.dict gs ↦ ok (entries gs)
  | _ ↦ err not_mapping
]
baseline_block _ = ok []

-- `host_baseline_firstboot`, on the device's config context and the profile's install section.
unfoldable pub host_baseline_firstboot : Value → Dict → Result InputError Inputs
unfolding baseline_block read_inputs
host_baseline_firstboot context profile = baseline_block context >>= λ hb. read_inputs hb profile
