-- ===== src/Answer/Inputs/Checked.antt =====
-- The firstboot inputs (bmc/answer_service/app.py): they are checked, and their packages are those that
-- jobs/lib/host_baseline.py installs.
use nautobot_proxmox.Prelude.{ℕ, true, false, not, Option, none, some, leb, ◌==◌, any, is_empty}
use nautobot_proxmox.Prelude.Text.{codes}
use nautobot_proxmox.Python.Value.{Dict, entries, get_or, get, pos}
use nautobot_proxmox.Python.Result.{unless-eq-ok, bind-eq-ok}
use nautobot_proxmox.Answer.Inputs.{
  Console, Inputs, serial_speeds, number_in, console_with, extra_console_keys, read_console,
  serial_console, arc_min_bytes, read_arc, read_nag, read_port, read_inputs,
}
use nautobot_proxmox.Answer.Install.{SerialPort}
use mathlib.Core.Path.{subst}
use nautobot_proxmox.Prelude.{◌≡◌, ap, ◌↔◌, inl, inr, List, [], ◌∷◌, arith, Bool-cases}
use nautobot_proxmox.Prelude.Text.{Text}
use nautobot_proxmox.Python.Value.{Value, elems}
use nautobot_proxmox.Python.Result.{ok_inj, ok}
use nautobot_proxmox.Answer.Inputs.{add_extra, read_packages}
use nautobot_proxmox.Baseline.Packages.{
  required_packages, is_package, append_new, add_packages, validate_packages,
}

add_extra-agrees :
    (packages : List Text) (extra : List Value) (ps : List Text)
    → (add_extra packages extra ≡ ok ps) ↔ (add_packages packages extra ≡ (ps, []))
unfolding add_extra add_packages
add_extra-agrees packages [] ps =
    (λ h. ap (λ x. (x, [])) (ok_inj packages ps h), λ h. ap (λ x. ok x.0) h)
add_extra-agrees packages (Value.str s ∷ extra) ps = elim (Bool-cases (is_package s)) [
  | inl e ↦ rw e (add_extra-agrees (append_new packages s) extra ps)
  | inr e ↦ rw e (λ h. absurd (ground arith), λ h. absurd (ground arith))
]
add_extra-agrees packages (v ∷ extra) ps = (λ h. absurd (ground arith), λ h. absurd (ground arith))

-- The service accepts a package list with a result exactly if the jobs read that result from it without
-- a problem.
pub read_packages-agrees :
    (v : Value) (ps : List Text) → (read_packages v ≡ ok ps) ↔ (validate_packages v ≡ (ps, []))
unfolding read_packages validate_packages
read_packages-agrees (Value.list vs) ps = add_extra-agrees required_packages (elems vs) ps
read_packages-agrees Value.null ps =
    (λ h. ap (λ x. (x, [])) (ok_inj required_packages ps h), λ h. ap (λ x. ok x.0) h)
read_packages-agrees v ps = (λ h. absurd (ground arith), λ h. absurd (ground arith))

-- Inputs that are checked: their packages are those of the jobs, the console's speed is one that is
-- supported, and the ARC limit is not below the one that ZFS takes.
pub record CheckedInputs (hb : Dict) (i : Inputs) : Type 0 where
  pub packages : validate_packages (get (codes "packages") hb) ≡ (i.packages, [])
  pub speed : (c : Console) → i.serial ≡ some c → any (λ m. m == c.speed) serial_speeds ≡ true
  pub arc : (n : ℕ) → i.zfs_arc_max_bytes ≡ some n → leb arc_min_bytes n ≡ true

number_in-some :
    (ns : List ℕ) (v : Value) (n : ℕ) → number_in ns v ≡ some n → any (λ m. m == n) ns ≡ true
unfolding number_in
number_in-some ns (Value.int (pos k)) n h = elim (Bool-cases (any (λ m. m == k) ns)) [
  | inl e ↦ let same : k ≡ n = ground arith in subst (λ x. any (λ m. m == x) ns ≡ true) same e
  | inr e ↦ absurd (ground arith)
]
number_in-some ns v n h = absurd (ground arith)

console_with-speed :
    (port : SerialPort) (speed word : Option ℕ) (parity : Option Text) (stop : Option ℕ)
    (c : Console)
    → console_with port speed word parity stop ≡ ok c
    → speed ≡ some c.speed
unfolding console_with
console_with-speed port none word parity stop c h = absurd (ground arith)
console_with-speed port (some s) none parity stop c h = absurd (ground arith)
console_with-speed port (some s) (some w) none stop c h = absurd (ground arith)
console_with-speed port (some s) (some w) (some p) none c h = absurd (ground arith)
console_with-speed port (some s) (some w) (some p) (some t) c h =
    ap (λ d. some d.speed) (ok_inj _ c h)

serial_console-speed :
    (port : Option SerialPort) (sc : Value) (o : Option Console) (c : Console)
    → serial_console port sc ≡ ok o
    → o ≡ some c
    → any (λ m. m == c.speed) serial_speeds ≡ true
unfolding serial_console read_console
serial_console-speed none sc o c h e = absurd (ground arith)
serial_console-speed (some port) Value.null o c h e = absurd (ground arith)
serial_console-speed (some port) (Value.dict fs) o c h e =
    let (d, made, done) = bind-eq-ok (read_console port (entries fs)) _ h in
    let same : d ≡ c = ground arith in
    let (clean, built) = unless-eq-ok (not (is_empty (extra_console_keys (entries fs)))) _ _ made in
    let speed =
      console_with-speed port (number_in serial_speeds (get (codes "speed") (entries fs))) _ _ _ d
        built in
    subst (λ x. any (λ m. m == x.speed) serial_speeds ≡ true) same
      (number_in-some serial_speeds (get (codes "speed") (entries fs)) d.speed speed)
serial_console-speed (some port) sc o c h e = absurd (ground arith)

read_arc-bound :
    (v : Value) (o : Option ℕ) (n : ℕ) → read_arc v ≡ ok o → o ≡ some n → leb arc_min_bytes n ≡ true
unfolding read_arc
read_arc-bound Value.null o n h e = absurd (ground arith)
read_arc-bound (Value.int (pos k)) o n h e = elim (Bool-cases (leb arc_min_bytes k)) [
  | inl f ↦ let same : k ≡ n = ground arith in subst (λ x. leb arc_min_bytes x ≡ true) same f
  | inr f ↦ absurd (ground arith)
]
read_arc-bound v o n h e = absurd (ground arith)

-- Firstboot inputs that are read from a host_baseline block are checked: their packages are those that
-- the jobs install, without a problem, the speed of a console is supported, and an ARC limit is at least
-- 64 MiB.
pub read_inputs-CheckedInputs :
    (hb profile : Dict) (i : Inputs) → read_inputs hb profile ≡ ok i → CheckedInputs hb i
unfolding read_inputs
read_inputs-CheckedInputs hb profile i h =
    let (packages, p, h₁) = bind-eq-ok (read_packages (get (codes "packages") hb)) _ h in
    let (port, q, h₂) = bind-eq-ok (read_port profile) _ h₁ in
    let (serial, r, h₃) = bind-eq-ok (serial_console port (get (codes "serial_console") hb)) _ h₂ in
    let (arc, s, h₄) = bind-eq-ok (read_arc (get (codes "zfs_arc_max_bytes") hb)) _ h₃ in
    let (nag, t, h₅) =
      bind-eq-ok (read_nag (get_or (codes "remove_subscription_nag") (Value.bool false) hb)) _ h₄ in
    let same = ok_inj _ i h₅ in
    subst (CheckedInputs hb) same (record {
      packages = (read_packages-agrees (get (codes "packages") hb) packages).0 p;
      speed = λ c e. serial_console-speed port (get (codes "serial_console") hb) serial c r e;
      arc = λ n e. read_arc-bound (get (codes "zfs_arc_max_bytes") hb) arc n s e;
    })
