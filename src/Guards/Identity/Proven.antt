-- ===== src/Guards/Identity/Proven.antt =====
-- `check_bmc_identity` (jobs/lib/bmc_identity.py) is passed only by the Device's own BMC.
use nautobot_proxmox.Prelude.{◌≡◌, sym, false, not, not-false, is_empty}
use nautobot_proxmox.Prelude.Text.{Text, codes, text_eq, text_eq_iff, strip}
use nautobot_proxmox.Python.Value.{Value, get, truthy, str_of, fields_of}
use nautobot_proxmox.Python.Result.{unless-eq-ok, ok_inj, ok}
use nautobot_proxmox.Guards.Identity.{
  norm, check_reported, check_bmc_identity, no_device_serial, read_error, no_bmc_serial,
}

module _ (repr : Value → Text) where
  -- The BMC was read, and reports the Device's serial, up to case and blanks at the ends.
  pub record IsProven (system_info device_serial : Value) (serial : Text) : Type 0 where
    pub known : is_empty (norm repr device_serial) ≡ false
    pub readable : truthy (get (codes "error") (fields_of system_info)) ≡ false
    pub same :
        norm repr (get (codes "serial_number") (fields_of system_info)) ≡ norm repr device_serial
    pub reported :
        serial ≡ strip (str_of repr (get (codes "serial_number") (fields_of system_info)))

  -- The check returns a serial only if the Device has one, the BMC could be read, and the BMC reports
  -- that serial, up to case and blanks at the ends; what it returns is the reported serial without
  -- these blanks.
  pub check_bmc_identity-IsProven :
      (system_info device_serial : Value) (serial : Text)
      → check_bmc_identity repr system_info device_serial ≡ ok serial
      → IsProven system_info device_serial serial
  unfolding check_bmc_identity check_reported
  check_bmc_identity-IsProven system_info device_serial serial h =
      let reported = get (codes "serial_number") (fields_of system_info) in
      let (known, h₁) = unless-eq-ok (is_empty (norm repr device_serial)) no_device_serial _ h in
      let (readable, h₂) =
        unless-eq-ok (truthy (get (codes "error") (fields_of system_info))) read_error _ h₁ in
      let (there, h₃) = unless-eq-ok (is_empty (norm repr reported)) no_bmc_serial _ h₂ in
      let (equal, done) =
        unless-eq-ok (not (text_eq (norm repr reported) (norm repr device_serial))) _ _ h₃ in
      record {
        known = known;
        readable = readable;
        same = (text_eq_iff (norm repr reported) (norm repr device_serial)).0 (not-false _ equal);
        reported = sym (ok_inj _ serial done);
      }
