-- ===== src/Guards/Identity.antt =====
-- jobs/lib/bmc_identity.py: is the BMC at the Device's address that of the Device?
pub mod Proven
use nautobot_proxmox.Prelude.{not, is_empty}
use nautobot_proxmox.Prelude.Text.{Text, codes, text_eq, upper, strip}
use nautobot_proxmox.Python.Value.{Value, get, truthy, str_of, fields_of, str_or_empty}
use nautobot_proxmox.Python.Result.{unless, Result, ok}

-- The refusals.
pub data IdentityError : Type 0 where
  no_device_serial read_error no_bmc_serial : IdentityError
  another_machine : Text → IdentityError

module _ (repr : Value → Text) where
  -- `_norm`.
  unfoldable pub norm : Value → Text
  unfolding upper strip str_or_empty
  norm serial = upper (strip (str_or_empty repr serial))

  -- From the reported serial on.
  unfoldable pub check_reported : Text → Value → Result IdentityError Text
  unfolding norm strip str_of text_eq
  check_reported expected serial = unless (is_empty (norm serial)) no_bmc_serial (
      unless (not (text_eq (norm serial) expected)) (another_machine (strip (str_of repr serial)))
        (ok (strip (str_of repr serial))))

  -- `check_bmc_identity`.
  unfoldable pub check_bmc_identity : Value → Value → Result IdentityError Text
  unfolding norm get truthy check_reported
  check_bmc_identity system_info device_serial =
      let info = fields_of system_info in
      unless (is_empty (norm device_serial)) no_device_serial (
        unless (truthy (get (codes "error") info)) read_error
          (check_reported (norm device_serial) (get (codes "serial_number") info)))
