-- ===== src/Answer/Tests/Requests.antt =====
-- The requests and the install section of bmc/answer_service/app.py on one node that is being
-- installed.
use nautobot_proxmox.Answer.Keys.{consume_key}
use nautobot_proxmox.Python.Value.{str_or_empty}
use nautobot_proxmox.Prelude.{◌↔◌}
use nautobot_proxmox.Prelude.Text.{mem_text}
use nautobot_proxmox.Prelude.Sort.{sort}
use nautobot_proxmox.Python.Value.{item, print_nat, empty}
use nautobot_proxmox.Answer.Inputs.{
  Inputs, add_extra, read_packages, number_in, parity_of, console_with, read_console,
  serial_console, read_arc, read_nag, read_inputs,
}
use nautobot_proxmox.Answer.Inputs.Checked.{
  read_packages-agrees, CheckedInputs, read_inputs-CheckedInputs,
}
use nautobot_proxmox.Baseline.Packages.{is_package, append_new, validate_packages}
use nautobot_proxmox.Answer.Install.{serial_console_spec}
use nautobot_proxmox.Prelude.{◌≡◌, refl, true, false, none, some, [], ◌∷◌, ◌++◌, arith}
use nautobot_proxmox.Prelude.Text.{Text, codes, text_eq}
use nautobot_proxmox.Python.Value.{
  Value, Dict, get_or, get, truthy, str_of, int_of, pos, blank, pair,
}
use nautobot_proxmox.Python.Result.{err, ok}
use nautobot_proxmox.Python.Assoc.{lookup}
use nautobot_proxmox.Answer.Keys.{KeyFile, load_keys, ttl_for, entry_valid, peek_key}
use nautobot_proxmox.Answer.Handlers.{
  file_written, Device, World, Times, Calls, patch_taken, failed, webhook_impl, firstboot_impl,
  firstboot_credentials_impl,
}
use nautobot_proxmox.Answer.Handlers.Spent.{CredentialsOutcome, firstboot_credentials_impl-outcome}
use nautobot_proxmox.Answer.Handlers.Minted.{FirstbootOutcome, firstboot_impl-outcome}
use nautobot_proxmox.Answer.Install.{
  DataPool, DataVolume, pool_name, str_or, check_pool, data_pool_spec, check_volume,
  data_volume_spec,
}
use nautobot_proxmox.Answer.Install.Plain.{PlainPool, data_pool_spec-PlainPool}

abbrev key : Text
key = codes "k1"

abbrev key_of : Text → KeyFile
key_of purpose = some ((key, record { serial = codes "S1"; purpose = purpose; issued = 100 }) ∷ [])

abbrev world : Text → World
world purpose = record {
  keys = key_of purpose;
  provisioning_state = some (codes "awaiting_install");
  secrets_group = none;
  token_id_file = none;
  token_secret_file = none;
}

abbrev node : Device
node = record {
  name = codes "pve1";
  provisioning_state = some (codes "awaiting_install");
  address = some (codes "10.0.0.2/24");
}

abbrev times : Times
times = record { peeked = 110; consumed = 112; saved = 112 }

-- The key file cannot be written after the PATCH: the state has advanced and the key is kept.
webhook_unsaved :
    webhook_impl 600 60
      (codes "S1")
      key
      times
      (ok (some node))
      patch_taken
      false
      (world (codes "webhook"))
    ≡ (
      err (failed (codes "save keys")),
      record (world (codes "webhook")) { provisioning_state = some (codes "bm_installed") },
    )
unfolding webhook_impl peek_key entry_valid load_keys lookup text_eq ttl_for consume_key
webhook_unsaved = refl

credentials_good :
    peek_key 600 60 key (codes "S1") (codes "credentials") 112 (key_of (codes "credentials")) ≡ true
unfolding peek_key entry_valid load_keys lookup text_eq ttl_for
credentials_good = refl

abbrev calls : Calls
calls = record {
  id_write = file_written;
  secret_write = file_written;
  registered = true;
  patched = patch_taken;
  saves = true;
}

firstboot_credentials_impl-outcome_example :
    CredentialsOutcome 600 60 true key
      (codes "svc@pve!t")
      (codes "s3")
      (some (codes "10.0.0.2"))
      (ok (some node))
      (world (codes "credentials"))
      (firstboot_credentials_impl 600 60 true
        (codes "S1")
        key
        (codes "svc@pve!t")
        (codes "s3")
        (some (codes "10.0.0.2"))
        times
        (ok (some node))
        calls
        (world (codes "credentials")))
firstboot_credentials_impl-outcome_example =
    firstboot_credentials_impl-outcome 600 60 true (codes "S1") key (codes "svc@pve!t") (codes "s3")
      (some (codes "10.0.0.2")) times (ok (some node)) calls (world (codes "credentials"))
      credentials_good

firstboot_good :
    (peek_key 600 60 key (codes "S1") (codes "firstboot") 111 (key_of (codes "firstboot")) ≡ true)
    × (peek_key 600 60 key (codes "S1") (codes "firstboot") 112 (key_of (codes "firstboot")) ≡ true)
unfolding peek_key entry_valid load_keys lookup text_eq ttl_for
firstboot_good = (refl, refl)

other_key : text_eq (codes "k2") key ≡ false
unfolding text_eq
other_key = refl

firstboot_impl-outcome_example : FirstbootOutcome 600 60 (codes "S1") key (codes "k2") times 111 (
    firstboot_impl 600 60
      (codes "S1")
      key
      times
      (ok (some node))
      true
      (codes "k2")
      111
      (some (codes "#!/bin/sh"))
      true
      true
      (world (codes "firstboot")))
firstboot_impl-outcome_example =
    firstboot_impl-outcome 600 60 (codes "S1") key (codes "k2") times 111
      (world (codes "firstboot")) other_key firstboot_good.0 firstboot_good.1 (omega arith)
      (omega arith) (ok (some node)) true (some (codes "#!/bin/sh")) true true

-- How a list or a mapping prints plays no part here.
abbrev no_repr : Value → Text
no_repr v = []

abbrev pool_install : Dict
pool_install =
    (codes "data_pool", Value.dict (pair (codes "name") (Value.str (codes "tank")) blank)) ∷ []

abbrev tank : DataPool
tank = record {
  name = codes "tank";
  pve_storage = codes "tank";
  raid = codes "mirror";
  select = codes "unused-largest";
  count = pos 2;
  min_size_gib = pos 0;
}

pool_accepted : data_pool_spec no_repr pool_install ≡ ok (some tank)
unfolding data_pool_spec check_pool get get_or lookup truthy text_eq str_or str_or_empty str_of
    pool_name int_of
pool_accepted = refl

data_pool_spec-PlainPool_example : PlainPool no_repr tank
data_pool_spec-PlainPool_example = data_pool_spec-PlainPool no_repr pool_install tank pool_accepted

abbrev volume_install : Dict
volume_install =
    (codes "data_volume", Value.dict (pair (codes "vg") (Value.str (codes "vg0")) blank)) ∷ []

abbrev vg0 : DataVolume
vg0 = record {
  vg = codes "vg0";
  thinpool = codes "data";
  pve_storage = codes "vg0";
  select = codes "unused-largest";
  min_size_gib = pos 0;
}

volume_accepted : data_volume_spec no_repr volume_install ≡ ok (some vg0)
unfolding data_volume_spec check_volume get get_or lookup truthy text_eq str_or str_of pool_name
    int_of
volume_accepted = refl

-- The name pattern's `$` lets a newline at the end through.
newline_pool : pool_name (codes "tank" ++ 10 ∷ []) ≡ true
unfolding pool_name
newline_pool = refl

abbrev baseline : Dict
baseline =
    (
      codes "packages",
      Value.list (item (Value.str (codes "vim")) (item (Value.str (codes "lldpd")) empty)),
    )
    ∷ (codes "serial_console", Value.dict (pair (codes "speed") (Value.int (pos 115200)) blank))
    ∷ (codes "zfs_arc_max_bytes", Value.int (pos 134217728))
    ∷ []

abbrev console_install : Dict
console_install =
    (codes "serial_console", Value.dict (pair (codes "unit") (Value.int (pos 0)) blank)) ∷ []

abbrev sample_inputs : Inputs
sample_inputs = record {
  packages = codes "lldpd" ∷ codes "snmpd" ∷ codes "vim" ∷ [];
  serial = some (record {
    tty = codes "ttyS0";
    unit = 0;
    speed = 115200;
    console_arg = codes "ttyS0,115200n8";
    grub_command = codes "serial --speed=115200 --unit=0 --word=8 --parity=no --stop=1";
  });
  zfs_arc_max_bytes = some 134217728;
  remove_nag = false;
}

inputs_read : read_inputs baseline console_install ≡ ok sample_inputs
unfolding read_inputs read_packages add_extra is_package append_new serial_console_spec
    serial_console read_console number_in parity_of console_with read_arc read_nag get get_or lookup
    text_eq mem_text print_nat sort
inputs_read = refl

read_inputs-CheckedInputs_example : CheckedInputs baseline sample_inputs
read_inputs-CheckedInputs_example =
    read_inputs-CheckedInputs baseline console_install sample_inputs inputs_read

read_packages-agrees_example :
    (read_packages (get (codes "packages") baseline)
      ≡ ok (codes "lldpd" ∷ codes "snmpd" ∷ codes "vim" ∷ []))
    ↔ (validate_packages (get (codes "packages") baseline)
        ≡ (codes "lldpd" ∷ codes "snmpd" ∷ codes "vim" ∷ [], []))
read_packages-agrees_example =
    read_packages-agrees (get (codes "packages") baseline)
      (codes "lldpd" ∷ codes "snmpd" ∷ codes "vim" ∷ [])
