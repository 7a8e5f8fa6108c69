-- ===== src/Proxmox/Tests/Contract.antt =====
-- The contract of `DeployVnfDevice` (jobs/proxmox/deploy_device.py) read from the rows of a jump host
-- and of a firewall, and its theorem at these runs.
use nautobot_proxmox.Prelude.{◌≡◌, refl}
use nautobot_proxmox.Python.Value.{Dict}
use nautobot_proxmox.Python.Result.{err, ok}
use nautobot_proxmox.Proxmox.Contract.{no_secret}
use nautobot_proxmox.Prelude.Text.{text_eq, strip, mem_text, starts_with, lower}
use nautobot_proxmox.Prelude.Sort.{sort}
use nautobot_proxmox.Python.Assoc.{lookup}
use nautobot_proxmox.Python.Value.{print_nat}
use nautobot_proxmox.Python.Pattern.{matches_dollar, repeated, is_alnum}
use nautobot_proxmox.Proxmox.Platform.{get_platform_facts, resolve_nic_order, decimal}
use nautobot_proxmox.Proxmox.Values.{is_str, ends_with}
use nautobot_proxmox.Proxmox.Client.{require_image_checksum}
use nautobot_proxmox.Proxmox.Record.{resolve_proxmox_credentials}
use nautobot_proxmox.Proxmox.Bootstrap.{render_init_cfg, is_hostname}
use nautobot_proxmox.Proxmox.Contract.{render_nics, gateway_for}
use nautobot_proxmox.Proxmox.Contract.Payload.{pa_render_payload, mgmt_mode, optional_secret}
use Prim.Native.String.{String}
use nautobot_proxmox.Prelude.{ℕ, false, Option, none, some, List, [], ◌∷◌}
use nautobot_proxmox.Prelude.Text.{Text, codes}
use nautobot_proxmox.Python.Value.{Value, pos}
use nautobot_proxmox.Python.Result.{Result}
use nautobot_proxmox.Proxmox.Server.{ProxmoxClient}
use nautobot_proxmox.Proxmox.Record.{Hypervisor, VnfDevice, Vault}
use nautobot_proxmox.Proxmox.Deploy.{Contract}
use nautobot_proxmox.Proxmox.Contract.{Prefix, IpAddress, VmNic, Image, Intent, Violation}
use nautobot_proxmox.Proxmox.Contract.Read.{read_contract}

abbrev lab_prefix : Prefix
lab_prefix = record { gateway = some (codes "10.0.0.1"); dns = codes "10.0.0.53" ∷ [] }

abbrev lab_ip : IpAddress
lab_ip = record {
  pk = codes "ip1";
  address = codes "10.0.0.5/24";
  host = codes "10.0.0.5";
  ip_version = 4;
  netmask = codes "255.255.255.0";
  parent = some lab_prefix;
}

abbrev nic_named : String → VmNic
nic_named name = record {
  name = codes name;
  mac_address = some (codes "02:00:00:00:00:01");
  untagged_vlan = some 10;
  tagged_vlans = 20 ∷ 30 ∷ [];
  ip_addresses = lab_ip ∷ [];
}

abbrev noble : Image
noble = record {
  file_name = codes "u.img";
  url = codes "http://i";
  checksum = some (codes "abc");
  algorithm = none;
  is_default = false;
}

abbrev console_vault : Vault
console_vault = record {
  groups = [];
  secrets =
      (codes "proxmox_token_id", some (codes "nb@pve!nb"))
      ∷ (codes "proxmox_token_secret", some (codes "s"))
      ∷ (codes "jumphost_console_password", some (codes "pw"))
      ∷ (codes "pa_admin_password", some (codes " "))
      ∷ [];
}

abbrev ready_host : Hypervisor
ready_host = record {
  name = codes "pve1";
  primary_ip4 = some (codes "10.0.0.2");
  secrets_group = none;
  vm_bridge = some (codes "vmbr0");
  mgmt_bridge = some (codes "vmbr1");
  vm_storage = some (codes "lvm");
  import_storage = some (codes "local");
}

abbrev planned_row : String → VnfDevice
planned_row builder = record {
  name = codes "jump1";
  status = codes "Planned";
  vmid = Value.null;
  day0_builder = some (Value.str (codes builder));
  hosted_on = some ready_host;
}

abbrev intent_of : String → String → List VmNic → Intent
intent_of builder platform nics = record {
  row = planned_row builder;
  device_id = codes "4f";
  platform = some (record {
    name = codes platform;
    machine_type = Value.str (codes "q35");
    console_user = Value.str (codes "ops");
  });
  software =
      some (record { version_text = codes "24.04"; status = codes "Active"; images = noble ∷ [] });
  vcpus = Value.int (pos 2);
  memory_mb = Value.int (pos 4096);
  disk_gb = Value.int (pos 32);
  primary_ip4 = some lab_ip;
  interfaces = nics;
  pa_mgmt_mode = none;
}

abbrev jump_host : Intent
jump_host = intent_of "native-cloudinit" "ubuntu-jumphost" (nic_named "eth0" ∷ [])

abbrev firewall : Intent
firewall =
    intent_of "pa-bootstrap" "paloalto-panos" (nic_named "mgmt" ∷ nic_named "ethernet1/1" ∷ [])

abbrev digest_of : List ℕ → List ℕ
digest_of bs = 0 ∷ []

abbrev iso_of : Text → Text → Option Text → Option Text
iso_of cfg xml codes_ = some cfg

abbrev read : Intent → Result Violation (Contract × ProxmoxClient)
read k = read_contract digest_of (codes "abcdefgh") iso_of [] k console_vault

abbrev nets : Result Violation (Contract × ProxmoxClient) → Dict
nets (err why) = []
nets (ok (c, api)) = c.net_params

jump_host_reads :
    nets (read jump_host)
    ≡ (codes "net0", Value.str (codes "virtio=02:00:00:00:00:01,bridge=vmbr0,tag=10,trunks=20;30"))
      ∷ []
unfolding read_contract text_eq get_platform_facts is_str require_image_checksum strip render_nics
    resolve_nic_order lookup print_nat resolve_proxmox_credentials
jump_host_reads = refl

-- A blank password is refused before anything is sent.
firewall_refused : read firewall ≡ err (no_secret (codes "pa_admin_password"))
unfolding read_contract text_eq get_platform_facts is_str require_image_checksum strip render_nics
    resolve_nic_order lookup print_nat mem_text starts_with ends_with decimal sort pa_render_payload
    mgmt_mode lower render_init_cfg is_hostname optional_secret matches_dollar repeated is_alnum
    gateway_for
firewall_refused = refl
