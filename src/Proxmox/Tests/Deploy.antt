-- ===== src/Proxmox/Tests/Deploy.antt =====
-- Runs of `DeployVnfDevice` (jobs/proxmox/deploy_device.py) on a scripted server, and its theorems
-- at these runs.
use nautobot_proxmox.Prelude.Text.{mem_text}
use nautobot_proxmox.Python.Value.{print_nat}
use nautobot_proxmox.Proxmox.Platform.{decimal}
use nautobot_proxmox.Prelude.Sort.{sort}
use nautobot_proxmox.Prelude.{List}
use nautobot_proxmox.Proxmox.Platform.{paloalto_panos, resolve_nic_order, not_contiguous}
use nautobot_proxmox.Proxmox.Platform.Covers.{IsCover, IsNumbered, resolve_nic_order-IsCover}
use nautobot_proxmox.Prelude.Text.{text_eq, strip, starts_with}
use nautobot_proxmox.Python.Value.{get, truthy, str_of, is_digit, int_of}
use nautobot_proxmox.Proxmox.Server.{is_proxmox_error}
use nautobot_proxmox.Proxmox.Values.{iterate, is_str, ends_with}
use nautobot_proxmox.Proxmox.Task.{
  task_exit_outcome, data_of, finish_task, request, poll_status, wait_task,
}
use nautobot_proxmox.Proxmox.Client.{
  require_image_checksum, each, whole, next_vmid, list_vms, vm_config, find_import_volume,
  ensure_image, create_vm, set_vm_config, resize_disk, start_vm,
}
use nautobot_proxmox.Proxmox.Deploy.{
  rollback_vm_decision, vms_named, disk_size_mb, must_grow, number,
}
use nautobot_proxmox.Proxmox.Deploy.Node.{quiet, resize_if, configure, build_vm}
use nautobot_proxmox.Proxmox.Platform.{ubuntu_jumphost}
use nautobot_proxmox.Proxmox.Tests.{
  pop, script, Script, node_client, answer, lab_host, upid, stopped_with, vm_entry,
}
use nautobot_proxmox.Prelude.{◌≡◌, refl, true, none, some, [], ◌∷◌}
use nautobot_proxmox.Prelude.Text.{Text, codes}
use nautobot_proxmox.Python.Value.{Value, pos, empty, item, blank, pair}
use nautobot_proxmox.Python.Result.{err, ok}
use nautobot_proxmox.Proxmox.Server.{HttpReply, response, refused}
use nautobot_proxmox.Proxmox.Record.{VnfDevice}
use nautobot_proxmox.Proxmox.Deploy.{Contract, native_cloudinit, node_failure}
use nautobot_proxmox.Proxmox.Deploy.Node.{deployed, deploy_node, deploy_contract}
use nautobot_proxmox.Proxmox.Deploy.Outcome.{
  deploy_node-Sends, SendsFrom, IsRecorded, deploy_contract-IsRecorded,
}

abbrev pub no_repr : Value → Text
no_repr v = []

abbrev jump1 : Contract
jump1 = record {
  name = codes "jump1";
  device_id = codes "4f";
  node = codes "pve1";
  vm_storage = codes "lvm";
  import_storage = codes "local";
  facts = ubuntu_jumphost;
  machine = Value.str (codes "q35");
  vcpus = Value.int (pos 2);
  memory_mb = Value.int (pos 4096);
  disk_gb = Value.int (pos 32);
  net_params = [];
  day0 = native_cloudinit ((codes "ipconfig0", Value.str (codes "ip=dhcp")) ∷ []);
  image_name = codes "u.img";
  image_url = codes "http://i";
  image_checksum = some (codes "abc");
  image_algorithm = none;
}

abbrev jump1_row : VnfDevice
jump1_row = record {
  name = codes "jump1";
  status = codes "Planned";
  vmid = Value.null;
  day0_builder = some (Value.str (codes "native-cloudinit"));
  hosted_on = some lab_host;
}

abbrev image_there : HttpReply
image_there = answer (
    Value.list (
      item (Value.dict (pair (codes "volid") (Value.str (codes "local:import/u.img")) blank))
        empty))

abbrev config_3g : HttpReply
config_3g =
    answer (Value.dict (pair (codes "scsi0") (Value.str (codes "lvm:vm-105-disk-0,size=3G")) blank))

-- The image is there, and the new VM is created, grown, configured and started.
abbrev pub good_run : Script
good_run = (
  answer (Value.list empty)
      ∷ image_there
      ∷ answer (Value.str (codes "105"))
      ∷ upid
      ∷ stopped_with "OK"
      ∷ config_3g
      ∷ answer Value.null
      ∷ answer Value.null
      ∷ upid
      ∷ stopped_with "OK"
      ∷ [],
  0,
)

-- The vmid is taken by another VM meanwhile: the create fails and the rollback leaves it alone.
abbrev lost_race : Script
lost_race = (
  answer (Value.list empty)
      ∷ image_there
      ∷ answer (Value.str (codes "105"))
      ∷ response 400 none
      ∷ answer (Value.list (item (vm_entry 105 "jump2" "running") empty))
      ∷ upid
      ∷ [],
  0,
)

good_run_deploys :
    deploy_contract script node_client no_repr (λ d. true) jump1 (good_run, jump1_row)
    ≡ (ok (pos 105), (([], 0), deployed jump1_row (pos 105)))
unfolding deploy_contract deploy_node list_vms request data_of pop each iterate get text_eq
    vms_named ensure_image require_image_checksum find_import_volume strip ends_with starts_with
    next_vmid int_of number create_vm wait_task poll_status finish_task task_exit_outcome is_str
    vm_config disk_size_mb resize_disk set_vm_config start_vm is_digit must_grow build_vm resize_if
    configure
good_run_deploys = refl

lost_race_spares :
    deploy_contract script node_client no_repr (λ d. true) jump1 (lost_race, jump1_row)
    ≡ (err (node_failure (refused 400)), ((upid ∷ [], 0), jump1_row))
unfolding deploy_contract deploy_node list_vms request data_of pop each iterate get text_eq
    vms_named ensure_image require_image_checksum find_import_volume strip ends_with starts_with
    next_vmid int_of number create_vm wait_task poll_status rollback_vm_decision truthy str_of whole
    quiet is_proxmox_error is_str
lost_race_spares = refl

deploy_node-Sends_example :
    SendsFrom script node_client no_repr jump1 lost_race
      (deploy_node script node_client no_repr jump1 lost_race)
deploy_node-Sends_example = deploy_node-Sends script node_client no_repr jump1 lost_race

deploy_contract-IsRecorded_example :
    IsRecorded script node_client no_repr jump1 jump1_row good_run
      (deploy_contract script node_client no_repr (λ d. true) jump1 (good_run, jump1_row))
deploy_contract-IsRecorded_example =
    deploy_contract-IsRecorded script node_client no_repr jump1 (λ d. true) jump1_row good_run

abbrev fw_names : List Text
fw_names = codes "ethernet1/2" ∷ codes "mgmt" ∷ codes "ethernet1/1" ∷ []

abbrev fw_order : List Text
fw_order = codes "mgmt" ∷ codes "ethernet1/1" ∷ codes "ethernet1/2" ∷ []

fw_ordered : resolve_nic_order paloalto_panos fw_names ≡ ok fw_order
unfolding resolve_nic_order mem_text text_eq starts_with ends_with decimal print_nat sort
fw_ordered = refl

-- A gap is refused.
fw_gap :
    resolve_nic_order paloalto_panos (codes "mgmt" ∷ codes "ethernet1/2" ∷ [])
    ≡ err (not_contiguous (2 ∷ []))
unfolding resolve_nic_order mem_text text_eq starts_with ends_with decimal print_nat sort
fw_gap = refl

resolve_nic_order-IsCover_example :
    IsNumbered (codes "mgmt") (codes "ethernet1/") [] fw_order × IsCover fw_order fw_names
resolve_nic_order-IsCover_example =
    resolve_nic_order-IsCover paloalto_panos (codes "mgmt") (codes "ethernet1/") [] fw_names
      fw_order refl fw_ordered
