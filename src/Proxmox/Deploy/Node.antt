-- ===== src/Proxmox/Deploy/Node.antt =====
-- jobs/proxmox/deploy_device.py: the requests of `DeployVnfDevice` in their order, the rollback of a
-- deploy that fails, and the write-back.
use nautobot_proxmox.Python.Assoc.{lookup}
use nautobot_proxmox.Prelude.{
  Bool, true, false, Option, none, some, List, [], ◌∷◌, ◌++◌, if◌then◌else◌,
}
use nautobot_proxmox.Prelude.Text.{Text, codes}
use nautobot_proxmox.Python.Value.{ℤ, Value, Dict, entries, get_or, non_empty}
use nautobot_proxmox.Python.Result.{Result, err, ok}
use nautobot_proxmox.Python.Run.{◌>>=◌, Run, pure, lift}
use nautobot_proxmox.Proxmox.Server.{ProxmoxClient, Server, Failure, is_proxmox_error, crash}
use nautobot_proxmox.Proxmox.Client.{
  each, whole, next_vmid, list_vms, vm_config, storages, find_iso_volume, ensure_image, upload_file,
  delete_volume, create_vm, set_vm_config, resize_disk, start_vm, stop_vm, destroy_vm,
}
use nautobot_proxmox.Proxmox.Record.{VnfDevice}
use nautobot_proxmox.Proxmox.Decommission.{bootstrap_iso, VnfWorld}
use nautobot_proxmox.Proxmox.Deploy.{
  storage_named, allows_iso, vms_named, number, must_grow, vm_params, Day0, Contract, DeployRefusal,
  RollbackAction, rollback_vm_decision, disk_size_mb, native_cloudinit, pa_bootstrap, name_taken,
  no_iso_content, no_bootstrap_iso, node_failure, record_refused, absent, destroy, foreign,
}

-- `except ProxmoxError` that only logs.
unfoldable pub quiet : {S : Type 0} → Result Failure (Unit {0}) × S → Result Failure (Unit {0}) × S
quiet (ok done, s) = (ok done, s)
quiet (err why, s) = if is_proxmox_error why then (ok tt, s) else (err why, s)

unfoldable pub of_node : {S A : Type 0} → Result Failure A × S → Result DeployRefusal A × S
of_node (err why, s) = (err (node_failure why), s)
of_node (ok a, s) = (ok a, s)

unfoldable pub scsi0_of : Value → Result Failure Value
scsi0_of (Value.dict fs) = ok (get_or (codes "scsi0") (Value.str []) (entries fs))
scsi0_of v = err crash

-- The message names the vmid of the VM, which raises KeyError where it has none.
taken_refusal : Option Value → DeployRefusal
taken_refusal none = node_failure crash
taken_refusal (some vmid) = name_taken

unfoldable pub deployed : VnfDevice → ℤ → VnfDevice
deployed device vmid = record device { vmid = Value.int vmid; status = codes "Active" }

module _ (srv : Server) (c : ProxmoxClient) (repr : Value → Text) where
  open srv use {State, send, sleep}

  unfoldable pub each_of : Run State Failure Value → Run State Failure (List Value)
  each_of run = do v ← run; lift (each v)

  -- No VM of the device's name may be there.
  unfoldable pub refuse_taken : List Dict → Run State DeployRefusal (Unit {0})
  unfolding taken_refusal lookup
  refuse_taken [] = pure tt
  refuse_taken (vm ∷ vms) = lift (err (taken_refusal (lookup (codes "vmid") vm)))

  unfoldable pub delete_iso : Contract → Option Text → Run State Failure (Unit {0})
  unfolding quiet
  delete_iso k none s = (ok tt, s)
  delete_iso k (some volid) s = quiet (delete_volume srv c k.node k.import_storage volid s)

  unfoldable pub upload_iso : Contract → Option Text → Run State DeployRefusal (Text × Option Text)
  unfolding of_node
  upload_iso k none = lift (err no_bootstrap_iso)
  upload_iso k (some file) = do
    volid ← λ s. of_node (
        upload_file srv c k.node k.import_storage (some file) (codes "iso") (bootstrap_iso k.name)
          s)
    pure (volid ++ codes ",media=cdrom", some volid)

  unfoldable pub iso_if :
      Bool → Contract → Option Text → Run State DeployRefusal (Text × Option Text)
  unfolding upload_iso delete_iso of_node
  iso_if false k file = lift (err no_iso_content)
  iso_if true k file = do
    stale ← λ s. of_node (find_iso_volume srv c k.node k.import_storage (bootstrap_iso k.name) s)
    _ ← λ s. of_node (delete_iso k (non_empty stale) s)
    upload_iso k file

  unfoldable pub takes_iso : Contract → Run State Failure Bool
  unfolding each_of
  takes_iso k = do
    vs ← each_of (storages srv c k.node)
    entry ← lift (storage_named k.import_storage vs)
    lift (allows_iso entry)

  -- The drive `ide2`, and the volume of the bootstrap ISO if there is one.
  unfoldable pub day0_drive : Contract → Day0 → Run State DeployRefusal (Text × Option Text)
  unfolding iso_if takes_iso of_node
  day0_drive k (native_cloudinit ci) = pure (k.vm_storage ++ codes ":cloudinit", none)
  day0_drive k (pa_bootstrap file) = do takes ← λ s. of_node (takes_iso k s); iso_if takes k file

  unfoldable pub ignore_result : Result Failure Value × State → Result Failure (Unit {0}) × State
  ignore_result (err why, s) = (err why, s)
  ignore_result (ok v, s) = (ok tt, s)

  unfoldable pub resize_if : Bool → Contract → ℤ → ℤ → Run State Failure (Unit {0})
  unfolding quiet ignore_result
  resize_if true k vmid gb s =
      quiet
        (ignore_result (resize_disk srv c k.node vmid (codes "scsi0") (whole gb ++ codes "G") s))
  resize_if false k vmid gb s = (ok tt, s)

  unfoldable pub configure : Contract → ℤ → Day0 → Run State Failure (Unit {0})
  configure k vmid (native_cloudinit ci) = set_vm_config srv c k.node vmid ci
  configure k vmid (pa_bootstrap file) = pure tt

  -- The body of the `try`.
  unfoldable pub build_vm : Contract → ℤ → Dict → Run State Failure (Unit {0})
  unfolding scsi0_of resize_if configure
  build_vm k vmid params = do
    _ ← create_vm srv c k.node params
    cfg ← vm_config srv c k.node vmid
    drive ← lift (scsi0_of cfg)
    size ← lift (disk_size_mb drive)
    gb ← lift (number k.disk_gb)
    _ ← resize_if (must_grow gb size) k vmid gb
    _ ← configure k vmid k.day0
    start_vm srv c k.node vmid

  unfoldable pub undo : RollbackAction → Text → ℤ → Run State Failure (Unit {0})
  undo absent node vmid = pure tt
  undo foreign node vmid = pure tt
  undo destroy node vmid = do _ ← stop_vm srv c node vmid; destroy_vm srv c node vmid

  unfoldable pub remove_vm : Contract → ℤ → Run State Failure (Unit {0})
  unfolding undo
  remove_vm k vmid = do
    vms ← list_vms srv c k.node
    action ← lift (rollback_vm_decision repr vms vmid k.name)
    undo action k.node vmid

  -- The `except` block: it ends in the first failure, or in one of its own that no guard catches.
  unfoldable pub roll_back : Contract → ℤ → Option Text → Run State Failure (Unit {0})
  unfolding remove_vm delete_iso quiet
  roll_back k vmid iso = do _ ← λ s. quiet (remove_vm k vmid s); delete_iso k iso

  unfoldable pub raise_after :
      Failure → Result Failure (Unit {0}) × State → Result DeployRefusal ℤ × State
  raise_after why (ok done, s) = (err (node_failure why), s)
  raise_after why (err later, s) = (err (node_failure later), s)

  unfoldable pub unless_built :
      Contract
      → ℤ
      → Option Text
      → Result Failure (Unit {0}) × State
      → Result DeployRefusal ℤ × State
  unfolding roll_back raise_after
  unless_built k vmid iso (ok done, s) = (ok vmid, s)
  unless_built k vmid iso (err why, s) = raise_after why (roll_back k vmid iso s)

  -- From the collision check to the start of the VM; the vmid is what the run returns.
  unfoldable pub deploy_node : Contract → Run State DeployRefusal ℤ
  unfolding each_of refuse_taken day0_drive build_vm unless_built of_node
  deploy_node k = do
    vms ← λ s. of_node (each_of (list_vms srv c k.node) s)
    taken ← λ s. of_node (vms_named k.name vms, s)
    _ ← refuse_taken taken
    volid ← λ s. of_node (
        ensure_image srv c k.node k.import_storage k.image_name k.image_url k.image_checksum
          k.image_algorithm s)
    vmid ← λ s. of_node (next_vmid srv c s)
    memory ← λ s. of_node (number k.memory_mb, s)
    cores ← λ s. of_node (number k.vcpus, s)
    drive ← day0_drive k k.day0
    λ s.
        unless_built k vmid drive.1
          (build_vm k vmid (vm_params k vmid volid memory cores drive.0) s)

module _ (srv : Server) (c : ProxmoxClient) (repr : Value → Text) (valid : VnfDevice → Bool) where
  open srv use {State, send, sleep}

  -- The write-back: the row changes only if the record is valid.
  unfoldable pub record_vmid :
      VnfDevice → Result DeployRefusal ℤ × State → Result DeployRefusal ℤ × VnfWorld srv
  unfolding deployed
  record_vmid device (err why, s) = (err why, (s, device))
  record_vmid device (ok vmid, s) =
      if valid (deployed device vmid)
      then (ok vmid, (s, deployed device vmid))
      else (err record_refused, (s, device))

  -- The node's part and the write-back of a device whose contract is read.
  unfoldable pub deploy_contract : Contract → Run (VnfWorld srv) DeployRefusal ℤ
  unfolding record_vmid
  deploy_contract k (s, device) = record_vmid device (deploy_node srv c repr k s)
