-- ===== src/Proxmox/Decommission.antt =====
-- jobs/proxmox/decommission_device.py: the run of the job `DecommissionVnfDevice`, from the record
-- of a device to the requests on its node and the record that is written back.
pub mod Careful
pub mod Outcome
use nautobot_proxmox.Prelude.{
  Bool, true, false, Option, none, some, List, [], ◌∷◌, ◌++◌, ◌==◌, if◌then◌else◌,
}
use nautobot_proxmox.Prelude.Text.{Text, codes, text_eq}
use nautobot_proxmox.Python.Value.{
  ℤ, Value, Dict, entries, get, truthy, int_of, non_empty, null, int, dict,
}
use nautobot_proxmox.Python.Result.{Result, err, ok}
use nautobot_proxmox.Python.Run.{◌>>=◌, Run, pure, lift}
use nautobot_proxmox.Proxmox.Server.{ProxmoxClient, Server, Failure, is_proxmox_error, crash}
use nautobot_proxmox.Proxmox.Values.{is_str, is_int}
use nautobot_proxmox.Proxmox.Client.{
  each, list_vms, find_iso_volume, delete_volume, stop_vm, destroy_vm,
}
use nautobot_proxmox.Proxmox.Record.{
  Hypervisor, VnfDevice, Vault, CredentialError, resolve_proxmox_credentials,
}

pub data Refusal : Type 0 where
  not_active : Text → Refusal
  no_vmid : Refusal
  no_hypervisor : Refusal
  no_address : Refusal
  credentials : CredentialError → Refusal
  -- The VM with the recorded vmid has another name, or none.
  name_mismatch : Value → Refusal
  client : Failure → Refusal
  -- `validated_save` refuses the record.
  invalid_record : Refusal

unfoldable pub of_client : {S A : Type 0} → Result Failure A × S → Result Refusal A × S
of_client (err why, s) = (err (client why), s)
of_client (ok a, s) = (ok a, s)

-- `v.get("vmid") == int(vmid)` for the first entry that it holds of.
unfoldable pub find_vm : Option ℤ → List Value → Result Failure (Option Dict)
find_vm n [] = ok none
find_vm none (v ∷ vs) = err crash
find_vm (some n) (Value.dict fs ∷ vs) =
    let rest = find_vm (some n) vs in
    if is_int n (get (codes "vmid") (entries fs)) then ok (some (entries fs)) else rest
find_vm (some n) (v ∷ vs) = err crash

unfoldable pub is_pa_platform : VnfDevice → Bool
is_pa_platform device = elim device.day0_builder [
  | none ↦ false
  | some builder ↦ is_str (codes "pa-bootstrap") builder
]

unfoldable pub bootstrap_iso : Text → Text
bootstrap_iso name = name ++ codes "-bootstrap.iso"

-- `except ProxmoxError` around the sweep.
unfoldable pub best_effort :
    {S : Type 0} → Result Failure (Unit {0}) × S → Result Refusal (Unit {0}) × S
best_effort (ok done, s) = (ok done, s)
best_effort (err why, s) = if is_proxmox_error why then (ok tt, s) else (err (client why), s)

module _ (srv : Server) (c : ProxmoxClient) where
  open srv use {State, send, sleep}

  unfoldable pub reported_vm : Text → Option ℤ → Run State Failure (Option Dict)
  unfolding list_vms
  reported_vm node n = do v ← list_vms srv c node; vs ← lift (each v); lift (find_vm n vs)

  stop_if : Bool → Text → ℤ → Run State Failure (Unit {0})
  stop_if true node n = stop_vm srv c node n
  stop_if false node n = pure tt

  stop_and_destroy : Text → ℤ → Dict → Run State Failure (Unit {0})
  unfolding stop_if
  stop_and_destroy node n vm = do
    _ ← stop_if (is_str (codes "running") (get (codes "status") vm)) node n
    destroy_vm srv c node n

  -- `vmid` is a number here, since an entry was found with it.
  destroy_named : Text → Text → Option ℤ → Option Dict → Run State Refusal (Unit {0})
  unfolding of_client stop_and_destroy
  destroy_named name node n none s = (ok tt, s)
  destroy_named name node none (some vm) s = (err (client crash), s)
  destroy_named name node (some n) (some vm) s =
      if is_str name (get (codes "name") vm)
      then of_client (stop_and_destroy node n vm s)
      else (err (name_mismatch (get (codes "name") vm)), s)

  delete_orphan : Text → Text → Option Text → Run State Failure (Unit {0})
  delete_orphan node storage none = pure tt
  delete_orphan node storage (some volid) = delete_volume srv c node storage volid

  sweep_storage : Text → Text → Option Text → Run State Refusal (Unit {0})
  unfolding best_effort delete_orphan
  sweep_storage name node none s = (ok tt, s)
  sweep_storage name node (some storage) s = best_effort (
      (find_iso_volume srv c node storage (bootstrap_iso name) >>= λ volid.
      delete_orphan node storage (non_empty volid))
        s)

  sweep : Bool → Text → Text → Option Text → Run State Refusal (Unit {0})
  unfolding sweep_storage
  sweep false name node storage s = (ok tt, s)
  sweep true name node storage s = sweep_storage name node storage s

  -- What the job does on the node.
  unfoldable pub clear_node : VnfDevice → Hypervisor → Run State Refusal (Unit {0})
  unfolding destroy_named sweep
  clear_node device hyp = do
    vm ← λ s. of_client (reported_vm hyp.name (int_of device.vmid) s)
    _ ← destroy_named device.name hyp.name (int_of device.vmid) vm
    sweep (is_pa_platform device) device.name hyp.name (non_empty hyp.import_storage)

-- The state of the node and the row of the device.
abbrev pub VnfWorld : Server → Type 0
VnfWorld srv = srv.State × VnfDevice

unfoldable pub cleared : VnfDevice → VnfDevice
cleared device = record device { vmid = Value.null; status = codes "Planned" }

-- What is read from the record before the node is touched.
unfoldable pub preflight : Vault → VnfDevice → Result Refusal (Hypervisor × ProxmoxClient)
preflight vault device =
    if text_eq device.status (codes "Active")
    then (if truthy device.vmid
        then elim device.hosted_on [
          | none ↦ err no_hypervisor
          | some hyp ↦ elim hyp.primary_ip4 [
            | none ↦ err no_address
            | some ip ↦ elim (resolve_proxmox_credentials vault hyp) [
              | err why ↦ err (credentials why)
              | ok (token_id, token_secret) ↦
                  ok (hyp, record { host = ip; token_id = token_id; token_secret = token_secret })
            ]
          ]
        ]
        else err no_vmid)
    else err (not_active device.status)

module _ (srv : Server) (vault : Vault) (valid : VnfDevice → Bool) where
  open srv use {State, send, sleep}

  -- The write-back: the row changes only if the record is valid.
  write_back :
      VnfDevice → Result Refusal (Unit {0}) × State → Result Refusal (Unit {0}) × VnfWorld srv
  unfolding cleared
  write_back device (err why, s) = (err why, (s, device))
  write_back device (ok done, s) =
      if valid (cleared device)
      then (ok tt, (s, cleared device))
      else (err invalid_record, (s, device))

  run_checked :
      VnfDevice
      → State
      → Result Refusal (Hypervisor × ProxmoxClient)
      → Result Refusal (Unit {0}) × VnfWorld srv
  unfolding write_back
  run_checked device s (err why) = (err why, (s, device))
  run_checked device s (ok (hyp, c)) = write_back device (clear_node srv c device hyp s)

  unfoldable pub decommission : Run (VnfWorld srv) Refusal (Unit {0})
  unfolding run_checked
  decommission (s, device) = run_checked device s (preflight vault device)
