-- ===== src/Proxmox/Deploy.antt =====
-- jobs/proxmox/deploy_device.py: what the run of `DeployVnfDevice` does on the node once the
-- contract is read, its rollback, and the record that it writes back.
pub mod Node
pub mod Rollback
pub mod Sends
pub mod Steps
pub mod Outcome
use nautobot_proxmox.Prelude.{
  ℕ, ◌+◌, ◌-◌, ◌*◌, Bool, true, false, not, ◌&&◌, Option, none, some, List, [], ◌∷◌, ◌++◌, ltb,
  ◌==◌, if◌then◌else◌, drop, any, is_empty,
}
use nautobot_proxmox.Prelude.Text.{Text, codes, text_eq, starts_with, is_infix}
use nautobot_proxmox.Python.Value.{
  ℤ, Value, Dict, elems, entries, get, truthy, str_of, is_digit, int_of, pos, negsuc, int, str,
  list, dict,
}
use nautobot_proxmox.Python.Result.{◌>>=◌, Result, err, ok}
use nautobot_proxmox.Proxmox.Server.{Failure, crash}
use nautobot_proxmox.Proxmox.Values.{is_str}
use nautobot_proxmox.Proxmox.Client.{each, whole}
use nautobot_proxmox.Proxmox.Platform.{Facts}

-- The texts of the PA bootstrap package, and what the ISO library makes of them, `none` where it
-- refuses.
pub data Day0 : Type 0 where
  -- The cloud-init block.
  native_cloudinit : Dict → Day0
  pa_bootstrap : Option Text → Day0

-- What the checks on the records have gathered.
pub record Contract : Type 0 where
  pub name : Text
  pub device_id : Text
  pub node : Text
  pub vm_storage : Text
  pub import_storage : Text
  pub facts : Facts
  pub machine : Value
  pub vcpus : Value
  pub memory_mb : Value
  pub disk_gb : Value
  pub net_params : Dict
  pub day0 : Day0
  pub image_name : Text
  pub image_url : Text
  pub image_checksum : Option Text
  pub image_algorithm : Option Text

pub data DeployRefusal : Type 0 where
  -- A VM of this name is on the node already.
  name_taken : DeployRefusal
  -- The import storage takes no ISO.
  no_iso_content : DeployRefusal
  -- The bootstrap ISO cannot be built.
  no_bootstrap_iso : DeployRefusal
  node_failure : Failure → DeployRefusal
  -- `validated_save` refuses the record.
  record_refused : DeployRefusal

pub data RollbackAction : Type 0 where
  absent : RollbackAction
  destroy : RollbackAction
  foreign : RollbackAction

-- Lists and mappings print as `repr` says.
module _ (repr : Value → Text) where
  -- `next((v for v in vms or [] if str(v.get("vmid")) == str(vmid)), None)`.
  vm_at : Text → List Value → Result Failure (Option Dict)
  vm_at vmid [] = ok none
  vm_at vmid (Value.dict fs ∷ vs) =
      let rest = vm_at vmid vs in
      if text_eq (str_of repr (get (codes "vmid") (entries fs))) vmid
      then ok (some (entries fs))
      else rest
  vm_at vmid (v ∷ vs) = err crash

  action_of : Text → Option Dict → RollbackAction
  action_of expected none = absent
  action_of expected (some vm) =
      if not (is_empty expected) && is_str expected (get (codes "name") vm)
      then destroy
      else foreign

  unfoldable pub rollback_vm_decision : Value → ℤ → Text → Result Failure RollbackAction
  unfolding vm_at action_of
  rollback_vm_decision vms vmid expected = do
    vs ← if truthy vms then each vms else ok []
    vm ← vm_at (whole vmid) vs
    ok (action_of expected vm)

-- The VMs of that name.
unfoldable pub vms_named : Text → List Value → Result Failure (List Dict)
vms_named name [] = ok []
vms_named name (Value.dict fs ∷ vs) = do
  rest ← vms_named name vs
  ok (if is_str name (get (codes "name") (entries fs)) then entries fs ∷ rest else rest)
vms_named name (v ∷ vs) = err crash

-- `size=<digits><unit>` at the start, in MiB.
unit_mb : ℕ → ℕ → Option ℕ
unit_mb n c =
    if c == b'M'
    then some n
    else if c == b'G'
    then some (n * 1024)
    else if c == b'T'
    then some (n * 1048576)
    else none

size_from : Bool → ℕ → Text → Option ℕ
size_from some_digit n [] = none
size_from some_digit n (c ∷ s) =
    let more = size_from true (n * 10 + (c - b'0')) s in
    if is_digit c then more else if some_digit then unit_mb n c else none

search_size : Text → Option ℕ
unfolding size_from unit_mb
search_size [] = none
search_size (c ∷ s) =
    let rest = search_size s in
    elim (if starts_with (codes "size=") (c ∷ s) then size_from false 0 (drop 4 s) else none) [
      | some n ↦ some n
      | none ↦ rest
    ]

-- The size that a drive's configuration shows, in MiB where the source counts GB.
unfoldable pub disk_size_mb : Value → Result Failure (Option ℕ)
unfolding search_size
disk_size_mb (Value.str s) = ok (search_size s)
disk_size_mb v = if truthy v then err crash else ok none

-- `int(disk_gb) > current_gb`.
unfoldable pub must_grow : ℤ → Option ℕ → Bool
must_grow n none = true
must_grow (pos n) (some mb) = ltb mb (n * 1024)
must_grow (negsuc n) (some mb) = false

-- `"iso" in (content or "")`.
has_iso : Value → Result Failure Bool
has_iso (Value.str s) = ok (is_infix (codes "iso") s)
has_iso (Value.list vs) = ok (any (is_str (codes "iso")) (elems vs))
has_iso (Value.dict fs) = ok (any (λ kv. text_eq kv.0 (codes "iso")) (entries fs))
has_iso v = if truthy v then err crash else ok false

-- The first storage of that name.
unfoldable pub storage_named : Text → List Value → Result Failure (Option Dict)
storage_named name [] = ok none
storage_named name (Value.dict fs ∷ vs) =
    let rest = storage_named name vs in
    if is_str name (get (codes "storage") (entries fs)) then ok (some (entries fs)) else rest
storage_named name (v ∷ vs) = err crash

unfoldable pub allows_iso : Option Dict → Result Failure Bool
unfolding has_iso
allows_iso none = ok false
allows_iso (some entry) = has_iso (get (codes "content") entry)

unfoldable pub number : Value → Result Failure ℤ
number v = elim (int_of v) [ none ↦ err crash | some n ↦ ok n ]

flag : Bool → Value
flag b = Value.int (pos (if b then 1 else 0))

-- The parameters of the new VM; `ide2` holds the day-0 drive.
unfoldable pub vm_params : Contract → ℤ → Text → ℤ → ℤ → Text → Dict
unfolding flag
vm_params k vmid volid memory cores ide2 =
    ((codes "vmid", Value.int vmid)
      ∷ (codes "name", Value.str k.name)
      ∷ (codes "memory", Value.int memory)
      ∷ (codes "balloon", Value.int (pos 0))
      ∷ (codes "sockets", Value.int (pos 1))
      ∷ (codes "cores", Value.int cores)
      ∷ (codes "cpu", Value.str (codes "host"))
      ∷ (codes "machine", k.machine)
      ∷ (codes "scsihw", Value.str k.facts.scsihw)
      ∷ (codes "scsi0", Value.str (k.vm_storage ++ codes ":0,import-from=" ++ volid))
      ∷ (codes "agent", flag k.facts.guest_agent)
      ∷ (codes "onboot", Value.int (pos 1))
      ∷ (codes "ostype", Value.str k.facts.ostype)
      ∷ (codes "boot", Value.str (codes "order=scsi0"))
      ∷ (codes "tags", Value.str (codes "nfv;sot-driven"))
      ∷ [])
    ++ (if k.facts.serial_console then (codes "serial0", Value.str (codes "socket")) ∷ [] else [])
    ++ (if k.facts.pin_smbios_uuid
        then (codes "smbios1", Value.str (codes "uuid=" ++ k.device_id)) ∷ []
        else [])
    ++ k.net_params
    ++ ((codes "ide2", Value.str ide2) ∷ [])
