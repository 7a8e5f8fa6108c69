-- ===== src/Proxmox/Tests.antt =====
-- A server that gives the replies of a script and counts the seconds slept, runs of the jobs on it,
-- and the theorems at these runs.
mod Deploy
mod Contract
mod Payload
use nautobot_proxmox.Prelude.Text.{strip, starts_with}
use nautobot_proxmox.Proxmox.Server.{is_unreachable}
use Prim.Native.Nat.{max}
use Prim.Native.String.{String}
use nautobot_proxmox.Prelude.{ℕ, ◌+◌, ◌≤◌, ◌≡◌, refl, true, none, some, List, [], ◌∷◌, arith}
use nautobot_proxmox.Prelude.Text.{codes, text_eq}
use nautobot_proxmox.Python.Value.{Value, get, truthy, int_of, pos, empty, item, blank, pair}
use nautobot_proxmox.Python.Result.{err, ok}
use nautobot_proxmox.Python.Assoc.{lookup}
use nautobot_proxmox.Proxmox.Server.{
  HttpReply, ProxmoxClient, Server, is_proxmox_error, transport_error, response,
}
use nautobot_proxmox.Proxmox.Values.{iterate, is_str, is_int}
use nautobot_proxmox.Proxmox.Trace.{Trace, Reads}
use nautobot_proxmox.Proxmox.Task.{
  task_exit_outcome, data_of, finish_task, request, poll_status, wait_task,
}
use nautobot_proxmox.Proxmox.Task.Ends.{Watched, wait_task-Watched}
use nautobot_proxmox.Proxmox.Task.Facts.{Succeeded, wait_task-Succeeded, wait_task-le}
use nautobot_proxmox.Proxmox.Client.{each, find_iso_volume, ensure_image, stop_vm, destroy_vm}
use nautobot_proxmox.Proxmox.Client.Verified.{Pulls, ensure_image-Pulls}
use nautobot_proxmox.Proxmox.Record.{Hypervisor, VnfDevice, Vault, resolve_proxmox_credentials}
use nautobot_proxmox.Proxmox.Decommission.{
  of_client, find_vm, is_pa_platform, best_effort, reported_vm, clear_node, cleared, preflight,
  decommission, name_mismatch,
}
use nautobot_proxmox.Proxmox.Decommission.Outcome.{
  Recorded, decommission-Recorded, IsCareful, decommission-IsCareful,
}

abbrev Script : Type 0
Script = List HttpReply × ℕ

pop : Script → HttpReply × Script
pop ([], n) = (transport_error, ([], n))
pop (r ∷ rs, n) = (r, (rs, n))

abbrev script : Server
script = record { State = Script; send = λ c m path params s. pop s; sleep = λ k s. (s.0, s.1 + k) }

pop-clock : (s : Script) → (pop s).1.1 ≡ s.1
unfolding pop
pop-clock ([], n) = refl
pop-clock (r ∷ rs, n) = refl

abbrev node_client : ProxmoxClient
node_client = record {
  host = codes "192.0.2.9";
  token_id = codes "nfv@pve!d";
  token_secret = codes "s";
}

-- A body with a `data` entry.
abbrev answer : Value → HttpReply
answer v = response 200 (some (Value.dict (pair (codes "data") v blank)))

abbrev running : HttpReply
running = answer (Value.dict (pair (codes "status") (Value.str (codes "running")) blank))

abbrev stopped_with : String → HttpReply
stopped_with exit = answer (
    Value.dict (
      pair (codes "status") (Value.str (codes "stopped"))
        (pair (codes "exitstatus") (Value.str (codes exit)) blank)))

-- The task runs, the node is away once, and the task has ended with warnings.
abbrev busy : Script
busy = (running ∷ transport_error ∷ stopped_with " WARNINGS: 2" ∷ [], 0)

busy_runs : wait_task script node_client (codes "n") (codes "UPID:1") 600 3 busy ≡ (ok tt, ([], 6))
unfolding wait_task pop poll_status request data_of finish_task task_exit_outcome is_str text_eq get
    is_unreachable strip starts_with
busy_runs = refl

wait_task-Watched_example :
    Watched script node_client
      (codes "n")
      (codes "UPID:1")
      600
      3
      0
      0
      busy
      (wait_task script node_client (codes "n") (codes "UPID:1") 600 3 busy)
wait_task-Watched_example =
    wait_task-Watched script node_client (codes "n") (codes "UPID:1") 600 3 busy (omega arith)

wait_task-Succeeded_example :
    (u : Script) × Trace script Reads busy u
    × Succeeded script node_client (codes "n") (codes "UPID:1") 600 3 u ([], 6)
wait_task-Succeeded_example =
    wait_task-Succeeded script node_client (codes "n") (codes "UPID:1") 600 3 busy ([], 6)
      (omega arith) busy_runs

wait_task-le_example :
    (wait_task script node_client (codes "n") (codes "UPID:1") 600 3 busy).1.1 ≤ 0 + 600 + max 3 30
wait_task-le_example =
    wait_task-le script node_client (codes "n") (codes "UPID:1") 600 3 (λ s. s.1) (λ k s. refl)
      (λ c m path params s. pop-clock s) busy (omega arith)

abbrev vm_entry : ℕ → String → String → Value
vm_entry id name status = Value.dict (
    pair (codes "vmid") (Value.int (pos id)) (
      pair (codes "name") (Value.str (codes name))
        (pair (codes "status") (Value.str (codes status)) blank)))

abbrev lab_host : Hypervisor
lab_host = record {
  name = codes "pve1";
  primary_ip4 = some (codes "192.0.2.9");
  secrets_group = none;
  vm_bridge = some (codes "vmbr0");
  mgmt_bridge = none;
  vm_storage = some (codes "local-lvm");
  import_storage = some (codes "local");
}

abbrev fw1 : VnfDevice
fw1 = record {
  name = codes "fw1";
  status = codes "Active";
  vmid = Value.int (pos 101);
  day0_builder = some (Value.str (codes "pa-bootstrap"));
  hosted_on = some lab_host;
}

abbrev lab_vault : Vault
lab_vault = record {
  groups = [];
  secrets =
      (codes "proxmox_token_id", some (codes "nfv@pve!d"))
      ∷ (codes "proxmox_token_secret", some (codes "s"))
      ∷ [];
}

abbrev upid : HttpReply
upid = answer (Value.str (codes "UPID:1"))

-- The VM is stopped and destroyed, and the sweep fails at the storage.
abbrev fw1_there : Script
fw1_there = (
  answer (
        Value.list
          (item (vm_entry 100 "other" "running") (item (vm_entry 101 "fw1" "running") empty)))
      ∷ upid
      ∷ stopped_with "OK"
      ∷ upid
      ∷ running
      ∷ stopped_with "OK"
      ∷ response 500 none
      ∷ [],
  0,
)

abbrev renamed : Script
renamed = (answer (Value.list (item (vm_entry 101 "fw2" "running") empty)) ∷ upid ∷ [], 0)

fw1_goes :
    decommission script lab_vault (λ d. true) (fw1_there, fw1) ≡ (ok tt, (([], 3), cleared fw1))
unfolding decommission preflight clear_node resolve_proxmox_credentials pop wait_task poll_status
    request data_of finish_task task_exit_outcome is_str text_eq get truthy int_of reported_vm
    find_vm is_int each iterate of_client stop_vm destroy_vm is_pa_platform find_iso_volume
    best_effort is_proxmox_error lookup
fw1_goes = refl

fw1_stays :
    decommission script lab_vault (λ d. true) (renamed, fw1)
    ≡ (err (name_mismatch (Value.str (codes "fw2"))), ((upid ∷ [], 0), fw1))
unfolding decommission preflight clear_node resolve_proxmox_credentials pop request data_of is_str
    text_eq get truthy int_of reported_vm find_vm is_int each iterate of_client lookup
fw1_stays = refl

decommission-Recorded_example :
    Recorded script lab_vault
      (λ d. true)
      fw1
      fw1_there
      (decommission script lab_vault (λ d. true) (fw1_there, fw1))
decommission-Recorded_example = decommission-Recorded script lab_vault (λ d. true) fw1 fw1_there

decommission-IsCareful_example :
    IsCareful script lab_vault (λ d. true) fw1 fw1_there (preflight lab_vault fw1)
decommission-IsCareful_example = decommission-IsCareful script lab_vault (λ d. true) fw1 fw1_there

abbrev no_volumes : Script
no_volumes = (answer (Value.list empty) ∷ upid ∷ stopped_with "OK" ∷ [], 0)

ensure_image-Pulls_example :
    Trace script
      (Pulls (codes "pve1") (codes "local") (some (codes " abc ")))
      no_volumes
      (ensure_image script node_client
        (codes "pve1")
        (codes "local")
        (codes "i.qcow2")
        (codes "http://i")
        (some (codes " abc "))
        none
        no_volumes).1
ensure_image-Pulls_example =
    ensure_image-Pulls (codes "pve1") (codes "local") (some (codes " abc ")) script node_client
      (codes "i.qcow2") (codes "http://i") none no_volumes
