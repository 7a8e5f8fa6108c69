-- ===== src/Proxmox/Deploy/Sends.antt =====
-- Every request of `DeployVnfDevice` (jobs/proxmox/deploy_device.py) on the node.
use nautobot_proxmox.Prelude.{◌≡◌, refl, ap, ◌∙◌, ◌⊎◌, inr, true, Option, none, some, ◌∷◌, arith}
use nautobot_proxmox.Prelude.Text.{Text, codes}
use nautobot_proxmox.Python.Value.{ℤ, Value, Dict}
use nautobot_proxmox.Python.Result.{Result, err, ok}
use nautobot_proxmox.Python.Assoc.{lookup}
use nautobot_proxmox.Proxmox.Server.{
  Method, ProxmoxClient, Server, Failure, http_post, http_put, http_delete, http_upload,
}
use nautobot_proxmox.Proxmox.Values.{ends_with}
use nautobot_proxmox.Proxmox.Trace.{
  Trace, Trace-trans, Within, Within-and_then, Trace-and_then, Within-bind, Reads, here,
}
use nautobot_proxmox.Proxmox.Client.{
  nodes_path, vm_path, destroy_path, stop_path, volume_path, volid_in, list_vms, delete_volume,
  stop_vm, destroy_vm,
}
use nautobot_proxmox.Proxmox.Client.Requests.{
  list_vms-Within, stop_vm-Within, destroy_vm-Within, delete_volume-Within,
}
use nautobot_proxmox.Proxmox.Client.Verified.{Pulls}
use nautobot_proxmox.Proxmox.Decommission.{bootstrap_iso}
use nautobot_proxmox.Proxmox.Deploy.{
  Contract, RollbackAction, rollback_vm_decision, absent, destroy, foreign,
}
use nautobot_proxmox.Proxmox.Deploy.Node.{
  quiet, of_node, delete_iso, undo, remove_vm, roll_back, raise_after, unless_built,
}
use nautobot_proxmox.Proxmox.Deploy.Rollback.{Lists, rollback_vm_decision-Lists}

module _ (srv : Server) (c : ProxmoxClient) (repr : Value → Text) (k : Contract) where
  open srv use {State, send, sleep}

  abbrev pub own_iso : Text
  own_iso = volid_in k.import_storage (codes "iso") (bootstrap_iso k.name)

  -- At `u` the node lists a VM with the vmid and the device's name.
  abbrev pub OwnedAt : State → ℤ → Type 0
  OwnedAt u n =
      (vms : Value) × (t : State) × (list_vms srv c k.node u ≡ (ok vms, t))
      × Lists repr vms n k.name

  of_node-state : {A : Type 0} (p : Result Failure A × State) → (of_node p).1 ≡ p.1
  unfolding of_node
  of_node-state (err why, t) = refl
  of_node-state (ok a, t) = refl

  pub of_node-ok :
      {A : Type 0} (p : Result Failure A × State) (a : A) (t : State)
      → of_node p ≡ (ok a, t)
      → p ≡ (ok a, t)
  unfolding of_node
  of_node-ok (err why, u) a t h = absurd (ground arith)
  of_node-ok (ok b, u) a t h = ground arith

  pub quiet-state : (p : Result Failure (Unit {0}) × State) → (quiet p).1 ≡ p.1
  unfolding quiet
  quiet-state (ok done, t) = refl
  quiet-state (err why, t) = ground arith

  raise_after-state :
      (why : Failure) (p : Result Failure (Unit {0}) × State)
      → (raise_after srv c repr why p).1 ≡ p.1
  unfolding raise_after
  raise_after-state why (ok done, t) = refl
  raise_after-state why (err later, t) = refl

module _ (srv : Server) (c : ProxmoxClient) (repr : Value → Text) (k : Contract) (vmid : ℤ) where
  open srv use {State, send, sleep}

  -- The requests of a deploy whose new VM has the vmid.
  pub data Sends : Method → Text → Dict → Type 0 where
    reading : {m : Method} {path : Text} {params : Dict} → Reads m path params → Sends m path params
    -- The image, verified by its checksum.
    verified :
        {m : Method} {path : Text} {params : Dict}
        → Pulls k.node k.import_storage k.image_checksum m path params
        → Sends m path params
    -- The VM, with the vmid and the device's name.
    creating :
        {params : Dict}
        → lookup (codes "vmid") params ≡ some (Value.int vmid)
        → lookup (codes "name") params ≡ some (Value.str k.name)
        → Sends http_post (nodes_path k.node (codes "/qemu")) params
    resizing : {params : Dict} → Sends http_put (vm_path k.node vmid (codes "/resize")) params
    configuring : {params : Dict} → Sends http_put (vm_path k.node vmid (codes "/config")) params
    starting :
        {params : Dict} → Sends http_post (vm_path k.node vmid (codes "/status/start")) params
    uploading :
        {path : Text} {params : Dict} (file : Text)
        → Sends (http_upload (bootstrap_iso k.name) file) path params
    -- The bootstrap ISO of that name on the import storage.
    clearing :
        {params : Dict} (volid : Text)
        → (ends_with (b'/' ∷ bootstrap_iso k.name) volid ≡ true) ⊎ (volid ≡ own_iso srv c repr k)
        → Sends http_delete (volume_path k.node k.import_storage volid) params
    -- The same VM, where the node lists it with the device's name.
    stopping :
        {params : Dict} (u : State)
        → OwnedAt srv c repr k u vmid
        → Sends http_post (stop_path k.node vmid) params
    destroying :
        {params : Dict} (u : State)
        → OwnedAt srv c repr k u vmid
        → Sends http_delete (destroy_path k.node vmid) params

  pub reads : (m : Method) (path : Text) (params : Dict) → Reads m path params → Sends m path params
  reads m path params h = reading h

  pub of_node-Trace :
      {A : Type 0} (t : State) (p : Result Failure A × State)
      → Trace srv Sends t p.1
      → Trace srv Sends t (of_node p).1
  of_node-Trace t p a = rw (of_node-state srv c repr k p) a

  pub delete_iso-Trace :
      (o : Option Text) (t : State)
      → ((volid : Text)
          → o ≡ some volid
          → (ends_with (b'/' ∷ bootstrap_iso k.name) volid ≡ true) ⊎ (volid ≡ own_iso srv c repr k))
      → Trace srv Sends t (delete_iso srv c repr k o t).1
  unfolding delete_iso
  delete_iso-Trace none t own = here
  delete_iso-Trace (some volid) t own =
      rw (quiet-state srv c repr k (delete_volume srv c k.node k.import_storage volid t)) (
        delete_volume-Within srv c Sends reads k.node k.import_storage volid
          (clearing volid (own volid refl)) t)

  undo-Trace :
      (action : RollbackAction) (u t : State)
      → (action ≡ destroy → OwnedAt srv c repr k u vmid)
      → Trace srv Sends t (undo srv c repr action k.node vmid t).1
  unfolding undo
  undo-Trace absent u t own = here
  undo-Trace foreign u t own = here
  undo-Trace destroy u t own =
      Within-bind srv Sends (stop_vm srv c k.node vmid) (λ x. destroy_vm srv c k.node vmid)
        (stop_vm-Within srv c Sends reads k.node vmid (stopping u (own refl)))
        (λ x. destroy_vm-Within srv c Sends reads k.node vmid (destroying u (own refl))) t

  remove_vm-Within : Within srv Sends (remove_vm srv c repr k vmid)
  unfolding remove_vm
  remove_vm-Within s =
      Trace-and_then srv Sends s (list_vms srv c k.node s) _
        (list_vms-Within srv c Sends reads k.node s)
        (λ vms t e.
          Trace-and_then srv Sends t (rollback_vm_decision repr vms vmid k.name, t) _ here
            (λ action u d. undo-Trace action s u (λ same. (
              vms,
              t,
              e,
              rollback_vm_decision-Lists repr vms vmid k.name
                  (ap (λ (p : Result Failure RollbackAction × State). p.0) d ∙ ap ok same),
            ))))

  roll_back-Trace :
      (o : Option Text) (t : State)
      → ((volid : Text) → o ≡ some volid → volid ≡ own_iso srv c repr k)
      → Trace srv Sends t (roll_back srv c repr k vmid o t).1
  unfolding roll_back
  roll_back-Trace o t own =
      Within-and_then srv Sends t (quiet (remove_vm srv c repr k vmid t))
        (λ x. delete_iso srv c repr k o)
        (rw (quiet-state srv c repr k (remove_vm srv c repr k vmid t)) (remove_vm-Within t))
        (λ x u. delete_iso-Trace o u (λ volid e. inr (own volid e)))

  pub unless_built-Trace :
      (o : Option Text) (s : State) (p : Result Failure (Unit {0}) × State)
      → ((volid : Text) → o ≡ some volid → volid ≡ own_iso srv c repr k)
      → Trace srv Sends s p.1
      → Trace srv Sends s (unless_built srv c repr k vmid o p).1
  unfolding unless_built
  unless_built-Trace o s (ok done, t) own a = a
  unless_built-Trace o s (err why, t) own a =
      rw (raise_after-state srv c repr k why (roll_back srv c repr k vmid o t))
        (Trace-trans srv a (roll_back-Trace o t own))
