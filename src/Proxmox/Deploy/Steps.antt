-- ===== src/Proxmox/Deploy/Steps.antt =====
-- The steps of `DeployVnfDevice` (jobs/proxmox/deploy_device.py) on the node, each within the
-- requests that the deploy may send.
use nautobot_proxmox.Proxmox.Client.Requests.{upload_file-volid}
use nautobot_proxmox.Prelude.{
  ◌≡◌, refl, sym, ap, ◌∙◌, inl, Bool, true, false, Option, none, some, [], ◌∷◌, ◌++◌, arith,
  some_inj,
}
use nautobot_proxmox.Prelude.Text.{Text, codes}
use nautobot_proxmox.Python.Value.{ℤ, Value, Dict, non_empty}
use nautobot_proxmox.Python.Result.{Result, err, ok}
use nautobot_proxmox.Python.Run.{Run, and_then, pure}
use nautobot_proxmox.Python.Assoc.{lookup}
use nautobot_proxmox.Proxmox.Server.{Method, ProxmoxClient, Server, Failure, http_put}
use nautobot_proxmox.Proxmox.Trace.{Within, Within-and_then, Trace-and_then, Reads, here}
use nautobot_proxmox.Proxmox.Task.Facts.{request-Within}
use nautobot_proxmox.Proxmox.Client.{
  whole, vm_path, vm_config, storages, find_iso_volume, upload_file, create_vm, resize_disk,
}
use nautobot_proxmox.Proxmox.Client.Requests.{
  find_iso_volume-suffix, find_iso_volume-Within, storages-Within, vm_config-Within,
  create_vm-Within, set_vm_config-Within, start_vm-Within, upload_file-Within,
}
use nautobot_proxmox.Proxmox.Decommission.{bootstrap_iso}
use nautobot_proxmox.Proxmox.Deploy.{
  Day0, Contract, DeployRefusal, disk_size_mb, must_grow, storage_named, number, native_cloudinit,
  pa_bootstrap,
}
use nautobot_proxmox.Proxmox.Deploy.Node.{
  of_node, scsi0_of, each_of, delete_iso, upload_iso, iso_if, takes_iso, day0_drive, ignore_result,
  resize_if, configure, build_vm,
}
use nautobot_proxmox.Proxmox.Deploy.Sends.{
  own_iso, Sends, reads, of_node-ok, of_node-Trace, quiet-state, delete_iso-Trace, creating,
  resizing, configuring, starting, uploading,
}

module _ (srv : Server) (c : ProxmoxClient) (repr : Value → Text) (k : Contract) where
  open srv use {State, send, sleep}

  ignore_result-state : (p : Result Failure Value × State) → (ignore_result srv c repr p).1 ≡ p.1
  unfolding ignore_result
  ignore_result-state (err why, t) = refl
  ignore_result-state (ok v, t) = refl

  -- The volume of the bootstrap ISO is the one that was uploaded.
  abbrev pub IsOwn : Result DeployRefusal (Text × Option Text) × State → Type 0
  IsOwn (err why, t) = Unit
  IsOwn (ok (ide2, o), t) = (volid : Text) → o ≡ some volid → volid ≡ own_iso srv c repr k

  IsOwn-and_then :
      {A : Type 0} (p : Result DeployRefusal A × State)
      (f : A → Run State DeployRefusal (Text × Option Text))
      → ((a : A) (t : State) → IsOwn (f a t))
      → IsOwn (and_then p f)
  IsOwn-and_then (err why, t) f h = tt
  IsOwn-and_then (ok a, t) f h = h a t

  upload_iso-IsOwn : (file : Option Text) (s : State) → IsOwn (upload_iso srv c repr k file s)
  unfolding upload_iso of_node
  upload_iso-IsOwn none s = tt
  upload_iso-IsOwn (some file) s =
      own
        (upload_file srv c k.node k.import_storage (some file) (codes "iso") (bootstrap_iso k.name)
          s)
        refl
    where
      own :
          (p : Result Failure Text × State)
          → upload_file srv c k.node k.import_storage
              (some file)
              (codes "iso")
              (bootstrap_iso k.name)
              s
            ≡ p
          → IsOwn (and_then (of_node p) (λ volid. pure (volid ++ codes ",media=cdrom", some volid)))
      own (err why, t) e = tt
      own (ok volid, t) e = λ v same.
          some_inj v volid (sym same)
          ∙ upload_file-volid srv c k.node k.import_storage file (codes "iso")
              (bootstrap_iso k.name) s t volid e

  iso_if-IsOwn : (b : Bool) (file : Option Text) (s : State) → IsOwn (iso_if srv c repr b k file s)
  unfolding iso_if
  iso_if-IsOwn false file s = tt
  iso_if-IsOwn true file s =
      IsOwn-and_then
        (of_node (find_iso_volume srv c k.node k.import_storage (bootstrap_iso k.name) s)) _
        (λ stale t.
          IsOwn-and_then (of_node (delete_iso srv c repr k (non_empty stale) t)) _
            (λ x u. upload_iso-IsOwn file u))

  pub day0_drive-IsOwn : (d : Day0) (s : State) → IsOwn (day0_drive srv c repr k d s)
  unfolding day0_drive
  day0_drive-IsOwn (native_cloudinit ci) s = λ v same. absurd (ground arith)
  day0_drive-IsOwn (pa_bootstrap file) s =
      IsOwn-and_then (of_node (takes_iso srv c repr k s)) _ (λ b t. iso_if-IsOwn b file t)

  non_empty-same : (o : Option Text) (v : Text) → non_empty o ≡ some v → o ≡ some v
  non_empty-same none v h = absurd (ground arith)
  non_empty-same (some []) v h = absurd (ground arith)
  non_empty-same (some (x ∷ s)) v h = h

module _ (srv : Server) (c : ProxmoxClient) (repr : Value → Text) (k : Contract) (vmid : ℤ) where
  open srv use {State, send, sleep}

  abbrev pub Sent : Method → Text → Dict → Type 0
  Sent = Sends srv c repr k vmid

  pub may_read :
      (m : Method) (path : Text) (params : Dict) → Reads m path params → Sent m path params
  may_read = reads srv c repr k vmid

  resize_if-Within : (b : Bool) (gb : ℤ) → Within srv Sent (resize_if srv c repr b k vmid gb)
  unfolding resize_if resize_disk
  resize_if-Within false gb s = here
  resize_if-Within true gb s =
      let p = resize_disk srv c k.node vmid (codes "scsi0") (whole gb ++ codes "G") s in
      rw (quiet-state srv c repr k (ignore_result srv c repr p)) (
        rw (ignore_result-state srv c repr k p) (
          request-Within srv c Sent http_put (vm_path k.node vmid (codes "/resize"))
            ((codes "disk", Value.str (codes "scsi0"))
              ∷ (codes "size", Value.str (whole gb ++ codes "G"))
              ∷ [])
            resizing s))

  configure-Within : (d : Day0) → Within srv Sent (configure srv c repr k vmid d)
  unfolding configure
  configure-Within (native_cloudinit ci) s =
      set_vm_config-Within srv c Sent may_read k.node vmid ci configuring s
  configure-Within (pa_bootstrap file) s = here

  pub build_vm-Within :
      (params : Dict)
      → lookup (codes "vmid") params ≡ some (Value.int vmid)
      → lookup (codes "name") params ≡ some (Value.str k.name)
      → Within srv Sent (build_vm srv c repr k vmid params)
  unfolding build_vm
  build_vm-Within params number_of name s =
      Within-and_then srv Sent s (create_vm srv c k.node params s) _
        (create_vm-Within srv c Sent may_read k.node params (creating number_of name) s)
        λ x t.
          Within-and_then srv Sent t (vm_config srv c k.node vmid t) _
            (vm_config-Within srv c Sent may_read k.node vmid t)
            λ cfg u.
              Within-and_then srv Sent u (scsi0_of cfg, u) _ here
                λ drive v.
                  Within-and_then srv Sent v (disk_size_mb drive, v) _ here
                    λ size w.
                      Within-and_then srv Sent w (number k.disk_gb, w) _ here
                        λ gb x'.
                          Within-and_then srv Sent x'
                            (resize_if srv c repr (must_grow gb size) k vmid gb x') _
                            (resize_if-Within (must_grow gb size) gb x')
                            λ y y'.
                              Within-and_then srv Sent y' (configure srv c repr k vmid k.day0 y') _
                                (configure-Within k.day0 y')
                                λ z z'. start_vm-Within srv c Sent may_read k.node vmid starting z'

  upload_iso-Within : (file : Option Text) → Within srv Sent (upload_iso srv c repr k file)
  unfolding upload_iso
  upload_iso-Within none s = here
  upload_iso-Within (some file) s =
      let p =
        upload_file srv c k.node k.import_storage (some file) (codes "iso") (bootstrap_iso k.name)
          s in
      Within-and_then srv Sent s (of_node p) _
        (of_node-Trace srv c repr k vmid s p (
          upload_file-Within srv c Sent may_read k.node k.import_storage file (codes "iso")
            (bootstrap_iso k.name) (uploading file) s))
        (λ volid t. here)

  iso_if-Within : (b : Bool) (file : Option Text) → Within srv Sent (iso_if srv c repr b k file)
  unfolding iso_if
  iso_if-Within false file s = here
  iso_if-Within true file s =
      let p = find_iso_volume srv c k.node k.import_storage (bootstrap_iso k.name) s in
      Trace-and_then srv Sent s (of_node p) _
        (of_node-Trace srv c repr k vmid s p (
          find_iso_volume-Within srv c Sent may_read k.node k.import_storage (bootstrap_iso k.name)
            s))
        λ stale t e.
          Within-and_then srv Sent t (of_node (delete_iso srv c repr k (non_empty stale) t)) _
            (of_node-Trace srv c repr k vmid t (delete_iso srv c repr k (non_empty stale) t) (
              delete_iso-Trace srv c repr k vmid (non_empty stale) t (λ volid same. inl (
                find_iso_volume-suffix srv c k.node k.import_storage (bootstrap_iso k.name) s t
                  volid
                  (of_node-ok srv c repr k p stale t e
                    ∙ ap (λ (w : Option Text). (ok w, t))
                        (non_empty-same srv c repr k stale volid same))))))
            (λ x u. upload_iso-Within file u)

  takes_iso-Within : Within srv Sent (takes_iso srv c repr k)
  unfolding takes_iso each_of
  takes_iso-Within s =
      Within-and_then srv Sent s (each_of srv c repr (storages srv c k.node) s) _
        (Within-and_then srv Sent s (storages srv c k.node s) _
          (storages-Within srv c Sent may_read k.node s) (λ v t. here))
        (λ vs t.
          Within-and_then srv Sent t (storage_named k.import_storage vs, t) _ here
            (λ entry u. here))

  pub day0_drive-Within : (d : Day0) → Within srv Sent (day0_drive srv c repr k d)
  unfolding day0_drive
  day0_drive-Within (native_cloudinit ci) s = here
  day0_drive-Within (pa_bootstrap file) s =
      Within-and_then srv Sent s (of_node (takes_iso srv c repr k s)) _
        (of_node-Trace srv c repr k vmid s (takes_iso srv c repr k s) (takes_iso-Within s))
        (λ b t. iso_if-Within b file t)
