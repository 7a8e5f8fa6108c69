-- ===== src/Proxmox/Client/Requests.antt =====
-- Which requests the operations of `ProxmoxClient` (jobs/lib/proxmox_client.py) send: each keeps to
-- every kind that admits reading and the one request that the operation is for.
use nautobot_proxmox.Prelude.{sym}
use nautobot_proxmox.Prelude.{◌++◌}
use nautobot_proxmox.Proxmox.Server.{http_put, http_upload}
use nautobot_proxmox.Proxmox.Task.{request, put_req}
use nautobot_proxmox.Proxmox.Client.{
  vm_path, next_vmid, vm_config, storages, upload_file, create_vm, set_vm_config, start_vm,
}
use nautobot_proxmox.Prelude.{◌≡◌, ap, inl, inr, true, List, Bool-cases, some_inj}
use nautobot_proxmox.Python.Result.{ok_inj, err, ok}
use nautobot_proxmox.Python.Run.{and_then-ok}
use nautobot_proxmox.Proxmox.Values.{ends_with}
use mathlib.Core.Path.{subst}
use nautobot_proxmox.Proxmox.Server.{Failure}
use nautobot_proxmox.Proxmox.Task.{post_req, delete_req}
use nautobot_proxmox.Proxmox.Client.{whole_of, if_suffix, volid_of, volid_in}
use nautobot_proxmox.Prelude.{ℕ, ◌<◌, Option, none, some, [], ◌∷◌, arith}
use nautobot_proxmox.Prelude.Text.{Text, codes}
use nautobot_proxmox.Python.Value.{ℤ, Value, Dict}
use nautobot_proxmox.Python.Result.{Result}
use nautobot_proxmox.Python.Run.{◌>>=◌, pure, lift}
use nautobot_proxmox.Proxmox.Server.{
  Method, ProxmoxClient, Server, http_get, http_post, http_delete,
}
use nautobot_proxmox.Proxmox.Trace.{Trace-map, Within, Within-bind, Reads, here}
use nautobot_proxmox.Proxmox.Task.{get_req, wait_task}
use nautobot_proxmox.Proxmox.Task.Facts.{request-Within, wait_task-Within}
use nautobot_proxmox.Proxmox.Client.{
  whole_of, if_suffix, volid_of, wait_maybe, content_path, wait_for, wait_if_task, as_text, is_upid,
  find_volume, find_content, storage_content, each, nodes_path, destroy_path, stop_path,
  volume_path, download_path, download_params, list_vms, find_import_volume, find_iso_volume,
  download_url, delete_volume, stop_vm, destroy_vm,
}

find_volume-suffix :
    (suffix : Text) (vs : List Value) (volid : Text)
    → find_volume suffix vs ≡ ok (some volid)
    → ends_with suffix volid ≡ true
unfolding find_volume
find_volume-suffix suffix [] volid h = absurd (ground arith)
find_volume-suffix suffix (v ∷ vs) volid h =
    first (volid_of v) (find_volume suffix vs) (find_volume-suffix suffix vs volid) h
  where
    first :
        (r : Result Failure Text) (rest : Result Failure (Option Text))
        → (rest ≡ ok (some volid) → ends_with suffix volid ≡ true)
        → if_suffix suffix r rest ≡ ok (some volid)
        → ends_with suffix volid ≡ true
    first (err why) rest ih e = absurd (ground arith)
    first (ok w) rest ih e = elim (Bool-cases (ends_with suffix w)) [
      | inl y ↦ subst (λ u. ends_with suffix u ≡ true) (some_inj w volid (ok_inj _ _ (rw y at e))) y
      | inr n ↦ ih (rw n at e)
    ]

module _ (srv : Server) (c : ProxmoxClient) where
  open srv use {State}

  -- A volume that is found ends with the file's name.
  pub find_iso_volume-suffix :
      (node storage filename : Text) (s t : State) (volid : Text)
      → find_iso_volume srv c node storage filename s ≡ (ok (some volid), t)
      → ends_with (b'/' ∷ filename) volid ≡ true
  unfolding find_iso_volume find_content
  find_iso_volume-suffix node storage filename s t volid h =
      let (v, u, p, p') = and_then-ok (storage_content srv c node storage (codes "iso") s) _ h in
      let (vs, w, q, q') = and_then-ok (each v, u) _ p' in
      find_volume-suffix (b'/' ∷ filename) vs volid
        (ap (λ (x : Result Failure (Option Text) × State). x.0) q')

  -- What is uploaded has the volume of its name.
  pub upload_file-volid :
      (node storage file content filename : Text) (s t : State) (volid : Text)
      → upload_file srv c node storage (some file) content filename s ≡ (ok volid, t)
      → volid ≡ volid_in storage content filename
  unfolding upload_file
  upload_file-volid node storage file content filename s t volid h =
      let path = nodes_path node (codes "/storage/" ++ storage ++ codes "/upload") in
      let params : Dict = (codes "content", Value.str content) ∷ [] in
      let (v, u, p, p') =
        and_then-ok (request srv c (http_upload filename file) path params s) _ h in
      let (x, w, q, q') = and_then-ok (wait_if_task srv c node 600 v u) _ p' in
      sym (
        ok_inj (volid_in storage content filename) volid
          (ap (λ (r : Result Failure Text × State). r.0) q'))

module _ (srv : Server) (c : ProxmoxClient) (Allowed : Method → Text → Dict → Type 0)
    (reads : (m : Method) (path : Text) (params : Dict)
      → Reads m path params
      → Allowed m path params) where
  open srv use {State, send, sleep}

  pub get_req-Within : (path : Text) → Within srv Allowed (get_req srv c path)
  get_req-Within path = request-Within srv c Allowed http_get path [] (reads http_get path [] tt)

  pub lift-Within : {E A : Type 0} (r : Result E A) → Within srv Allowed (lift r)
  lift-Within r s = here

  wait_task-Allowed :
      (node upid : Text) (timeout poll : ℕ)
      → 0 < poll
      → Within srv Allowed (wait_task srv c node upid timeout poll)
  wait_task-Allowed node upid timeout poll steady s =
      Trace-map srv reads (wait_task-Within srv c node upid timeout poll steady s)

  wait_for-Within :
      (node : Text) (timeout poll : ℕ) (v : Value)
      → 0 < poll
      → Within srv Allowed (wait_for srv c node timeout poll v)
  unfolding wait_for
  wait_for-Within node timeout poll v steady =
      Within-bind srv Allowed (lift (as_text v)) (λ upid. wait_task srv c node upid timeout poll)
        (lift-Within (as_text v)) (λ upid. wait_task-Allowed node upid timeout poll steady)

  wait_if_task-Within :
      (node : Text) (timeout : ℕ) (v : Value)
      → Within srv Allowed (wait_if_task srv c node timeout v)
  unfolding wait_if_task wait_maybe
  wait_if_task-Within node timeout v = waits (is_upid v)
    where
      waits : (o : Option Text) → Within srv Allowed (wait_maybe srv c node timeout o)
      waits none s = here
      waits (some upid) s = wait_task-Allowed node upid timeout 3 (omega arith) s

  pub list_vms-Within : (node : Text) → Within srv Allowed (list_vms srv c node)
  unfolding list_vms
  list_vms-Within node = get_req-Within (nodes_path node (codes "/qemu"))

  find_content-Within :
      (content node storage filename : Text)
      → Within srv Allowed (find_content srv c content node storage filename)
  unfolding find_content storage_content
  find_content-Within content node storage filename =
      Within-bind srv Allowed (storage_content srv c node storage content)
        (λ v. lift (each v) >>= λ vs. lift (find_volume (b'/' ∷ filename) vs))
        (get_req-Within (content_path node storage content))
        (λ v.
          Within-bind srv Allowed (lift (each v)) (λ vs. lift (find_volume (b'/' ∷ filename) vs))
            (lift-Within (each v)) (λ vs. lift-Within (find_volume (b'/' ∷ filename) vs)))

  pub find_import_volume-Within :
      (node storage filename : Text)
      → Within srv Allowed (find_import_volume srv c node storage filename)
  unfolding find_import_volume
  find_import_volume-Within = find_content-Within (codes "import")

  pub find_iso_volume-Within :
      (node storage filename : Text)
      → Within srv Allowed (find_iso_volume srv c node storage filename)
  unfolding find_iso_volume
  find_iso_volume-Within = find_content-Within (codes "iso")

  pub stop_vm-Within :
      (node : Text) (n : ℤ)
      → Allowed http_post (stop_path node n) []
      → Within srv Allowed (stop_vm srv c node n)
  unfolding stop_vm
  stop_vm-Within node n may =
      Within-bind srv Allowed (post_req srv c (stop_path node n) []) (wait_for srv c node 300 3)
        (request-Within srv c Allowed http_post (stop_path node n) [] may)
        (λ upid. wait_for-Within node 300 3 upid (omega arith))

  pub destroy_vm-Within :
      (node : Text) (n : ℤ)
      → Allowed http_delete (destroy_path node n) []
      → Within srv Allowed (destroy_vm srv c node n)
  unfolding destroy_vm
  destroy_vm-Within node n may =
      Within-bind srv Allowed (delete_req srv c (destroy_path node n)) (wait_for srv c node 300 3)
        (request-Within srv c Allowed http_delete (destroy_path node n) [] may)
        (λ upid. wait_for-Within node 300 3 upid (omega arith))

  pub delete_volume-Within :
      (node storage volid : Text)
      → Allowed http_delete (volume_path node storage volid) []
      → Within srv Allowed (delete_volume srv c node storage volid)
  unfolding delete_volume
  delete_volume-Within node storage volid may =
      Within-bind srv Allowed (delete_req srv c (volume_path node storage volid))
        (wait_if_task srv c node 300)
        (request-Within srv c Allowed http_delete (volume_path node storage volid) [] may)
        (λ v. wait_if_task-Within node 300 v)

  pub download_url-Within :
      (node storage url filename content : Text) (checksum : Option Text) (algorithm : Text)
      → Allowed http_post
          (download_path node storage)
          (download_params url filename content checksum algorithm)
      → Within srv Allowed (download_url srv c node storage url filename content checksum algorithm)
  unfolding download_url
  download_url-Within node storage url filename content checksum algorithm may =
      let params = download_params url filename content checksum algorithm in
      let done =
        λ (x : Unit {0}). pure {S = State} {E = Failure} (volid_in storage content filename) in
      Within-bind srv Allowed (post_req srv c (download_path node storage) params)
        (λ upid. wait_for srv c node 1800 5 upid >>= done)
        (request-Within srv c Allowed http_post (download_path node storage) params may)
        (λ upid.
          Within-bind srv Allowed (wait_for srv c node 1800 5 upid) done
            (wait_for-Within node 1800 5 upid (omega arith)) (λ done s. here))

  pub storages-Within : (node : Text) → Within srv Allowed (storages srv c node)
  unfolding storages
  storages-Within node = get_req-Within (nodes_path node (codes "/storage"))

  pub vm_config-Within : (node : Text) (n : ℤ) → Within srv Allowed (vm_config srv c node n)
  unfolding vm_config
  vm_config-Within node n = get_req-Within (vm_path node n (codes "/config"))

  pub next_vmid-Within : Within srv Allowed (next_vmid srv c)
  unfolding next_vmid
  next_vmid-Within =
      Within-bind srv Allowed (get_req srv c (codes "/cluster/nextid"))
        (λ v. lift (whole_of srv c v)) (get_req-Within (codes "/cluster/nextid"))
        (λ v. lift-Within (whole_of srv c v))

  pub create_vm-Within :
      (node : Text) (params : Dict)
      → Allowed http_post (nodes_path node (codes "/qemu")) params
      → Within srv Allowed (create_vm srv c node params)
  unfolding create_vm
  create_vm-Within node params may =
      Within-bind srv Allowed (post_req srv c (nodes_path node (codes "/qemu")) params)
        (wait_for srv c node 900 5)
        (request-Within srv c Allowed http_post (nodes_path node (codes "/qemu")) params may)
        (λ upid. wait_for-Within node 900 5 upid (omega arith))

  pub set_vm_config-Within :
      (node : Text) (n : ℤ) (params : Dict)
      → Allowed http_put (vm_path node n (codes "/config")) params
      → Within srv Allowed (set_vm_config srv c node n params)
  unfolding set_vm_config
  set_vm_config-Within node n params may =
      Within-bind srv Allowed (put_req srv c (vm_path node n (codes "/config")) params)
        (wait_if_task srv c node 300)
        (request-Within srv c Allowed http_put (vm_path node n (codes "/config")) params may)
        (λ v. wait_if_task-Within node 300 v)

  pub start_vm-Within :
      (node : Text) (n : ℤ)
      → Allowed http_post (vm_path node n (codes "/status/start")) []
      → Within srv Allowed (start_vm srv c node n)
  unfolding start_vm
  start_vm-Within node n may =
      Within-bind srv Allowed (post_req srv c (vm_path node n (codes "/status/start")) [])
        (wait_for srv c node 300 3)
        (request-Within srv c Allowed http_post (vm_path node n (codes "/status/start")) [] may)
        (λ upid. wait_for-Within node 300 3 upid (omega arith))

  pub upload_file-Within :
      (node storage : Text) (file content filename : Text)
      → Allowed
          (http_upload filename file)
          (nodes_path node (codes "/storage/" ++ storage ++ codes "/upload"))
          ((codes "content", Value.str content) ∷ [])
      → Within srv Allowed (upload_file srv c node storage (some file) content filename)
  unfolding upload_file
  upload_file-Within node storage file content filename may =
      let path = nodes_path node (codes "/storage/" ++ storage ++ codes "/upload") in
      let params : Dict = (codes "content", Value.str content) ∷ [] in
      let done =
        λ (x : Unit {0}). pure {S = State} {E = Failure} (volid_in storage content filename) in
      Within-bind srv Allowed (request srv c (http_upload filename file) path params)
        (λ upid. wait_if_task srv c node 600 upid >>= done)
        (request-Within srv c Allowed (http_upload filename file) path params may)
        (λ upid.
          Within-bind srv Allowed (wait_if_task srv c node 600 upid) done
            (wait_if_task-Within node 600 upid) (λ x s. here))
