-- ===== src/Proxmox/Client.antt =====
-- jobs/lib/proxmox_client.py: the operations of `ProxmoxClient` on the inventory, the images, the
-- virtual machines and the guest agent, each with the requests that it sends.
pub mod Requests
pub mod Verified
use nautobot_proxmox.Prelude.{
  ℕ, ◌/◌, Option, none, some, List, [], ◌∷◌, ◌++◌, if◌then◌else◌, is_empty,
}
use nautobot_proxmox.Prelude.Text.{Text, codes, strip, starts_with}
use nautobot_proxmox.Python.Value.{
  ℤ, Value, Dict, entries, get_or, get, str_of, int_of, non_empty, int, str, dict, item,
}
use nautobot_proxmox.Python.Result.{Result, err, ok}
use nautobot_proxmox.Python.Run.{◌>>=◌, Run, pure, lift}
use nautobot_proxmox.Proxmox.Server.{
  ProxmoxClient, Server, Failure, http_upload, unverified_image, crash,
}
use nautobot_proxmox.Proxmox.Values.{iterate, ends_with, quote}
use nautobot_proxmox.Proxmox.Task.{request, get_req, post_req, put_req, delete_req, wait_task}

-- `v or d`, for a text that may be missing.
or_text : Option Text → Text → Text
or_text v d = elim (non_empty v) [ none ↦ d | some s ↦ s ]

unfoldable pub with_checksum : Option Text → Option Text → Result Failure (Text × Text)
unfolding or_text
with_checksum none algorithm = err unverified_image
with_checksum (some value) algorithm =
    ok (value, or_text (some (strip (or_text algorithm (codes "sha256")))) (codes "sha256"))

-- The checksum and its algorithm.
unfoldable pub require_image_checksum : Option Text → Option Text → Result Failure (Text × Text)
unfolding or_text with_checksum
require_image_checksum checksum algorithm =
    with_checksum (non_empty (some (strip (or_text checksum [])))) algorithm

as_text : Value → Result Failure Text
as_text (Value.str s) = ok s
as_text _ = err crash

unfoldable pub each : Value → Result Failure (List Value)
each v = elim (iterate v) [ none ↦ err crash | some vs ↦ ok vs ]

-- `item.get("volid", "")`.
volid_of : Value → Result Failure Text
unfolding as_text
volid_of (Value.dict fs) = as_text (get_or (codes "volid") (Value.str []) (entries fs))
volid_of _ = err crash

if_suffix : Text → Result Failure Text → Result Failure (Option Text) → Result Failure (Option Text)
if_suffix suffix (err why) rest = err why
if_suffix suffix (ok volid) rest = if ends_with suffix volid then ok (some volid) else rest

-- The first item whose volid ends with the text.
find_volume : Text → List Value → Result Failure (Option Text)
unfolding volid_of if_suffix
find_volume suffix [] = ok none
find_volume suffix (v ∷ vs) = if_suffix suffix (volid_of v) (find_volume suffix vs)

is_upid : Value → Option Text
is_upid (Value.str s) = if starts_with (codes "UPID") s then some s else none
is_upid _ = none

unfoldable pub whole : ℤ → Text
whole n = str_of (λ v. []) (Value.int n)

unfoldable pub nodes_path : Text → Text → Text
nodes_path node rest = codes "/nodes/" ++ node ++ rest

unfoldable pub vm_path : Text → ℤ → Text → Text
unfolding nodes_path whole
vm_path node vmid rest = nodes_path node (codes "/qemu/" ++ whole vmid ++ rest)

unfoldable pub destroy_path : Text → ℤ → Text
unfolding vm_path
destroy_path node vmid = vm_path node vmid (codes "?purge=1&destroy-unreferenced-disks=1")

unfoldable pub stop_path : Text → ℤ → Text
unfolding vm_path
stop_path node vmid = vm_path node vmid (codes "/status/stop")

unfoldable pub volume_path : Text → Text → Text → Text
unfolding nodes_path
volume_path node storage volid =
    nodes_path node (codes "/storage/" ++ storage ++ codes "/content/" ++ quote volid)

content_path : Text → Text → Text → Text
unfolding nodes_path
content_path node storage content = nodes_path node (
    codes "/storage/"
    ++ storage
    ++ codes "/content"
    ++ (if is_empty content then [] else codes "?content=" ++ content))

unfoldable pub download_path : Text → Text → Text
unfolding nodes_path
download_path node storage = nodes_path node (codes "/storage/" ++ storage ++ codes "/download-url")

-- What the node is asked to pull, with the checksum that it verifies where one is given.
unfoldable pub download_params : Text → Text → Text → Option Text → Text → Dict
download_params url filename content checksum algorithm =
    (codes "url", Value.str url)
    ∷ (codes "content", Value.str content)
    ∷ (codes "filename", Value.str filename)
    ∷ elim (non_empty checksum) [
      | none ↦ []
      | some sum ↦
          (codes "checksum", Value.str sum) ∷ (codes "checksum-algorithm", Value.str algorithm) ∷ []
    ]

unfoldable pub volid_in : Text → Text → Text → Text
volid_in storage content filename = storage ++ codes ":" ++ content ++ codes "/" ++ filename

module _ (srv : Server) (c : ProxmoxClient) where
  open srv use {State, send, sleep}

  version : Run State Failure Value
  version = get_req srv c (codes "/version")

  node_status : Text → Run State Failure Value
  unfolding nodes_path
  node_status node = get_req srv c (nodes_path node (codes "/status"))

  whole_of : Value → Result Failure ℤ
  whole_of v = elim (int_of v) [ none ↦ err crash | some n ↦ ok n ]

  unfoldable pub next_vmid : Run State Failure ℤ
  unfolding whole_of
  next_vmid = do v ← get_req srv c (codes "/cluster/nextid"); lift (whole_of v)

  unfoldable pub list_vms : Text → Run State Failure Value
  unfolding nodes_path
  list_vms node = get_req srv c (nodes_path node (codes "/qemu"))

  unfoldable pub vm_config : Text → ℤ → Run State Failure Value
  unfolding vm_path
  vm_config node vmid = get_req srv c (vm_path node vmid (codes "/config"))

  unfoldable pub storages : Text → Run State Failure Value
  unfolding nodes_path
  storages node = get_req srv c (nodes_path node (codes "/storage"))

  storage_content : Text → Text → Text → Run State Failure Value
  unfolding content_path
  storage_content node storage content = get_req srv c (content_path node storage content)

  find_content : Text → Text → Text → Text → Run State Failure (Option Text)
  unfolding storage_content find_volume
  find_content content node storage filename = do
    v ← storage_content node storage content
    vs ← lift (each v)
    lift (find_volume (b'/' ∷ filename) vs)

  unfoldable pub find_import_volume : Text → Text → Text → Run State Failure (Option Text)
  unfolding find_content
  find_import_volume = find_content (codes "import")

  unfoldable pub find_iso_volume : Text → Text → Text → Run State Failure (Option Text)
  unfolding find_content
  find_iso_volume = find_content (codes "iso")

  -- `wait_task` on what a request returned.
  wait_for : Text → ℕ → ℕ → Value → Run State Failure (Unit {0})
  unfolding as_text
  wait_for node timeout poll v = do upid ← lift (as_text v); wait_task srv c node upid timeout poll

  wait_maybe : Text → ℕ → Option Text → Run State Failure (Unit {0})
  wait_maybe node timeout none = pure tt
  wait_maybe node timeout (some upid) = wait_task srv c node upid timeout 3

  -- The same, where only a UPID is waited for.
  wait_if_task : Text → ℕ → Value → Run State Failure (Unit {0})
  unfolding is_upid wait_maybe
  wait_if_task node timeout v = wait_maybe node timeout (is_upid v)

  unfoldable pub download_url :
      Text → Text → Text → Text → Text → Option Text → Text → Run State Failure Text
  unfolding wait_for download_path download_params volid_in
  download_url node storage url filename content checksum algorithm = do
    upid ←
        post_req srv c (download_path node storage)
          (download_params url filename content checksum algorithm)
    _ ← wait_for node 1800 5 upid
    pure (volid_in storage content filename)

  pull : Text → Text → Text → Text → Text × Text → Option Text → Run State Failure Text
  pull node storage filename url (sum, algorithm) (some volid) = pure volid
  pull node storage filename url (sum, algorithm) none =
      download_url node storage url filename (codes "import") (some sum) algorithm

  unfoldable pub ensure_image :
      Text → Text → Text → Text → Option Text → Option Text → Run State Failure Text
  unfolding require_image_checksum find_import_volume pull
  ensure_image node storage filename url checksum algorithm = do
    sum ← lift (require_image_checksum checksum algorithm)
    volid ← find_import_volume node storage filename
    pull node storage filename url sum (non_empty volid)

  -- The local file, `none` where it cannot be opened.
  unfoldable pub upload_file : Text → Text → Option Text → Text → Text → Run State Failure Text
  unfolding nodes_path wait_if_task volid_in
  upload_file node storage none content filename = lift (err crash)
  upload_file node storage (some file) content filename = do
    upid ←
        request srv c (http_upload filename file)
          (nodes_path node (codes "/storage/" ++ storage ++ codes "/upload"))
          ((codes "content", Value.str content) ∷ [])
    _ ← wait_if_task node 600 upid
    pure (volid_in storage content filename)

  unfoldable pub delete_volume : Text → Text → Text → Run State Failure (Unit {0})
  unfolding volume_path wait_if_task
  delete_volume node storage volid = do
    v ← delete_req srv c (volume_path node storage volid)
    wait_if_task node 300 v

  unfoldable pub create_vm : Text → Dict → Run State Failure (Unit {0})
  unfolding nodes_path wait_for
  create_vm node params = do
    upid ← post_req srv c (nodes_path node (codes "/qemu")) params
    wait_for node 900 5 upid

  unfoldable pub set_vm_config : Text → ℤ → Dict → Run State Failure (Unit {0})
  unfolding vm_path wait_if_task
  set_vm_config node vmid params = do
    v ← put_req srv c (vm_path node vmid (codes "/config")) params
    wait_if_task node 300 v

  unfoldable pub resize_disk : Text → ℤ → Text → Text → Run State Failure Value
  unfolding vm_path
  resize_disk node vmid disk size =
      put_req srv c (vm_path node vmid (codes "/resize"))
        ((codes "disk", Value.str disk) ∷ (codes "size", Value.str size) ∷ [])

  unfoldable pub start_vm : Text → ℤ → Run State Failure (Unit {0})
  unfolding vm_path wait_for
  start_vm node vmid = do
    upid ← post_req srv c (vm_path node vmid (codes "/status/start")) []
    wait_for node 300 3 upid

  unfoldable pub stop_vm : Text → ℤ → Run State Failure (Unit {0})
  unfolding stop_path wait_for
  stop_vm node vmid = do upid ← post_req srv c (stop_path node vmid) []; wait_for node 300 3 upid

  unfoldable pub destroy_vm : Text → ℤ → Run State Failure (Unit {0})
  unfolding destroy_path wait_for
  destroy_vm node vmid = do
    upid ← delete_req srv c (destroy_path node vmid)
    wait_for node 300 3 upid

unfoldable pub encode_sshkeys : Text → Text
encode_sshkeys keys = quote (strip keys)
