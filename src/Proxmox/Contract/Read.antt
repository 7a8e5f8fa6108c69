-- ===== src/Proxmox/Contract/Read.antt =====
-- jobs/proxmox/deploy_device.py: the day-0 drive and the whole contract. MD5, the salt and the ISO
-- library are arguments.
pub mod Promoted
pub mod Gated
use nautobot_proxmox.Proxmox.Server.{ProxmoxClient}
use nautobot_proxmox.Proxmox.Values.{is_str}
use nautobot_proxmox.Proxmox.Trace.{sent}
use nautobot_proxmox.Proxmox.Client.{require_image_checksum}
use nautobot_proxmox.Proxmox.Record.{resolve_proxmox_credentials}
use nautobot_proxmox.Proxmox.Decommission.{client}
use nautobot_proxmox.Proxmox.Deploy.{Contract}
use nautobot_proxmox.Proxmox.Contract.{
  Software, need, render_nics, not_planned, unsupported_day0, not_promoted,
}
use nautobot_proxmox.Prelude.{
  if◌then◌else◌, ℕ, not, Option, none, some, List, [], ◌∷◌, ◌++◌, ◌==◌, find, is_empty,
}
use nautobot_proxmox.Prelude.Text.{Text, codes, text_eq}
use nautobot_proxmox.Python.Value.{Value, Dict, non_empty, str}
use nautobot_proxmox.Python.Result.{◌>>=◌, Result, unless, err, ok}
use nautobot_proxmox.Proxmox.Server.{Failure}
use nautobot_proxmox.Proxmox.Client.{whole, encode_sshkeys}
use nautobot_proxmox.Proxmox.Record.{Hypervisor, Vault, CredentialError}
use nautobot_proxmox.Proxmox.Platform.{Facts, get_platform_facts}
use nautobot_proxmox.Proxmox.Deploy.{Day0, native_cloudinit, pa_bootstrap}
use nautobot_proxmox.Proxmox.Contract.{
  Image, VmPlatform, Intent, Violation, need_value, Network, no_facts, unverified, not_hosted,
  no_credentials,
}
use nautobot_proxmox.Proxmox.Contract.Payload.{required_secret, pa_render_payload}

first_image : List Image → Option Image
first_image [] = none
first_image (i ∷ is) = some i

image_of : List Image → Option Image
unfolding first_image
image_of images = elim (find (λ i. i.is_default) images) [
  | some i ↦ some i
  | none ↦ first_image images
]

verified_by : Result Failure (Text × Text) → Result Violation (Text × Text)
verified_by (err why) = err unverified
verified_by (ok sum) = ok sum

proxmox_tokens : Result CredentialError (Text × Text) → Result Violation (Text × Text)
proxmox_tokens (err why) = err (no_credentials why)
proxmox_tokens (ok tokens) = ok tokens

facts_of : Text → Result Violation Facts
facts_of name = elim (get_platform_facts name) [
  | none ↦ err (no_facts name)
  | some facts ↦ ok facts
]

host_of : Option Hypervisor → Result Violation Hypervisor
host_of none = err not_hosted
host_of (some hyp) = ok hyp

cloudinit : Value → Value → Text → Text → Dict
cloudinit ipconfig0 user password pubkeys =
    (codes "ipconfig0", ipconfig0)
    ∷ (codes "ciuser", user)
    ∷ (codes "cipassword", Value.str password)
    ∷ (if is_empty pubkeys then [] else (codes "sshkeys", Value.str (encode_sshkeys pubkeys)) ∷ [])

-- The console login and the address of a cloud-init guest.
login_day0 : VmPlatform → Text → Network → Vault → Result Violation Day0
unfolding cloudinit required_secret need_value
login_day0 platform pubkeys net vault = do
  user ← need_value "console_user" platform.console_user
  password ← required_secret (codes "jumphost_console_password") vault
  ok (native_cloudinit (cloudinit net.ipconfig0 user password pubkeys))

-- The builder where the code ships it.
shipped : Value → Result Violation Text
shipped v =
    if is_str (codes "native-cloudinit") v
    then ok (codes "native-cloudinit")
    else if is_str (codes "pa-bootstrap") v
    then ok (codes "pa-bootstrap")
    else err (unsupported_day0 v)

sized : Intent → Result Violation (Value × (Value × Value))
unfolding need_value
sized k = do
  vcpus ← need_value "vcpus" k.vcpus
  memory_mb ← need_value "memory_mb" k.memory_mb
  disk_gb ← need_value "disk_gb" k.disk_gb
  ok (vcpus, (memory_mb, disk_gb))

unfoldable pub promoted : Software → Result Violation (Image × (Text × Text))
unfolding need image_of verified_by
promoted sv = unless (not (text_eq sv.status (codes "Active"))) (not_promoted sv.version_text) do
  image ← need "SoftwareImageFile" (image_of sv.images)
  sum ← verified_by (require_image_checksum image.checksum image.algorithm)
  ok (image, sum)

module _ (md5 : List ℕ → List ℕ) (salt : Text) where
  module _ (build_iso : Text → Text → Option Text → Option Text) where
    pa_day0 : Intent → Text → Network → Vault → Result Violation Day0
    pa_day0 k version net vault = do
      payload ←
          pa_render_payload md5 salt k.row.name version k.pa_mgmt_mode k.primary_ip4 net.mgmt_ip
            vault
      ok (pa_bootstrap (build_iso (payload.0) (payload.1.0) (payload.1.1)))

    -- The day-0 drive of the device.
    day0_of : Text → Intent → VmPlatform → Text → Text → Network → Vault → Result Violation Day0
    unfolding pa_day0 login_day0
    day0_of builder k platform version pubkeys net vault =
        if text_eq builder (codes "pa-bootstrap")
        then pa_day0 k version net vault
        else login_day0 platform pubkeys net vault

    -- The contract on a host: what the node side of the deploy takes, and the client for the node.
    on_host :
        Text
        → Intent
        → VmPlatform
        → Facts
        → Text
        → Value
        → Text
        → Image × (Text × Text)
        → Value × (Value × Value)
        → Vault
        → Hypervisor
        → Result Violation (Contract × ProxmoxClient)
    unfolding need day0_of proxmox_tokens
    on_host pubkeys k platform facts builder machine version image sizes vault hyp = do
      api_host ← need "primary_ip4" hyp.primary_ip4
      bridge ← need "vm_bridge" (non_empty hyp.vm_bridge)
      vm_storage ← need "vm_storage" (non_empty hyp.vm_storage)
      import_storage ← need "import_storage" (non_empty hyp.import_storage)
      net ← render_nics facts bridge (non_empty hyp.mgmt_bridge) k.primary_ip4 k.interfaces
      day0 ← day0_of builder k platform version pubkeys net vault
      tokens ← proxmox_tokens (resolve_proxmox_credentials vault hyp)
      ok (
        record {
          name = k.row.name;
          device_id = k.device_id;
          node = hyp.name;
          vm_storage = vm_storage;
          import_storage = import_storage;
          facts = facts;
          machine = machine;
          vcpus = sizes.0;
          memory_mb = sizes.1.0;
          disk_gb = sizes.1.1;
          net_params = net.net_entries;
          day0 = day0;
          image_name = image.0.file_name;
          image_url = image.0.url;
          image_checksum = some image.1.0;
          image_algorithm = some image.1.1;
        },
        record { host = api_host; token_id = tokens.0; token_secret = tokens.1 },
      )

    -- From the device's rows to the contract; nothing is sent before it is whole.
    unfoldable pub read_contract :
        Text → Intent → Vault → Result Violation (Contract × ProxmoxClient)
    unfolding need need_value facts_of shipped promoted sized host_of on_host
    read_contract pubkeys k vault =
        unless (not (text_eq k.row.status (codes "Planned"))) (not_planned k.row.status) do
          platform ← need "platform" k.platform
          facts ← facts_of platform.name
          bound ← need "day0_builder" k.row.day0_builder
          day0 ← need_value "day0_builder" bound
          machine ← need_value "machine_type" platform.machine_type
          builder ← shipped day0
          sv ← need "software_version" k.software
          image ← promoted sv
          sizes ← sized k
          hyp ← host_of k.row.hosted_on
          on_host pubkeys k platform facts builder machine sv.version_text image sizes vault hyp
