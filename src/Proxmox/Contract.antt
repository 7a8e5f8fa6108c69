-- ===== src/Proxmox/Contract.antt =====
-- jobs/proxmox/deploy_device.py: how `DeployVnfDevice` reads the contract of a device from its
-- records, before anything touches a node.
pub mod Payload
pub mod Read
pub mod Run
pub mod Outcome
use Prim.Native.String.{String}
use nautobot_proxmox.Prelude.{
  ℕ, zero, ◌+◌, Bool, true, false, not, Option, none, some, List, [], ◌∷◌, ◌++◌, if◌then◌else◌, any,
  find, is_empty, map,
}
use nautobot_proxmox.Prelude.Text.{Text, codes, text_eq}
use nautobot_proxmox.Python.Value.{Value, Dict, print_nat, non_empty, null, str, other}
use nautobot_proxmox.Python.Result.{◌>>=◌, Result, err, ok}
use nautobot_proxmox.Proxmox.Platform.{
  NicNaming, Facts, NicRefusal, nic_order, nic_pattern, resolve_nic_order,
}
use nautobot_proxmox.Proxmox.Record.{VnfDevice, CredentialError}
use nautobot_proxmox.Proxmox.Bootstrap.{BootstrapError}

-- An address with its identity, its text, the host part, the IP version and the netmask; its prefix
-- with the default gateway and the DNS addresses in order, `none` where it has no parent.
pub record Prefix : Type 0 where
  pub gateway : Option Text
  pub dns : List Text

pub record IpAddress : Type 0 where
  pub pk : Text
  pub address : Text
  pub host : Text
  pub ip_version : ℕ
  pub netmask : Text
  pub parent : Option Prefix

pub record VmNic : Type 0 where
  pub name : Text
  pub mac_address : Option Text
  pub untagged_vlan : Option ℕ
  pub tagged_vlans : List ℕ
  pub ip_addresses : List IpAddress

pub record Image : Type 0 where
  pub file_name : Text
  pub url : Text
  pub checksum : Option Text
  pub algorithm : Option Text
  pub is_default : Bool

pub record Software : Type 0 where
  pub version_text : Text
  pub status : Text
  pub images : List Image

pub record VmPlatform : Type 0 where
  pub name : Text
  pub machine_type : Value
  pub console_user : Value

-- The rows that the contract is read from; the device's own row holds the rest.
pub record Intent : Type 0 where
  pub row : VnfDevice
  pub device_id : Text
  pub platform : Option VmPlatform
  pub software : Option Software
  pub vcpus : Value
  pub memory_mb : Value
  pub disk_gb : Value
  pub primary_ip4 : Option IpAddress
  pub interfaces : List VmNic
  pub pa_mgmt_mode : Option Text

-- What stops the reading of a contract, whatever the class of the exception.
pub data Violation : Type 0 where
  not_planned : Text → Violation
  -- A datum that is not set.
  missing : String → Violation
  no_facts : Text → Violation
  unsupported_day0 : Value → Violation
  not_promoted : Text → Violation
  unverified : Violation
  not_hosted : Violation
  nic_order_refused : NicRefusal → Violation
  no_interface : Text → Violation
  ambiguous_mgmt : Text → Violation
  no_parent_prefix : Violation
  no_gateway : Violation
  bad_mgmt_mode : Text → Violation
  -- The primary address is not that of the management interface.
  primary_differs : Violation
  not_ipv4 : Violation
  no_secret : Text → Violation
  payload_refused : BootstrapError → Violation
  no_credentials : CredentialError → Violation

-- `_require`.
unfoldable pub need : {A : Type 0} → String → Option A → Result Violation A
need what none = err (missing what)
need what (some a) = ok a

unfoldable pub need_value : String → Value → Result Violation Value
need_value what Value.null = err (missing what)
need_value what (Value.str []) = err (missing what)
need_value what v = ok v

unfoldable pub gateway_for : IpAddress → Result Violation Text
gateway_for ip = elim ip.parent [
  | none ↦ err no_parent_prefix
  | some prefix ↦ elim prefix.gateway [ none ↦ err no_gateway | some gw ↦ ok gw ]
]

-- The management address of the first NIC.
mgmt_address : Text → Option IpAddress → List IpAddress → Result Violation (Option IpAddress)
mgmt_address name none [] = ok none
mgmt_address name none (ip ∷ []) = ok (some ip)
mgmt_address name none (ip ∷ ip₂ ∷ ips) = err (ambiguous_mgmt name)
mgmt_address name (some primary) ips =
    if any (λ ip. text_eq ip.pk primary.pk) ips then ok (some primary) else elim ips [
      | [] ↦ ok none
      | ip ∷ rest ↦ if is_empty rest then ok (some ip) else err (ambiguous_mgmt name)
    ]

ipconfig : Option IpAddress → Result Violation Text
unfolding gateway_for
ipconfig none = ok (codes "ip=dhcp")
ipconfig (some ip) = do
  gw ← gateway_for ip
  ok (codes "ip=" ++ (ip.address ++ (codes ",gw=" ++ gw)))

semicolons : List ℕ → Text
semicolons [] = []
semicolons (v ∷ []) = print_nat v
semicolons (v ∷ vs) = print_nat v ++ (b';' ∷ semicolons vs)

trunks : List ℕ → Text
unfolding semicolons
trunks [] = []
trunks vs = codes ",trunks=" ++ semicolons vs

unfoldable pub net_text : Text → Text → Text → VmNic → Text
unfolding trunks
net_text model mac bridge nic =
    model
    ++ (b'=' ∷ mac
        ++ (codes ",bridge="
            ++ (bridge
                ++ (elim nic.untagged_vlan [ none ↦ [] | some vid ↦ codes ",tag=" ++ print_nat vid ]
                    ++ trunks nic.tagged_vlans))))

unfoldable pub is_patterned : NicNaming → Bool
is_patterned (nic_order order) = false
is_patterned (nic_pattern mgmt prefix suffix) = true

-- The bridge of the NIC at a position.
unfoldable pub bridge_at : ℕ → Bool → Text → Option Text → Text
bridge_at zero true bridge (some mgmt_bridge) = mgmt_bridge
bridge_at index dedicated bridge mgmt_bridge = bridge

-- The interface of that name, as the NIC at that position.
nic_at :
    Facts → Text → Option Text → List VmNic → ℕ → Text → Result Violation ((Text × Value) × VmNic)
unfolding net_text bridge_at is_patterned need
nic_at facts bridge mgmt_bridge nics index name = do
  nic ← elim (find (λ n. text_eq n.name name) nics) [
    | none ↦ err (no_interface name)
    | some n ↦ ok n
  ]
  mac ← need "MAC address" (non_empty nic.mac_address)
  ok (
    (
      codes "net" ++ print_nat index,
      Value.str (
          net_text facts.nic_model mac
            (bridge_at index (is_patterned facts.naming) bridge mgmt_bridge) nic),
    ),
    nic,
  )

-- The NICs from the position `index` on.
render_from : Facts → Text → List VmNic → ℕ → List Text → Result Violation Dict
unfolding nic_at
render_from facts bridge nics index [] = ok []
render_from facts bridge nics index (name ∷ names) = do
  first ← nic_at facts bridge none nics index name
  rest ← render_from facts bridge nics (index + 1) names
  ok (first.0 ∷ rest)

-- The NICs, the address configuration of the first one, and its address.
pub record Network : Type 0 where
  pub net_entries : Dict
  pub ipconfig0 : Value
  pub mgmt_ip : Option IpAddress

in_order :
    Facts
    → Text
    → Option Text
    → Option IpAddress
    → List VmNic
    → List Text
    → Result Violation Network
unfolding nic_at render_from mgmt_address ipconfig
in_order facts bridge mgmt_bridge primary nics [] =
    ok (record { net_entries = []; ipconfig0 = Value.null; mgmt_ip = none })
in_order facts bridge mgmt_bridge primary nics (name ∷ names) = do
  first ← nic_at facts bridge mgmt_bridge nics 0 name
  mgmt ← mgmt_address name primary first.1.ip_addresses
  config ← ipconfig mgmt
  rest ← render_from facts bridge nics 1 names
  ok (record { net_entries = first.0 ∷ rest; ipconfig0 = Value.str config; mgmt_ip = mgmt })

order_or : Result NicRefusal (List Text) → Result Violation (List Text)
order_or (err why) = err (nic_order_refused why)
order_or (ok order) = ok order

unfoldable pub render_nics :
    Facts → Text → Option Text → Option IpAddress → List VmNic → Result Violation Network
unfolding in_order order_or
render_nics facts bridge mgmt_bridge primary nics = do
  order ← order_or (resolve_nic_order facts (map (λ n. n.name) nics))
  in_order facts bridge mgmt_bridge primary nics order
