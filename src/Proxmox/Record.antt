-- ===== src/Proxmox/Record.antt =====
-- The records of Nautobot that the jobs of jobs/proxmox read and write, and
-- `resolve_proxmox_credentials` of jobs/lib/nautobot_helpers.py.
use nautobot_proxmox.Prelude.{Option, none, some, List}
use nautobot_proxmox.Prelude.Text.{Text, codes}
use nautobot_proxmox.Python.Value.{Value, non_empty}
use nautobot_proxmox.Python.Result.{◌>>=◌, Result, err, ok}
use nautobot_proxmox.Python.Assoc.{lookup}

pub record Hypervisor : Type 0 where
  pub name : Text
  pub primary_ip4 : Option Text
  -- Custom fields.
  pub secrets_group : Option Text
  pub vm_bridge : Option Text
  pub mgmt_bridge : Option Text
  pub vm_storage : Option Text
  pub import_storage : Option Text

pub record VnfDevice : Type 0 where
  pub name : Text
  pub status : Text
  pub vmid : Value
  -- `day0_builder` of the platform; `none` where the device has no platform.
  pub day0_builder : Option Value
  -- The source of its first "Hosted On" association.
  pub hosted_on : Option Hypervisor

-- A group of Secrets; a value that cannot be read is `none`.
pub record SecretsGroup : Type 0 where
  pub username : Option Text
  pub secret : Option Text

pub record Vault : Type 0 where
  pub groups : List (Text × SecretsGroup)
  pub secrets : List (Text × Option Text)

pub data CredentialError : Type 0 where
  -- The host names a group that does not exist.
  missing_group : Text → CredentialError
  -- There is no group and one of the global Secrets is not there.
  missing_secrets : CredentialError
  -- A provider's own error.
  unreadable : CredentialError

held : Option Text → Result CredentialError Text
held none = err unreadable
held (some t) = ok t

secret_value : Text → Vault → Result CredentialError Text
unfolding held
secret_value name vault = elim (lookup name vault.secrets) [
  | none ↦ err missing_secrets
  | some v ↦ held v
]

group_tokens : Text → Option SecretsGroup → Result CredentialError (Text × Text)
unfolding held
group_tokens name none = err (missing_group name)
group_tokens name (some g) = do
  token_id ← held g.username
  token_secret ← held g.secret
  ok (token_id, token_secret)

unfoldable pub resolve_proxmox_credentials :
    Vault → Hypervisor → Result CredentialError (Text × Text)
unfolding group_tokens secret_value
resolve_proxmox_credentials vault hyp = elim (non_empty hyp.secrets_group) [
  | some name ↦ group_tokens name (lookup name vault.groups)
  | none ↦ do
    token_id ← secret_value (codes "proxmox_token_id") vault
    token_secret ← secret_value (codes "proxmox_token_secret") vault
    ok (token_id, token_secret)
]
