-- ===== src/Proxmox/Contract/Run.antt =====
-- jobs/proxmox/deploy_device.py: the whole run of `DeployVnfDevice` up to the write-back, the reading
-- of the contract and then the node's part.
use nautobot_proxmox.Prelude.{ℕ, Bool, Option, List}
use nautobot_proxmox.Prelude.Text.{Text}
use nautobot_proxmox.Python.Value.{ℤ, Value}
use nautobot_proxmox.Python.Result.{Result, err, ok}
use nautobot_proxmox.Python.Run.{Run}
use nautobot_proxmox.Proxmox.Server.{ProxmoxClient, Server}
use nautobot_proxmox.Proxmox.Record.{VnfDevice, Vault}
use nautobot_proxmox.Proxmox.Decommission.{VnfWorld}
use nautobot_proxmox.Proxmox.Deploy.{Contract, DeployRefusal}
use nautobot_proxmox.Proxmox.Deploy.Node.{deploy_contract}
use nautobot_proxmox.Proxmox.Contract.{Intent, Violation}
use nautobot_proxmox.Proxmox.Contract.Read.{read_contract}

pub data DeployError : Type 0 where
  contract_violation : Violation → DeployError
  deploy_refused : DeployRefusal → DeployError

unfoldable pub in_deploy : {S : Type 0} → Result DeployRefusal ℤ × S → Result DeployError ℤ × S
in_deploy (err why, w) = (err (deploy_refused why), w)
in_deploy (ok vmid, w) = (ok vmid, w)

module _ (srv : Server) (repr : Value → Text) (valid : VnfDevice → Bool) where
  unfoldable pub with_contract :
      Result Violation (Contract × ProxmoxClient) → Run (VnfWorld srv) DeployError ℤ
  unfolding in_deploy
  with_contract (err why) w = (err (contract_violation why), w)
  with_contract (ok (c, api)) w = in_deploy (deploy_contract srv api repr valid c w)

  module _ (md5 : List ℕ → List ℕ) (salt : Text) where
    unfoldable pub deploy_device :
        (Text → Text → Option Text → Option Text)
        → Text
        → Intent
        → Vault
        → Run (VnfWorld srv) DeployError ℤ
    unfolding with_contract
    deploy_device build_iso pubkeys k vault w =
        with_contract (read_contract md5 salt build_iso pubkeys k vault) w
