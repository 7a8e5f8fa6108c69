-- ===== src/Proxmox/Contract/Outcome.antt =====
-- jobs/proxmox/deploy_device.py: a run of `DeployVnfDevice` against the gates of its contract.
use nautobot_proxmox.Prelude.{ℕ, ◌≡◌, ◌⊎◌, Bool, Option, List}
use nautobot_proxmox.Prelude.Text.{Text}
use nautobot_proxmox.Python.Value.{ℤ, Value}
use nautobot_proxmox.Python.Result.{Result, err}
use nautobot_proxmox.Proxmox.Server.{ProxmoxClient, Server}
use nautobot_proxmox.Proxmox.Record.{VnfDevice, Vault}
use nautobot_proxmox.Proxmox.Decommission.{VnfWorld}
use nautobot_proxmox.Proxmox.Deploy.{Contract}
use nautobot_proxmox.Proxmox.Deploy.Node.{deploy_contract}
use nautobot_proxmox.Proxmox.Contract.{Intent, Violation}
use nautobot_proxmox.Proxmox.Contract.Run.{DeployError, in_deploy, contract_violation}
use nautobot_proxmox.Proxmox.Contract.Read.Gated.{IsPromoted, IsPlaced}

module _ (srv : Server) (repr : Value → Text) (valid : VnfDevice → Bool) (md5 : List ℕ → List ℕ)
    (salt : Text) (build_iso : Text → Text → Option Text → Option Text) where
  -- A run ends at the contract, with nothing sent and the record as it was, or it is the node's part
  -- of the deploy for a contract whose gates are passed.
  abbrev pub IsGated : Vault → Intent → srv.State → Result DeployError ℤ × VnfWorld srv → Type 0
  IsGated vault k s run =
      ((why : Violation) × (run ≡ (err (contract_violation why), (s, k.row))))
      ⊎ ((c : Contract) × (api : ProxmoxClient) × IsPromoted k c
          × IsPlaced md5 salt build_iso vault k c
          × (run ≡ in_deploy (deploy_contract srv api repr valid c (s, k.row))))
