-- ===== src/Lib.antt =====
-- Verification of nautobot-proxmox, the Nautobot jobs and services that bring bare-metal nodes and
-- virtual machines up on Proxmox VE.
--
-- The parts of the program and their models:
-- - Storage: jobs/lib/storage_layout.py. `parse_storage_spec` reads the storage section of a deploy
--   profile (Storage/Spec), and `plan_volumes` with `_adopt` and `_pick` turns it and the BMC's
--   inventory into the volumes to keep and to create (Storage/Drives and Storage/Plan).
-- - Baseline: jobs/lib/host_baseline.py, the logic of the Host Baseline job. Baseline/Acl and
--   Baseline/Accounts model `plan_acl_changes` and `plan_service_accounts`, Baseline/Realm and
--   Baseline/SyncJob the plans for the AD realm, its sync job and root's e-mail, Baseline/Nic the
--   derivation of the install interface, Baseline/Vids the ranges of bridge-vids, Baseline/Model
--   `build_network_model`, Baseline/Ports `match_ports`, Baseline/Checks and
--   Baseline/AccountChecks `_validate_accounts`, and Baseline/Packages `validate_packages`.
-- - Answer: bmc/answer_service/app.py. Answer/Keys models the one-time keys and Answer/Keys/Ledger
--   states them as a table that drops nothing for its age, Answer/Nic models the install interface
--   as that service derives it, Answer/Pins the names of its NICs, Answer/Install the install section
--   of a profile, Answer/Handlers the requests that spend keys, and Answer/Inputs what the firstboot
--   script takes from the config context.
-- - Guards: what the bare-metal jobs check first. Guards/Version models `parse_version`
--   (jobs/lib/version.py) and `version_handshake` (jobs/lib/answer_service.py), Guards/Identity
--   `check_bmc_identity` (jobs/lib/bmc_identity.py).
-- - Proxmox: the client of the node's API and the jobs on it. Proxmox/Task and Proxmox/Client model
--   the requests, the wait for a task and the operations of `ProxmoxClient`
--   (jobs/lib/proxmox_client.py), Proxmox/Record the records and
--   `resolve_proxmox_credentials` (jobs/lib/nautobot_helpers.py), Proxmox/Decommission the job of
--   jobs/proxmox/decommission_device.py, Proxmox/Platform the NIC order of
--   jobs/lib/platform_facts.py, and Proxmox/Bootstrap the texts of
--   jobs/lib/pa_bootstrap.py. Of jobs/proxmox/deploy_device.py, Proxmox/Contract models the reading
--   of the contract, Proxmox/Deploy what the job does on the node, and Proxmox/Contract/Run both in
--   turn; the wait for readiness that follows the write-back is left out.
-- Prelude holds the shared lists, texts, tests and sorting, and Python what the sources use of their
-- language: exceptions, dynamic values, dicts and regular expressions.
--
-- How the code is read:
-- - A text is a list of code points. `lower` and `upper` map the ASCII letters only, and `strip` takes
--   the white space below code point 256.
-- - Code that raises returns `Result E A`; a refusal is a constructor with the names that its message
--   shows, and the wording of messages is left out.
-- - A JSON or YAML value is a `Value`; a value of any other class is `other`. How a list or a mapping
--   prints is an argument, `repr`.
-- - A dict with text keys is an association list in insertion order.
-- - The fuel of `print_nat` is the number plus one: each step divides it by ten.
-- - What the module `ipaddress` makes of an address is an argument, and `\d` matches the ASCII digits.
-- - The HTTP session is an interface, `Server`: a state, what a request is answered and what a pause
--   does. The fuel of `wait_task` is the timeout plus two rounds: every round waits a second or more.
-- - The MD5 digest of hashlib is an argument; a salt is ASCII. `length_bits` halves a number on fuel
--   that is larger than it.
-- - What a command does on a node is a parameter, `run`, with what its manual says as hypotheses.
--
-- Not modelled: the Redfish and Nautobot clients, the ORM and the job classes around the
-- logic, SSH, the web framework, logging, and the texts of messages.
pub mod Prelude
pub mod Python
pub mod Storage
pub mod Baseline
pub mod Answer
pub mod Guards
pub mod Proxmox
