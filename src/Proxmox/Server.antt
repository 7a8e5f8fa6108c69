-- ===== src/Proxmox/Server.antt =====
-- What stands behind the client of jobs/lib/proxmox_client.py: the HTTP session with the node's
-- API, as an interface over an unknown state, and the exceptions that the client raises.
use nautobot_proxmox.Prelude.{ℕ, Bool, true, false, Option, none, some}
use nautobot_proxmox.Prelude.Text.{Text}
use nautobot_proxmox.Python.Value.{Value, Dict}

pub data Method : Type 0 where
  http_get : Method
  http_post : Method
  http_put : Method
  http_delete : Method
  -- A multipart POST with the file's name and content.
  http_upload : Text → Text → Method

-- `requests` raises, or it gives a status and the body that `json()` reads, `none` where it is not
-- JSON.
pub data HttpReply : Type 0 where
  transport_error : HttpReply
  response : ℕ → Option Value → HttpReply

pub record ProxmoxClient : Type 0 where
  pub host : Text
  pub token_id : Text
  pub token_secret : Text

pub record Server : Type 1 where
  pub State : Type 0
  pub send : ProxmoxClient → Method → Text → Dict → State → HttpReply × State
  pub sleep : ℕ → State → State

pub data Failure : Type 0 where
  -- ProxmoxUnreachableError, with the status where there is one.
  unreachable : Option ℕ → Failure
  -- ProxmoxUnreachableError of `wait_task`, after too many polls in a row that failed.
  lost_contact : Failure
  -- ProxmoxError, a status from 400 to 499.
  refused : ℕ → Failure
  -- ProxmoxTaskError: the task's exit status, or the wait ran out.
  task_failed : Value → Failure
  task_slow : Failure
  -- ProxmoxAgentPermissionError.
  agent_denied : ℕ → Failure
  -- ImageIntegrityError, a ValueError.
  unverified_image : Failure
  -- An exception of Python itself on data of another shape.
  crash : Failure
  -- The model's fuel, which is never used up: see Proxmox/Task/Ends.
  no_fuel : Failure

-- `except ProxmoxError`.
unfoldable pub is_proxmox_error : Failure → Bool
is_proxmox_error (unreachable st) = true
is_proxmox_error lost_contact = true
is_proxmox_error (refused st) = true
is_proxmox_error (task_failed v) = true
is_proxmox_error task_slow = true
is_proxmox_error (agent_denied st) = true
is_proxmox_error unverified_image = false
is_proxmox_error crash = false
is_proxmox_error no_fuel = false

-- `except ProxmoxUnreachableError`.
unfoldable pub is_unreachable : Failure → Bool
is_unreachable (unreachable st) = true
is_unreachable lost_contact = true
is_unreachable _ = false

-- `exc.status_code`.
unfoldable pub status_code : Failure → Option ℕ
status_code (unreachable st) = st
status_code (refused st) = some st
status_code (agent_denied st) = some st
status_code _ = none
