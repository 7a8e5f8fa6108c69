-- ===== src/Proxmox/Task.antt =====
-- jobs/lib/proxmox_client.py: the requests of `ProxmoxClient` and its wait for a task.
pub mod Ends
pub mod Facts
use nautobot_proxmox.Prelude.{
  ℕ, zero, suc, ◌+◌, ◌*◌, Bool, true, false, Option, none, some, [], ◌∷◌, ◌++◌, leb, ◌==◌,
  if◌then◌else◌,
}
use nautobot_proxmox.Prelude.Text.{Text, codes, text_eq, strip, starts_with}
use nautobot_proxmox.Python.Value.{
  ℤ, Value, Dict, entries, get_or, get, int_of, int, str, dict, empty,
}
use nautobot_proxmox.Python.Result.{Result, err, ok}
use nautobot_proxmox.Python.Run.{◌>>=◌, Run, lift}
use nautobot_proxmox.Proxmox.Server.{
  Method, HttpReply, ProxmoxClient, Server, Failure, is_unreachable, http_get, http_post, http_put,
  http_delete, transport_error, response, unreachable, lost_contact, refused, task_failed,
  task_slow, no_fuel,
}
use nautobot_proxmox.Proxmox.Values.{is_str, quote}
use nautobot_proxmox.Python.Value.{pos, negsuc}
use mathlib.Core.Option
use Prim.Native.Nat.{min, max}

-- What follows the first colon; empty where there is none.
after_colon : Text → Text
after_colon [] = []
after_colon (c ∷ s) = if c == b':' then s else after_colon s

-- `max(int(...), 1)`, and 1 where `int` raises.
warning_count : Option ℤ → ℕ
warning_count none = 1
warning_count (some (pos n)) = max n 1
warning_count (some (negsuc n)) = 1

exit_outcome : Text → Bool × ℕ
unfolding after_colon warning_count
exit_outcome status =
    if text_eq status (codes "OK")
    then (true, 0)
    else if starts_with (codes "WARNINGS") status
    then (true, warning_count (int_of (Value.str (strip (after_colon status)))))
    else (false, 0)

unfoldable pub task_exit_outcome : Value → Bool × ℕ
unfolding exit_outcome
task_exit_outcome (Value.str s) = exit_outcome (strip s)
task_exit_outcome _ = (false, 0)

envelope : Option Value → Result Failure Value
envelope none = err (unreachable none)
envelope (some (Value.dict fs)) = ok (get (codes "data") (entries fs))
envelope (some _) = err (unreachable none)

unfoldable pub data_of : HttpReply → Result Failure Value
unfolding envelope
data_of transport_error = err (unreachable none)
data_of (response status body) =
    if leb 500 status
    then err (unreachable (some status))
    else if leb 400 status
    then err (refused status)
    else envelope body

unfoldable pub task_poll_max_failures : ℕ
task_poll_max_failures = 5

unfoldable pub task_poll_backoff_cap : ℕ
task_poll_backoff_cap = 30

-- `min(poll * failures, max(poll, cap))`.
unfoldable pub backoff : ℕ → ℕ → ℕ
unfolding task_poll_backoff_cap
backoff poll failures = min (poll * failures) (max poll task_poll_backoff_cap)

-- The end of a stopped task.
unfoldable pub finish_task : Value → Result Failure (Unit {0})
finish_task exit = if (task_exit_outcome exit).0 then ok tt else err (task_failed exit)

as_status : Value → Result Failure Dict
as_status (Value.dict fs) = ok (entries fs)
as_status _ = err (unreachable none)

unfoldable pub status_path : Text → Text → Text
status_path node upid = codes "/nodes/" ++ node ++ codes "/tasks/" ++ quote upid ++ codes "/status"

module _ (srv : Server) (c : ProxmoxClient) where
  open srv use {State, send, sleep}

  unwrapped : HttpReply × State → Result Failure Value × State
  unwrapped (r, s) = (data_of r, s)

  unfoldable pub request : Method → Text → Dict → Run State Failure Value
  unfolding unwrapped
  request method path params s = unwrapped (send c method path params s)

  abbrev pub get_req : Text → Run State Failure Value
  get_req path = request http_get path []

  abbrev pub post_req : Text → Dict → Run State Failure Value
  post_req path params = request http_post path params

  abbrev pub put_req : Text → Dict → Run State Failure Value
  put_req path params = request http_put path params

  abbrev pub delete_req : Text → Run State Failure Value
  delete_req path = request http_delete path []

  module _ (node upid : Text) where
    unfoldable pub poll_status : Run State Failure Dict
    unfolding status_path as_status
    poll_status = do v ← get_req (status_path node upid); lift (as_status v)

    module _ (timeout poll : ℕ) where
      -- After a poll; `again` is the loop with the time waited and the failures in a row.
      after_failure : (ℕ → ℕ → Run State Failure (Unit {0})) → ℕ → ℕ → Run State Failure (Unit {0})
      unfolding backoff task_poll_max_failures
      after_failure again waited failures s =
          if leb task_poll_max_failures failures
          then (err lost_contact, s)
          else again (waited + backoff poll failures) failures (sleep (backoff poll failures) s)

      after_poll :
          (ℕ → ℕ → Run State Failure (Unit {0}))
          → ℕ
          → ℕ
          → Result Failure Dict × State
          → Result Failure (Unit {0}) × State
      unfolding after_failure finish_task
      after_poll again waited failures (ok status, s) =
          if is_str (codes "stopped") (get (codes "status") status)
          then (finish_task (get_or (codes "exitstatus") (Value.str []) status), s)
          else again (waited + poll) 0 (sleep poll s)
      after_poll again waited failures (err why, s) =
          if is_unreachable why then after_failure again waited (suc failures) s else (err why, s)

      watch : ℕ → ℕ → ℕ → Run State Failure (Unit {0})
      unfolding after_poll
      watch zero waited failures s = (err no_fuel, s)
      watch (suc fuel) waited failures s =
          if leb waited timeout
          then after_poll (λ w f t. watch fuel w f t) waited failures (poll_status s)
          else (err task_slow, s)

      -- Every round waits at least a second, so the timeout bounds the rounds.
      unfoldable pub wait_task : Run State Failure (Unit {0})
      unfolding watch
      wait_task = watch (timeout + 2) 0 0
