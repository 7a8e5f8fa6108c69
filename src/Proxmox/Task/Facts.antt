-- ===== src/Proxmox/Task/Facts.antt =====
-- What follows for `wait_task` of jobs/lib/proxmox_client.py from the relation of its runs.
use nautobot_proxmox.Prelude.{ap, ◌∙◌, sym, ℕ, suc, ◌+◌, ◌≤◌, ◌<◌, sym, ◌∙◌, true, arith}
use nautobot_proxmox.Prelude.Text.{codes}
use nautobot_proxmox.Python.Value.{get_or, get}
use nautobot_proxmox.Proxmox.Trace.{Trace, Within-bind}
use nautobot_proxmox.Proxmox.Values.{is_str}
use nautobot_proxmox.Proxmox.Task.{task_exit_outcome, backoff, finish_task, wait_task}
use nautobot_proxmox.Proxmox.Task.Ends.{
  Watched, backoff-le, wait_task-Watched, slow, stopped, running, lost, retried, denied,
}
use mathlib.Core.Path.{subst}
use Prim.Native.Nat.{max}
use nautobot_proxmox.Prelude.{◌≡◌, refl, []}
use nautobot_proxmox.Prelude.Text.{Text}
use nautobot_proxmox.Python.Value.{Value, Dict}
use nautobot_proxmox.Python.Result.{Result, err, ok}
use nautobot_proxmox.Python.Run.{and_then, lift}
use nautobot_proxmox.Proxmox.Server.{Method, HttpReply, ProxmoxClient, Server, Failure, http_get}
use nautobot_proxmox.Proxmox.Trace.{here, sent, slept, Reads, Trace-trans, Within, here}
use nautobot_proxmox.Proxmox.Task.{unwrapped, as_status, data_of, status_path, request, poll_status}

module _ (srv : Server) (c : ProxmoxClient) where
  open srv use {State, send, sleep}

  pub request-Within :
      (Allowed : Method → Text → Dict → Type 0) (m : Method) (path : Text) (params : Dict)
      → Allowed m path params
      → Within srv Allowed (request srv c m path params)
  unfolding request unwrapped
  request-Within Allowed m path params h s = sent c m path params here h

  module _ (node upid : Text) where
    poll_status-state :
        (s : State)
        → (poll_status srv c node upid s).1 ≡ (send c http_get (status_path node upid) [] s).1
    unfolding poll_status request unwrapped
    poll_status-state s = kept (send c http_get (status_path node upid) [] s)
      where
        kept :
            (p : HttpReply × State)
            → (and_then (unwrapped srv c p) (λ v. lift (as_status v))).1 ≡ p.1
        kept (r, t) = read (data_of r)
          where
            read : (v : Result Failure Value) → (and_then (v, t) (λ v. lift (as_status v))).1 ≡ t
            read (err why) = refl
            read (ok v) = refl

    poll_status-Within : Within srv Reads (poll_status srv c node upid)
    unfolding poll_status
    poll_status-Within =
        Within-bind srv Reads _ _ (request-Within Reads http_get (status_path node upid) [] tt)
          (λ v s. here)

    module _ (timeout poll : ℕ) where
      Trace-after :
          (s t : State) (p : Result Failure Dict)
          → poll_status srv c node upid s ≡ (p, t)
          → Trace srv Reads s t
      Trace-after s t p e = subst (λ q. Trace srv Reads s q.1) e (poll_status-Within s)

      Watched-Reads :
          {w f : ℕ} {s : State} {r : Result Failure (Unit {0}) × State}
          → Watched srv c node upid timeout poll w f s r
          → Trace srv Reads s r.1
      Watched-Reads (slow l e) = rw e here
      Watched-Reads {s} (stopped d t l p y e) = rw e (Trace-after s t (ok d) p)
      Watched-Reads {s} (running d t l p n rest) =
          Trace-trans srv (slept poll (Trace-after s t (ok d) p)) (Watched-Reads rest)
      Watched-Reads {s} (lost why t l p u m e) = rw e (Trace-after s t (err why) p)
      Watched-Reads {f} {s} (retried why t l p u m rest) =
          Trace-trans srv (slept (backoff poll (suc f)) (Trace-after s t (err why) p))
            (Watched-Reads rest)
      Watched-Reads {s} (denied why t l p u e) = rw e (Trace-after s t (err why) p)

      -- Waiting for a task only reads.
      pub wait_task-Within : 0 < poll → Within srv Reads (wait_task srv c node upid timeout poll)
      wait_task-Within steady s =
          Watched-Reads (wait_task-Watched srv c node upid timeout poll s steady)

      -- A poll at `u` that was answered with the stopped task, whose exit status is a success.
      abbrev pub Succeeded : State → State → Type 0
      Succeeded u t =
          (d : Dict) × (poll_status srv c node upid u ≡ (ok d, t))
          × (is_str (codes "stopped") (get (codes "status") d) ≡ true)
          × ((task_exit_outcome (get_or (codes "exitstatus") (Value.str []) d)).0 ≡ true)

      finish_task-success : (v : Value) → finish_task v ≡ ok tt → (task_exit_outcome v).0 ≡ true
      unfolding finish_task
      finish_task-success v h = ground arith

      Watched-Succeeded :
          {w f : ℕ} {s : State} {r : Result Failure (Unit {0}) × State}
          → Watched srv c node upid timeout poll w f s r
          → r.0 ≡ ok tt
          → (u : State) × Trace srv Reads s u × Succeeded u r.1
      Watched-Succeeded (slow l e) h = absurd (ground arith)
      Watched-Succeeded {s} (stopped d t l p y e) h =
          rw e (s, here, (d, p, y, finish_task-success _ (rw e at h)))
      Watched-Succeeded {s} (running d t l p n rest) h =
          let (u, a, done) = Watched-Succeeded rest h in
          (u, Trace-trans srv (slept poll (Trace-after s t (ok d) p)) a, done)
      Watched-Succeeded (lost why t l p u m e) h = absurd (ground arith)
      Watched-Succeeded {f} {s} (retried why t l p u m rest) h =
          let (v, a, done) = Watched-Succeeded rest h in
          (v, Trace-trans srv (slept (backoff poll (suc f)) (Trace-after s t (err why) p)) a, done)
      Watched-Succeeded (denied why t l p u e) h = absurd (ground arith)

      -- Where a call with a pause of at least a second returns, its last poll saw the task stopped with
      -- an exit status that is a success, and all that was sent before it only read.
      pub wait_task-Succeeded :
          (s t : State)
          → 0 < poll
          → wait_task srv c node upid timeout poll s ≡ (ok tt, t)
          → (u : State) × Trace srv Reads s u × Succeeded u t
      wait_task-Succeeded s t steady e =
          subst
            (λ (q : Result Failure (Unit {0}) × State).
              (u : State) × Trace srv Reads s u × Succeeded u q.1)
            e (Watched-Succeeded (wait_task-Watched srv c node upid timeout poll s steady) (rw e))

      module _ (clock : State → ℕ) (asleep : (n : ℕ) (s : State) → clock (sleep n s) ≡ clock s + n)
          (at_once : (d : ProxmoxClient) (m : Method) (path : Text) (params : Dict) (s : State)
            → clock (send d m path params s).1 ≡ clock s) where
        poll_clock :
            (s t : State) (p : Result Failure Dict)
            → poll_status srv c node upid s ≡ (p, t)
            → clock t ≡ clock s
        poll_clock s t p e =
            ap (λ (q : Result Failure Dict × State). clock q.1) (sym e)
            ∙ ap clock (poll_status-state s)
            ∙ at_once c http_get (status_path node upid) [] s

        Watched-clock :
            {w f : ℕ} {s : State} {r : Result Failure (Unit {0}) × State}
            → Watched srv c node upid timeout poll w f s r
            → w ≤ timeout + max poll 30
            → clock r.1 + w ≤ clock s + (timeout + max poll 30)
        Watched-clock (slow l e) h = rw e (omega arith)
        Watched-clock {s} (stopped d t l p y e) h = rw e (omega (arith, poll_clock s t (ok d) p))
        Watched-clock {s} (running d t l p n rest) h =
            omega (arith, poll_clock s t (ok d) p, asleep poll t, Watched-clock rest (omega arith))
        Watched-clock {s} (lost why t l p u m e) h =
            rw e (omega (arith, poll_clock s t (err why) p))
        Watched-clock {f} {s} (retried why t l p u m rest) h = omega (
          arith,
          poll_clock s t (err why) p,
          asleep (backoff poll (suc f)) t,
          Watched-clock rest (omega (arith, backoff-le srv c node upid timeout poll (suc f))),
        )
        Watched-clock {s} (denied why t l p u e) h =
            rw e (omega (arith, poll_clock s t (err why) p))

        -- On a clock that only pauses move, a call with a pause of at least a second takes at most the
        -- timeout and one more pause, of `poll` or 30 seconds.
        pub wait_task-le :
            (s : State)
            → 0 < poll
            → clock (wait_task srv c node upid timeout poll s).1 ≤ clock s + timeout + max poll 30
        wait_task-le s steady = omega (
          arith,
          Watched-clock (wait_task-Watched srv c node upid timeout poll s steady) (omega arith),
        )
