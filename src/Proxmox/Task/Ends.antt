-- ===== src/Proxmox/Task/Ends.antt =====
-- `wait_task` of jobs/lib/proxmox_client.py: the runs of its loop as a relation, that every call is
-- one, how long it sleeps, and what a return means.
use Prim.Native.Nat.{max}
use nautobot_proxmox.Prelude.{
  ℕ, zero, suc, ◌+◌, ◌≤◌, ◌<◌, ◌≡◌, refl, inl, inr, true, false, [], arith, leb, leb→le, Bool-cases,
}
use nautobot_proxmox.Prelude.Text.{Text, codes}
use nautobot_proxmox.Python.Value.{Value, Dict, get_or, get}
use nautobot_proxmox.Python.Result.{Result, err, ok}
use nautobot_proxmox.Python.Run.{Run}
use nautobot_proxmox.Proxmox.Server.{
  ProxmoxClient, Server, Failure, is_unreachable, lost_contact, task_slow,
}
use nautobot_proxmox.Proxmox.Values.{is_str}
use nautobot_proxmox.Proxmox.Task.{
  watch, after_poll, after_failure, task_poll_max_failures, task_poll_backoff_cap, backoff,
  finish_task, poll_status, wait_task,
}

module _ (srv : Server) (c : ProxmoxClient) (node upid : Text) (timeout poll : ℕ) where
  open srv use {State, send, sleep}

  abbrev pub IsStopped : Dict → Type 0
  IsStopped d = is_str (codes "stopped") (get (codes "status") d) ≡ true

  abbrev pub exit_of : Dict → Value
  exit_of d = get_or (codes "exitstatus") (Value.str []) d

  -- The loop from the time waited, the failures in a row and a state to its outcome.
  pub data Watched : ℕ → ℕ → State → Result Failure (Unit {0}) × State → Type 0 where
    -- The wait has run out.
    slow :
        {w f : ℕ} {s : State} {r : Result Failure (Unit {0}) × State}
        → timeout < w
        → r ≡ (err task_slow, s)
        → Watched w f s r
    -- The task has stopped: a return if its exit status is a success.
    stopped :
        {w f : ℕ} {s : State} {r : Result Failure (Unit {0}) × State} (d : Dict) (t : State)
        → w ≤ timeout
        → poll_status srv c node upid s ≡ (ok d, t)
        → IsStopped d
        → r ≡ (finish_task (exit_of d), t)
        → Watched w f s r
    -- It runs on: the next poll comes after a pause, and earlier failures are forgotten.
    running :
        {w f : ℕ} {s : State} {r : Result Failure (Unit {0}) × State} (d : Dict) (t : State)
        → w ≤ timeout
        → poll_status srv c node upid s ≡ (ok d, t)
        → ¬ IsStopped d
        → Watched (w + poll) 0 (sleep poll t) r
        → Watched w f s r
    -- The fifth poll in a row that could not be observed gives up.
    lost :
        {w f : ℕ} {s : State} {r : Result Failure (Unit {0}) × State} (why : Failure) (t : State)
        → w ≤ timeout
        → poll_status srv c node upid s ≡ (err why, t)
        → is_unreachable why ≡ true
        → 5 ≤ suc f
        → r ≡ (err lost_contact, t)
        → Watched w f s r
    -- One before that is tried again after a longer pause.
    retried :
        {w f : ℕ} {s : State} {r : Result Failure (Unit {0}) × State} (why : Failure) (t : State)
        → w ≤ timeout
        → poll_status srv c node upid s ≡ (err why, t)
        → is_unreachable why ≡ true
        → suc f < 5
        → Watched (w + backoff poll (suc f)) (suc f) (sleep (backoff poll (suc f)) t) r
        → Watched w f s r
    -- Any other failure of a poll is passed on at once.
    denied :
        {w f : ℕ} {s : State} {r : Result Failure (Unit {0}) × State} (why : Failure) (t : State)
        → w ≤ timeout
        → poll_status srv c node upid s ≡ (err why, t)
        → is_unreachable why ≡ false
        → r ≡ (err why, t)
        → Watched w f s r

  backoff_pos : (f : ℕ) → 0 < poll → 0 < backoff poll (suc f)
  unfolding backoff task_poll_backoff_cap
  backoff_pos f h = grind arith

  pub backoff-le : (f : ℕ) → backoff poll f ≤ max poll 30
  unfolding backoff task_poll_backoff_cap
  backoff-le f = omega arith

  after_poll-Watched :
      (again : ℕ → ℕ → Run State Failure (Unit {0})) (w f : ℕ) (s : State)
      (p : Result Failure Dict × State)
      → w ≤ timeout
      → poll_status srv c node upid s ≡ p
      → ((v g : ℕ) (t : State) → w < v → Watched v g t (again v g t))
      → 0 < poll
      → Watched w f s (after_poll srv c node upid timeout poll again w f p)
  unfolding after_poll after_failure task_poll_max_failures
  after_poll-Watched again w f s (ok d, t) h e next steady =
      elim (Bool-cases (is_str (codes "stopped") (get (codes "status") d))) [
        | inl y ↦ stopped d t h e y (rw y)
        | inr n ↦
            rw n
              (running d t h e (λ y. ground arith) (next (w + poll) 0 (sleep poll t) (omega arith)))
      ]
  after_poll-Watched again w f s (err why, t) h e next steady =
      elim (Bool-cases (is_unreachable why)) [
        | inl y ↦ elim (Bool-cases (leb 5 (suc f))) [
          | inl m ↦ lost why t h e y (leb→le 5 (suc f) m) (rw (y, m))
          | inr l ↦ rw y (
              rw l (
                retried why t h e y (ground arith) (
                  next (w + backoff poll (suc f)) (suc f) (sleep (backoff poll (suc f)) t)
                    (omega (arith, backoff_pos f steady)))))
        ]
        | inr n ↦ denied why t h e n (rw n)
      ]

  watch-Watched :
      (fuel w f : ℕ) (s : State)
      → 0 < poll
      → 0 < fuel
      → timeout + 2 ≤ w + fuel
      → Watched w f s (watch srv c node upid timeout poll fuel w f s)
  unfolding watch
  watch-Watched zero w f s steady some_ enough = absurd (omega arith)
  watch-Watched (suc fuel) w f s steady some_ enough = elim (Bool-cases (leb w timeout)) [
    | inl y ↦
        let l : w ≤ timeout = leb→le w timeout y in
        rw y (
          after_poll-Watched (λ v g t. watch srv c node upid timeout poll fuel v g t) w f s _ l refl
            (λ v g t m. watch-Watched fuel v g t steady (omega arith) (omega arith)) steady)
    | inr n ↦ slow (ground arith) (rw n)
  ]

  -- With a pause of at least a second, the call ends on every server, and what it does is a run of
  -- the relation Watched: it returns on a stopped task with a success, fails on one without, gives up
  -- after five failed polls in a row or when the wait has run out, and passes a refusal on.
  pub wait_task-Watched :
      (s : State) → 0 < poll → Watched 0 0 s (wait_task srv c node upid timeout poll s)
  unfolding wait_task
  wait_task-Watched s steady = watch-Watched (timeout + 2) 0 0 s steady (omega arith) (omega arith)
