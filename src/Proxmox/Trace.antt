-- ===== src/Proxmox/Trace.antt =====
-- What a run has done to the node: the requests that lead from one state of the server to another,
-- each of a kind that is allowed, with pauses between them.
use nautobot_proxmox.Prelude.{◌≡◌, refl}
use nautobot_proxmox.Prelude.{ℕ}
use nautobot_proxmox.Prelude.Text.{Text}
use nautobot_proxmox.Python.Value.{Dict}
use nautobot_proxmox.Python.Result.{Result, err, ok}
use nautobot_proxmox.Python.Run.{◌>>=◌, Run, and_then}
use nautobot_proxmox.Proxmox.Server.{Method, ProxmoxClient, Server, http_get}

module _ (srv : Server) where
  open srv use {State, send, sleep}

  -- From `s`, by requests that `Allowed` admits.
  pub data Trace (Allowed : Method → Text → Dict → Type 0) (s : State) : State → Type 0 where
    here : Trace Allowed s s
    sent :
        {t : State} (c : ProxmoxClient) (m : Method) (path : Text) (params : Dict)
        → Trace Allowed s t
        → Allowed m path params
        → Trace Allowed s (send c m path params t).1
    slept : {t : State} (n : ℕ) → Trace Allowed s t → Trace Allowed s (sleep n t)

  pub Trace-trans :
      {Allowed : Method → Text → Dict → Type 0} {s t u : State}
      → Trace Allowed s t
      → Trace Allowed t u
      → Trace Allowed s u
  Trace-trans a here = a
  Trace-trans a (sent c m path params b ok_) = sent c m path params (Trace-trans a b) ok_
  Trace-trans a (slept n b) = slept n (Trace-trans a b)

  -- A wider kind of requests.
  pub Trace-map :
      {Allowed Wider : Method → Text → Dict → Type 0} {s t : State}
      → ((m : Method) (path : Text) (d : Dict) → Allowed m path d → Wider m path d)
      → Trace Allowed s t
      → Trace Wider s t
  Trace-map f here = here
  Trace-map f (sent c m path params a ok_) =
      sent c m path params (Trace-map f a) (f m path params ok_)
  Trace-map f (slept n a) = slept n (Trace-map f a)

  -- Whatever happens, a run keeps to the requests that are allowed.
  abbrev pub Within : {E A : Type 0} → (Method → Text → Dict → Type 0) → Run State E A → Type 0
  Within Allowed run = (s : State) → Trace Allowed s (run s).1

  module _ {E A B : Type 0} (Allowed : Method → Text → Dict → Type 0) where
    pub Within-and_then :
        (s : State) (r : Result E A × State) (k : A → Run State E B)
        → Trace Allowed s r.1
        → ((a : A) → Within Allowed (k a))
        → Trace Allowed s (and_then r k).1
    Within-and_then s (err why, t) k a h = a
    Within-and_then s (ok x, t) k a h = Trace-trans a (h x t)

    -- The same where the rest keeps to them on what was returned.
    pub Trace-and_then :
        (s : State) (r : Result E A × State) (k : A → Run State E B)
        → Trace Allowed s r.1
        → ((x : A) (t : State) → r ≡ (ok x, t) → Trace Allowed t (k x t).1)
        → Trace Allowed s (and_then r k).1
    Trace-and_then s (err why, t) k a h = a
    Trace-and_then s (ok x, t) k a h = Trace-trans a (h x t refl)

    pub Within-bind :
        (run : Run State E A) (k : A → Run State E B)
        → Within Allowed run
        → ((a : A) → Within Allowed (k a))
        → Within Allowed (run >>= k)
    Within-bind run k a h s = Within-and_then s (run s) k (a s) h

-- Requests that only read.
abbrev pub Reads : Method → Text → Dict → Type 0
Reads http_get path params = Unit
Reads _ path params = ⊥
