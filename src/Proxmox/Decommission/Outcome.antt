-- ===== src/Proxmox/Decommission/Outcome.antt =====
-- The whole run of `DecommissionVnfDevice` (jobs/proxmox/decommission_device.py): what it does to
-- the node, and when it changes the record of the device.
use nautobot_proxmox.Prelude.{◌≡◌, refl, ◌⊎◌, inl, inr, Bool, Option, none, some, arith, Bool-cases}
use nautobot_proxmox.Prelude.Text.{codes, text_eq, text_eq_iff}
use nautobot_proxmox.Python.Value.{ℤ, Dict, get, int_of}
use nautobot_proxmox.Python.Result.{Result, err, ok}
use nautobot_proxmox.Python.Run.{and_then-ok}
use nautobot_proxmox.Proxmox.Server.{ProxmoxClient, Server}
use nautobot_proxmox.Proxmox.Values.{is_str}
use nautobot_proxmox.Proxmox.Trace.{Trace}
use nautobot_proxmox.Proxmox.Client.{destroy_vm}
use nautobot_proxmox.Proxmox.Record.{Hypervisor, VnfDevice, Vault}
use nautobot_proxmox.Proxmox.Decommission.{
  stop_if, stop_and_destroy, destroy_named, run_checked, write_back, Refusal, of_client,
  reported_vm, clear_node, VnfWorld, cleared, preflight, decommission,
}
use nautobot_proxmox.Proxmox.Decommission.Careful.{Permitted, of_client-ok, clear_node-Permitted}

-- The node no longer has the VM: its list shows none with the vmid, or the removal has succeeded.
abbrev pub Gone : (srv : Server) → ProxmoxClient → VnfDevice → Hypervisor → srv.State → Type 0
Gone srv c device hyp s =
    ((t : srv.State) × (reported_vm srv c hyp.name (int_of device.vmid) s ≡ (ok none, t)))
    ⊎ ((n : ℤ) × (int_of device.vmid ≡ some n)
        × (t : srv.State) × (u : srv.State) × (destroy_vm srv c hyp.name n t ≡ (ok tt, u)))

module _ (srv : Server) (c : ProxmoxClient) (device : VnfDevice) (hyp : Hypervisor)
    (s : srv.State) where
  open srv use {State, send, sleep}

  destroyed :
      (n : ℤ) (vm : Dict) (t u : State)
      → of_client (stop_and_destroy srv c hyp.name n vm t) ≡ (ok tt, u)
      → (v : State) × (w : State) × (destroy_vm srv c hyp.name n v ≡ (ok tt, w))
  unfolding stop_and_destroy
  destroyed n vm t u h =
      let (x, v, p, q) =
        and_then-ok
          (stop_if srv c (is_str (codes "running") (get (codes "status") vm)) hyp.name n t) _
          (of_client-ok srv c device hyp s (stop_and_destroy srv c hyp.name n vm t) tt u h) in
      (v, u, q)

  destroy_named-Gone :
      (o : Option ℤ) (vm : Option Dict) (t u : State)
      → int_of device.vmid ≡ o
      → reported_vm srv c hyp.name o s ≡ (ok vm, t)
      → destroy_named srv c device.name hyp.name o vm t ≡ (ok tt, u)
      → Gone srv c device hyp s
  unfolding destroy_named
  destroy_named-Gone o none t u e r h = inl (t, rw e r)
  destroy_named-Gone none (some vm) t u e r h = absurd (ground arith)
  destroy_named-Gone (some n) (some vm) t u e r h =
      elim (Bool-cases (is_str device.name (get (codes "name") vm))) [
        | inl y ↦ let (v, w, d) = destroyed n vm t u (rw y at h) in inr (n, e, v, w, d)
        | inr m ↦ absurd (ground arith)
      ]

  clear_node-Gone :
      (t : State) → clear_node srv c device hyp s ≡ (ok tt, t) → Gone srv c device hyp s
  unfolding clear_node
  clear_node-Gone t h =
      let o = int_of device.vmid in
      let (vm, u, p, q) = and_then-ok (of_client (reported_vm srv c hyp.name o s)) _ h in
      let (x, v, p', q') = and_then-ok (destroy_named srv c device.name hyp.name o vm u) _ q in
      destroy_named-Gone o vm u v refl
        (of_client-ok srv c device hyp s (reported_vm srv c hyp.name o s) vm u p) p'

module _ (srv : Server) (vault : Vault) (valid : VnfDevice → Bool) (device : VnfDevice)
    (s : srv.State) where
  open srv use {State, send, sleep}

  -- What a run may leave in the record.
  abbrev pub Recorded : Result Refusal (Unit {0}) × VnfWorld srv → Type 0
  Recorded (err why, (t, row)) = row ≡ device
  Recorded (ok done, (t, row)) =
      (row ≡ cleared device)
      × (device.status ≡ codes "Active")
      × (hyp : Hypervisor) × (c : ProxmoxClient) × (preflight vault device ≡ ok (hyp, c))
      × Gone srv c device hyp s

  preflight-Active :
      (r : Hypervisor × ProxmoxClient)
      → preflight vault device ≡ ok r
      → device.status ≡ codes "Active"
  unfolding preflight
  preflight-Active r h = elim (Bool-cases (text_eq device.status (codes "Active"))) [
    | inl y ↦ (text_eq_iff device.status (codes "Active")).0 y
    | inr n ↦ absurd (let k = rw n at h in ground arith)
  ]

  write_back-Recorded :
      (hyp : Hypervisor) (c : ProxmoxClient) (p : Result Refusal (Unit {0}) × State)
      → preflight vault device ≡ ok (hyp, c)
      → clear_node srv c device hyp s ≡ p
      → Recorded (write_back srv vault valid device p)
  unfolding write_back
  write_back-Recorded hyp c (err why, t) e r = refl
  write_back-Recorded hyp c (ok done, t) e r = elim (Bool-cases (valid (cleared device))) [
    | inl y ↦
        rw y (refl, preflight-Active (hyp, c) e, hyp, c, e, clear_node-Gone srv c device hyp s t r)
    | inr n ↦ rw n refl
  ]

  -- A run that fails leaves the record as it is; one that returns has cleared the vmid and set the
  -- status to Planned, on a device that was Active, where the node lists no VM with the vmid or its
  -- removal has succeeded.
  pub decommission-Recorded : Recorded (decommission srv vault valid (s, device))
  unfolding decommission run_checked
  decommission-Recorded = checked (preflight vault device) refl
    where
      checked :
          (r : Result Refusal (Hypervisor × ProxmoxClient))
          → preflight vault device ≡ r
          → Recorded (run_checked srv vault valid device s r)
      checked (err why) e = refl
      checked (ok (hyp, c)) e = write_back-Recorded hyp c (clear_node srv c device hyp s) e refl

  write_back-state :
      (p : Result Refusal (Unit {0}) × State) → (write_back srv vault valid device p).1.0 ≡ p.1
  unfolding write_back
  write_back-state (err why, t) = refl
  write_back-state (ok done, t) = ground arith

  -- After a refusal on the record alone nothing has happened; otherwise only permitted requests.
  abbrev pub IsCareful : Result Refusal (Hypervisor × ProxmoxClient) → Type 0
  IsCareful (err why) = decommission srv vault valid (s, device) ≡ (err why, (s, device))
  IsCareful (ok (hyp, c)) =
      Trace srv (Permitted srv c device hyp s) s (decommission srv vault valid (s, device)).1.0

  -- Where the record alone is refused, nothing is sent and nothing changes. Otherwise, whatever the
  -- node answers, the job only reads, stops and destroys a VM that the node's first answer lists with
  -- the recorded vmid and the device's name, and, for a PA device, deletes the bootstrap ISO of that
  -- name from the hypervisor's import storage.
  pub decommission-IsCareful : IsCareful (preflight vault device)
  unfolding decommission run_checked
  decommission-IsCareful = careful (preflight vault device) refl
    where
      careful :
          (r : Result Refusal (Hypervisor × ProxmoxClient))
          → preflight vault device ≡ r
          → IsCareful r
      careful (err why) e = rw e
      careful (ok (hyp, c)) e = rw e (
          rw (write_back-state (clear_node srv c device hyp s))
            (clear_node-Permitted srv c device hyp s))
