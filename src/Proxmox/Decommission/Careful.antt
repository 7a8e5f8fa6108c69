-- ===== src/Proxmox/Decommission/Careful.antt =====
-- What `DecommissionVnfDevice` (jobs/proxmox/decommission_device.py) may do to a node, and when it
-- changes the record.
use nautobot_proxmox.Prelude.{◌∙◌, Bool, false}
use nautobot_proxmox.Python.Value.{non_empty}
use nautobot_proxmox.Python.Run.{Run}
use nautobot_proxmox.Proxmox.Trace.{Trace, Within, Trace-and_then, Within-bind, here}
use nautobot_proxmox.Proxmox.Client.{find_iso_volume, destroy_vm}
use nautobot_proxmox.Proxmox.Client.Requests.{
  find_iso_volume-suffix, list_vms-Within, find_iso_volume-Within, stop_vm-Within,
  destroy_vm-Within, delete_volume-Within,
}
use nautobot_proxmox.Proxmox.Decommission.{of_client, best_effort, clear_node}
use mathlib.Core.Path.{subst}
use nautobot_proxmox.Prelude.{
  ◌≡◌, refl, sym, ap, inl, inr, true, Option, none, some, List, [], ◌∷◌, arith, Bool-cases, In,
}
use nautobot_proxmox.Prelude.Text.{Text, codes}
use nautobot_proxmox.Python.Value.{ℤ, Value, Fields, Dict, entries, get, int_of}
use nautobot_proxmox.Python.Result.{Result, err, ok}
use nautobot_proxmox.Python.Run.{◌>>=◌, and_then, lift}
use nautobot_proxmox.Proxmox.Server.{
  Method, ProxmoxClient, Server, Failure, http_post, http_delete, crash,
}
use nautobot_proxmox.Proxmox.Values.{iterate, is_str, is_int, ends_with}
use nautobot_proxmox.Proxmox.Trace.{Reads}
use nautobot_proxmox.Proxmox.Client.{each, destroy_path, stop_path, volume_path, list_vms}
use nautobot_proxmox.Proxmox.Record.{Hypervisor, VnfDevice}
use nautobot_proxmox.Proxmox.Decommission.{
  stop_if, stop_and_destroy, destroy_named, delete_orphan, sweep, sweep_storage, find_vm,
  is_pa_platform, bootstrap_iso, reported_vm,
}

find_vm-found :
    (n : ℤ) (vs : List Value) (vm : Dict)
    → find_vm (some n) vs ≡ ok (some vm)
    → (fs : Fields) × In (Value.dict fs) vs
      × (entries fs ≡ vm)
      × (is_int n (get (codes "vmid") vm) ≡ true)
unfolding find_vm
find_vm-found n [] vm h = absurd (ground arith)
find_vm-found n (Value.dict fs ∷ vs) vm h =
    elim (Bool-cases (is_int n (get (codes "vmid") (entries fs)))) [
      | inl y ↦
          let same : entries fs ≡ vm = ground arith in
          (fs, inl refl, same, subst (λ d. is_int n (get (codes "vmid") d) ≡ true) same y)
      | inr m ↦ let (gs, k, e, i) = find_vm-found n vs vm (rw m at h) in (gs, inr k, e, i)
    ]
find_vm-found n (Value.null ∷ vs) vm h = absurd (ground arith)
find_vm-found n (Value.bool b ∷ vs) vm h = absurd (ground arith)
find_vm-found n (Value.int b ∷ vs) vm h = absurd (ground arith)
find_vm-found n (Value.str b ∷ vs) vm h = absurd (ground arith)
find_vm-found n (Value.list b ∷ vs) vm h = absurd (ground arith)
find_vm-found n (Value.other b t m ∷ vs) vm h = absurd (ground arith)

module _ (srv : Server) (c : ProxmoxClient) (device : VnfDevice) (hyp : Hypervisor)
    (s : srv.State) where
  open srv use {State, send, sleep}

  -- The node's answer to the first request lists a VM with this vmid and the device's name.
  pub record Confirmed (n : ℤ) : Type 0 where
    pub recorded : int_of device.vmid ≡ some n
    pub answer : Value
    pub after : State
    pub answered : list_vms srv c hyp.name s ≡ (ok answer, after)
    pub listed : List Value
    pub entries_of : iterate answer ≡ some listed
    pub vm : Fields
    pub among : In (Value.dict vm) listed
    pub has_vmid : is_int n (get (codes "vmid") (entries vm)) ≡ true
    pub has_name : is_str device.name (get (codes "name") (entries vm)) ≡ true

  -- The requests that the job may send.
  pub data Permitted : Method → Text → Dict → Type 0 where
    reading :
        {m : Method} {path : Text} {params : Dict} → Reads m path params → Permitted m path params
    stopping :
        {params : Dict} (n : ℤ) → Confirmed n → Permitted http_post (stop_path hyp.name n) params
    destroying :
        {params : Dict} (n : ℤ)
        → Confirmed n
        → Permitted http_delete (destroy_path hyp.name n) params
    -- The bootstrap ISO of a PA device, on the hypervisor's import storage.
    sweeping :
        {params : Dict} (storage volid : Text)
        → is_pa_platform device ≡ true
        → hyp.import_storage ≡ some storage
        → ends_with (b'/' ∷ bootstrap_iso device.name) volid ≡ true
        → Permitted http_delete (volume_path hyp.name storage volid) params

  reads : (m : Method) (path : Text) (params : Dict) → Reads m path params → Permitted m path params
  reads m path params h = reading h

  reported-Confirmed :
      (n : ℤ) (vm : Dict) (t : State)
      → int_of device.vmid ≡ some n
      → reported_vm srv c hyp.name (some n) s ≡ (ok (some vm), t)
      → is_str device.name (get (codes "name") vm) ≡ true
      → Confirmed n
  unfolding reported_vm each
  reported-Confirmed n vm t e r name = listing (list_vms srv c hyp.name s) refl r
    where
      listing :
          (p : Result Failure Value × State)
          → list_vms srv c hyp.name s ≡ p
          → and_then p (λ v. lift (each v) >>= λ vs. lift (find_vm (some n) vs)) ≡ (ok (some vm), t)
          → Confirmed n
      listing (err why, u) q h = absurd (ground arith)
      listing (ok v, u) q h = items (iterate v) refl h
        where
          items :
              (o : Option (List Value))
              → iterate v ≡ o
              → and_then
                  (elim o [ none ↦ err crash | some vs ↦ ok vs ], u)
                  (λ vs. lift (find_vm (some n) vs))
                ≡ (ok (some vm), t)
              → Confirmed n
          items none i k = absurd (ground arith)
          items (some vs) i k =
              let (fs, at, same, has) =
                find_vm-found n vs vm (ap (λ (x : Result Failure (Option Dict) × State). x.0) k) in
              record {
                recorded = e;
                answer = v;
                after = u;
                answered = q;
                listed = vs;
                entries_of = i;
                vm = fs;
                among = at;
                has_vmid = subst (λ d. is_int n (get (codes "vmid") d) ≡ true) (sym same) has;
                has_name =
                    subst (λ d. is_str device.name (get (codes "name") d) ≡ true) (sym same) name;
              }

  of_client-state : {A : Type 0} (p : Result Failure A × State) → (of_client p).1 ≡ p.1
  unfolding of_client
  of_client-state (err why, t) = refl
  of_client-state (ok a, t) = refl

  of_client-Trace :
      {A : Type 0} (t : State) (p : Result Failure A × State)
      → Trace srv Permitted t p.1
      → Trace srv Permitted t (of_client p).1
  of_client-Trace t p a = rw (of_client-state p) a

  stop_and_destroy-Within :
      (n : ℤ) (vm : Dict)
      → Confirmed n
      → Within srv Permitted (stop_and_destroy srv c hyp.name n vm)
  unfolding stop_and_destroy stop_if
  stop_and_destroy-Within n vm known =
      Within-bind srv Permitted
        (stop_if srv c (is_str (codes "running") (get (codes "status") vm)) hyp.name n)
        (λ u. destroy_vm srv c hyp.name n)
        (stops (is_str (codes "running") (get (codes "status") vm)))
        (λ u. destroy_vm-Within srv c Permitted reads hyp.name n (destroying n known))
    where
      stops : (b : Bool) → Within srv Permitted (stop_if srv c b hyp.name n)
      stops true t = stop_vm-Within srv c Permitted reads hyp.name n (stopping n known) t
      stops false t = here

  destroy_named-Trace :
      (o : Option ℤ) (vm : Option Dict) (t : State)
      → int_of device.vmid ≡ o
      → reported_vm srv c hyp.name o s ≡ (ok vm, t)
      → Trace srv Permitted t (destroy_named srv c device.name hyp.name o vm t).1
  unfolding destroy_named
  destroy_named-Trace o none t e r = here
  destroy_named-Trace none (some vm) t e r = here
  destroy_named-Trace (some n) (some vm) t e r =
      elim (Bool-cases (is_str device.name (get (codes "name") vm))) [
        | inl y ↦ rw y (
            of_client-Trace t (stop_and_destroy srv c hyp.name n vm t)
              (stop_and_destroy-Within n vm (reported-Confirmed n vm t e r y) t))
        | inr m ↦ rw m here
      ]

  best_effort-state : (p : Result Failure (Unit {0}) × State) → (best_effort p).1 ≡ p.1
  unfolding best_effort
  best_effort-state (ok done, t) = refl
  best_effort-state (err why, t) = ground arith

  delete_orphan-Trace :
      (storage : Text) (o : Option Text) (t : State)
      → is_pa_platform device ≡ true
      → hyp.import_storage ≡ some storage
      → ((volid : Text)
          → o ≡ some volid
          → ends_with (b'/' ∷ bootstrap_iso device.name) volid ≡ true)
      → Trace srv Permitted t (delete_orphan srv c hyp.name storage (non_empty o) t).1
  unfolding delete_orphan
  delete_orphan-Trace storage none t pa st has = here
  delete_orphan-Trace storage (some []) t pa st has = here
  delete_orphan-Trace storage (some (x ∷ v)) t pa st has =
      delete_volume-Within srv c Permitted reads hyp.name storage (x ∷ v)
        (sweeping storage (x ∷ v) pa st (has (x ∷ v) refl)) t

  sweep-Trace :
      (b : Bool) (o : Option Text) (t : State)
      → is_pa_platform device ≡ b
      → hyp.import_storage ≡ o
      → Trace srv Permitted t (sweep srv c b device.name hyp.name (non_empty o) t).1
  unfolding sweep sweep_storage
  sweep-Trace false o t pa st = here
  sweep-Trace true none t pa st = here
  sweep-Trace true (some []) t pa st = here
  sweep-Trace true (some (x ∷ storage)) t pa st =
      rw
        (best_effort-state (
          and_then (find t)
            (λ volid. delete_orphan srv c hyp.name (x ∷ storage) (non_empty volid))))
        (Trace-and_then srv Permitted t (find t)
          (λ volid. delete_orphan srv c hyp.name (x ∷ storage) (non_empty volid))
          (find_iso_volume-Within srv c Permitted reads hyp.name (x ∷ storage)
            (bootstrap_iso device.name) t)
          (λ o u e. delete_orphan-Trace (x ∷ storage) o u pa st (λ volid same.
            find_iso_volume-suffix srv c hyp.name (x ∷ storage) (bootstrap_iso device.name) t u
              volid (e ∙ ap (λ (w : Option Text). (ok w, u)) same))))
    where
      find : Run State Failure (Option Text)
      find = find_iso_volume srv c hyp.name (x ∷ storage) (bootstrap_iso device.name)

  reported_vm-Within : (o : Option ℤ) → Within srv Permitted (reported_vm srv c hyp.name o)
  unfolding reported_vm
  reported_vm-Within o =
      Within-bind srv Permitted (list_vms srv c hyp.name)
        (λ v. lift (each v) >>= λ vs. lift (find_vm o vs))
        (list_vms-Within srv c Permitted reads hyp.name)
        (λ v.
          Within-bind srv Permitted (lift (each v)) (λ vs. lift (find_vm o vs)) (λ t. here)
            (λ vs t. here))

  pub of_client-ok :
      {A : Type 0} (p : Result Failure A × State) (a : A) (t : State)
      → of_client p ≡ (ok a, t)
      → p ≡ (ok a, t)
  unfolding of_client
  of_client-ok (err why, u) a t h = absurd (ground arith)
  of_client-ok (ok b, u) a t h = ground arith

  -- Whatever the node answers, the job reads, and it stops and destroys only a VM that the node's
  -- list shows with the recorded vmid and the device's name; for a PA device it also deletes the
  -- bootstrap ISO of that name from the hypervisor's import storage, and nothing else.
  pub clear_node-Permitted : Trace srv Permitted s (clear_node srv c device hyp s).1
  unfolding clear_node
  clear_node-Permitted =
      Trace-and_then srv Permitted s (of_client (reported_vm srv c hyp.name o s)) _
        (of_client-Trace s (reported_vm srv c hyp.name o s) (reported_vm-Within o s))
        (λ vm t e.
          Trace-and_then srv Permitted t (destroy_named srv c device.name hyp.name o vm t) _
            (destroy_named-Trace o vm t refl (of_client-ok (reported_vm srv c hyp.name o s) vm t e))
            (λ u w k. sweep-Trace (is_pa_platform device) hyp.import_storage w refl refl))
    where
      o : Option ℤ
      o = int_of device.vmid
