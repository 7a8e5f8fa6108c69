-- ===== src/Proxmox/Deploy/Outcome.antt =====
-- The whole of what `DeployVnfDevice` (jobs/proxmox/deploy_device.py) does with a device whose
-- contract is read: its requests, and the record that it writes back.
use nautobot_proxmox.Python.Value.{pos}
use nautobot_proxmox.Python.Run.{Run, and_then}
use nautobot_proxmox.Proxmox.Trace.{Trace-trans}
use nautobot_proxmox.Python.Result.{err}
use nautobot_proxmox.Python.Run.{◌>>=◌, and_then-ok}
use nautobot_proxmox.Proxmox.Client.{vm_config, create_vm, start_vm}
use nautobot_proxmox.Proxmox.Record.{VnfDevice}
use nautobot_proxmox.Proxmox.Decommission.{VnfWorld}
use nautobot_proxmox.Proxmox.Deploy.{disk_size_mb, must_grow}
use nautobot_proxmox.Proxmox.Deploy.Node.{
  scsi0_of, deployed, resize_if, configure, roll_back, raise_after, record_vmid, deploy_contract,
}
use nautobot_proxmox.Proxmox.Deploy.Sends.{of_node-ok, verified}
use nautobot_proxmox.Prelude.{ap, ◌∙◌, inl, inr, Bool, arith, Bool-cases}
use mathlib.Core.Path.{subst}
use nautobot_proxmox.Prelude.{◌≡◌, refl, Option, some, List, [], ◌∷◌}
use nautobot_proxmox.Prelude.Text.{Text, codes, text_eq}
use nautobot_proxmox.Python.Value.{ℤ, Value, Dict}
use nautobot_proxmox.Python.Result.{Result, ok}
use nautobot_proxmox.Python.Assoc.{lookup}
use nautobot_proxmox.Proxmox.Server.{Method, ProxmoxClient, Server, Failure}
use nautobot_proxmox.Proxmox.Trace.{Trace, Trace-map, Within, Within-and_then, Trace-and_then, here}
use nautobot_proxmox.Proxmox.Client.{next_vmid, list_vms, ensure_image}
use nautobot_proxmox.Proxmox.Client.Requests.{list_vms-Within, next_vmid-Within}
use nautobot_proxmox.Proxmox.Client.Verified.{ensure_image-Pulls}
use nautobot_proxmox.Proxmox.Deploy.{Contract, DeployRefusal, vms_named, number, vm_params}
use nautobot_proxmox.Proxmox.Deploy.Node.{
  of_node, each_of, refuse_taken, day0_drive, build_vm, unless_built, deploy_node,
}
use nautobot_proxmox.Proxmox.Deploy.Sends.{own_iso, Sends, of_node-Trace, unless_built-Trace}
use nautobot_proxmox.Proxmox.Deploy.Steps.{
  may_read, build_vm-Within, IsOwn, day0_drive-IsOwn, day0_drive-Within,
}

module _ (srv : Server) (c : ProxmoxClient) (repr : Value → Text) (k : Contract) where
  open srv use {State, send, sleep}

  abbrev Sent : ℤ → Method → Text → Dict → Type 0
  Sent = Sends srv c repr k

  vm_params-vmid :
      (n : ℤ) (volid : Text) (memory cores : ℤ) (ide2 : Text)
      → lookup (codes "vmid") (vm_params k n volid memory cores ide2) ≡ some (Value.int n)
  unfolding vm_params lookup text_eq
  vm_params-vmid n volid memory cores ide2 = refl

  vm_params-name :
      (n : ℤ) (volid : Text) (memory cores : ℤ) (ide2 : Text)
      → lookup (codes "name") (vm_params k n volid memory cores ide2) ≡ some (Value.str k.name)
  unfolding vm_params lookup text_eq
  vm_params-name n volid memory cores ide2 = refl

  unless-Trace :
      (n : ℤ) (volid : Text) (memory cores : ℤ) (drive : Text × Option Text) (s : State)
      → ((v : Text) → drive.1 ≡ some v → v ≡ own_iso srv c repr k)
      → Trace srv
          (Sent n)
          s
          (unless_built srv c repr k n drive.1
            (build_vm srv c repr k n (vm_params k n volid memory cores drive.0) s)).1
  unless-Trace n volid memory cores drive s own =
      unless_built-Trace srv c repr k n drive.1 s
        (build_vm srv c repr k n (vm_params k n volid memory cores drive.0) s) own
        (build_vm-Within srv c repr k n (vm_params k n volid memory cores drive.0)
          (vm_params-vmid n volid memory cores drive.0)
          (vm_params-name n volid memory cores drive.0) s)

  own_of :
      (p : Result DeployRefusal (Text × Option Text) × State)
      → IsOwn srv c repr k p
      → (drive : Text × Option Text) (t : State) → p ≡ (ok drive, t)
      → (v : Text) → drive.1 ≡ some v
      → v ≡ own_iso srv c repr k
  own_of p h drive t e = subst (IsOwn srv c repr k) e h

  -- From the choice of the vmid on.
  abbrev vm_of : Text → ℤ → Run State DeployRefusal ℤ
  vm_of volid n = do
    memory ← λ s. of_node (number k.memory_mb, s)
    cores ← λ s. of_node (number k.vcpus, s)
    drive ← day0_drive srv c repr k k.day0
    λ s.
        unless_built srv c repr k n drive.1
          (build_vm srv c repr k n (vm_params k n volid memory cores drive.0) s)

  vm_of-Within : (volid : Text) (n : ℤ) → Within srv (Sent n) (vm_of volid n)
  vm_of-Within volid n s =
      Within-and_then srv (Sent n) s (of_node (number k.memory_mb, s)) _
        (of_node-Trace srv c repr k n s (number k.memory_mb, s) here)
        λ memory t.
          Within-and_then srv (Sent n) t (of_node (number k.vcpus, t)) _
            (of_node-Trace srv c repr k n t (number k.vcpus, t) here)
            λ cores u.
              let p = day0_drive srv c repr k k.day0 u in
              Trace-and_then srv (Sent n) u p _ (day0_drive-Within srv c repr k n k.day0 u)
                λ drive v e.
                  unless-Trace n volid memory cores drive v
                    (own_of p (day0_drive-IsOwn srv c repr k k.day0 u) drive v e)

  refuse_taken-Within :
      (n : ℤ) (vms : List Dict) → Within srv (Sent n) (refuse_taken srv c repr vms)
  unfolding refuse_taken
  refuse_taken-Within n [] s = here
  refuse_taken-Within n (vm ∷ vms) s = here

  -- All requests are about one new VM.
  abbrev pub SendsFrom : {A : Type 0} → State → Result DeployRefusal A × State → Type 0
  SendsFrom s p = (vmid : ℤ) × Trace srv (Sends srv c repr k vmid) s p.1

  -- Before the vmid is known, the requests are those of any.
  before_vmid :
      {A B : Type 0} (s : State) (p : Result DeployRefusal A × State)
      (f : A → Run State DeployRefusal B)
      → ((n : ℤ) → Trace srv (Sent n) s p.1)
      → ((a : A) (t : State) → SendsFrom t (f a t))
      → SendsFrom s (and_then p f)
  before_vmid s (err why, t) f a h = (pos 0, a (pos 0))
  before_vmid s (ok x, t) f a h = let (n, b) = h x t in (n, Trace-trans srv (a n) b)

  choose_vmid :
      (s : State) (volid : Text) (p : Result DeployRefusal ℤ × State)
      → ((n : ℤ) → Trace srv (Sent n) s p.1)
      → SendsFrom s (and_then p (vm_of volid))
  choose_vmid s volid (err why, t) a = (pos 0, a (pos 0))
  choose_vmid s volid (ok n, t) a = (n, Trace-trans srv (a n) (vm_of-Within volid n t))

  -- The deploy reads, pulls the image verified by its checksum, and creates, configures, resizes and
  -- starts one VM, which it creates with the device's name; it deletes no volume but the bootstrap ISO
  -- of that name. Its rollback stops and destroys no VM but that one, and only if the node lists it then
  -- with its vmid and that name.
  pub deploy_node-Sends : (s : State) → SendsFrom s (deploy_node srv c repr k s)
  unfolding deploy_node each_of
  deploy_node-Sends s =
      let listing = each_of srv c repr (list_vms srv c k.node) s in
      before_vmid s (of_node listing) _
        (λ n. of_node-Trace srv c repr k n s listing (
          Within-and_then srv (Sent n) s (list_vms srv c k.node s) _
            (list_vms-Within srv c (Sent n) (may_read srv c repr k n) k.node s) (λ v t. here)))
        λ vms t.
          before_vmid t (of_node (vms_named k.name vms, t)) _
            (λ n. of_node-Trace srv c repr k n t (vms_named k.name vms, t) here)
            λ taken t₁.
              before_vmid t₁ (refuse_taken srv c repr taken t₁) _
                (λ n. refuse_taken-Within n taken t₁)
                λ x t₂.
                  let image =
                    ensure_image srv c k.node k.import_storage k.image_name k.image_url
                      k.image_checksum k.image_algorithm t₂ in
                  before_vmid t₂ (of_node image) _
                    (λ n. of_node-Trace srv c repr k n t₂ image (
                      Trace-map srv (λ m path params h. verified h)
                        (ensure_image-Pulls k.node k.import_storage k.image_checksum srv c
                          k.image_name k.image_url k.image_algorithm t₂)))
                    λ volid t₃. choose_vmid t₃ volid (of_node (next_vmid srv c t₃)) (λ n.
                      of_node-Trace srv c repr k n t₃ (next_vmid srv c t₃)
                        (next_vmid-Within srv c (Sent n) (may_read srv c repr k n) t₃))

  -- No VM of the name was on the node when the run began, and the VM was started at its end.
  abbrev pub IsFresh : State → ℤ → Type 0
  IsFresh s n =
      ((vms : List Value) × (t : State) × (each_of srv c repr (list_vms srv c k.node) s
          ≡ (ok vms, t))
        × (vms_named k.name vms ≡ ok []))
      × ((u : State) × (v : State) × (start_vm srv c k.node n u ≡ (ok tt, v)))

  build_vm-started :
      (n : ℤ) (params : Dict) (s t : State)
      → build_vm srv c repr k n params s ≡ (ok tt, t)
      → (u : State) × (v : State) × (start_vm srv c k.node n u ≡ (ok tt, v))
  unfolding build_vm
  build_vm-started n params s t h =
      let (x, s₁, p₁, h₁) = and_then-ok (create_vm srv c k.node params s) _ h in
      let (cfg, s₂, p₂, h₂) = and_then-ok (vm_config srv c k.node n s₁) _ h₁ in
      let (drive, s₃, p₃, h₃) = and_then-ok (scsi0_of cfg, s₂) _ h₂ in
      let (size, s₄, p₄, h₄) = and_then-ok (disk_size_mb drive, s₃) _ h₃ in
      let (gb, s₅, p₅, h₅) = and_then-ok (number k.disk_gb, s₄) _ h₄ in
      let (y, s₆, p₆, h₆) = and_then-ok (resize_if srv c repr (must_grow gb size) k n gb s₅) _ h₅ in
      let (z, s₇, p₇, h₇) = and_then-ok (configure srv c repr k n k.day0 s₆) _ h₆ in (s₇, t, h₇)

  unless_built-ok :
      (n m : ℤ) (o : Option Text) (p : Result Failure (Unit {0}) × State) (t : State)
      → unless_built srv c repr k n o p ≡ (ok m, t)
      → (n ≡ m) × (p ≡ (ok tt, t))
  unfolding unless_built raise_after
  unless_built-ok n m o (ok tt, u) t h = (ground arith, ground arith)
  unless_built-ok n m o (err why, u) t h = raised (roll_back srv c repr k n o u) h
    where
      raised :
          (q : Result Failure (Unit {0}) × State)
          → raise_after srv c repr why q ≡ (ok m, t)
          → (n ≡ m) × (◌≡◌ {A = Result Failure (Unit {0}) × State} (err why, u) (ok tt, t))
      raised (ok done, v) e = absurd (ground arith)
      raised (err later, v) e = absurd (ground arith)

  refuse_taken-ok :
      (vms : List Dict) (s t : State) → refuse_taken srv c repr vms s ≡ (ok tt, t) → vms ≡ []
  unfolding refuse_taken
  refuse_taken-ok [] s t h = refl
  refuse_taken-ok (vm ∷ vms) s t h = absurd (ground arith)

  deploy_node-IsFresh : (s t : State) (n : ℤ) → deploy_node srv c repr k s ≡ (ok n, t) → IsFresh s n
  unfolding deploy_node
  deploy_node-IsFresh s t n h =
      let listing = each_of srv c repr (list_vms srv c k.node) s in
      let (vms, s₁, p₁, h₁) = and_then-ok (of_node listing) _ h in
      let (taken, s₂, p₂, h₂) = and_then-ok (of_node (vms_named k.name vms, s₁)) _ h₁ in
      let (x, s₃, p₃, h₃) = and_then-ok (refuse_taken srv c repr taken s₂) _ h₂ in
      let (volid, s₄, p₄, h₄) =
        and_then-ok
          (of_node (
            ensure_image srv c k.node k.import_storage k.image_name k.image_url k.image_checksum
              k.image_algorithm s₃))
          _ h₃ in
      let (vmid, s₅, p₅, h₅) = and_then-ok (of_node (next_vmid srv c s₄)) _ h₄ in
      let (memory, s₆, p₆, h₆) = and_then-ok (of_node (number k.memory_mb, s₅)) _ h₅ in
      let (cores, s₇, p₇, h₇) = and_then-ok (of_node (number k.vcpus, s₆)) _ h₆ in
      let (drive, s₈, p₈, h₈) = and_then-ok (day0_drive srv c repr k k.day0 s₇) _ h₇ in
      let params = vm_params k vmid volid memory cores drive.0 in
      let (same, built) =
        unless_built-ok vmid n drive.1 (build_vm srv c repr k vmid params s₈) t h₈ in
      let none_there = refuse_taken-ok taken s₂ s₃ p₃ in
      (
        (
          vms,
          s₁,
          of_node-ok srv c repr k listing vms s₁ p₁,
          ap (λ (r : Result Failure (List Dict) × State). r.0)
                (of_node-ok srv c repr k (vms_named k.name vms, s₁) taken s₂ p₂)
              ∙ ap ok none_there,
        ),
        subst (λ m. (u : State) × (v : State) × (start_vm srv c k.node m u ≡ (ok tt, v))) same
            (build_vm-started vmid params s₈ t built),
      )

  -- What a run may leave in the record.
  abbrev pub IsRecorded : VnfDevice → State → Result DeployRefusal ℤ × VnfWorld srv → Type 0
  IsRecorded device s (err why, (t, row)) = row ≡ device
  IsRecorded device s (ok n, (t, row)) = (row ≡ deployed device n) × IsFresh s n

  module _ (valid : VnfDevice → Bool) where
    record_vmid-IsRecorded :
        (device : VnfDevice) (s : State) (p : Result DeployRefusal ℤ × State)
        → deploy_node srv c repr k s ≡ p
        → IsRecorded device s (record_vmid srv c repr valid device p)
    unfolding record_vmid
    record_vmid-IsRecorded device s (err why, t) e = refl
    record_vmid-IsRecorded device s (ok n, t) e = elim (Bool-cases (valid (deployed device n))) [
      | inl y ↦ rw y (refl, deploy_node-IsFresh s t n e)
      | inr m ↦ rw m refl
    ]

    -- A run that fails leaves the record as it is. One that returns a vmid has written it and the
    -- status Active, no VM of the name was listed when it began, and the start of the VM with that
    -- vmid has succeeded.
    pub deploy_contract-IsRecorded :
        (device : VnfDevice) (s : State)
        → IsRecorded device s (deploy_contract srv c repr valid k (s, device))
    unfolding deploy_contract
    deploy_contract-IsRecorded device s =
        record_vmid-IsRecorded device s (deploy_node srv c repr k s) refl
