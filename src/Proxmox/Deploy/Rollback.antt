-- ===== src/Proxmox/Deploy/Rollback.antt =====
-- What `DeployVnfDevice` (jobs/proxmox/deploy_device.py) may send to a node: its rollback removes a
-- VM only if the node lists it under the device's name.
use mathlib.Core.Path.{subst}
use nautobot_proxmox.Prelude.{
  ◌≡◌, refl, sym, inl, inr, Bool, true, false, Option, none, some, List, [], ◌∷◌, arith,
  if◌then◌else◌, Bool-cases, In,
}
use nautobot_proxmox.Prelude.Text.{Text, codes, text_eq}
use nautobot_proxmox.Python.Value.{ℤ, Value, Fields, Dict, entries, get, truthy, str_of}
use nautobot_proxmox.Python.Result.{Result, ◌>>=◌, bind-eq-ok, ok_inj, err, ok}
use nautobot_proxmox.Proxmox.Server.{Failure, crash}
use nautobot_proxmox.Proxmox.Values.{iterate, is_str}
use nautobot_proxmox.Proxmox.Client.{each, whole}
use nautobot_proxmox.Proxmox.Deploy.{
  vm_at, action_of, RollbackAction, rollback_vm_decision, destroy,
}

module _ (repr : Value → Text) where
  vm_at-found :
      (w : Text) (vs : List Value) (vm : Dict)
      → vm_at repr w vs ≡ ok (some vm)
      → (fs : Fields) × In (Value.dict fs) vs
        × (entries fs ≡ vm)
        × (text_eq (str_of repr (get (codes "vmid") vm)) w ≡ true)
  unfolding vm_at
  vm_at-found w [] vm h = absurd (ground arith)
  vm_at-found w (Value.dict fs ∷ vs) vm h =
      elim (Bool-cases (text_eq (str_of repr (get (codes "vmid") (entries fs))) w)) [
        | inl y ↦
            let same : entries fs ≡ vm = ground arith in
            (
              fs,
              inl refl,
              same,
              subst (λ d. text_eq (str_of repr (get (codes "vmid") d)) w ≡ true) same y,
            )
        | inr m ↦ let (gs, k, e, i) = vm_at-found w vs vm (rw m at h) in (gs, inr k, e, i)
      ]
  vm_at-found w (Value.null ∷ vs) vm h = absurd (ground arith)
  vm_at-found w (Value.bool b ∷ vs) vm h = absurd (ground arith)
  vm_at-found w (Value.int b ∷ vs) vm h = absurd (ground arith)
  vm_at-found w (Value.str b ∷ vs) vm h = absurd (ground arith)
  vm_at-found w (Value.list b ∷ vs) vm h = absurd (ground arith)
  vm_at-found w (Value.other b t m ∷ vs) vm h = absurd (ground arith)

  -- The list shows a VM with this vmid and name.
  pub record Lists (vms : Value) (n : ℤ) (name : Text) : Type 0 where
    pub listed : List Value
    pub entries_of : iterate vms ≡ some listed
    pub vm : Fields
    pub among : In (Value.dict vm) listed
    pub has_vmid : text_eq (str_of repr (get (codes "vmid") (entries vm))) (whole n) ≡ true
    pub has_name : is_str name (get (codes "name") (entries vm)) ≡ true

  action-Lists :
      (vms : Value) (vs : List Value) (n : ℤ) (name : Text) (o : Option Dict)
      → iterate vms ≡ some vs
      → vm_at repr (whole n) vs ≡ ok o
      → action_of repr name o ≡ destroy
      → Lists vms n name
  unfolding action_of
  action-Lists vms vs n name none i e h = absurd (ground arith)
  action-Lists vms vs n name (some vm) i e h =
      let (fs, at, same, has) = vm_at-found (whole n) vs vm e in
      let its_name : is_str name (get (codes "name") vm) ≡ true = ground arith in
      record {
        listed = vs;
        entries_of = i;
        vm = fs;
        among = at;
        has_vmid =
            subst (λ d. text_eq (str_of repr (get (codes "vmid") d)) (whole n) ≡ true) (sym same)
              has;
        has_name = subst (λ d. is_str name (get (codes "name") d) ≡ true) (sym same) its_name;
      }

  -- The decision to destroy is made only for a VM that the list shows with the vmid and the name.
  pub rollback_vm_decision-Lists :
      (vms : Value) (n : ℤ) (name : Text)
      → rollback_vm_decision repr vms n name ≡ ok destroy
      → Lists vms n name
  unfolding rollback_vm_decision each
  rollback_vm_decision-Lists vms n name h = shown (truthy vms) h
    where
      rest : List Value → Result Failure RollbackAction
      rest vs = vm_at repr (whole n) vs >>= λ vm. ok (action_of repr name vm)

      items :
          (o : Option (List Value))
          → iterate vms ≡ o
          → (elim o [ none ↦ err crash | some vs ↦ ok vs ] >>= rest) ≡ ok destroy
          → Lists vms n name
      items none i k = absurd (ground arith)
      items (some vs) i k =
          let (o, e, d) =
            bind-eq-ok (vm_at repr (whole n) vs) (λ vm. ok (action_of repr name vm)) k in
          action-Lists vms vs n name o i e (ok_inj _ _ d)

      shown :
          (b : Bool)
          → ((if b then elim (iterate vms) [ none ↦ err crash | some vs ↦ ok vs ] else ok [])
              >>= rest)
            ≡ ok destroy
          → Lists vms n name
      shown true k = items (iterate vms) refl k
      shown false k = absurd (let e = ok_inj _ _ (unfold vm_at action_of in k) in ground arith)
