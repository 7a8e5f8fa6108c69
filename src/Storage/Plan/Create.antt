-- ===== src/Storage/Plan/Create.antt =====
-- The create branch of `plan_volumes` (jobs/lib/storage_layout.py): what a created volume is made of.
use nautobot_proxmox.Prelude.{not, ltb, is_empty}
use nautobot_proxmox.Storage.Drives.{unknown_ids}
use nautobot_proxmox.Prelude.{
  ltb-false-le, ℕ, ◌<◌, ◌≡◌, refl, inl, inr, false, some, List, [], ◌∷◌, arith, ◌==◌, Bool-cases,
  Option-cases, length, any, All,
}
use nautobot_proxmox.Prelude.Sort.{IsSortedBy}
use nautobot_proxmox.Python.Result.{unless-eq-ok, ok}
use nautobot_proxmox.Storage.Spec.{VolumeSpec}
use nautobot_proxmox.Storage.Drives.{Drive, known_capacity, capacity, pick, common_size}
use nautobot_proxmox.Storage.Pick.{
  IsKnown, not-eq-false, unknown_ids_empty, known_capacity-capacity, IsEvenly, common_size-IsEvenly,
  IsBeyond, length-pick, pick-All, pick-IsBeyond,
}
use nautobot_proxmox.Storage.Plan.{
  created, create_over, PlanStep, refuse_unknown_capacity, create_step,
}

-- A create step over `picked`, leaving `rest` of the free drives.
pub record Creates (vol : VolumeSpec) (free : List Drive) (step : PlanStep) : Type 0 where
  pub picked : List Drive
  pub rest : List Drive
  pub size : ℕ
  pub picks : pick vol.select vol.count free ≡ (picked, rest)
  pub shape : step ≡ created vol picked size
  pub exact : length picked ≡ vol.count
  pub known : All (λ d. known_capacity d ≡ some size) picked
  pub beyond : All (IsBeyond vol.select size) rest

pub create_over-ok :
    (vol : VolumeSpec) (picked rest : List Drive) (step : PlanStep)
    → create_over vol picked rest ≡ ok step
    → (size : ℕ) × (step ≡ created vol picked size)
      × (common_size picked ≡ some size)
      × (any (λ d. capacity d == size) rest ≡ false)
unfolding create_over
create_over-ok vol picked rest step h = elim (Option-cases (common_size picked)) [
  | inl e ↦ absurd (ground arith)
  | inr (size, e) ↦ elim (Bool-cases (any (λ d. capacity d == size) rest)) [
    | inl a ↦ absurd (ground arith)
    | inr a ↦ (size, ground arith, e, a)
  ]
]

known_of_even :
    (n : ℕ) (ds : List Drive)
    → All IsKnown ds
    → IsEvenly n ds
    → All (λ d. known_capacity d ≡ some n) ds
known_of_even n [] h k = tt
known_of_even n (d ∷ ds) (p, h) (q, k) = (known_capacity-capacity d n p q, known_of_even n ds h k)

-- The guards that a create step has passed.
create_step-parts :
    (drives : List Drive) (vol : VolumeSpec) (free : List Drive) (step : PlanStep)
    → create_step drives vol free ≡ ok step
    → (ltb (length free) vol.count ≡ false)
      × (not (is_empty (unknown_ids free)) ≡ false)
      × (create_over vol (pick vol.select vol.count free).0 (pick vol.select vol.count free).1
          ≡ ok step)
unfolding create_step refuse_unknown_capacity
create_step-parts drives vol free step h =
    let (enough, h₁) = unless-eq-ok _ _ _ h in
    let (reported, h₂) = unless-eq-ok _ _ _ h₁ in (enough, reported, h₂)

pub create_step-shape :
    (drives : List Drive) (vol : VolumeSpec) (free : List Drive) (step : PlanStep)
    → create_step drives vol free ≡ ok step
    → (size : ℕ) × (step ≡ created vol (pick vol.select vol.count free).0 size)
create_step-shape drives vol free step h =
    let (_, _, over) = create_step-parts drives vol free step h in
    let (size, shape, _, _) = create_over-ok vol _ _ step over in (size, shape)

-- Over free drives in the order of their capacity, a create step takes exactly the entry's count of
-- drives, all of one reported capacity, and every free drive that it leaves is strictly larger
-- (`smallest`) or strictly smaller (`largest`) than those that it takes.
pub create_step-Creates :
    (drives : List Drive) (vol : VolumeSpec) (free : List Drive) (step : PlanStep)
    → 0 < vol.count
    → IsSortedBy capacity free
    → create_step drives vol free ≡ ok step
    → Creates vol free step
create_step-Creates drives vol free step pos sorted h =
    let (enough, reported, over) = create_step-parts drives vol free step h in
    let (size, shape, even, lone) = create_over-ok vol _ _ step over in
    let fits = ltb-false-le (length free) vol.count enough in
    let evenly = common_size-IsEvenly _ size even in
    let known = unknown_ids_empty free (not-eq-false _ reported) in
    record {
      picked = (pick vol.select vol.count free).0;
      rest = (pick vol.select vol.count free).1;
      size = size;
      picks = refl;
      shape = shape;
      exact = length-pick vol.select vol.count free pos fits;
      known = known_of_even size _ (pick-All IsKnown vol.select vol.count free known).0 evenly;
      beyond = pick-IsBeyond vol.select vol.count free size sorted pos fits evenly lone;
    }
