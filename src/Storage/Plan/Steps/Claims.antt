-- ===== src/Storage/Plan/Steps/Claims.antt =====
-- `plan_volumes` (jobs/lib/storage_layout.py): no existing volume stands for two spec entries.
use nautobot_proxmox.Prelude.Text.{text_eq_refl}
use nautobot_proxmox.Prelude.{
  All-map, All, ◌≡◌, ap, ◌≢◌, inl, inr, true, false, Option, none, some, List, [], ◌∷◌, map, arith,
  Bool-cases, Option-cases, All-intro, In,
}
use nautobot_proxmox.Prelude.Text.{Text, text_eq, text_eq_iff, mem_text}
use nautobot_proxmox.Python.Result.{ok}
use nautobot_proxmox.Storage.Spec.{VolumeSpec}
use nautobot_proxmox.Storage.Drives.{Drive}
use nautobot_proxmox.Storage.Plan.{Volume, PlanStep, find_named, resolve}
use nautobot_proxmox.Storage.Plan.Create.{create_step-shape}
use nautobot_proxmox.Storage.Plan.Steps.{made, kept, Run, done}
use nautobot_proxmox.Storage.Plan.Steps.Distinct.{keep_step-ok}
use nautobot_proxmox.Storage.Plan.Steps.Fits.{find_named-In, resolve-cases, resolve-In}

-- No two texts of the list are equal.
abbrev pub IsDistinct : List Text → Type 0
IsDistinct [] = Unit
IsDistinct (n ∷ ns) = (mem_text n ns ≡ false) × IsDistinct ns

abbrev pub names : List VolumeSpec → List Text
names vols = map (λ v. v.name) vols

-- No volume that a step keeps is kept by a later step.
abbrev pub KeepsOnce : List PlanStep → Type 0
KeepsOnce [] = Unit
KeepsOnce (s ∷ ss) =
    All (λ t. (p : Text) → s.existing_path ≡ some p → t.existing_path ≢ some p) ss × KeepsOnce ss

find_named-name :
    (name : Text) (vs : List Volume) (v : Volume) → find_named name vs ≡ some v → v.name ≡ some name
unfolding find_named
find_named-name name [] v h = absurd (ground arith)
find_named-name name (w ∷ vs) v h = elim (Option-cases (find_named name vs)) [
  | inr (u, e) ↦ find_named-name name vs v (ground arith)
  | inl e ↦ elim (Option-cases w.name) [
    | inl f ↦ absurd (ground arith)
    | inr (n, f) ↦ ground (arith, text_eq_iff n name)
  ]
]

mem_text-cons : (x y : Text) (ys : List Text) → mem_text x ys ≡ true → mem_text x (y ∷ ys) ≡ true
unfolding mem_text
mem_text-cons x y ys h = ground arith

pub mem_text_head : (x : Text) (ys : List Text) → mem_text x (x ∷ ys) ≡ true
unfolding mem_text
mem_text_head x ys = ground (arith, text_eq_refl x)

-- Every entry's name is one of the spec's names.
pub All-names : (vols : List VolumeSpec) → All (λ w. mem_text w.name (names vols) ≡ true) vols
All-names [] = tt
All-names (vol ∷ vols) = (
  mem_text_head vol.name (names vols),
  All-map (λ w h. mem_text-cons w.name vol.name (names vols) h) vols (All-names vols),
)

module _ (drives : List Drive) (volumes : List Volume) (spec_names : List Text)
    (one_path : (v w : Volume) → In v volumes → In w volumes → v.path ≡ w.path → v ≡ w) where
  -- No claimed volume has the name of an entry that is still to come.
  abbrev IsPast : List Text → List VolumeSpec → Type 0
  IsPast claimed vols =
      (w : Volume)
      → In w volumes
      → mem_text w.path claimed ≡ true
      → All (λ vol. w.name ≢ some vol.name) vols

  others_differ :
      (v : Volume) (name : Text) (vols : List VolumeSpec)
      → v.name ≡ some name
      → mem_text name (names vols) ≡ false
      → All (λ vol. v.name ≢ some vol.name) vols
  unfolding mem_text
  others_differ v name [] e h = tt
  others_differ v name (vol ∷ vols) e h =
      (λ f. ground (arith, text_eq_iff name vol.name), others_differ v name vols e (ground arith))

  unnamed_differ :
      (v : Volume) (vols : List VolumeSpec)
      → elim v.name [ none ↦ false | some n ↦ mem_text n spec_names ] ≡ false
      → All (λ vol. mem_text vol.name spec_names ≡ true) vols
      → All (λ vol. v.name ≢ some vol.name) vols
  unnamed_differ v [] h k = tt
  unnamed_differ v (vol ∷ vols) h (p, k) = (λ f. ground arith, unnamed_differ v vols h k)

  IsPast-cons :
      (v : Volume) (claimed : List Text) (vol : VolumeSpec) (vols : List VolumeSpec)
      → In v volumes
      → All (λ w. v.name ≢ some w.name) vols
      → IsPast claimed (vol ∷ vols)
      → IsPast (v.path ∷ claimed) vols
  unfolding mem_text
  IsPast-cons v claimed vol vols i d past w j h = elim (Bool-cases (text_eq w.path v.path)) [
    | inl e ↦ rw (one_path w v j i ((text_eq_iff _ _).0 e)) d
    | inr e ↦ (past w j (ground arith)).1
  ]

  -- What a kept step claims was not claimed, and no later entry has its name.
  kept_facts :
      (vol : VolumeSpec) (vols : List VolumeSpec) (claimed : List Text) (free : List Drive)
      (v : Volume) (from : Option Text)
      → resolve drives volumes spec_names vol claimed free ≡ ok (some (v, from))
      → mem_text vol.name (names vols) ≡ false
      → All (λ w. mem_text w.name spec_names ≡ true) vols
      → IsPast claimed (vol ∷ vols)
      → (mem_text v.path claimed ≡ false) × All (λ w. v.name ≢ some w.name) vols
  kept_facts vol vols claimed free v from r fresh known past =
      elim (resolve-cases drives volumes spec_names vol claimed free v from r) [
        | inl e ↦
            let named = find_named-name vol.name volumes v e in
            (
              elim (Bool-cases (mem_text v.path claimed)) [
                | inl c ↦
                    absurd ((past v (find_named-In drives volumes vol.name volumes v e) c).0 named)
                | inr c ↦ c
              ],
              others_differ v vol.name vols named fresh,
            )
        | inr a ↦ (a.unclaimed, unnamed_differ v vols a.unnamed known)
      ]

  pub Run-unclaimed :
      {claimed : List Text} {free : List Drive} {vols : List VolumeSpec} {plan : List PlanStep}
      → Run drives volumes spec_names claimed free vols plan
      → IsDistinct (names vols)
      → All (λ w. mem_text w.name spec_names ≡ true) vols
      → IsPast claimed vols
      → All (λ s. (p : Text) → s.existing_path ≡ some p → mem_text p claimed ≡ false) plan
        × KeepsOnce plan
  unfolding mem_text
  Run-unclaimed done d k past = (tt, tt)
  Run-unclaimed {claimed} {free}
        (kept {vol = vol} {vols = vols} {step = step} {steps = steps} v from r q run) (f, d) (i, k)
        past =
      let (unclaimed, differ) = kept_facts vol vols claimed free v from r f k past in
      let listed = resolve-In drives volumes spec_names vol claimed free v from r in
      let (later, once) =
        Run-unclaimed run d k (IsPast-cons v claimed vol vols listed differ past) in
      let (_, _, _, _, path, _, _) = keep_step-ok vol v from step q in
      (
        (λ p e. ground arith, All-map (λ s h p e. ground (arith, h p e)) steps later),
        (All-map (λ s h p e g. ground (arith, h p g, text_eq_iff p v.path)) steps later, once),
      )
  Run-unclaimed {claimed} {free}
        (made {vol = vol} {vols = vols} {step = step} {steps = steps} r q run) (f, d) (i, k) past =
      let (later, once) = Run-unclaimed run d k (λ w j h. (past w j h).1) in
      let (size, shape) = create_step-shape drives vol free step q in
      let unset : step.existing_path ≡ none = ap (λ s. s.existing_path) shape in
      (
        (λ p e. absurd (ground arith), later),
        (All-intro _ (λ t p e. absurd (ground arith)) steps, once),
      )
