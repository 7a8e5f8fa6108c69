-- ===== src/Storage/Plan/Adopt.antt =====
-- `_adopt` (jobs/lib/storage_layout.py): which existing volume may stand for a spec entry.
use nautobot_proxmox.Prelude.{refl, false, length}
use nautobot_proxmox.Prelude.Text.{text_eq_iff, mem_text}
use nautobot_proxmox.Python.Result.{unless-eq-ok}
use nautobot_proxmox.Storage.Spec.{raid_text}
use nautobot_proxmox.Storage.Drives.{by_capacity, pick}
use nautobot_proxmox.Storage.Plan.{
  reported_raid, refuse_unknown_capacity, all_found, adoption_pool, adopt_among, adopt,
}
use mathlib.Core.Path.{subst}
use nautobot_proxmox.Prelude.{
  ◌≡◌, inl, inr, true, Option, none, some, List, [], ◌∷◌, arith, Bool-cases, Option-cases,
  filter_map, All, All-map, In, All-In,
}
use nautobot_proxmox.Prelude.Text.{Text}
use nautobot_proxmox.Python.Result.{ok}
use nautobot_proxmox.Storage.Spec.{VolumeSpec}
use nautobot_proxmox.Storage.Drives.{Drive, paths}
use nautobot_proxmox.Storage.Plan.{Volume, same_paths, adopt_from, candidate_drives, candidates}

module _ {A B : Type 0} (f : A → Option B) (P : B → Type 0) where
  filter_map-All_step :
      (o : Option B) (rest : List B)
      → ((y : B) → o ≡ some y → P y)
      → All P rest
      → All P (elim o [ none ↦ rest | some y ↦ y ∷ rest ])
  filter_map-All_step none rest p h = h
  filter_map-All_step (some y) rest p h = (p y refl, h)

  -- What holds of each result of `f` holds of all that a `filter_map` keeps.
  filter_map-All :
      (xs : List A) → All (λ x. (y : B) → f x ≡ some y → P y) xs → All P (filter_map f xs)
  filter_map-All [] h = tt
  filter_map-All (x ∷ xs) (p, h) =
      filter_map-All_step (f x) (filter_map f xs) p (filter_map-All xs h)

module _ (volumes : List Volume) (spec_names : List Text) (by_path : List (Text × Drive)) where
  -- A candidate is a listed volume with the drives that the entry's rules found for it.
  abbrev pub IsCandidate : VolumeSpec → List Text → Volume × List Drive → Type 0
  IsCandidate vol claimed c =
      In c.0 volumes × (candidate_drives volumes spec_names by_path vol claimed c.0 ≡ some c.1)

  IsCandidate-of :
      (vol : VolumeSpec) (claimed : List Text) (v : Volume) (c : Volume × List Drive)
      → In v volumes
      → elim (candidate_drives volumes spec_names by_path vol claimed v) [
        | none ↦ none
        | some ds ↦ some (v, ds)
      ]
        ≡ some c
      → IsCandidate vol claimed c
  IsCandidate-of vol claimed v c i h =
      elim (Option-cases (candidate_drives volumes spec_names by_path vol claimed v)) [
        | inl e ↦ absurd (ground arith)
        | inr (ds, e) ↦
            let same : (v, ds) ≡ c = ground arith in subst (IsCandidate vol claimed) same (i, e)
      ]

  pub candidates-IsCandidate :
      (vol : VolumeSpec) (claimed : List Text)
      → All (IsCandidate vol claimed) (candidates volumes spec_names by_path vol claimed)
  unfolding candidates
  candidates-IsCandidate vol claimed =
      filter_map-All _ (IsCandidate vol claimed) volumes
        (All-map (λ v i c h. IsCandidate-of vol claimed v c i h) volumes (All-In volumes))

module _ (P : Volume × List Drive → Type 0) where
  -- What `adopt_from` returns is one of the candidates, and its drives are the picked ones.
  adopt_from-some :
      (vol : VolumeSpec) (picked rest : List Drive) (cands : List (Volume × List Drive))
      (v : Volume)
      → adopt_from vol picked rest cands ≡ ok (some v)
      → All P cands
      → (ds : List Drive) × P (v, ds) × (same_paths (paths picked) (paths ds) ≡ true)
  unfolding adopt_from
  adopt_from-some vol picked rest [] v h k = absurd (ground arith)
  adopt_from-some vol picked rest ((w, ds) ∷ cands) v h (p, k) =
      elim (Bool-cases (same_paths (paths picked) (paths ds))) [
        | inl e ↦ let same : w ≡ v = ground arith in (ds, subst (λ u. P (u, ds)) same p, e)
        | inr e ↦ adopt_from-some vol picked rest cands v (ground arith) k
      ]

module _ (volumes : List Volume) (spec_names : List Text) (by_path : List (Text × Drive)) where
  -- The volume that is adopted for a spec entry: it is listed, not claimed by an earlier entry and
  -- not named in the spec, its RAID type is the entry's, and its `drives` are found, as many as the
  -- entry counts, and as a set the pick of the entry's rule from the pool.
  pub record IsAdoptable (vol : VolumeSpec) (claimed : List Text) (free : List Drive) (v : Volume)
      : Type 0 where
    pub own : List Drive
    pub listed : In v volumes
    pub unclaimed : mem_text v.path claimed ≡ false
    pub unnamed : elim v.name [ none ↦ false | some n ↦ mem_text n spec_names ] ≡ false
    pub raid : reported_raid v ≡ raid_text vol.raid
    pub found : all_found by_path v.drives ≡ some own
    pub exact : length own ≡ vol.count
    pub picked :
        same_paths
          (paths
            (pick vol.select vol.count (
              by_capacity
                (adoption_pool free (candidates volumes spec_names by_path vol claimed)))).0)
          (paths own)
        ≡ true

  candidate_drives-some :
      (vol : VolumeSpec) (claimed : List Text) (v : Volume) (ds : List Drive)
      → candidate_drives volumes spec_names by_path vol claimed v ≡ some ds
      → (mem_text v.path claimed ≡ false)
        × (elim v.name [ none ↦ false | some n ↦ mem_text n spec_names ] ≡ false)
        × (reported_raid v ≡ raid_text vol.raid)
        × (all_found by_path v.drives ≡ some ds)
        × (length ds ≡ vol.count)
  unfolding candidate_drives
  candidate_drives-some vol claimed v ds h =
      ground (arith, text_eq_iff (reported_raid v) (raid_text vol.raid))

  adopt_among-some :
      (vol : VolumeSpec) (claimed : List Text) (free : List Drive) (v : Volume)
      (cands : List (Volume × List Drive))
      → adopt_among vol free cands ≡ ok (some v)
      → All (IsCandidate volumes spec_names by_path vol claimed) cands
      → (ds : List Drive) × IsCandidate volumes spec_names by_path vol claimed (v, ds)
        × (same_paths
              (paths (pick vol.select vol.count (by_capacity (adoption_pool free cands))).0)
              (paths ds)
            ≡ true)
  unfolding adopt_among refuse_unknown_capacity
  adopt_among-some vol claimed free v [] h k = absurd (ground arith)
  adopt_among-some vol claimed free v (c ∷ cs) h k =
      let (_, h₁) = unless-eq-ok _ _ _ h in
      adopt_from-some (IsCandidate volumes spec_names by_path vol claimed) vol _ _ (c ∷ cs) v h₁ k

  -- An adopted volume is one that the entry's rules allow.
  pub adopt-IsAdoptable :
      (vol : VolumeSpec) (claimed : List Text) (free : List Drive) (v : Volume)
      → adopt volumes spec_names by_path vol claimed free ≡ ok (some v)
      → IsAdoptable vol claimed free v
  unfolding adopt
  adopt-IsAdoptable vol claimed free v h =
      let (ds, (listed, drives), same) =
        adopt_among-some vol claimed free v _ h
          (candidates-IsCandidate volumes spec_names by_path vol claimed) in
      let (unclaimed, unnamed, raid, found, exact) =
        candidate_drives-some vol claimed v ds drives in
      record {
        own = ds;
        listed = listed;
        unclaimed = unclaimed;
        unnamed = unnamed;
        raid = raid;
        found = found;
        exact = exact;
        picked = same;
      }
