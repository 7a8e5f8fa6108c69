-- ===== src/Answer/Install/Plain.antt =====
-- The install section (bmc/answer_service/app.py): what reaches the shell script is plain.
use nautobot_proxmox.Python.Value.{str_or_empty}
use nautobot_proxmox.Prelude.{refl, inl, inr, Bool-cases}
use nautobot_proxmox.Python.Value.{get_or, truthy, int_of, pos}
use nautobot_proxmox.Python.Result.{ok_inj}
use nautobot_proxmox.Answer.Install.{
  pool_and_volume, volume_bad_number, unless, volume_bad_name, finish_volume, volume_of,
  data_pool_spec, check_volume, data_volume_spec, volume_bad_select,
}
use mathlib.Core.Path.{subst}
use nautobot_proxmox.Prelude.{
  ◌≡◌, true, not, ◌&&◌, ◌||◌, Option, none, some, arith, and_split, not-false,
}
use nautobot_proxmox.Prelude.Text.{Text, codes, text_eq, text_eq_iff}
use nautobot_proxmox.Python.Pattern.{IsOrLine, matches_dollar-IsOrLine}
use nautobot_proxmox.Python.Value.{ℤ, Value, Dict, entries, get}
use nautobot_proxmox.Python.Result.{unless-eq-ok, Result, ◌>>=◌, err, ok}
use nautobot_proxmox.Answer.Install.{
  pool_of, finish_pool, InstallError, DataPool, DataVolume, plain_name, pool_name, at_least, str_or,
  check_pool, pool_bad_name, pool_bad_number, pool_bad_raid, pool_bad_select,
}

module _ (repr : Value → Text) where
  -- A name that the pattern lets through.
  abbrev pub IsPlain : Text → Type 0
  IsPlain s = IsOrLine plain_name s

  pub record PlainPool (p : DataPool) : Type 0 where
    pub name : IsPlain p.name
    pub storage : IsPlain p.pve_storage
    pub raid : p.raid ≡ codes "mirror"
    pub select : p.select ≡ codes "unused-largest"
    pub count : at_least 2 p.count ≡ true
    pub size : at_least 0 p.min_size_gib ≡ true

  pub record PlainVolume (v : DataVolume) : Type 0 where
    pub vg : IsPlain v.vg
    pub thinpool : IsPlain v.thinpool
    pub storage : IsPlain v.pve_storage
    pub select : v.select ≡ codes "unused-largest"
    pub size : at_least 0 v.min_size_gib ≡ true

  pool_name-IsPlain : (s : Text) → pool_name s ≡ true → IsPlain s
  unfolding pool_name
  pool_name-IsPlain s h = matches_dollar-IsOrLine plain_name s h

  finish_pool-PlainPool :
      (name storage raid select : Text) (count size : Option ℤ) (p : DataPool)
      → finish_pool name storage raid select count size ≡ ok p
      → pool_name name ≡ true
      → pool_name storage ≡ true
      → text_eq raid (codes "mirror") ≡ true
      → text_eq select (codes "unused-largest") ≡ true
      → PlainPool p
  unfolding finish_pool
  finish_pool-PlainPool name storage raid select none size p h _ _ _ _ = absurd (ground arith)
  finish_pool-PlainPool name storage raid select (some c) none p h _ _ _ _ = absurd (ground arith)
  finish_pool-PlainPool name storage raid select (some c) (some s) p h n t r e =
      let (good, same) =
        unless-eq-ok (not (at_least 2 c) || not (at_least 0 s)) pool_bad_number _ h in
      subst PlainPool (ok_inj _ p same) (record {
        name = pool_name-IsPlain name n;
        storage = pool_name-IsPlain storage t;
        raid = (text_eq_iff raid (codes "mirror")).0 r;
        select = (text_eq_iff select (codes "unused-largest")).0 e;
        count = ground arith;
        size = ground arith;
      })

  check_pool-PlainPool : (spec : Dict) (p : DataPool) → check_pool repr spec ≡ ok p → PlainPool p
  unfolding check_pool
  check_pool-PlainPool spec p h =
      let name = str_or_empty repr (get (codes "name") spec) in
      let storage = str_or repr name (get (codes "pve_storage") spec) in
      let raid = str_or repr (codes "mirror") (get (codes "raid") spec) in
      let select = str_or repr (codes "unused-largest") (get (codes "select") spec) in
      let (a, h₁) = unless-eq-ok (not (pool_name name && pool_name storage)) pool_bad_name _ h in
      let (b, h₂) = unless-eq-ok (not (text_eq raid (codes "mirror"))) (pool_bad_raid raid) _ h₁ in
      let (c, h₃) =
        unless-eq-ok (not (text_eq select (codes "unused-largest"))) (pool_bad_select select) _
          h₂ in
      let (n, t) = and_split (pool_name name) (pool_name storage) (not-false _ a) in
      finish_pool-PlainPool name storage raid select
        (int_of (get_or (codes "count") (Value.int (pos 2)) spec))
        (int_of (get_or (codes "min_size_gib") (Value.int (pos 0)) spec)) p h₃ n t (not-false _ b)
        (not-false _ c)

  some_of :
      {A : Type 0} (m : Result InstallError A) (a : A)
      → (m >>= λ x. ok (some x)) ≡ ok (some a)
      → m ≡ ok a
  some_of (err e) a h = absurd (ground arith)
  some_of (ok x) a h = ground arith

  pool_of-PlainPool : (v : Value) (p : DataPool) → pool_of repr v ≡ ok (some p) → PlainPool p
  unfolding pool_of
  pool_of-PlainPool (Value.dict fs) p h =
      check_pool-PlainPool (entries fs) p (some_of (check_pool repr (entries fs)) p h)
  pool_of-PlainPool v p h = absurd (ground arith)

  finish_volume-PlainVolume :
      (vg thinpool storage select : Text) (size : Option ℤ) (v : DataVolume)
      → finish_volume vg thinpool storage select size ≡ ok v
      → pool_name vg ≡ true
      → pool_name thinpool ≡ true
      → pool_name storage ≡ true
      → text_eq select (codes "unused-largest") ≡ true
      → PlainVolume v
  unfolding finish_volume
  finish_volume-PlainVolume vg thinpool storage select none v h _ _ _ _ = absurd (ground arith)
  finish_volume-PlainVolume vg thinpool storage select (some s) v h n t r e =
      let (good, same) = unless-eq-ok (not (at_least 0 s)) volume_bad_number _ h in
      subst PlainVolume (ok_inj _ v same) (record {
        vg = pool_name-IsPlain vg n;
        thinpool = pool_name-IsPlain thinpool t;
        storage = pool_name-IsPlain storage r;
        select = (text_eq_iff select (codes "unused-largest")).0 e;
        size = not-false _ good;
      })

  check_volume-PlainVolume :
      (spec : Dict) (v : DataVolume) → check_volume repr spec ≡ ok v → PlainVolume v
  unfolding check_volume
  check_volume-PlainVolume spec v h =
      let vg = str_or repr (codes "datastore") (get (codes "vg") spec) in
      let thinpool = str_or repr (codes "data") (get (codes "thinpool") spec) in
      let storage = str_or repr vg (get (codes "pve_storage") spec) in
      let select = str_or repr (codes "unused-largest") (get (codes "select") spec) in
      let (a, h₁) =
        unless-eq-ok (not (pool_name vg && (pool_name thinpool && pool_name storage)))
          volume_bad_name _ h in
      let (b, h₂) =
        unless-eq-ok (not (text_eq select (codes "unused-largest"))) (volume_bad_select select) _
          h₁ in
      let (n, rest) = and_split (pool_name vg) _ (not-false _ a) in
      let (t, r) = and_split (pool_name thinpool) (pool_name storage) rest in
      finish_volume-PlainVolume vg thinpool storage select
        (int_of (get_or (codes "min_size_gib") (Value.int (pos 0)) spec)) v h₂ n t r (not-false _ b)

  volume_of-PlainVolume :
      (w : Value) (v : DataVolume) → volume_of repr w ≡ ok (some v) → PlainVolume v
  unfolding volume_of
  volume_of-PlainVolume (Value.dict fs) v h =
      check_volume-PlainVolume (entries fs) v (some_of (check_volume repr (entries fs)) v h)
  volume_of-PlainVolume w v h = absurd (ground arith)

  -- A data pool that is accepted is plain: its names pass the name pattern, which also allows a newline
  -- behind, its rule and RAID type are the only ones supported, it takes at least two drives, and no
  -- size is negative.
  pub data_pool_spec-PlainPool :
      (install : Dict) (p : DataPool) → data_pool_spec repr install ≡ ok (some p) → PlainPool p
  unfolding data_pool_spec
  data_pool_spec-PlainPool install p h =
      elim (Bool-cases (truthy (get (codes "data_pool") install))) [
        | inl e ↦ pool_of-PlainPool (get (codes "data_pool") install) p (ground arith)
        | inr e ↦ absurd (ground arith)
      ]

  -- A data volume that is accepted is plain in the same way, and there is no data pool beside it.
  data_volume_spec-PlainVolume :
      (install : Dict) (v : DataVolume)
      → data_volume_spec repr install ≡ ok (some v)
      → PlainVolume v × (data_pool_spec repr install ≡ ok none)
  unfolding data_volume_spec data_pool_spec
  data_volume_spec-PlainVolume install v h =
      elim (Bool-cases (truthy (get (codes "data_volume") install))) [
        | inl e ↦
            let checked : unless (truthy (get (codes "data_pool") install)) pool_and_volume
                  (volume_of repr (get (codes "data_volume") install))
                ≡ ok (some v) =
              ground arith in
            let (alone, h₁) =
              unless-eq-ok (truthy (get (codes "data_pool") install)) pool_and_volume _ checked in
            (volume_of-PlainVolume (get (codes "data_volume") install) v h₁, rw alone refl)
        | inr e ↦ absurd (ground arith)
      ]
