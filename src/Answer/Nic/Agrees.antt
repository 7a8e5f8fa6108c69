-- ===== src/Answer/Nic/Agrees.antt =====
-- The install port that bmc/answer_service/app.py derives is the one that jobs/lib/host_baseline.py
-- derives.
use nautobot_proxmox.Prelude.{true, false}
use nautobot_proxmox.Baseline.Nic as Jobs
use nautobot_proxmox.Baseline.Nic.{
  Group, Iface, IfaceType, bridge, lag, physical, NicError, a_bridge, a_lag, on_several, refers_to,
}
use nautobot_proxmox.Prelude.{
  ◌≡◌, refl, ap, ◌∙◌, inl, inr, Bool, ◌||◌, Option, none, some, List, [], ◌∷◌, ◌++◌, map, arith,
  if◌then◌else◌, Bool-cases, Option-cases, any, filter,
}
use nautobot_proxmox.Prelude.Text.{Text, codes, text_eq, text_eq_iff}
use nautobot_proxmox.Python.Result.{Result, ◌>>=◌, err, ok}
use nautobot_proxmox.Answer.Nic.{
  Record, is_bridge, is_lag, pick_flagged, pick_member, by_id, assigned, only_one, follow,
  through_bridge, through_lag, at_port, derive_install_interface,
}

-- The type as the jobs tell it apart.
classify : Text → IfaceType
unfolding text_eq
classify t =
    if text_eq t (codes "bridge")
    then bridge
    else if text_eq t (codes "lag")
    then lag
    else physical t

-- The record of the jobs for the same interface; what the service does not read is left empty.
pub to_iface : Record → Iface
unfolding classify
to_iface r = record {
  id = r.id;
  name = r.name;
  type = classify r.type;
  lag = r.lag;
  bridge = r.bridge;
  mac = r.mac;
  mtu = none;
  mode = [];
  tagged_vids = [];
  description = [];
  lag_mode = none;
  lag_xmit_hash = none;
  primary_member = r.primary_member;
  ips = [];
}

abbrev pub map_ok : {A B : Type 0} → (A → B) → Result NicError A → Result NicError B
map_ok f (err e) = err e
map_ok f (ok x) = ok (f x)

bind-map_ok :
    {A B C D : Type 0} (f : A → B) (g : C → D) (m : Result NicError A) (k : A → Result NicError C)
    (l : B → Result NicError D)
    → ((x : A) → l (f x) ≡ map_ok g (k x))
    → (map_ok f m >>= l) ≡ map_ok g (m >>= k)
bind-map_ok f g (err e) k l h = refl
bind-map_ok f g (ok x) k l h = h x

abbrev pub to_chain : Record × List Text → Iface × List Text
to_chain (r, names) = (to_iface r, names)

filter-to_iface :
    (p : Iface → Bool) (q : Record → Bool) (rs : List Record)
    → ((r : Record) → p (to_iface r) ≡ q r)
    → filter p (map to_iface rs) ≡ map to_iface (filter q rs)
filter-to_iface p q [] h = refl
filter-to_iface p q (r ∷ rs) h = elim (Bool-cases (q r)) [
  | inl e ↦ rw (e, h r ∙ e) (ap (λ xs. to_iface r ∷ xs) (filter-to_iface p q rs h))
  | inr e ↦ rw (e, h r ∙ e) (filter-to_iface p q rs h)
]

pick_flagged-agrees :
    (g : Group) (parent : Text) (members flagged : List Record)
    → Jobs.pick_flagged g parent (map to_iface members) (map to_iface flagged)
      ≡ map_ok to_iface (pick_flagged g parent members flagged)
unfolding Jobs.pick_flagged pick_flagged
pick_flagged-agrees g parent [] flagged = refl
pick_flagged-agrees g parent (m ∷ []) [] = refl
pick_flagged-agrees g parent (m ∷ []) (f ∷ []) = refl
pick_flagged-agrees g parent (m ∷ []) (f ∷ f' ∷ fs) = refl
pick_flagged-agrees g parent (m ∷ n ∷ ms) [] = refl
pick_flagged-agrees g parent (m ∷ n ∷ ms) (f ∷ []) = refl
pick_flagged-agrees g parent (m ∷ n ∷ ms) (f ∷ f' ∷ fs) = refl

pick_member-agrees :
    (g : Group) (parent : Text) (members : List Record)
    → Jobs.pick_member g parent (map to_iface members)
      ≡ map_ok to_iface (pick_member g parent members)
unfolding Jobs.pick_member pick_member to_iface
pick_member-agrees g parent members =
    rw (filter-to_iface (λ m. m.primary_member) (λ m. m.primary_member) members (λ r. refl))
      (pick_flagged-agrees g parent members (filter (λ m. m.primary_member) members))

is_bridge-classify : (t : Text) → Jobs.is_bridge (classify t) ≡ text_eq t (codes "bridge")
unfolding Jobs.is_bridge classify
is_bridge-classify t = ground arith

is_lag-classify : (t : Text) → Jobs.is_lag (classify t) ≡ text_eq t (codes "lag")
unfolding Jobs.is_lag classify
is_lag-classify t = elim (Bool-cases (text_eq t (codes "bridge"))) [
  | inl e ↦ rw (e, (text_eq_iff t (codes "bridge")).0 e) refl
  | inr e ↦ ground arith
]

abbrev map_some : {A B : Type 0} → (A → B) → Option A → Option B
map_some f none = none
map_some f (some x) = some (f x)

by_id-agrees :
    (id : Text) (rs : List Record)
    → Jobs.by_id id (map to_iface rs) ≡ map_some to_iface (by_id id rs)
unfolding Jobs.by_id by_id to_iface
by_id-agrees id [] = refl
by_id-agrees id (r ∷ rs) = elim (Option-cases (by_id id rs)) [
  | inl e ↦ rw (e, by_id-agrees id rs ∙ ap (map_some to_iface) e) (ground arith)
  | inr (i, e) ↦ rw (e, by_id-agrees id rs ∙ ap (map_some to_iface) e) refl
]

any-to_iface :
    (id : Text) (rs : List Record)
    → any (λ j. text_eq j.id id) (map to_iface rs) ≡ any (λ j. text_eq j.id id) rs
unfolding to_iface
any-to_iface id [] = refl
any-to_iface id (r ∷ rs) = ap (λ b. text_eq r.id id || b) (any-to_iface id rs)

map-append : (rs ss : List Record) → map to_iface rs ++ map to_iface ss ≡ map to_iface (rs ++ ss)
map-append [] ss = refl
map-append (r ∷ rs) ss = ap (λ xs. to_iface r ∷ xs) (map-append rs ss)

added_once :
    (b : Bool) (i : Record) (mine : List Record)
    → (if b then map to_iface mine else map to_iface mine ++ to_iface i ∷ [])
      ≡ map to_iface (if b then mine else mine ++ i ∷ [])
added_once true i mine = refl
added_once false i mine = map-append mine (i ∷ [])

only_one-agrees :
    (rs : List Record) → Jobs.only_one (map to_iface rs) ≡ map_ok to_iface (only_one rs)
unfolding Jobs.only_one only_one to_iface
only_one-agrees [] = refl
only_one-agrees (r ∷ []) = refl
only_one-agrees (r ∷ s ∷ rs) = ap (λ ns. err (on_several (r.name ∷ s.name ∷ ns))) (names rs)
  where
    names : (ts : List Record) → map (λ k. k.name) (map to_iface ts) ≡ map (λ k. k.name) ts
    names [] = refl
    names (t ∷ ts) = ap (λ ns. t.name ∷ ns) (names ts)

module _ (rs : List Record) where
  level_agrees :
      (b : Bool) (g : Group) (members : List Record) (i : Record) (chain : List Text)
      → (if b
          then Jobs.pick_member g i.name (map to_iface members) >>= Jobs.follow chain
          else ok (to_iface i, chain))
        ≡ map_ok to_chain
            (if b then pick_member g i.name members >>= follow chain else ok (i, chain))
  unfolding Jobs.follow follow to_iface
  level_agrees false g members i chain = refl
  level_agrees true g members i chain = rw (pick_member-agrees g i.name members) (
      bind-map_ok to_iface to_chain (pick_member g i.name members) (follow chain)
        (Jobs.follow chain) (λ r. refl))

  through_bridge-agrees :
      (c : Record × List Text)
      → Jobs.through_bridge (map to_iface rs) (to_chain c) ≡ map_ok to_chain (through_bridge rs c)
  unfolding Jobs.through_bridge through_bridge to_iface
  through_bridge-agrees (i, chain) = rw (is_bridge-classify i.type) (
      rw
        (filter-to_iface (λ j. refers_to j.bridge i.id) (λ j. refers_to j.bridge i.id) rs
          (λ r. refl))
        (level_agrees (is_bridge i) a_bridge (filter (λ j. refers_to j.bridge i.id) rs) i chain))

  through_lag-agrees :
      (c : Record × List Text)
      → Jobs.through_lag (map to_iface rs) (to_chain c) ≡ map_ok to_chain (through_lag rs c)
  unfolding Jobs.through_lag through_lag to_iface
  through_lag-agrees (i, chain) = rw (is_lag-classify i.type) (
      rw (filter-to_iface (λ j. refers_to j.lag i.id) (λ j. refers_to j.lag i.id) rs (λ r. refl))
        (level_agrees (is_lag i) a_lag (filter (λ j. refers_to j.lag i.id) rs) i chain))

  at_port-agrees :
      (c : Record × List Text)
      → Jobs.at_port (map to_iface rs) (to_chain c) ≡ map_ok to_chain (at_port rs c)
  unfolding Jobs.at_port at_port to_iface
  at_port-agrees (i, chain) = ground (arith, is_bridge-classify i.type, is_lag-classify i.type)

  assigned-agrees :
      (ids : List Text) (mine : List Record)
      → Jobs.assigned (map to_iface rs) ids (map to_iface mine)
        ≡ map to_iface (assigned rs ids mine)
  unfolding Jobs.assigned assigned to_iface
  assigned-agrees [] mine = refl
  assigned-agrees (x ∷ xs) mine = elim (Option-cases (by_id x rs)) [
    | inl e ↦ rw (e, by_id-agrees x rs ∙ ap (map_some to_iface) e) (assigned-agrees xs mine)
    | inr (i, e) ↦
        rw (e, by_id-agrees x rs ∙ ap (map_some to_iface) e)
          (rw (any-to_iface i.id mine)
            (rw (added_once (any (λ j. text_eq j.id i.id) mine) i mine) (assigned-agrees xs _)))
  ]

  -- For the same interfaces, the service and the jobs derive the same port over the same chain of
  -- names, or refuse for the same reason.
  pub derive_install_interface-agrees :
      (ids : List Text)
      → Jobs.derive_install_interface (map to_iface rs) ids
        ≡ map_ok to_chain (derive_install_interface rs ids)
  unfolding Jobs.derive_install_interface derive_install_interface to_iface
  derive_install_interface-agrees ids = rw (assigned-agrees ids []) (
      rw (only_one-agrees (assigned rs ids [])) (
        bind-map_ok to_iface to_chain (only_one (assigned rs ids [])) _ _ (λ carrier.
          rw (through_bridge-agrees (carrier, carrier.name ∷ [])) (
            bind-map_ok to_chain to_chain (through_bridge rs (carrier, carrier.name ∷ [])) _ _ (λ c.
              rw (through_lag-agrees c)
                (bind-map_ok to_chain to_chain (through_lag rs c) _ _ at_port-agrees))))))
