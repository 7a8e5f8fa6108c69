-- ===== src/Baseline/Acl/Converges.antt =====
-- Running the commands of `plan_acl_changes` (jobs/lib/host_baseline.py) brings the node's access
-- control entries to the ones that the source of truth describes.
use nautobot_proxmox.Prelude.{
  refl, ◌↔◌, inl, inr, Bool, true, ◌&&◌, ◌||◌, ◌++◌, map, arith, Bool-cases,
}
use nautobot_proxmox.Prelude.Text.{text_eq_iff}
use nautobot_proxmox.Prelude.Sort.{insert, sort}
use nautobot_proxmox.Baseline.Acl.{
  kind_eq, mem_acl, acl_set, acl_lt, Identity, is_managed, missing_acls, stale_acls,
  plan_acl_changes,
}
use nautobot_proxmox.Prelude.{◌≡◌, not, List, [], ◌∷◌, filter}
use nautobot_proxmox.Prelude.Text.{Text}
use nautobot_proxmox.Baseline.Acl.{Kind, Acl, acl_eq, acl_argv, user, group, token, modify, delete}

kind_eq_iff : (k j : Kind) → (kind_eq k j ≡ true) ↔ (k ≡ j)
unfolding kind_eq
kind_eq_iff user user = ground arith
kind_eq_iff user group = ground arith
kind_eq_iff user token = ground arith
kind_eq_iff group user = ground arith
kind_eq_iff group group = ground arith
kind_eq_iff group token = ground arith
kind_eq_iff token user = ground arith
kind_eq_iff token group = ground arith
kind_eq_iff token token = ground arith

pub acl_eq_iff : (a b : Acl) → (acl_eq a b ≡ true) ↔ (a ≡ b)
unfolding acl_eq
acl_eq_iff a b = ground (
  arith,
  text_eq_iff a.path b.path,
  kind_eq_iff a.kind b.kind,
  text_eq_iff a.ugid b.ugid,
  text_eq_iff a.role b.role,
)

pub mem_acl-filter :
    (x : Acl) (p : Acl → Bool) (xs : List Acl) → mem_acl x (filter p xs) ≡ (mem_acl x xs && p x)
unfolding mem_acl
mem_acl-filter x p [] = refl
mem_acl-filter x p (y ∷ ys) = elim (Bool-cases (acl_eq x y)) [
  | inl e ↦
      rw ((acl_eq_iff x y).0 e) (ground (arith, (acl_eq_iff y y).1 refl, mem_acl-filter y p ys))
  | inr e ↦ ground (arith, mem_acl-filter x p ys)
]

-- A set has the entries of the list.
pub mem_acl-acl_set : (x : Acl) (xs : List Acl) → mem_acl x (acl_set xs) ≡ mem_acl x xs
unfolding acl_set mem_acl
mem_acl-acl_set x [] = refl
mem_acl-acl_set x (y ∷ ys) = elim (Bool-cases (acl_eq x y)) [
  | inl e ↦
      rw ((acl_eq_iff x y).0 e) (ground (arith, (acl_eq_iff y y).1 refl, mem_acl-acl_set y ys))
  | inr e ↦ ground (arith, mem_acl-acl_set x ys)
]

mem_acl-insert :
    (x y : Acl) (ys : List Acl) → mem_acl x (insert acl_lt y ys) ≡ (acl_eq x y || mem_acl x ys)
unfolding mem_acl insert
mem_acl-insert x y [] = refl
mem_acl-insert x y (z ∷ zs) = ground (arith, mem_acl-insert x y zs)

mem_acl-sort : (x : Acl) (xs : List Acl) → mem_acl x (sort acl_lt xs) ≡ mem_acl x xs
unfolding mem_acl sort
mem_acl-sort x [] = refl
mem_acl-sort x (y ∷ ys) = ground (arith, mem_acl-insert x y (sort acl_lt ys), mem_acl-sort x ys)

module _ (run : List Text → List Acl → List Acl) where
  -- The commands in order.
  pub run_commands : List (List Text) → List Acl → List Acl
  run_commands [] acls = acls
  run_commands (argv ∷ rest) acls = run_commands rest (run argv acls)

  run_commands-append :
      (first rest : List (List Text)) (acls : List Acl)
      → run_commands (first ++ rest) acls ≡ run_commands rest (run_commands first acls)
  unfolding run_commands
  run_commands-append [] rest acls = refl
  run_commands-append (argv ∷ first) rest acls = run_commands-append first rest (run argv acls)

  -- What `pveum acl modify` and `pveum acl delete` do to the node's entries.
  abbrev pub Modifies : Type 0
  Modifies =
      (a x : Acl) (acls : List Acl)
      → mem_acl x (run (acl_argv modify a) acls) ≡ (acl_eq x a || mem_acl x acls)

  abbrev pub Deletes : Type 0
  Deletes =
      (a x : Acl) (acls : List Acl)
      → mem_acl x (run (acl_argv delete a) acls) ≡ (mem_acl x acls && not (acl_eq x a))

  module _ (modifies : Modifies) (deletes : Deletes) where
    run_adds :
        (x : Acl) (adds current : List Acl)
        → mem_acl x (run_commands (map (acl_argv modify) adds) current)
          ≡ (mem_acl x adds || mem_acl x current)
    unfolding run_commands mem_acl
    run_adds x [] current = refl
    run_adds x (a ∷ adds) current =
        ground (arith, run_adds x adds (run (acl_argv modify a) current), modifies a x current)

    run_deletes :
        (x : Acl) (gone current : List Acl)
        → mem_acl x (run_commands (map (acl_argv delete) gone) current)
          ≡ (mem_acl x current && not (mem_acl x gone))
    unfolding run_commands mem_acl
    run_deletes x [] current = ground arith
    run_deletes x (a ∷ gone) current =
        ground (arith, run_deletes x gone (run (acl_argv delete a) current), deletes a x current)

    -- The commands change the membership of an entry alike on lists that agree on it.
    pub plan_acl_changes-agree :
        (desired current node : List Acl) (managed : List Identity) (x : Acl)
        → mem_acl x node ≡ mem_acl x current
        → let (adds, removals) = plan_acl_changes desired current managed in
          mem_acl x (run_commands (adds ++ removals) node)
          ≡ mem_acl x (run_commands (adds ++ removals) current)
    unfolding plan_acl_changes
    plan_acl_changes-agree desired current node managed x same =
        let missing = missing_acls desired current in
        let stale = stale_acls desired current managed in
        rw (run_commands-append (map (acl_argv modify) missing) (map (acl_argv delete) stale) node)
          (rw
            (run_commands-append (map (acl_argv modify) missing) (map (acl_argv delete) stale)
              current)
            (ground (
              arith,
              run_deletes x stale (run_commands (map (acl_argv modify) missing) node),
              run_adds x missing node,
              run_deletes x stale (run_commands (map (acl_argv modify) missing) current),
              run_adds x missing current,
            )))

    -- Where `pveum acl modify` adds an entry and `pveum acl delete` takes it away, running the planned
    -- commands, the additions first, leaves exactly the desired entries and those current ones that
    -- belong to no managed identity.
    pub plan_acl_changes-converges :
        (desired current : List Acl) (managed : List Identity) (x : Acl)
        → let (adds, removals) = plan_acl_changes desired current managed in
          mem_acl x (run_commands (adds ++ removals) current)
          ≡ (mem_acl x desired || (mem_acl x current && not (is_managed managed x)))
    unfolding plan_acl_changes
    plan_acl_changes-converges desired current managed x =
        let missing = missing_acls desired current in
        let stale = stale_acls desired current managed in
        rw
          (run_commands-append (map (acl_argv modify) missing) (map (acl_argv delete) stale)
            current)
          (ground (
            arith,
            run_deletes x stale (run_commands (map (acl_argv modify) missing) current),
            run_adds x missing current,
            mem_acl-filter x (λ a. not (mem_acl a current)) desired,
            mem_acl-filter x (λ a. is_managed managed a && not (mem_acl a desired))
                (sort acl_lt current),
            mem_acl-sort x current,
          ))
