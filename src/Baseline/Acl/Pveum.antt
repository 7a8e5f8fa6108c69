-- ===== src/Baseline/Acl/Pveum.antt =====
-- One reading of `pveum acl`, for the tests of the plans of jobs/lib/host_baseline.py.
-- What `pveum acl modify` and `pveum acl delete` do to the node's entries, read off the command line.
use nautobot_proxmox.Prelude.{
  ap, ◌≡◌, refl, ◌∙◌, not, ◌&&◌, Option, none, some, List, [], ◌∷◌, if◌then◌else◌, filter,
}
use nautobot_proxmox.Prelude.Text.{Text, codes, text_eq}
use nautobot_proxmox.Baseline.Acl.{
  Kind, Acl, acl_eq, mem_acl, acl_argv, user, group, token, modify, delete,
}
use nautobot_proxmox.Baseline.Acl.Converges.{mem_acl-filter, Modifies, Deletes}

kind_of_flag : Text → Option Kind
kind_of_flag flag =
    if text_eq flag (codes "--users")
    then some user
    else if text_eq flag (codes "--groups")
    then some group
    else if text_eq flag (codes "--tokens")
    then some token
    else none

run_verb : Text → Acl → List Acl → List Acl
run_verb verb a acls =
    if text_eq verb (codes "modify")
    then a ∷ acls
    else if text_eq verb (codes "delete")
    then filter (λ b. not (acl_eq b a)) acls
    else acls

unfoldable pub run_command : List Text → List Acl → List Acl
unfolding kind_of_flag run_verb
run_command (pveum ∷ acl ∷ verb ∷ path ∷ flag ∷ ugid ∷ roles ∷ role ∷ []) acls =
    elim (kind_of_flag flag) [
      | none ↦ acls
      | some k ↦ run_verb verb (record { path = path; kind = k; ugid = ugid; role = role }) acls
    ]
run_command _ acls = acls

run_command-modify_at :
    (k : Kind) (a : Acl) (acls : List Acl)
    → run_command (acl_argv modify (record a { kind = k })) acls ≡ record a { kind = k } ∷ acls
unfolding run_command text_eq
run_command-modify_at user a acls = refl
run_command-modify_at group a acls = refl
run_command-modify_at token a acls = refl

run_command-delete_at :
    (k : Kind) (a : Acl) (acls : List Acl)
    → run_command (acl_argv delete (record a { kind = k })) acls
      ≡ filter (λ b. not (acl_eq b (record a { kind = k }))) acls
unfolding run_command text_eq
run_command-delete_at user a acls = refl
run_command-delete_at group a acls = refl
run_command-delete_at token a acls = refl

run_command-modify : (a : Acl) (acls : List Acl) → run_command (acl_argv modify a) acls ≡ a ∷ acls
run_command-modify a acls = run_command-modify_at a.kind a acls

run_command-delete :
    (a : Acl) (acls : List Acl)
    → run_command (acl_argv delete a) acls ≡ filter (λ b. not (acl_eq b a)) acls
run_command-delete a acls = run_command-delete_at a.kind a acls

pub run_command-Modifies : Modifies run_command
unfolding mem_acl
run_command-Modifies a x acls = ap (mem_acl x) (run_command-modify a acls)

pub run_command-Deletes : Deletes run_command
run_command-Deletes a x acls =
    ap (mem_acl x) (run_command-delete a acls)
    ∙ mem_acl-filter x (λ b. not (acl_eq b a)) acls
    ∙ ap (λ b. mem_acl x acls && not b) refl
