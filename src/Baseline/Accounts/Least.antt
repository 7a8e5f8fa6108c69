-- ===== src/Baseline/Accounts/Least.antt =====
-- `plan_service_accounts` (jobs/lib/host_baseline.py): a service account ends with exactly its
-- entries, and a token is kept only when its value is known.
use nautobot_proxmox.Prelude.{sym, ◌⊎◌, inl, inr, not, ◌&&◌, ◌||◌}
use nautobot_proxmox.Prelude.Text.{codes, text_eq, text_eq_refl}
use nautobot_proxmox.Baseline.Acl.{kind_eq, acl_eq, user, token}
use nautobot_proxmox.Baseline.Accounts.{TokenAction, token_full_id, create, rotate}
use nautobot_proxmox.Prelude.{◌≡◌, ◌∙◌, ◌↔◌, true, List, ◌++◌, arith, is_some}
use nautobot_proxmox.Prelude.Text.{Text}
use nautobot_proxmox.Python.Value.{Value}
use nautobot_proxmox.Baseline.Acl.{Acl, mem_acl, acl_set, is_managed}
use nautobot_proxmox.Baseline.Acl.Converges.{
  mem_acl-acl_set, mem_acl-filter, plan_acl_changes-agree, plan_acl_changes-converges, run_commands,
  Modifies, Deletes,
}
use nautobot_proxmox.Baseline.Accounts.{
  stored_state, node_token, Account, NodeUser, Stored, token_action, desired_acls, managed_by,
  standing_acls, plan_account, good, keep,
}

abbrev own_entry : Account → Acl
own_entry acc = record { path = acc.path; kind = user; ugid = acc.user; role = acc.role }

abbrev token_entry : Account → Acl
token_entry acc = record {
  path = acc.path;
  kind = token;
  ugid = acc.user ++ codes "!" ++ acc.token;
  role = acc.role;
}

-- An entry of the account's user or of its token.
abbrev pub IsOf : Account → Acl → Type 0
IsOf acc x =
    ((x.kind ≡ user) × (x.ugid ≡ acc.user))
    ⊎ ((x.kind ≡ token) × (x.ugid ≡ acc.user ++ codes "!" ++ acc.token))

-- What the node holds when the entries are changed, against what it listed before: a token that is
-- kept has its entries still, and one that has just been created or rotated has none.
abbrev pub StartsFrom : Account → TokenAction → List Acl → List Acl → Type 0
StartsFrom acc keep listed node = (y : Acl) → mem_acl y node ≡ mem_acl y listed
StartsFrom acc _ listed node =
    (y : Acl)
    → mem_acl y node
      ≡ (mem_acl y listed && not (text_eq y.ugid (acc.user ++ codes "!" ++ acc.token)))

starts-standing :
    (acc : Account) (action : TokenAction) (listed node : List Acl)
    → StartsFrom acc action listed node
    → (y : Acl) → mem_acl y node ≡ mem_acl y (standing_acls acc action (acl_set listed))
unfolding standing_acls token_full_id
starts-standing acc keep listed node h y = h y ∙ sym (mem_acl-acl_set y listed)
starts-standing acc create listed node h y = ground (
  arith,
  h y,
  mem_acl-acl_set y listed,
  mem_acl-filter y (λ c. not (text_eq c.ugid (token_full_id acc))) (acl_set listed),
)
starts-standing acc rotate listed node h y = ground (
  arith,
  h y,
  mem_acl-acl_set y listed,
  mem_acl-filter y (λ c. not (text_eq c.ugid (token_full_id acc))) (acl_set listed),
)

IsOf-managed : (acc : Account) (x : Acl) → IsOf acc x → is_managed (managed_by acc) x ≡ true
unfolding is_managed managed_by token_full_id kind_eq
IsOf-managed acc x (inl (k, u)) = rw k (rw u (ground (arith, text_eq_refl acc.user)))
IsOf-managed acc x (inr (k, u)) =
    rw k (rw u (ground (arith, text_eq_refl (acc.user ++ codes "!" ++ acc.token))))

mem_acl-desired :
    (acc : Account) (x : Acl)
    → mem_acl x (desired_acls acc)
      ≡ (acl_eq x (own_entry acc) || (acc.privsep && acl_eq x (token_entry acc)))
unfolding desired_acls token_full_id mem_acl
mem_acl-desired acc x = ground arith

module _ (run : List Text → List Acl → List Acl) (modifies : Modifies run) (deletes : Deletes run)
    (repr : Value → Text) (users : List NodeUser) (acls : List Acl)
    (stored : List (Text × Stored)) where
  -- Where `pveum acl` adds and deletes entries, and the node holds what it listed but no entry of a
  -- token that has just been created or rotated, the account's commands leave of its user and of its
  -- token exactly the user's entry with the account's role at its path, and the token's where its
  -- privileges are separated.
  pub plan_account-exact :
      (acc : Account) (node : List Acl) (x : Acl)
      → StartsFrom acc (plan_account repr users acls stored acc).token acls node
      → IsOf acc x
      → let plan = plan_account repr users acls stored acc in
        mem_acl x (run_commands run (plan.acl_adds ++ plan.acl_deletes) node)
        ≡ (acl_eq x (own_entry acc) || (acc.privsep && acl_eq x (token_entry acc)))
  unfolding plan_account
  plan_account-exact acc node x starts own =
      let action =
        (token_action (node_token repr users acls stored acc)
          (stored_state repr users acls stored acc.name)).0 in
      let standing = standing_acls acc action (acl_set acls) in
      let managed = IsOf-managed acc x own in
      plan_acl_changes-agree run modifies deletes (desired_acls acc) standing node (managed_by acc)
        x (starts-standing acc action acls node starts x)
      ∙ (plan_acl_changes-converges run modifies deletes (desired_acls acc) standing
            (managed_by acc) x
          ∙ ground (arith, mem_acl-desired acc x))

module _ (repr : Value → Text) (users : List NodeUser) (acls : List Acl)
    (stored : List (Text × Stored)) where
  -- A token is kept exactly if the node has it and Nautobot holds its value, which the node accepts.
  plan_account-keep_iff :
      (acc : Account)
      → ((plan_account repr users acls stored acc).token ≡ keep) ↔ (
          (is_some (node_token repr users acls stored acc) ≡ true)
          × (stored_state repr users acls stored acc.name ≡ good))
  unfolding plan_account token_action
  plan_account-keep_iff acc = ground arith
