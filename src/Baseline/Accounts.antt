-- ===== src/Baseline/Accounts.antt =====
-- jobs/lib/host_baseline.py: the plan for the service accounts and their tokens.
pub mod Least
use nautobot_proxmox.Prelude.{
  Bool, true, false, not, Option, none, some, List, [], ◌∷◌, ◌++◌, map, if◌then◌else◌, is_some,
  filter, find_last,
}
use nautobot_proxmox.Prelude.Text.{Text, codes, text_eq}
use nautobot_proxmox.Python.Value.{Value, entries, str_of, pos, bool, int, list}
use nautobot_proxmox.Python.Assoc.{lookup}
use nautobot_proxmox.Baseline.Acl.{token, plan_acl_changes, user, Acl, acl_set, Identity, modify}

-- An entry of the validated `service_accounts`.
pub record Account : Type 0 where
  pub user : Text
  pub token : Text
  pub role : Text
  pub path : Text
  pub privsep : Bool
  pub name : Text

pub record NodeToken : Type 0 where
  pub tokenid : Text
  pub privsep : Option Value

-- A user as the node lists it.
pub record NodeUser : Type 0 where
  pub userid : Text
  pub tokens : List NodeToken

-- What Nautobot holds for a token.
pub data Stored : Type 0 where
  good missing invalid : Stored

pub data TokenAction : Type 0 where
  create rotate keep : TokenAction

-- The `token_reason`s.
pub data Reason : Type 0 where
  token_absent secrets_missing value_rejected present : Reason

pub record AccountPlan : Type 0 where
  pub account : Account
  pub user_add : Option (List Text)
  pub token : TokenAction
  pub token_reason : Reason
  pub privsep_fix : Option (List Text)
  pub acl_adds : List (List Text)
  pub acl_deletes : List (List Text)

-- `_pve_str`; how a list or a mapping prints is the argument `repr`.
unfoldable pub pve_str : (Value → Text) → Value → Text
unfolding str_of
pve_str repr (Value.bool true) = codes "1"
pve_str repr (Value.bool false) = codes "0"
pve_str repr v = str_of repr v

abbrev pub bool_text : Bool → Text
bool_text true = codes "1"
bool_text false = codes "0"

unfoldable pub token_full_id : Account → Text
token_full_id acc = acc.user ++ codes "!" ++ acc.token

-- The action and its reason, by the node's token and what is stored.
unfoldable pub token_action : Option NodeToken → Stored → TokenAction × Reason
token_action none state = (create, token_absent)
token_action (some t) missing = (rotate, secrets_missing)
token_action (some t) invalid = (rotate, value_rejected)
token_action (some t) good = (keep, present)

abbrev privsep_value : NodeToken → Value
privsep_value t = elim t.privsep [ none ↦ Value.int (pos 1) | some v ↦ v ]

-- The command that brings a kept token's privilege separation in line.
unfoldable pub privsep_fix :
    (Value → Text) → Account → Option NodeToken → TokenAction → Option (List Text)
unfolding pve_str
privsep_fix repr acc (some t) keep =
    if text_eq (pve_str repr (privsep_value t)) (bool_text acc.privsep)
    then none
    else some (
        codes "pveum"
        ∷ codes "user"
        ∷ codes "token"
        ∷ codes "modify"
        ∷ acc.user
        ∷ acc.token
        ∷ codes "--privsep"
        ∷ bool_text acc.privsep
        ∷ [])
privsep_fix repr acc _ _ = none

-- The entries that the account needs.
unfoldable pub desired_acls : Account → List Acl
unfolding token_full_id
desired_acls acc =
    let own : Acl = record { path = acc.path; kind = user; ugid = acc.user; role = acc.role } in
    if acc.privsep
    then own
      ∷ record { path = acc.path; kind = token; ugid = token_full_id acc; role = acc.role }
      ∷ []
    else own ∷ []

-- The identities whose entries the account's plan owns.
unfoldable pub managed_by : Account → List Identity
managed_by acc = (user, acc.user) ∷ (token, token_full_id acc) ∷ []

-- The entries that the node will have when the plan's commands run: a created or rotated token
-- starts without entries.
unfoldable pub standing_acls : Account → TokenAction → List Acl → List Acl
standing_acls acc keep current = current
standing_acls acc _ current = filter (λ c. not (text_eq c.ugid (token_full_id acc))) current

module _ (repr : Value → Text) (users : List NodeUser) (acls : List Acl)
    (stored : List (Text × Stored)) where
  pub stored_state : Text → Stored
  unfolding lookup
  stored_state name = elim (lookup name stored) [ none ↦ missing | some s ↦ s ]

  node_user : Text → Option NodeUser
  unfolding find_last
  node_user userid = find_last (λ u. text_eq u.userid userid) users

  pub node_token : Account → Option NodeToken
  unfolding node_user
  node_token acc = elim (node_user acc.user) [
    | none ↦ none
    | some u ↦ find_last (λ t. text_eq t.tokenid acc.token) u.tokens
  ]

  -- The body of the loop over the accounts.
  unfoldable pub plan_account : Account → AccountPlan
  unfolding stored_state node_token node_user token_action privsep_fix desired_acls managed_by
      standing_acls acl_set plan_acl_changes
  plan_account acc =
      let (action, reason) = token_action (node_token acc) (stored_state acc.name) in
      let (adds, deletes) =
        plan_acl_changes (desired_acls acc) (standing_acls acc action (acl_set acls))
          (managed_by acc) in
      record {
        account = acc;
        user_add =
            if is_some (node_user acc.user)
            then none
            else some (
                codes "pveum"
                ∷ codes "user"
                ∷ codes "add"
                ∷ acc.user
                ∷ codes "--comment"
                ∷ codes "managed by the Nautobot Host Baseline job"
                ∷ []);
        token = action;
        token_reason = reason;
        privsep_fix = privsep_fix repr acc (node_token acc) action;
        acl_adds = adds;
        acl_deletes = deletes;
      }

  unfoldable pub plan_service_accounts : List Account → List AccountPlan
  unfolding plan_account
  plan_service_accounts accounts = map plan_account accounts
