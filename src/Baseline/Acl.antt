-- ===== src/Baseline/Acl.antt =====
-- jobs/lib/host_baseline.py, `acl_set` and `plan_acl_changes`: the access control entries of a node.
pub mod Converges
pub mod Pveum
use nautobot_proxmox.Prelude.{
  map, filter, Bool, true, false, not, ◌&&◌, ◌||◌, List, [], ◌∷◌, if◌then◌else◌,
}
use nautobot_proxmox.Prelude.Text.{Text, codes, text_eq, text_ltb}
use nautobot_proxmox.Prelude.Sort.{sort}

pub data Kind : Type 0 where
  user group token : Kind

-- One entry `(path, type, ugid, roleid)`.
pub record Acl : Type 0 where
  pub path : Text
  pub kind : Kind
  pub ugid : Text
  pub role : Text

abbrev pub kind_text : Kind → Text
kind_text user = codes "user"
kind_text group = codes "group"
kind_text token = codes "token"

-- `_ACL_KIND_FLAG`.
abbrev pub kind_flag : Kind → Text
kind_flag user = codes "--users"
kind_flag group = codes "--groups"
kind_flag token = codes "--tokens"

unfoldable pub kind_eq : Kind → Kind → Bool
kind_eq user user = true
kind_eq group group = true
kind_eq token token = true
kind_eq _ _ = false

-- Equality of the tuples.
unfoldable pub acl_eq : Acl → Acl → Bool
acl_eq a b =
    text_eq a.path b.path
    && (kind_eq a.kind b.kind && (text_eq a.ugid b.ugid && text_eq a.role b.role))

unfoldable pub mem_acl : Acl → List Acl → Bool
mem_acl a [] = false
mem_acl a (b ∷ bs) = acl_eq a b || mem_acl a bs

-- `acl_set`: each entry once.
unfoldable pub acl_set : List Acl → List Acl
unfolding mem_acl
acl_set [] = []
acl_set (a ∷ acls) = let rest = acl_set acls in if mem_acl a acls then rest else a ∷ rest

-- `sorted(current)`: the order of the tuples.
abbrev before : Text → Text → Bool → Bool
before s t rest = text_ltb s t || (text_eq s t && rest)

unfoldable pub acl_lt : Acl → Acl → Bool
unfolding text_ltb
acl_lt a b =
    before a.path b.path
      (before (kind_text a.kind) (kind_text b.kind) (before a.ugid b.ugid (text_ltb a.role b.role)))

-- An identity whose entries the source of truth owns completely, `(kind, ugid)`.
abbrev pub Identity : Type 0
Identity = Kind × Text

unfoldable pub is_managed : List Identity → Acl → Bool
is_managed [] a = false
is_managed ((k, u) ∷ managed) a = (kind_eq k a.kind && text_eq u a.ugid) || is_managed managed a

pub data Verb : Type 0 where
  modify delete : Verb

abbrev verb_text : Verb → Text
verb_text modify = codes "modify"
verb_text delete = codes "delete"

abbrev pub acl_argv : Verb → Acl → List Text
acl_argv verb a =
    codes "pveum"
    ∷ codes "acl"
    ∷ verb_text verb
    ∷ a.path
    ∷ kind_flag a.kind
    ∷ a.ugid
    ∷ codes "--roles"
    ∷ a.role
    ∷ []

unfoldable pub missing_acls : List Acl → List Acl → List Acl
missing_acls desired current = filter (λ a. not (mem_acl a current)) desired

unfoldable pub stale_acls : List Acl → List Acl → List Identity → List Acl
stale_acls desired current managed =
    filter (λ a. is_managed managed a && not (mem_acl a desired)) (sort acl_lt current)

-- The commands that add and those that delete.
unfoldable pub plan_acl_changes :
    List Acl → List Acl → List Identity → List (List Text) × List (List Text)
unfolding missing_acls stale_acls
plan_acl_changes desired current managed = (
  map (acl_argv modify) (missing_acls desired current),
  map (acl_argv delete) (stale_acls desired current managed),
)
