-- ===== src/Baseline/AccountChecks/Distinct.antt =====
-- `_validate_accounts` (jobs/lib/host_baseline.py): accepted accounts do not collide.
use nautobot_proxmox.Prelude.{ℕ, suc, refl, sym, ap, [], ◌∷◌, ◌++◌}
use nautobot_proxmox.Prelude.Text.{codes}
use nautobot_proxmox.Python.Value.{Value, Dict, elems, entries, get}
use nautobot_proxmox.Baseline.Checks.{check_text, check_match}
use nautobot_proxmox.Baseline.AccountChecks.{
  Problem, name_of, privsep_of, check_user, check_account, check_entry, at_index, check_accounts,
  validate_accounts,
}
use mathlib.Core.Path.{subst}
use nautobot_proxmox.Prelude.{
  ◌≡◌, inl, inr, Bool, true, false, ◌||◌, Option, none, some, List, arith, Bool-cases,
}
use nautobot_proxmox.Prelude.Text.{Text, mem_text}
use nautobot_proxmox.Baseline.Checks.{Checked, matched, is_token_id, is_userid, is_account_name}
use nautobot_proxmox.Baseline.AccountChecks.{
  Accepted, reserved_users, reserved_names, check_name, accept,
}

-- An account that is accepted beside the users and names that are taken.
pub record IsFree (users names : List Text) (a : Accepted) : Type 0 where
  pub user_pattern : is_userid a.user ≡ true
  pub token_pattern : is_token_id a.token ≡ true
  pub name_pattern : is_account_name a.name ≡ true
  pub not_reserved : (mem_text a.user reserved_users || mem_text a.name reserved_names) ≡ false
  pub new_user : mem_text a.user users ≡ false
  pub new_name : mem_text a.name names ≡ false

check_name-some :
    (path : Text) (users names : List Text) (user : Text) (o : Option Text) (n : Text)
    → (check_name path users names user o).0 ≡ some n
    → (is_account_name n ≡ true)
      × (mem_text n reserved_names ≡ false)
      × (mem_text user users ≡ false)
      × (mem_text n names ≡ false)
unfolding check_name
check_name-some path users names user none n h = absurd (ground arith)
check_name-some path users names user (some m) n h =
    let same : m ≡ n = ground arith in
    subst
      (λ x.
        (is_account_name x ≡ true)
        × (mem_text x reserved_names ≡ false)
        × (mem_text user users ≡ false)
        × (mem_text x names ≡ false))
      same (ground arith, ground arith, ground arith, ground arith)

matched-some :
    (p : Text → Bool) (path : Text) (c : Checked Text) (s : Text)
    → (matched p path c).0 ≡ some s
    → p s ≡ true
unfolding matched
matched-some p path (none, ps) s h = absurd (ground arith)
matched-some p path (some t, ps) s h = elim (Bool-cases (p t)) [
  | inl e ↦ let same : t ≡ s = ground arith in subst (λ x. p x ≡ true) same e
  | inr e ↦ absurd (ground arith)
]

accept-some :
    (user token : Text) (role acl : Option Text) (privsep : Option Bool) (o : Option Text)
    (a : Accepted)
    → accept user token role acl privsep o ≡ some a
    → (a.user ≡ user) × (a.token ≡ token) × (o ≡ some a.name)
unfolding accept
accept-some user token role acl privsep none a h = absurd (ground arith)
accept-some user token role acl privsep (some n) a h = ground arith

check_user-some :
    (path : Text) (users names : List Text) (entry : Dict) (user token role acl : Option Text)
    (a : Accepted)
    → (check_user path users names entry user token role acl).0 ≡ some a
    → (user ≡ some a.user)
      × (token ≡ some a.token)
      × (mem_text a.user reserved_users ≡ false)
      × ((is_account_name a.name ≡ true)
          × (mem_text a.name reserved_names ≡ false)
          × (mem_text a.user users ≡ false)
          × (mem_text a.name names ≡ false))
unfolding check_user
check_user-some path users names entry none token role acl a h = absurd (ground arith)
check_user-some path users names entry (some u) none role acl a h = absurd (ground arith)
check_user-some path users names entry (some u) (some t) role acl a h =
    elim (Bool-cases (mem_text u reserved_users)) [
      | inl e ↦ absurd (ground arith)
      | inr e ↦
          let checked = check_name path users names u (name_of u (get (codes "name") entry)) in
          let made : accept u t role acl (privsep_of (get (codes "privsep") entry)) checked.0
              ≡ some a =
            ground arith in
          let (same, token_same, named) = accept-some u t role acl _ checked.0 a made in
          let facts =
            check_name-some path users names u (name_of u (get (codes "name") entry)) a.name
              named in
          (
            ap some (sym same),
            ap some (sym token_same),
            subst (λ x. mem_text x reserved_users ≡ false) (sym same) e,
            subst
                (λ x.
                  (is_account_name a.name ≡ true)
                  × (mem_text a.name reserved_names ≡ false)
                  × (mem_text x users ≡ false)
                  × (mem_text a.name names ≡ false))
                (sym same) facts,
          )
    ]

check_entry-IsFree :
    (path : Text) (users names : List Text) (v : Value) (a : Accepted)
    → (check_entry path users names v).0 ≡ some a
    → IsFree users names a
unfolding check_entry check_account check_match
check_entry-IsFree path users names (Value.dict fs) a h =
    let entry = entries fs in
    let user = check_text (get (codes "user") entry) (path ++ codes ".user") true 255 in
    let token = check_text (get (codes "token") entry) (path ++ codes ".token") true 255 in
    let (u, t, r, (n, k, s, l)) = check_user-some path users names entry _ _ _ _ a h in
    record {
      user_pattern = matched-some is_userid (path ++ codes ".user") user a.user u;
      token_pattern = matched-some is_token_id (path ++ codes ".token") token a.token t;
      name_pattern = n;
      not_reserved = rw (r, k) refl;
      new_user = s;
      new_name = l;
    }
check_entry-IsFree path users names v a h = absurd (ground arith)

-- What the accepted accounts are, beside the users and names that are taken.
abbrev pub AreFree : List Text → List Text → List Accepted → Type 0
AreFree users names [] = Unit
AreFree users names (a ∷ rest) =
    IsFree users names a × AreFree (a.user ∷ users) (a.name ∷ names) rest

check_accounts-AreFree :
    (n : ℕ) (users names : List Text) (values : List Value)
    → AreFree users names (check_accounts n users names values).0
unfolding check_accounts
check_accounts-AreFree n users names [] = tt
check_accounts-AreFree n users names (v ∷ values) =
    go (check_entry (at_index n) users names v).0
      (λ a e. check_entry-IsFree (at_index n) users names v a e)
      (λ us ns. check_accounts-AreFree (suc n) us ns values)
  where
    go :
        (o : Option Accepted)
        → ((a : Accepted) → o ≡ some a → IsFree users names a)
        → ((us ns : List Text) → AreFree us ns (check_accounts (suc n) us ns values).0)
        → AreFree users names
            (elim o as (λ x. List Accepted × List Problem) [
              | none ↦
                  let (out, ps) = check_accounts (suc n) users names values in
                  (out, (check_entry (at_index n) users names v).1 ++ ps)
              | some a ↦
                  let (out, ps) = check_accounts (suc n) (a.user ∷ users) (a.name ∷ names) values in
                  (a ∷ out, (check_entry (at_index n) users names v).1 ++ ps)
            ]).0
    go none free rest = rest users names
    go (some a) free rest = (free a refl, rest (a.user ∷ users) (a.name ∷ names))

-- The accounts that are accepted have a user, a token id and a name that pass their patterns, that of
-- the name also with a newline behind; none of them is reserved, and each account's user and name
-- differ from those of all accounts before it.
pub validate_accounts-AreFree : (v : Value) → AreFree [] [] (validate_accounts v).0
unfolding validate_accounts
validate_accounts-AreFree (Value.list vs) = check_accounts-AreFree 0 [] [] (elems vs)
validate_accounts-AreFree v = tt
