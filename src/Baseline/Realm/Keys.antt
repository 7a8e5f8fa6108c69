-- ===== src/Baseline/Realm/Keys.antt =====
-- The keys of the options that a section sets (jobs/lib/host_baseline.py, `realm_options` and
-- `plan_sync_job`) are distinct.
use mathlib.Core.Path.{subst}
use nautobot_proxmox.Prelude.{
  ℕ, ◌≡◌, refl, sym, Bool, false, Option, none, some, List, [], ◌∷◌, arith, Pointwise,
}
use nautobot_proxmox.Prelude.Text.{Text, mem_text}
use nautobot_proxmox.Baseline.Options.{keys, HasDistinctKeys}
use nautobot_proxmox.Baseline.Realm.{opt_text, opt_bool, opt_nat, set_options}

-- A table entry is unset, or has this key.
abbrev pub HasKey : Option (Text × Text) → Text → Type 0
HasKey none k = Unit
HasKey (some o) k = o.0 ≡ k

pub opt_text-HasKey : (k : Text) (v : Option Text) → HasKey (opt_text k v) k
opt_text-HasKey k none = tt
opt_text-HasKey k (some v) = refl

pub opt_bool-HasKey : (k : Text) (v : Option Bool) → HasKey (opt_bool k v) k
opt_bool-HasKey k none = tt
opt_bool-HasKey k (some v) = refl

pub opt_nat-HasKey : (k : Text) (v : Option ℕ) → HasKey (opt_nat k v) k
opt_nat-HasKey k none = tt
opt_nat-HasKey k (some v) = refl

pub set_options-absent :
    (x : Text) (table : List (Option (Text × Text))) (ks : List Text)
    → Pointwise HasKey table ks
    → mem_text x ks ≡ false
    → mem_text x (keys (set_options table)) ≡ false
unfolding set_options mem_text
set_options-absent x [] ks h k = refl
set_options-absent x (none ∷ table) [] h k = absurd h
set_options-absent x (some o ∷ table) [] h k = absurd h
set_options-absent x (none ∷ table) (j ∷ ks) (_, h) k =
    set_options-absent x table ks h (ground arith)
set_options-absent x (some o ∷ table) (j ∷ ks) (e, h) k =
    rw e (ground (arith, set_options-absent x table ks h))

pub set_options-distinct :
    (table : List (Option (Text × Text))) (ks : List Text)
    → Pointwise HasKey table ks
    → HasDistinctKeys ks
    → HasDistinctKeys (keys (set_options table))
unfolding set_options
set_options-distinct [] ks h d = tt
set_options-distinct (none ∷ table) [] h d = absurd h
set_options-distinct (some o ∷ table) [] h d = absurd h
set_options-distinct (none ∷ table) (j ∷ ks) (_, h) (_, d) = set_options-distinct table ks h d
set_options-distinct (some o ∷ table) (j ∷ ks) (e, h) (a, d) = (
  subst (λ k. mem_text k (keys (set_options table)) ≡ false) (sym e)
      (set_options-absent j table ks h a),
  set_options-distinct table ks h d,
)
