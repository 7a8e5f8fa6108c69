-- ===== src/Baseline/Options.antt =====
-- jobs/lib/host_baseline.py: options that the source of truth wants against those that a node has,
-- the comparison that `plan_realm` and `plan_sync_job` share.
use nautobot_proxmox.Python.Assoc.{lookup, lookup-put}
use mathlib.Core.Path.{subst}
use nautobot_proxmox.Prelude.{sym, ◌∙◌, All-intro}
use nautobot_proxmox.Prelude.Text.{text_eq_refl}
use nautobot_proxmox.Prelude.{
  ◌≡◌, refl, ap, inl, inr, Bool, true, false, not, Option, none, some, List, [], ◌∷◌, ◌++◌, map,
  arith, if◌then◌else◌, Bool-cases, filter, All,
}
use nautobot_proxmox.Prelude.Text.{Text, codes, text_eq, text_eq_iff, mem_text}
use nautobot_proxmox.Python.Value.{Value, Dict}
use nautobot_proxmox.Python.Assoc.{put}

abbrev pub Options : Type 0
Options = List (Text × Text)

abbrev pub keys : Options → List Text
keys want = map (λ o. o.0) want

-- `some v` against the text that is wanted.
unfoldable pub reads_as : Option Text → Text → Bool
reads_as none v = false
reads_as (some s) v = text_eq s v

module _ (read : Dict → Text → Option Text) where
  -- The wanted options that the node's configuration does not read as.
  unfoldable pub unmatched : Dict → Options → Options
  unfolding reads_as
  unmatched current want = filter (λ o. not (reads_as (read current o.0) o.1)) want

-- `--key value` for each option.
unfoldable pub flags : Options → List Text
flags [] = []
flags ((k, v) ∷ rest) = (codes "--" ++ k) ∷ v ∷ flags rest

-- The node's configuration after a command with these options has run.
unfoldable pub store : Options → Dict → Dict
store [] current = current
store ((k, v) ∷ rest) current = store rest (put k (Value.str v) current)

abbrev pub HasDistinctKeys : List Text → Type 0
HasDistinctKeys [] = Unit
HasDistinctKeys (k ∷ ks) = (mem_text k ks ≡ false) × HasDistinctKeys ks

module _ (read : Dict → Text → Option Text)
    (read-put : (k j v : Text) (d : Dict)
      → read (put k (Value.str v) d) j ≡ (if text_eq k j then some v else read d j)) where
  read-store_absent :
      (k : Text) (want : Options) (current d : Dict)
      → mem_text k (keys want) ≡ false
      → read (store (unmatched read current want) d) k ≡ read d k
  unfolding unmatched store mem_text
  read-store_absent k [] current d h = refl
  read-store_absent k ((j, v) ∷ want) current d h =
      elim (Bool-cases (reads_as (read current j) v)) [
        | inl e ↦ rw e (read-store_absent k want current d (ground arith))
        | inr e ↦ rw e (
            ground (
              arith,
              read-store_absent k want current (put j (Value.str v) d),
              read-put j k v d,
              text_eq_iff k j,
              text_eq_iff j k,
            ))
      ]

  abbrev IsSettled : Dict → Text × Text → Type 0
  IsSettled d o = read d o.0 ≡ some o.1

  reads_as-some : (o : Option Text) (v : Text) → reads_as o v ≡ true → o ≡ some v
  unfolding reads_as
  reads_as-some none v h = ground arith
  reads_as-some (some s) v h = ap some ((text_eq_iff s v).0 h)

  same_after_put :
      (k v : Text) (want : Options) (current d : Dict)
      → mem_text k (keys want) ≡ false
      → All (λ o. read d o.0 ≡ read current o.0) want
      → All (λ o. read (put k (Value.str v) d) o.0 ≡ read current o.0) want
  unfolding mem_text
  same_after_put k v [] current d h same = tt
  same_after_put k v ((j, w) ∷ want) current d h (e, same) = (
    ground (arith, read-put k j v d, text_eq_iff k j),
    same_after_put k v want current d (ground arith) same,
  )

  unmatched-cons_met :
      (k v : Text) (want : Options) (current : Dict)
      → reads_as (read current k) v ≡ true
      → unmatched read current ((k, v) ∷ want) ≡ unmatched read current want
  unfolding unmatched
  unmatched-cons_met k v want current h = ground arith

  unmatched-cons_unmet :
      (k v : Text) (want : Options) (current : Dict)
      → reads_as (read current k) v ≡ false
      → unmatched read current ((k, v) ∷ want) ≡ (k, v) ∷ unmatched read current want
  unfolding unmatched
  unmatched-cons_unmet k v want current h = ground arith

  store-IsSettled :
      (want : Options) (current d : Dict)
      → HasDistinctKeys (keys want)
      → All (λ o. read d o.0 ≡ read current o.0) want
      → All (IsSettled (store (unmatched read current want) d)) want
  unfolding store
  store-IsSettled [] current d h same = tt
  store-IsSettled ((k, v) ∷ want) current d (absent, h) (e, same) =
      elim (Bool-cases (reads_as (read current k) v)) [
        | inl m ↦
            subst (λ u. All (IsSettled (store u d)) ((k, v) ∷ want))
              (sym (unmatched-cons_met k v want current m))
              (
                read-store_absent k want current d absent ∙ e ∙ reads_as-some (read current k) v m,
                store-IsSettled want current d h same,
              )
        | inr m ↦
            let d' = put k (Value.str v) d in
            subst (λ u. All (IsSettled (store u d)) ((k, v) ∷ want))
              (sym (unmatched-cons_unmet k v want current m))
              (
                read-store_absent k want current d' absent
                    ∙ ground (arith, read-put k k v d, text_eq_refl k),
                store-IsSettled want current d' h (same_after_put k v want current d absent same),
              )
      ]

  settled-unmatched :
      (want : Options) (d : Dict) → All (IsSettled d) want → unmatched read d want ≡ []
  unfolding reads_as
  settled-unmatched [] d h = unfold unmatched in refl
  settled-unmatched ((k, v) ∷ want) d (e, h) =
      unmatched-cons_met k v want d (ground (arith, text_eq_refl v)) ∙ settled-unmatched want d h

  -- Storing what does not match leaves nothing that does not match.
  pub unmatched-store :
      (want : Options) (current : Dict)
      → HasDistinctKeys (keys want)
      → unmatched read (store (unmatched read current want) current) want ≡ []
  unmatched-store want current h =
      settled-unmatched want _
        (store-IsSettled want current current h (All-intro _ (λ o. refl) want))

-- A key that is not wanted keeps its value.
pub lookup-store_absent :
    (read : Dict → Text → Option Text) (k : Text) (want : Options) (current d : Dict)
    → mem_text k (keys want) ≡ false
    → lookup k (store (unmatched read current want) d) ≡ lookup k d
unfolding unmatched store mem_text
lookup-store_absent read k [] current d h = refl
lookup-store_absent read k ((j, v) ∷ want) current d h =
    elim (Bool-cases (reads_as (read current j) v)) [
      | inl e ↦ rw e (lookup-store_absent read k want current d (ground arith))
      | inr e ↦ rw e (
          ground (
            arith,
            lookup-store_absent read k want current (put j (Value.str v) d),
            lookup-put j k (Value.str v) d,
            text_eq_iff k j,
            text_eq_iff j k,
          ))
    ]
