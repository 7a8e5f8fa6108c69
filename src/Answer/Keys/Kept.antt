-- ===== src/Answer/Keys/Kept.antt =====
-- The one-time keys (bmc/answer_service/app.py): a key is good for as long as it lives, and a bad
-- guess does not burn it.
use nautobot_proxmox.Prelude.{sym, Option, All}
use nautobot_proxmox.Prelude.Text.{text_eq_iff}
use nautobot_proxmox.Answer.Keys.{peek_key}
use nautobot_proxmox.Prelude.{
  Bool-cases, ℕ, ◌≡◌, ◌∙◌, inl, inr, Bool, true, false, ◌&&◌, none, some, List, [], ◌∷◌, arith,
  filter,
}
use nautobot_proxmox.Prelude.Text.{Text, text_eq, text_eq_refl}
use nautobot_proxmox.Python.Assoc.{lookup, put, lookup-put, erase, lookup-erase}
use nautobot_proxmox.Answer.Keys.{
  Entry, Keys, KeyFile, load_keys, is_fresh, save_keys, issue_key, entry_valid, consume_key, Op,
  run_op, run_ops, issue, consume, peek,
}
use mathlib.Core.Path.{subst}
use nautobot_proxmox.Answer.Keys.Single.{consume_key-cases}

lookup-filter_present :
    (k : Text) (p : Text × Entry → Bool) (e : Entry) (d : Keys)
    → lookup k d ≡ some e
    → ((j : Text) → p (j, e) ≡ true)
    → lookup k (filter p d) ≡ some e
unfolding lookup
lookup-filter_present k p e [] h q = h
lookup-filter_present k p e ((j, f) ∷ d) h q = elim (Bool-cases (text_eq j k)) [
  | inl same ↦ ground (arith, q j)
  | inr other_key ↦ ground (arith, lookup-filter_present k p e d)
]

module _ (key_ttl credentials_ttl : ℕ) where
  -- An operation that leaves the entry alone: it issues another key, or is no full match of the entry,
  -- and the clock at its save is before the entry's end.
  abbrev pub Spares : Text → Entry → Op key_ttl credentials_ttl → Type 0
  Spares key e (peek k s p t) = Unit
  Spares key e (issue k s p i t) =
      (text_eq k key ≡ false) × (is_fresh key_ttl credentials_ttl t e ≡ true)
  Spares key e (consume k s p t u) =
      ((text_eq k key && (text_eq e.serial s && text_eq e.purpose p)) ≡ false)
      × (is_fresh key_ttl credentials_ttl u e ≡ true)

  abbrev pub Has : Text → Entry → KeyFile → Type 0
  Has key e file = lookup key (load_keys file) ≡ some e

  entry_valid-some :
      (now : ℕ) (o : Option Entry) (e : Entry) (serial purpose : Text)
      → o ≡ some e
      → entry_valid key_ttl credentials_ttl now o serial purpose ≡ true
      → (text_eq e.serial serial && text_eq e.purpose purpose) ≡ true
  unfolding entry_valid
  entry_valid-some now none e serial purpose h v = absurd (ground arith)
  entry_valid-some now (some f) e serial purpose h v = ground arith

  spared_key :
      (key k serial purpose : Text) (now : ℕ) (e : Entry) (file : KeyFile)
      → (text_eq k key && (text_eq e.serial serial && text_eq e.purpose purpose)) ≡ false
      → Has key e file
      → entry_valid key_ttl credentials_ttl now (lookup k (load_keys file)) serial purpose ≡ true
      → text_eq k key ≡ false
  spared_key key k serial purpose now e file h has v = elim (Bool-cases (text_eq k key)) [
    | inl q ↦
        let same : lookup k (load_keys file) ≡ some e = rw ((text_eq_iff k key).0 q) has in
        absurd
          (ground (arith, entry_valid-some now (lookup k (load_keys file)) e serial purpose same v))
    | inr q ↦ q
  ]

  pub run_op-Has :
      (key : Text) (e : Entry) (op : Op key_ttl credentials_ttl) (file : KeyFile)
      → Spares key e op
      → Has key e file
      → Has key e (run_op key_ttl credentials_ttl op file)
  unfolding run_op issue_key consume_key save_keys load_keys
  run_op-Has key e (peek k s p t) file h has = has
  run_op-Has key e (issue k s p i t) file (h, f) has =
      lookup-filter_present key _ e (put k _ (load_keys file))
        (ground (
          arith,
          lookup-put k key (record { serial = s; purpose = p; issued = i }) (load_keys file),
        ))
        (λ j. f)
  run_op-Has key e (consume k s p t u) file (h, f) has =
      elim (consume_key-cases key_ttl credentials_ttl k s p t u file) [
        | inl (v, run) ↦
            subst (λ r. Has key e r.1) (sym run)
              (lookup-filter_present key _ e (erase k (load_keys file))
                (lookup-erase k key (load_keys file)
                  ∙ ground (arith, spared_key key k s p t e file h has v))
                (λ j. f))
        | inr (_, run) ↦ subst (λ r. Has key e r.1) (sym run) has
      ]

  run_ops-Has :
      (key : Text) (e : Entry) (ops : List (Op key_ttl credentials_ttl)) (file : KeyFile)
      → All (Spares key e) ops
      → Has key e file
      → Has key e (run_ops key_ttl credentials_ttl ops file)
  unfolding run_ops
  run_ops-Has key e [] file h has = has
  run_ops-Has key e (op ∷ ops) file (h, hs) has =
      run_ops-Has key e ops (run_op key_ttl credentials_ttl op file) hs
        (run_op-Has key e op file h has)

  pub issue_key-Has :
      (key serial purpose : Text) (issued saved : ℕ) (file : KeyFile)
      → let e : Entry = record { serial = serial; purpose = purpose; issued = issued } in
        is_fresh key_ttl credentials_ttl saved e ≡ true
        → Has key e (issue_key key_ttl credentials_ttl key serial purpose issued saved file)
  unfolding issue_key save_keys load_keys
  issue_key-Has key serial purpose issued saved file f =
      let e : Entry = record { serial = serial; purpose = purpose; issued = issued } in
      lookup-filter_present key _ e (put key e (load_keys file))
        (lookup-put key key e (load_keys file) ∙ ground (arith, text_eq_refl key)) (λ j. f)

  -- A key that is issued and saved within its lifetime is accepted for its serial and purpose as long
  -- as that lifetime lasts, whatever the operations in between, if none issues the same key, none is a
  -- full match of it, and each saves within that lifetime: a bad guess does not burn a key, and
  -- neither does a peek.
  pub issue_key-good :
      (key serial purpose : Text) (issued saved now saved' : ℕ) (file : KeyFile)
      (ops : List (Op key_ttl credentials_ttl))
      → let e : Entry = record { serial = serial; purpose = purpose; issued = issued } in
        is_fresh key_ttl credentials_ttl saved e ≡ true
        → All (Spares key e) ops
        → is_fresh key_ttl credentials_ttl now e ≡ true
        → let after =
            run_ops key_ttl credentials_ttl ops
              (issue_key key_ttl credentials_ttl key serial purpose issued saved file) in
          (peek_key key_ttl credentials_ttl key serial purpose now after ≡ true)
          × ((consume_key key_ttl credentials_ttl key serial purpose now saved' after).0 ≡ true)
  unfolding peek_key consume_key entry_valid
  issue_key-good key serial purpose issued saved now saved' file ops f hs g =
      let e : Entry = record { serial = serial; purpose = purpose; issued = issued } in
      let has =
        run_ops-Has key e ops
          (issue_key key_ttl credentials_ttl key serial purpose issued saved file) hs
          (issue_key-Has key serial purpose issued saved file f) in
      (
        rw has (ground (arith, text_eq_refl serial, text_eq_refl purpose)),
        rw has (ground (arith, text_eq_refl serial, text_eq_refl purpose)),
      )
