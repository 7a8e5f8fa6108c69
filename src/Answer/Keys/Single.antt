-- ===== src/Answer/Keys/Single.antt =====
-- The one-time keys (bmc/answer_service/app.py): a key is good once.
use nautobot_proxmox.Prelude.{sym, ◌⊎◌}
use nautobot_proxmox.Prelude.{
  Bool-cases, ℕ, ◌≡◌, refl, ◌∙◌, inl, inr, Bool, true, false, none, List, [], ◌∷◌, arith, any,
  filter,
}
use nautobot_proxmox.Prelude.Text.{Text, text_eq, text_eq_refl}
use nautobot_proxmox.Python.Assoc.{lookup, put, lookup-put, erase, lookup-erase}
use nautobot_proxmox.Answer.Keys.{
  Entry, Keys, KeyFile, load_keys, save_keys, issue_key, entry_valid, consume_key, Op, run_op,
  run_ops, issue, consume, peek,
}
use mathlib.Core.Path.{subst}

-- The key that an operation issues, if it does.
abbrev pub issues : {a b : ℕ} → Text → Op a b → Bool
issues key (issue k s p i t) = text_eq k key
issues key _ = false

lookup-filter_absent :
    (k : Text) (p : Text × Entry → Bool) (d : Keys)
    → lookup k d ≡ none
    → lookup k (filter p d) ≡ none
unfolding lookup
lookup-filter_absent k p [] h = refl
lookup-filter_absent k p ((j, e) ∷ d) h = ground (arith, lookup-filter_absent k p d)

module _ (key_ttl credentials_ttl : ℕ) where
  abbrev pub IsGone : Text → KeyFile → Type 0
  IsGone key file = lookup key (load_keys file) ≡ none

  pub consume_key-cases :
      (key serial purpose : Text) (now saved : ℕ) (file : KeyFile)
      → let valid =
          entry_valid key_ttl credentials_ttl now (lookup key (load_keys file)) serial purpose in
        let run = consume_key key_ttl credentials_ttl key serial purpose now saved file in
        ((valid ≡ true)
          × (run ≡ (true, save_keys key_ttl credentials_ttl saved (erase key (load_keys file)))))
        ⊎ ((valid ≡ false) × (run ≡ (false, file)))
  unfolding consume_key
  consume_key-cases key serial purpose now saved file =
      elim (Bool-cases
        (entry_valid key_ttl credentials_ttl now (lookup key (load_keys file)) serial purpose)) [
          | inl e ↦ inl (e, rw e refl)
          | inr e ↦ inr (e, rw e refl)
        ]

  run_op-IsGone :
      (key : Text) (op : Op key_ttl credentials_ttl) (file : KeyFile)
      → issues key op ≡ false
      → IsGone key file
      → IsGone key (run_op key_ttl credentials_ttl op file)
  unfolding run_op issue_key save_keys load_keys
  run_op-IsGone key (peek k s p t) file h gone = gone
  run_op-IsGone key (issue k s p i t) file h gone =
      lookup-filter_absent key _ (put k _ (load_keys file)) (
        ground (
          arith,
          lookup-put k key (record { serial = s; purpose = p; issued = i }) (load_keys file),
        ))
  run_op-IsGone key (consume k s p t u) file h gone = elim (consume_key-cases k s p t u file) [
    | inl (_, e) ↦
        subst (λ r. IsGone key r.1) (sym e)
          (lookup-filter_absent key _ (erase k (load_keys file))
            (ground (arith, lookup-erase k key (load_keys file))))
    | inr (_, e) ↦ subst (λ r. IsGone key r.1) (sym e) gone
  ]

  run_ops-IsGone :
      (key : Text) (ops : List (Op key_ttl credentials_ttl)) (file : KeyFile)
      → any (issues key) ops ≡ false
      → IsGone key file
      → IsGone key (run_ops key_ttl credentials_ttl ops file)
  unfolding run_ops
  run_ops-IsGone key [] file h gone = gone
  run_ops-IsGone key (op ∷ ops) file h gone =
      run_ops-IsGone key ops (run_op key_ttl credentials_ttl op file) (ground arith)
        (run_op-IsGone key op file (ground arith) gone)

  pub consume_key-IsGone :
      (key serial purpose : Text) (now saved : ℕ) (file : KeyFile)
      → (consume_key key_ttl credentials_ttl key serial purpose now saved file).0 ≡ true
      → IsGone key (consume_key key_ttl credentials_ttl key serial purpose now saved file).1
  unfolding consume_key save_keys load_keys
  consume_key-IsGone key serial purpose now saved file h =
      elim (Bool-cases
        (entry_valid key_ttl credentials_ttl now (lookup key (load_keys file)) serial purpose)) [
          | inl e ↦ rw e (
              lookup-filter_absent key _ (erase key (load_keys file))
                (lookup-erase key key (load_keys file) ∙ ground (arith, text_eq_refl key)))
          | inr e ↦ absurd (ground arith)
        ]

  -- A key that has been consumed is never accepted again, with any serial and purpose and at any
  -- time, whatever operations run in between, as long as none of them issues the same key.
  pub consume_key-single_use :
      (key serial purpose serial' purpose' : Text) (now saved now' saved' : ℕ) (file : KeyFile)
      (ops : List (Op key_ttl credentials_ttl))
      → (consume_key key_ttl credentials_ttl key serial purpose now saved file).0 ≡ true
      → any (issues key) ops ≡ false
      → (consume_key key_ttl credentials_ttl key serial' purpose' now' saved' (
          run_ops key_ttl credentials_ttl ops
            (consume_key key_ttl credentials_ttl key serial purpose now saved file).1)).0
        ≡ false
  unfolding consume_key entry_valid
  consume_key-single_use key serial purpose serial' purpose' now saved now' saved' file ops h k =
      rw
        (run_ops-IsGone key ops
          (consume_key key_ttl credentials_ttl key serial purpose now saved file).1 k
          (consume_key-IsGone key serial purpose now saved file h))
        refl
