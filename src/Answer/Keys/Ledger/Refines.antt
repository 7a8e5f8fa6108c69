-- ===== src/Answer/Keys/Ledger/Refines.antt =====
-- The key file (bmc/answer_service/app.py), which drops what has run out, answers as the table that
-- drops nothing.
use mathlib.Core.Path.{ap₂, subst}
use nautobot_proxmox.Prelude.{List, [], ◌∷◌}
use nautobot_proxmox.Answer.Keys.{ttl_for}
use nautobot_proxmox.Answer.Keys.Ledger.{ledger_answers, InOrder}
use nautobot_proxmox.Answer.Keys.Single.{consume_key-cases}
use nautobot_proxmox.Prelude.{
  ℕ, ◌≤◌, ◌≡◌, refl, sym, ap, ◌∙◌, inl, inr, false, Option, none, some, arith, Bool-cases,
}
use nautobot_proxmox.Prelude.Text.{Text, text_eq}
use nautobot_proxmox.Python.Assoc.{lookup, put, lookup-put, erase, lookup-erase}
use nautobot_proxmox.Python.Dict.{
  IsDict, put-IsDict, erase-IsDict, kept, lookup-filter, filter-IsDict,
}
use nautobot_proxmox.Answer.Keys.{
  Entry, Keys, KeyFile, load_keys, is_fresh, save_keys, issue_key, entry_valid, peek_key, Op,
  run_op, issue, consume, peek,
}
use nautobot_proxmox.Answer.Keys.Ledger.{
  Ledger, set_at, op_answer, answers, ledger_answer, ledger_run, begins, ends,
}

module _ (key_ttl credentials_ttl : ℕ) where
  abbrev fresh : ℕ → Option Entry → Option Entry
  fresh u = kept (is_fresh key_ttl credentials_ttl u)

  entry_valid-fresh :
      (now : ℕ) (o : Option Entry) (serial purpose : Text)
      → entry_valid key_ttl credentials_ttl now (fresh now o) serial purpose
        ≡ entry_valid key_ttl credentials_ttl now o serial purpose
  unfolding entry_valid ttl_for
  entry_valid-fresh now none serial purpose = refl
  entry_valid-fresh now (some e) serial purpose =
      elim (Bool-cases (is_fresh key_ttl credentials_ttl now e)) [
        | inl y ↦ ground arith
        | inr n ↦ ground arith
      ]

  -- What is fresh later is fresh before.
  fresh-fresh : (t u : ℕ) (o : Option Entry) → t ≤ u → fresh u (fresh t o) ≡ fresh u o
  fresh-fresh t u none le = refl
  fresh-fresh t u (some e) le = elim (Bool-cases (is_fresh key_ttl credentials_ttl t e)) [
    | inl y ↦ rw y refl
    | inr n ↦
        let late : is_fresh key_ttl credentials_ttl u e ≡ false = ground arith in
        rw n (rw late refl)
  ]

  -- From `t` on, the keys and the table hold the same fresh entries.
  abbrev Holds : ℕ → Keys → Ledger → Type 0
  Holds t keys ledger =
      IsDict keys × ((k : Text) (u : ℕ) → t ≤ u → fresh u (lookup k keys) ≡ fresh u (ledger k))

  Holds-later :
      (t u : ℕ) (keys : Keys) (ledger : Ledger) → t ≤ u → Holds t keys ledger → Holds u keys ledger
  Holds-later t u keys ledger le (one, same) = (one, λ k v le'. same k v (omega arith))

  save_keys-Holds :
      (t : ℕ) (keys : Keys) (ledger : Ledger)
      → Holds t keys ledger
      → Holds t (load_keys (save_keys key_ttl credentials_ttl t keys)) ledger
  unfolding load_keys save_keys
  save_keys-Holds t keys ledger (one, same) = (
    filter-IsDict (is_fresh key_ttl credentials_ttl t) keys one,
    λ k u le.
        ap (fresh u) (lookup-filter (is_fresh key_ttl credentials_ttl t) k keys one)
        ∙ (fresh-fresh t u (lookup k keys) le ∙ same k u le),
  )

  put-Holds :
      (t : ℕ) (key : Text) (e : Entry) (keys : Keys) (ledger : Ledger)
      → Holds t keys ledger
      → Holds t (put key e keys) (set_at key (some e) ledger)
  unfolding set_at
  put-Holds t key e keys ledger (one, same) = (
    put-IsDict key e keys one,
    λ k u le.
        ap (fresh u) (lookup-put key k e keys)
        ∙ elim (Bool-cases (text_eq key k)) [ inl y ↦ rw y refl | inr n ↦ rw n (same k u le) ],
  )

  erase-Holds :
      (t : ℕ) (key : Text) (keys : Keys) (ledger : Ledger)
      → Holds t keys ledger
      → Holds t (erase key keys) (set_at key none ledger)
  unfolding set_at
  erase-Holds t key keys ledger (one, same) = (
    erase-IsDict key keys one,
    λ k u le.
        ap (fresh u) (lookup-erase key k keys)
        ∙ elim (Bool-cases (text_eq key k)) [ inl y ↦ rw y refl | inr n ↦ rw n (same k u le) ],
  )

  -- Both sides test a key alike.
  entry_valid-Holds :
      (t now : ℕ) (key serial purpose : Text) (keys : Keys) (ledger : Ledger)
      → t ≤ now
      → Holds t keys ledger
      → entry_valid key_ttl credentials_ttl now (lookup key keys) serial purpose
        ≡ entry_valid key_ttl credentials_ttl now (ledger key) serial purpose
  entry_valid-Holds t now key serial purpose keys ledger le (one, same) =
      sym (entry_valid-fresh now (lookup key keys) serial purpose)
      ∙ (ap (λ o. entry_valid key_ttl credentials_ttl now o serial purpose) (same key now le)
          ∙ entry_valid-fresh now (ledger key) serial purpose)

  op_answer-Holds :
      (t : ℕ) (op : Op key_ttl credentials_ttl) (file : KeyFile) (ledger : Ledger)
      → t ≤ begins key_ttl credentials_ttl op
      → Holds t (load_keys file) ledger
      → op_answer key_ttl credentials_ttl op file ≡ ledger_answer key_ttl credentials_ttl op ledger
  unfolding op_answer ledger_answer peek_key
  op_answer-Holds t (issue k s p i v) file ledger le h = refl
  op_answer-Holds t (peek k s p now) file ledger le h =
      entry_valid-Holds t now k s p (load_keys file) ledger le h
  op_answer-Holds t (consume k s p now v) file ledger le h =
      elim (consume_key-cases key_ttl credentials_ttl k s p now v file) [
        | inl (y, run) ↦
            ap (λ r. r.0) run ∙ (sym y ∙ entry_valid-Holds t now k s p (load_keys file) ledger le h)
        | inr (n, run) ↦
            ap (λ r. r.0) run ∙ (sym n ∙ entry_valid-Holds t now k s p (load_keys file) ledger le h)
      ]

  run_op-Holds :
      (t : ℕ) (op : Op key_ttl credentials_ttl) (file : KeyFile) (ledger : Ledger)
      → t ≤ begins key_ttl credentials_ttl op
      → begins key_ttl credentials_ttl op ≤ ends key_ttl credentials_ttl op
      → Holds t (load_keys file) ledger
      → Holds
          (ends key_ttl credentials_ttl op)
          (load_keys (run_op key_ttl credentials_ttl op file))
          (ledger_run key_ttl credentials_ttl op ledger)
  unfolding run_op ledger_run issue_key
  run_op-Holds t (peek k s p now) file ledger le le' h =
      Holds-later t now (load_keys file) ledger le h
  run_op-Holds t (issue k s p i v) file ledger le le' h =
      save_keys-Holds v (put k _ (load_keys file)) _ (
        put-Holds v k _ (load_keys file) ledger
          (Holds-later t v (load_keys file) ledger (omega arith) h))
  run_op-Holds t (consume k s p now v) file ledger le le' h =
      let agree = entry_valid-Holds t now k s p (load_keys file) ledger le h in
      let later = Holds-later t v (load_keys file) ledger (omega arith) h in
      elim (consume_key-cases key_ttl credentials_ttl k s p now v file) [
        | inl (y, run) ↦ rw (sym agree ∙ y) (
            subst (λ r. Holds v (load_keys r.1) (set_at k none ledger)) (sym run)
              (save_keys-Holds v (erase k (load_keys file)) (set_at k none ledger)
                (erase-Holds v k (load_keys file) ledger later)))
        | inr (n, run) ↦
            rw (sym agree ∙ n) (subst (λ r. Holds v (load_keys r.1) ledger) (sym run) later)
      ]

  answers-Holds :
      (t : ℕ) (ops : List (Op key_ttl credentials_ttl)) (file : KeyFile) (ledger : Ledger)
      → InOrder key_ttl credentials_ttl t ops
      → Holds t (load_keys file) ledger
      → answers key_ttl credentials_ttl ops file ≡ ledger_answers key_ttl credentials_ttl ops ledger
  unfolding answers ledger_answers
  answers-Holds t [] file ledger order h = refl
  answers-Holds t (op ∷ ops) file ledger (le, le', order) h =
      ap₂ (λ b bs. b ∷ bs) (op_answer-Holds t op file ledger le h)
        (answers-Holds (ends key_ttl credentials_ttl op) ops
          (run_op key_ttl credentials_ttl op file) (ledger_run key_ttl credentials_ttl op ledger)
          order (run_op-Holds t op file ledger le le' h))

  -- As long as the clock does not run back, the key file, which drops the entries that have run out at
  -- each save, answers every sequence of issues, peeks and consumes as a table does that drops none.
  pub answers-ledger :
      (t : ℕ) (ops : List (Op key_ttl credentials_ttl)) (file : KeyFile)
      → IsDict (load_keys file)
      → InOrder key_ttl credentials_ttl t ops
      → answers key_ttl credentials_ttl ops file
        ≡ ledger_answers key_ttl credentials_ttl ops (λ key. lookup key (load_keys file))
  answers-ledger t ops file one order =
      answers-Holds t ops file (λ key. lookup key (load_keys file)) order (one, λ k u le. refl)
