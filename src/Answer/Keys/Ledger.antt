-- ===== src/Answer/Keys/Ledger.antt =====
-- The one-time keys (bmc/answer_service/app.py) as their users see them: a table of the keys, from
-- which no entry is dropped for its age, and what the operations answer on it and on the key file.
pub mod Refines
use nautobot_proxmox.Prelude.{
  ℕ, ◌≤◌, Bool, true, not, Option, none, some, List, [], ◌∷◌, if◌then◌else◌,
}
use nautobot_proxmox.Prelude.Text.{Text, text_eq}
use nautobot_proxmox.Answer.Keys.{
  Entry, KeyFile, entry_valid, peek_key, consume_key, Op, run_op, issue, consume, peek,
}

abbrev pub Ledger : Type 0
Ledger = Text → Option Entry

-- `ledger[key] = entry`, and `del ledger[key]` for `none`.
unfoldable pub set_at : Text → Option Entry → Ledger → Ledger
set_at key o ledger k = if text_eq key k then o else ledger k

module _ (key_ttl credentials_ttl : ℕ) where
  unfoldable pub op_answer : Op key_ttl credentials_ttl → KeyFile → Bool
  unfolding consume_key peek_key
  op_answer (issue key serial purpose issued saved) file = true
  op_answer (consume key serial purpose now saved) file =
      (consume_key key_ttl credentials_ttl key serial purpose now saved file).0
  op_answer (peek key serial purpose now) file =
      peek_key key_ttl credentials_ttl key serial purpose now file

  unfoldable pub answers : List (Op key_ttl credentials_ttl) → KeyFile → List Bool
  unfolding op_answer
  answers [] file = []
  answers (op ∷ ops) file = op_answer op file ∷ answers ops (run_op key_ttl credentials_ttl op file)

  unfoldable pub ledger_answer : Op key_ttl credentials_ttl → Ledger → Bool
  ledger_answer (issue key serial purpose issued saved) ledger = true
  ledger_answer (consume key serial purpose now saved) ledger =
      entry_valid key_ttl credentials_ttl now (ledger key) serial purpose
  ledger_answer (peek key serial purpose now) ledger =
      entry_valid key_ttl credentials_ttl now (ledger key) serial purpose

  unfoldable pub ledger_run : Op key_ttl credentials_ttl → Ledger → Ledger
  unfolding set_at
  ledger_run (issue key serial purpose issued saved) ledger =
      set_at key (some (record { serial = serial; purpose = purpose; issued = issued })) ledger
  ledger_run (consume key serial purpose now saved) ledger =
      if entry_valid key_ttl credentials_ttl now (ledger key) serial purpose
      then set_at key none ledger
      else ledger
  ledger_run (peek key serial purpose now) ledger = ledger

  unfoldable pub ledger_answers : List (Op key_ttl credentials_ttl) → Ledger → List Bool
  unfolding ledger_answer ledger_run
  ledger_answers [] ledger = []
  ledger_answers (op ∷ ops) ledger =
      ledger_answer op ledger ∷ ledger_answers ops (ledger_run op ledger)

  -- The first and the last reading of the clock; an issue reads it for the entry first.
  abbrev pub begins : Op key_ttl credentials_ttl → ℕ
  begins (issue key serial purpose issued saved) = issued
  begins (consume key serial purpose now saved) = now
  begins (peek key serial purpose now) = now

  abbrev pub ends : Op key_ttl credentials_ttl → ℕ
  ends (issue key serial purpose issued saved) = saved
  ends (consume key serial purpose now saved) = saved
  ends (peek key serial purpose now) = now

  -- The clock does not run back, from `t` on.
  abbrev pub InOrder : ℕ → List (Op key_ttl credentials_ttl) → Type 0
  InOrder t [] = Unit
  InOrder t (op ∷ ops) = (t ≤ begins op) × (begins op ≤ ends op) × InOrder (ends op) ops
