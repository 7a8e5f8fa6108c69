-- ===== src/Answer/Keys.antt =====
-- bmc/answer_service/app.py: the one-time keys. Each clock reading is an argument, in ticks; the
-- comparison `now - issued < ttl` adds on the other side, so that a clock that runs back is covered.
-- The saves here go through: one that raises leaves the file as it was, which is no step of it, and
-- what a request then does is in Answer/Handlers.
pub mod Single
pub mod Kept
pub mod Ledger
use nautobot_proxmox.Prelude.{
  ℕ, ◌+◌, ◌-◌, ◌<◌, Bool, true, false, ◌&&◌, Option, none, some, List, [], ◌∷◌, ltb, if◌then◌else◌,
  filter,
}
use nautobot_proxmox.Prelude.Text.{Text, codes, text_eq}
use nautobot_proxmox.Python.Assoc.{lookup, put, erase}

pub record Entry : Type 0 where
  pub serial : Text
  pub purpose : Text
  pub issued : ℕ

abbrev pub Keys : Type 0
Keys = List (Text × Entry)

-- The key file: what it holds, if it can be read.
abbrev pub KeyFile : Type 0
KeyFile = Option Keys

-- `_load_keys`.
unfoldable pub load_keys : KeyFile → Keys
load_keys none = []
load_keys (some keys) = keys

-- The two lifetimes, KEY_TTL_SECONDS and CREDENTIALS_KEY_TTL_SECONDS.
module _ (key_ttl credentials_ttl : ℕ) where
  -- `_ttl_for`.
  unfoldable pub ttl_for : Entry → ℕ
  unfolding text_eq
  ttl_for e = if text_eq e.purpose (codes "credentials") then credentials_ttl else key_ttl

  abbrev pub is_fresh : ℕ → Entry → Bool
  is_fresh now e = ltb now (e.issued + ttl_for e)

  -- `_save_keys`, which drops the entries that have run out.
  unfoldable pub save_keys : ℕ → Keys → KeyFile
  unfolding ttl_for
  save_keys now keys = some (filter (λ k. is_fresh now k.1) keys)

  -- `issue_key`; `key` is what `token_urlsafe` returns.
  unfoldable pub issue_key : Text → Text → Text → ℕ → ℕ → KeyFile → KeyFile
  unfolding load_keys save_keys put
  issue_key key serial purpose issued saved file =
      save_keys saved
        (put key (record { serial = serial; purpose = purpose; issued = issued }) (load_keys file))

  -- `_entry_valid`.
  unfoldable pub entry_valid : ℕ → Option Entry → Text → Text → Bool
  unfolding ttl_for text_eq
  entry_valid now none serial purpose = false
  entry_valid now (some e) serial purpose =
      text_eq e.serial serial && (text_eq e.purpose purpose && is_fresh now e)

  unfoldable pub peek_key : Text → Text → Text → ℕ → KeyFile → Bool
  unfolding entry_valid load_keys lookup
  peek_key key serial purpose now file =
      entry_valid now (lookup key (load_keys file)) serial purpose

  -- `consume_key`, with the clock at the test and at the save.
  unfoldable pub consume_key : Text → Text → Text → ℕ → ℕ → KeyFile → Bool × KeyFile
  unfolding entry_valid load_keys save_keys lookup erase
  consume_key key serial purpose now saved file =
      if entry_valid now (lookup key (load_keys file)) serial purpose
      then (true, save_keys saved (erase key (load_keys file)))
      else (false, file)

  -- The operations on the key file, one at a time under `_keys_lock`.
  pub data Op : Type 0 where
    issue : Text → Text → Text → ℕ → ℕ → Op
    consume : Text → Text → Text → ℕ → ℕ → Op
    peek : Text → Text → Text → ℕ → Op

  unfoldable pub run_op : Op → KeyFile → KeyFile
  unfolding issue_key consume_key
  run_op (issue key serial purpose issued saved) file =
      issue_key key serial purpose issued saved file
  run_op (consume key serial purpose now saved) file =
      (consume_key key serial purpose now saved file).1
  run_op (peek key serial purpose now) file = file

  unfoldable pub run_ops : List Op → KeyFile → KeyFile
  unfolding run_op
  run_ops [] file = file
  run_ops (op ∷ ops) file = run_ops ops (run_op op file)
