-- ===== src/Answer/Handlers.antt =====
-- bmc/answer_service/app.py: the requests of a node that spend its one-time keys (`_firstboot_impl`,
-- `_firstboot_credentials_impl` and `_webhook_impl`). What Nautobot, the file system and the
-- templates answer is an argument; the log and the archived payload are left out.
pub mod Spent
pub mod Minted
use nautobot_proxmox.Prelude.{
  not, ℕ, ◌/◌, Bool, true, false, ◌&&◌, ◌||◌, Option, none, some, [], ◌∷◌, ◌++◌, ◌==◌,
  if◌then◌else◌, is_empty,
}
use nautobot_proxmox.Prelude.Text.{Text, codes, text_eq}
use nautobot_proxmox.Python.Result.{Result, err, ok}
use nautobot_proxmox.Answer.Keys.{KeyFile, issue_key, peek_key, consume_key}

-- The refusals and failures that a request ends with.
pub data HttpError : Type 0 where
  bad_key unknown_machine wrong_source token_missing : HttpError
  failed : Text → HttpError

-- What the requests read of a Device.
pub record Device : Type 0 where
  pub name : Text
  pub provisioning_state : Option Text
  pub address : Option Text

-- The key file, the device's state in Nautobot, and the two files of its token.
pub record World : Type 0 where
  pub keys : KeyFile
  pub provisioning_state : Option Text
  pub secrets_group : Option Text
  pub token_id_file : Option Text
  pub token_secret_file : Option Text

-- The clock when the key is peeked at, when it is consumed, and when the keys are saved.
pub record Times : Type 0 where
  pub peeked : ℕ
  pub consumed : ℕ
  pub saved : ℕ

abbrev pub Reply : Type 0 → Type 0
Reply A = Result HttpError A × World

-- `raise`: the world stays as it is.
abbrev pub fail : {A : Type 0} → HttpError → World → Reply A
fail e w = (err e, w)

-- `device_by_serial`'s answer, where a missing device is refused.
abbrev pub with_device :
    {A : Type 0} → Result HttpError (Option Device) → World → (Device → Reply A) → Reply A
with_device (err e) w k = fail e w
with_device (ok none) w k = fail unknown_machine w
with_device (ok (some d)) w k = k d

-- A call that works or raises.
abbrev pub attempt : {A : Type 0} → Bool → Text → World → Reply A → Reply A
attempt true what w k = k
attempt false what w k = fail (failed what) w

-- How `_write_secret_file` turns out: the content is written, or it raises and leaves the file as it
-- may be then, which it has truncated first.
pub data FileWrite : Type 0 where
  file_written : FileWrite
  file_stopped : Option Text → FileWrite

abbrev pub with_write : {A : Type 0} → FileWrite → Text → (Option Text → World) → Reply A → Reply A
with_write file_written what holding k = k
with_write (file_stopped content) what holding k = fail (failed what) (holding content)

-- How a PATCH of the device turns out: it is taken, it is taken although the call raises, as where
-- the reply is lost, or it is not taken and the call raises.
pub data Patch : Type 0 where
  patch_taken patch_unanswered patch_refused : Patch

-- From the world before it and the world with the change on.
abbrev pub with_patch : {A : Type 0} → Patch → World → World → (World → Reply A) → Reply A
with_patch patch_taken w new k = k new
with_patch patch_unanswered w new k = fail (failed (codes "PATCH device")) new
with_patch patch_refused w new k = fail (failed (codes "PATCH device")) w

-- The reply after `consume_key`, whose result the requests ignore. Where it had a key to take, the save
-- of the key file may raise and leaves the file as it is.
abbrev pub after_consume : {A : Type 0} → Bool → A → World → Bool × KeyFile → Reply A
after_consume saves reply w (false, file) = (ok reply, w)
after_consume true reply w (true, file) = (ok reply, record w { keys = file })
after_consume false reply w (true, file) = fail (failed (codes "save keys")) w

abbrev pub is_state : Text → Option Text → Bool
is_state s none = false
is_state s (some t) = text_eq t s

-- The state after an install, where it was awaited.
unfoldable pub advance : Option Text → Option Text
unfolding text_eq
advance state =
    if is_state (codes "awaiting_install") state then some (codes "bm_installed") else state

-- `address.split("/")[0]`.
host_part : Text → Text
host_part [] = []
host_part (c ∷ s) = let rest = host_part s in if c == b'/' then [] else c ∷ rest

-- `expected and client_host != expected`.
unfoldable pub source_differs : Option Text → Option Text → Bool
unfolding host_part text_eq
source_differs none host = false
source_differs (some address) none = not (is_empty (host_part address))
source_differs (some address) (some host) =
    not (is_empty (host_part address)) && not (text_eq host (host_part address))

-- How the calls of `_firstboot_credentials_impl` turn out: the two files, the Secrets and their group,
-- the device, and the save of the key file.
pub record Calls : Type 0 where
  pub id_write : FileWrite
  pub secret_write : FileWrite
  pub registered : Bool
  pub patched : Patch
  pub saves : Bool

module _ (key_ttl credentials_ttl : ℕ) where
  -- The end of a request: `consume_key`, where `saves` tells that the key file can be written.
  unfoldable pub spend : {A : Type 0} → Bool → Text → Text → Text → Times → A → World → Reply A
  unfolding consume_key
  spend saves key serial purpose t reply w =
      after_consume saves reply w
        (consume_key key_ttl credentials_ttl key serial purpose t.consumed t.saved w.keys)

  -- A webhook request once the device is known; `awaited` tells that its state is awaiting_install.
  unfoldable pub finish_install :
      Text → Text → Times → Patch → Bool → World → Device → Bool → Reply Text
  unfolding advance spend
  finish_install serial key t patched saves w d true =
      with_patch patched w (record w { provisioning_state = advance d.provisioning_state })
        (spend saves key serial (codes "webhook") t d.name)
  finish_install serial key t patched saves w d false =
      spend saves key serial (codes "webhook") t d.name w

  -- `_webhook_impl`; `patched` tells how the change of the device turns out.
  unfoldable pub webhook_impl :
      Text → Text → Times → Result HttpError (Option Device) → Patch → Bool → World → Reply Text
  unfolding peek_key finish_install text_eq
  webhook_impl serial key t device patched saves w =
      if not (peek_key key_ttl credentials_ttl key serial (codes "webhook") t.peeked w.keys)
      then fail bad_key w
      else with_device device w (λ d.
        finish_install serial key t patched saves w d
          (is_state (codes "awaiting_install") d.provisioning_state))

  -- `_firstboot_impl`: `checked` tells that the profile and the config context are valid, `cred_key` is
  -- the new credentials key, minted at `issued`, and `rendered` the script, if rendering works; `mints`
  -- and `saves` tell that the key file can be written at the issue and at the end.
  unfoldable pub firstboot_impl :
      Text
      → Text
      → Times
      → Result HttpError (Option Device)
      → Bool
      → Text
      → ℕ
      → Option Text
      → Bool
      → Bool
      → World
      → Reply Text
  unfolding peek_key issue_key spend
  firstboot_impl serial key t device checked cred_key issued rendered mints saves w =
      if not (peek_key key_ttl credentials_ttl key serial (codes "firstboot") t.peeked w.keys)
      then fail bad_key w
      else with_device device w (λ d. attempt checked (codes "profile") w (
          attempt mints (codes "save keys") w (
            let minted = record w {
              keys =
                  issue_key key_ttl credentials_ttl cred_key serial (codes "credentials") issued
                    issued w.keys;
            } in
            elim rendered [
              | none ↦ fail (failed (codes "template")) minted
              | some script ↦ spend saves key serial (codes "firstboot") t script minted
            ])))

  -- From the first file on.
  unfoldable pub store_credentials :
      Text → Text → Times → Device → Text → Text → Calls → World → Reply Text
  unfolding advance spend
  store_credentials serial key t d token_id token_secret calls w =
      let group = d.name ++ codes "-proxmox" in
      let w₁ = record w { token_id_file = some (token_id ++ 10 ∷ []) } in
      let w₂ = record w₁ { token_secret_file = some (token_secret ++ 10 ∷ []) } in
      let w₃ = record w₂ {
        secrets_group = some group;
        provisioning_state = advance d.provisioning_state;
      } in
      with_write calls.id_write (codes "write token id") (λ o. record w { token_id_file = o })
        (with_write calls.secret_write (codes "write token secret")
          (λ o. record w₁ { token_secret_file = o })
          (attempt calls.registered (codes "secrets") w₂ (
            with_patch calls.patched w₂ w₃
              (spend calls.saves key serial (codes "credentials") t group))))

  -- `_firstboot_credentials_impl`; `verify_source` is VERIFY_PHONE_HOME_SOURCE.
  unfoldable pub firstboot_credentials_impl :
      Bool
      → Text
      → Text
      → Text
      → Text
      → Option Text
      → Times
      → Result HttpError (Option Device)
      → Calls
      → World
      → Reply Text
  unfolding peek_key source_differs store_credentials
  firstboot_credentials_impl verify_source serial key token_id token_secret host t device calls w =
      if not (peek_key key_ttl credentials_ttl key serial (codes "credentials") t.peeked w.keys)
      then fail bad_key w
      else with_device device w (λ d.
        if verify_source && source_differs d.address host
        then fail wrong_source w
        else if is_empty token_id || is_empty token_secret
        then fail token_missing w
        else store_credentials serial key t d token_id token_secret calls w)
