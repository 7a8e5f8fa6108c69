-- ===== src/Answer/Handlers/Spent.antt =====
-- The requests that spend one-time keys (bmc/answer_service/app.py): a request that fails leaves the
-- key for another try, and one that succeeds spends it.
use nautobot_proxmox.Answer.Handlers.{FileWrite, file_written, file_stopped}
use mathlib.Core.Path.{subst}
use nautobot_proxmox.Prelude.{sym, ap, ◌∙◌, ◌⊎◌}
use nautobot_proxmox.Answer.Keys.{KeyFile}
use nautobot_proxmox.Answer.Handlers.{
  Patch, after_consume, failed, patch_taken, patch_unanswered, patch_refused,
}
use nautobot_proxmox.Prelude.{◌&&◌, ◌||◌, [], ◌∷◌, ◌++◌, if◌then◌else◌, is_empty}
use nautobot_proxmox.Answer.Handlers.{
  fail, source_differs, Calls, store_credentials, firstboot_credentials_impl, wrong_source,
  token_missing,
}
use nautobot_proxmox.Prelude.{
  arith, Bool-cases, ℕ, ◌≡◌, refl, inl, inr, Bool, true, false, Option, none, some,
}
use nautobot_proxmox.Prelude.Text.{Text, codes}
use nautobot_proxmox.Python.Result.{Result, err, ok}
use nautobot_proxmox.Python.Assoc.{lookup}
use nautobot_proxmox.Answer.Keys.{load_keys, peek_key, consume_key}
use nautobot_proxmox.Answer.Keys.Single.{consume_key-IsGone}
use nautobot_proxmox.Answer.Handlers.{
  is_state, with_device, HttpError, Device, World, Times, Reply, advance, spend,
}

module _ (key_ttl credentials_ttl : ℕ) where
  -- The key is accepted when the request comes to consume it.
  abbrev pub StillGood : Text → Text → Text → Times → World → Type 0
  StillGood key serial purpose t w =
      peek_key key_ttl credentials_ttl key serial purpose t.consumed w.keys ≡ true

  -- Consuming ends in a failure that leaves the world alone, or in the reply with the key gone.
  abbrev pub SpendOutcome : {A : Type 0} → Text → A → World → Reply A → Type 0
  SpendOutcome key reply w p =
      ((e : HttpError) × (p ≡ (err e, w)))
      ⊎ ((file : KeyFile) × (lookup key (load_keys file) ≡ none)
          × (p ≡ (ok reply, record w { keys = file })))

  after_consume-outcome :
      {A : Type 0} (saves : Bool) (key : Text) (reply : A) (w : World) (r : Bool × KeyFile)
      → r.0 ≡ true
      → lookup key (load_keys r.1) ≡ none
      → SpendOutcome key reply w (after_consume saves reply w r)
  after_consume-outcome saves key reply w (false, file) h gone = absurd (ground arith)
  after_consume-outcome true key reply w (true, file) h gone = inr (file, gone, refl)
  after_consume-outcome false key reply w (true, file) h gone =
      inl (failed (codes "save keys"), refl)

  pub spend-outcome :
      {A : Type 0} (saves : Bool) (key serial purpose : Text) (t : Times) (reply : A) (w : World)
      → StillGood key serial purpose t w
      → SpendOutcome key reply w (spend key_ttl credentials_ttl saves key serial purpose t reply w)
  unfolding spend peek_key
  spend-outcome saves key serial purpose t reply w good =
      let accepted : (consume_key key_ttl credentials_ttl key serial purpose t.consumed t.saved
            w.keys).0
          ≡ true =
        unfold consume_key in rw good refl in
      after_consume-outcome saves key reply w
        (consume_key key_ttl credentials_ttl key serial purpose t.consumed t.saved w.keys) accepted
        (consume_key-IsGone key_ttl credentials_ttl key serial purpose t.consumed t.saved w.keys
          accepted)

  -- How a webhook request may end: it fails and changes nothing, or nothing but the state of a device
  -- whose install was awaited, or the device is known, its install is no longer awaited, and the key is
  -- gone.
  abbrev pub WebhookOutcome : Text → Result HttpError (Option Device) → World → Reply Text → Type 0
  WebhookOutcome key device w (err e, w') =
      (w' ≡ w)
      ⊎ ((d : Device) × (device ≡ ok (some d))
          × (is_state (codes "awaiting_install") d.provisioning_state ≡ true)
          × (w' ≡ record w { provisioning_state = some (codes "bm_installed") }))
  WebhookOutcome key device w (ok name, w') =
      (d : Device) × (device ≡ ok (some d))
      × (name ≡ d.name)
      × (lookup key (load_keys w'.keys) ≡ none)
      × (is_state (codes "awaiting_install") d.provisioning_state ≡ true
          → w'.provisioning_state ≡ some (codes "bm_installed"))
      × (is_state (codes "awaiting_install") d.provisioning_state ≡ false
          → w'.provisioning_state ≡ w.provisioning_state)

  -- How a credentials request may end: it fails with the key file as it was, and the state and the group
  -- as they were or both written, or all of it is stored and the key is gone.
  abbrev pub CredentialsOutcome :
      Bool
      → Text
      → Text
      → Text
      → Option Text
      → Result HttpError (Option Device)
      → World
      → Reply Text
      → Type 0
  CredentialsOutcome verify_source key token_id token_secret host device w (err e, w') =
      (w'.keys ≡ w.keys)
      × (((w'.provisioning_state ≡ w.provisioning_state) × (w'.secrets_group ≡ w.secrets_group))
          ⊎ ((d : Device) × (device ≡ ok (some d))
              × (w'.provisioning_state ≡ advance d.provisioning_state)
              × (w'.secrets_group ≡ some (d.name ++ codes "-proxmox"))
              × (w'.token_id_file ≡ some (token_id ++ 10 ∷ []))
              × (w'.token_secret_file ≡ some (token_secret ++ 10 ∷ []))))
  CredentialsOutcome verify_source key token_id token_secret host device w (ok group, w') =
      (d : Device) × (device ≡ ok (some d))
      × (group ≡ d.name ++ codes "-proxmox")
      × ((verify_source && source_differs d.address host) ≡ false)
      × ((is_empty token_id || is_empty token_secret) ≡ false)
      × (w'.token_id_file ≡ some (token_id ++ 10 ∷ []))
      × (w'.token_secret_file ≡ some (token_secret ++ 10 ∷ []))
      × (w'.secrets_group ≡ some group)
      × (w'.provisioning_state ≡ advance d.provisioning_state)
      × (lookup key (load_keys w'.keys) ≡ none)

  abbrev Stored :
      Bool → Text → Text → Text → Text → Option Text → Times → Device → Calls → World → Type 0
  Stored verify_source serial key token_id token_secret host t d calls w =
      CredentialsOutcome verify_source key token_id token_secret host (ok (some d)) w
        (store_credentials key_ttl credentials_ttl serial key t d token_id token_secret calls w)

  stored-outcome :
      (v : Bool) (key ti ts : Text) (host : Option Text) (d : Device) (w w₃ : World)
      (p : Reply Text)
      → (v && source_differs d.address host) ≡ false
      → (is_empty ti || is_empty ts) ≡ false
      → w₃ ≡ record w {
        token_id_file = some (ti ++ 10 ∷ []);
        token_secret_file = some (ts ++ 10 ∷ []);
        secrets_group = some (d.name ++ codes "-proxmox");
        provisioning_state = advance d.provisioning_state;
      }
      → SpendOutcome key (d.name ++ codes "-proxmox") w₃ p
      → CredentialsOutcome v key ti ts host (ok (some d)) w p
  stored-outcome v key ti ts host d w w₃ p m n same (inl (why, h)) =
      subst (CredentialsOutcome v key ti ts host (ok (some d)) w)
        (sym (h ∙ ap (λ x. (err why, x)) same)) (refl, inr (d, refl, refl, refl, refl, refl))
  stored-outcome v key ti ts host d w w₃ p m n same (inr (file, gone, h)) =
      subst (CredentialsOutcome v key ti ts host (ok (some d)) w)
        (sym (
          h ∙ ap (λ (x : World). (ok (d.name ++ codes "-proxmox"), record x { keys = file })) same))
        (d, refl, refl, m, n, refl, refl, refl, refl, gone)

  store_credentials-outcome :
      (v : Bool) (serial key ti ts : Text) (host : Option Text) (t : Times) (d : Device)
      (i s : FileWrite) (r : Bool) (p : Patch) (saves : Bool) (w : World)
      → (v && source_differs d.address host) ≡ false
      → (is_empty ti || is_empty ts) ≡ false
      → StillGood key serial (codes "credentials") t w
      → Stored v serial key ti ts host t d
          (record { id_write = i; secret_write = s; registered = r; patched = p; saves = saves })
          w
  unfolding store_credentials
  store_credentials-outcome v serial key ti ts host t d (file_stopped x) s r p b w m n good =
      (refl, inl (refl, refl))
  store_credentials-outcome v serial key ti ts host t d file_written (file_stopped x) r p b w m n
        good =
      (refl, inl (refl, refl))
  store_credentials-outcome v serial key ti ts host t d file_written file_written false p b w m n
        good =
      (refl, inl (refl, refl))
  store_credentials-outcome v serial key ti ts host t d file_written file_written true patch_refused
        b w m n good =
      (refl, inl (refl, refl))
  store_credentials-outcome v serial key ti ts host t d file_written file_written true
        patch_unanswered b w m n good =
      (refl, inr (d, refl, refl, refl, refl, refl))
  store_credentials-outcome v serial key ti ts host t d file_written file_written true patch_taken b
        w m n good =
      stored-outcome v key ti ts host d w _ _ m n refl
        (spend-outcome b key serial (codes "credentials") t (d.name ++ codes "-proxmox") _ good)

  -- A credentials request whose key is still good when it is consumed fails or succeeds. Where it
  -- fails, the key file is as it was, and the device's state and group are as they were, or both are
  -- written and so are the two files. Where it succeeds, the request came from the device's address
  -- where that is checked, both files hold what it sent, which is not empty, the group is set, a
  -- state awaiting_install has become bm_installed, and the key is gone.
  pub firstboot_credentials_impl-outcome :
      (verify_source : Bool) (serial key token_id token_secret : Text) (host : Option Text)
      (t : Times) (device : Result HttpError (Option Device)) (calls : Calls) (w : World)
      → StillGood key serial (codes "credentials") t w
      → CredentialsOutcome verify_source key token_id token_secret host device w (
          firstboot_credentials_impl key_ttl credentials_ttl verify_source serial key token_id
            token_secret host t device calls w)
  unfolding firstboot_credentials_impl
  firstboot_credentials_impl-outcome v serial key ti ts host t device calls w good =
      elim (Bool-cases
        (peek_key key_ttl credentials_ttl key serial (codes "credentials") t.peeked w.keys)) [
          | inr e ↦ rw e (refl, inl (refl, refl))
          | inl e ↦ rw e (known device)
        ]
    where
      sent :
          (d : Device) (b c : Bool)
          → (v && source_differs d.address host) ≡ b
          → (is_empty ti || is_empty ts) ≡ c
          → CredentialsOutcome v key ti ts host (ok (some d)) w (
              if b
              then fail wrong_source w
              else if c
              then fail token_missing w
              else store_credentials key_ttl credentials_ttl serial key t d ti ts calls w)
      sent d true c m n = (refl, inl (refl, refl))
      sent d false true m n = (refl, inl (refl, refl))
      sent d false false m n =
          store_credentials-outcome v serial key ti ts host t d calls.id_write calls.secret_write
            calls.registered calls.patched calls.saves w m n good

      known :
          (dev : Result HttpError (Option Device))
          → CredentialsOutcome v key ti ts host dev w (
              with_device dev w (λ d.
                if v && source_differs d.address host
                then fail wrong_source w
                else if is_empty ti || is_empty ts
                then fail token_missing w
                else store_credentials key_ttl credentials_ttl serial key t d ti ts calls w))
      known (err x) = (refl, inl (refl, refl))
      known (ok none) = (refl, inl (refl, refl))
      known (ok (some d)) = sent d _ _ refl refl
