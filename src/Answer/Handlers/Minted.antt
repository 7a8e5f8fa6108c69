-- ===== src/Answer/Handlers/Minted.antt =====
-- The firstboot request (bmc/answer_service/app.py): its key is spent last, when the script with the
-- credentials key is about to leave.
use nautobot_proxmox.Prelude.{refl, ap}
use nautobot_proxmox.Answer.Keys.{consume_key}
use nautobot_proxmox.Answer.Handlers.{after_consume}
use nautobot_proxmox.Prelude.{some_inj}
use nautobot_proxmox.Prelude.{Bool-cases, Bool, Option}
use nautobot_proxmox.Prelude.Text.{text_eq_refl, text_eq_iff}
use nautobot_proxmox.Python.Result.{Result}
use nautobot_proxmox.Answer.Keys.{consume}
use nautobot_proxmox.Answer.Keys.Kept.{issue_key-Has}
use nautobot_proxmox.Answer.Handlers.{
  HttpError, Device, fail, with_device, attempt, spend, firstboot_impl, failed,
}
use nautobot_proxmox.Answer.Keys.Single.{consume_key-IsGone}
use mathlib.Core.Path.{subst}
use nautobot_proxmox.Prelude.{
  ℕ, ◌+◌, ◌<◌, ◌≡◌, sym, ◌∙◌, inl, inr, true, false, none, some, arith, Option-cases,
}
use nautobot_proxmox.Prelude.Text.{Text, codes, text_eq}
use nautobot_proxmox.Python.Result.{err, ok}
use nautobot_proxmox.Python.Assoc.{lookup}
use nautobot_proxmox.Answer.Keys.{
  Entry, KeyFile, load_keys, ttl_for, is_fresh, issue_key, entry_valid, peek_key, run_op, issue,
}
use nautobot_proxmox.Answer.Keys.Kept.{Has, run_op-Has}
use nautobot_proxmox.Answer.Handlers.{World, Times, Reply}

module _ (key_ttl credentials_ttl : ℕ) where
  -- A key that is accepted has a valid entry.
  peek_key-Has :
      (key serial purpose : Text) (now : ℕ) (file : KeyFile)
      → peek_key key_ttl credentials_ttl key serial purpose now file ≡ true
      → (e : Entry) × Has key_ttl credentials_ttl key e file
        × (entry_valid key_ttl credentials_ttl now (some e) serial purpose ≡ true)
  unfolding peek_key
  peek_key-Has key serial purpose now file h = elim (Option-cases (lookup key (load_keys file))) [
    | inl e ↦ absurd (
        subst (λ o. entry_valid key_ttl credentials_ttl now o serial purpose ≡ true → ⊥) (sym e)
          (unfold entry_valid in λ f. absurd (ground arith)) h)
    | inr (e, f) ↦
        (e, f, subst (λ o. entry_valid key_ttl credentials_ttl now o serial purpose ≡ true) f h)
  ]

  Has-peek_key :
      (key serial purpose : Text) (now : ℕ) (file : KeyFile) (e : Entry)
      → Has key_ttl credentials_ttl key e file
      → entry_valid key_ttl credentials_ttl now (some e) serial purpose ≡ true
      → peek_key key_ttl credentials_ttl key serial purpose now file ≡ true
  unfolding peek_key
  Has-peek_key key serial purpose now file e has h =
      subst (λ o. entry_valid key_ttl credentials_ttl now o serial purpose ≡ true) (sym has) h

  valid-fresh :
      (now : ℕ) (e : Entry) (serial purpose : Text)
      → entry_valid key_ttl credentials_ttl now (some e) serial purpose ≡ true
      → is_fresh key_ttl credentials_ttl now e ≡ true
  unfolding entry_valid
  valid-fresh now e serial purpose h = ground arith

  abbrev Accepts : Text → Text → Text → ℕ → World → Type 0
  Accepts key serial purpose now w =
      peek_key key_ttl credentials_ttl key serial purpose now w.keys ≡ true

  -- How a firstboot request may end: it fails and the key is still good, or the script leaves, the key
  -- is gone and the credentials key is good from then on until it runs out.
  abbrev pub FirstbootOutcome : Text → Text → Text → Times → ℕ → Reply Text → Type 0
  FirstbootOutcome serial key cred_key t issued (err e, w') =
      Accepts key serial (codes "firstboot") t.consumed w'
  FirstbootOutcome serial key cred_key t issued (ok script, w') =
      (lookup key (load_keys w'.keys) ≡ none)
      × ((now : ℕ)
          → now < issued + credentials_ttl
          → Accepts cred_key serial (codes "credentials") now w')

  module _ (serial key cred_key : Text) (t : Times) (issued : ℕ) (w : World)
      (another : text_eq cred_key key ≡ false)
      (at_issue : Accepts key serial (codes "firstboot") issued w)
      (at_end : Accepts key serial (codes "firstboot") t.consumed w)
      (alive : issued < issued + credentials_ttl) (saved : t.saved < issued + credentials_ttl) where
    minted : World
    minted = record w {
      keys =
          issue_key key_ttl credentials_ttl cred_key serial (codes "credentials") issued issued
            w.keys;
    }

    abbrev cred : Entry
    cred = record { serial = serial; purpose = codes "credentials"; issued = issued }

    cred-fresh :
        (now : ℕ)
        → now < issued + credentials_ttl
        → is_fresh key_ttl credentials_ttl now cred ≡ true
    unfolding ttl_for text_eq
    cred-fresh now h = ground arith

    minted-Accepts : Accepts key serial (codes "firstboot") t.consumed minted
    unfolding minted run_op
    minted-Accepts =
        let (e, has, valid) =
          peek_key-Has key serial (codes "firstboot") t.consumed w.keys at_end in
        let (f, has', valid') =
          peek_key-Has key serial (codes "firstboot") issued w.keys at_issue in
        let fresh : is_fresh key_ttl credentials_ttl issued e ≡ true =
          subst (λ x. is_fresh key_ttl credentials_ttl issued x ≡ true)
            (some_inj f e (sym has' ∙ has))
            (valid-fresh issued f serial (codes "firstboot") valid') in
        Has-peek_key key serial (codes "firstboot") t.consumed _ e
          (run_op-Has key_ttl credentials_ttl key e
            (issue cred_key serial (codes "credentials") issued issued) w.keys (another, fresh) has)
          valid

    minted-Has : Has key_ttl credentials_ttl cred_key cred minted.keys
    unfolding minted
    minted-Has =
        issue_key-Has key_ttl credentials_ttl cred_key serial (codes "credentials") issued issued
          w.keys (cred-fresh issued alive)

    abbrev spent : Bool × KeyFile
    spent =
        consume_key key_ttl credentials_ttl key serial (codes "firstboot") t.consumed t.saved
          minted.keys

    spent_world : World
    spent_world = record minted { keys = spent.1 }

    spent-Has : Has key_ttl credentials_ttl cred_key cred spent_world.keys
    unfolding spent_world run_op
    spent-Has =
        run_op-Has key_ttl credentials_ttl cred_key cred
          (consume key serial (codes "firstboot") t.consumed t.saved) minted.keys
          (
            ground (arith, text_eq_iff key cred_key, text_eq_iff cred_key key),
            cred-fresh t.saved saved,
          )
          minted-Has

    spent-Accepts :
        (now : ℕ)
        → now < issued + credentials_ttl
        → Accepts cred_key serial (codes "credentials") now spent_world
    unfolding entry_valid
    spent-Accepts now h =
        Has-peek_key cred_key serial (codes "credentials") now spent_world.keys cred spent-Has (
          ground (arith, text_eq_refl serial, text_eq_refl (codes "credentials"), cred-fresh now h))

    spent_true : spent.0 ≡ true
    spent_true = unfold consume_key peek_key in rw minted-Accepts refl

    spent-IsGone : lookup key (load_keys spent_world.keys) ≡ none
    unfolding spent_world
    spent-IsGone =
        consume_key-IsGone key_ttl credentials_ttl key serial (codes "firstboot") t.consumed t.saved
          minted.keys spent_true

    ended :
        (saves : Bool) (script : Text) (r : Bool × KeyFile)
        → spent ≡ r
        → FirstbootOutcome serial key cred_key t issued (after_consume saves script minted r)
    unfolding spent_world
    ended saves script (false, file) e =
        absurd (ground (arith, spent_true, ap (λ (x : Bool × KeyFile). x.0) e))
    ended false script (true, file) e = minted-Accepts
    ended true script (true, file) e =
        subst
          (λ (x : KeyFile).
            FirstbootOutcome serial key cred_key t issued (ok script, record minted { keys = x }))
          (ap (λ (x : Bool × KeyFile). x.1) e) (spent-IsGone, spent-Accepts)

    -- A firstboot request with another credentials key, whose own key is still good when the credentials
    -- key is minted and when it is consumed itself, fails and leaves its key good, or it sends the script;
    -- then its key is gone and the credentials key is accepted until it runs out, where the save is
    -- before that.
    pub firstboot_impl-outcome :
        (device : Result HttpError (Option Device)) (checked : Bool) (rendered : Option Text)
        (mints saves : Bool)
        → FirstbootOutcome serial key cred_key t issued (
            firstboot_impl key_ttl credentials_ttl serial key t device checked cred_key issued
              rendered mints saves w)
    unfolding firstboot_impl minted spend
    firstboot_impl-outcome device checked rendered mints saves =
        elim (Bool-cases
          (peek_key key_ttl credentials_ttl key serial (codes "firstboot") t.peeked w.keys)) [
            | inr e ↦ rw e at_end
            | inl e ↦ rw e (known device checked mints rendered)
          ]
      where
        known :
            (dev : Result HttpError (Option Device)) (c m : Bool) (r : Option Text)
            → FirstbootOutcome serial key cred_key t issued (
                with_device dev w (λ d. attempt c (codes "profile") w (
                  attempt m (codes "save keys") w (elim r [
                    | none ↦ fail (failed (codes "template")) minted
                    | some script ↦
                        spend key_ttl credentials_ttl saves key serial
                          (codes "firstboot")
                          t
                          script
                          minted
                  ]))))
        known (err x) c m r = at_end
        known (ok none) c m r = at_end
        known (ok (some d)) false m r = at_end
        known (ok (some d)) true false r = at_end
        known (ok (some d)) true true none = minted-Accepts
        known (ok (some d)) true true (some script) = ended saves script spent refl
