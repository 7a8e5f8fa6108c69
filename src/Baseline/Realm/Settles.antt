-- ===== src/Baseline/Realm/Settles.antt =====
-- `plan_realm` (jobs/lib/host_baseline.py): after its command has run, the realm needs no change.
use nautobot_proxmox.Prelude.{◌&&◌, ◌∙◌, inl, inr, Bool-cases}
use nautobot_proxmox.Python.Value.{truthy}
use nautobot_proxmox.Prelude.{true}
use nautobot_proxmox.Python.Assoc.{lookup, lookup-erase}
use nautobot_proxmox.Baseline.Options.{unmatched-store, lookup-store_absent, Options}
use nautobot_proxmox.Baseline.Realm.{modify_argv, is_ad, plan_realm, unchanged}
use nautobot_proxmox.Prelude.{
  ◌≡◌, refl, false, Option, none, some, List, [], ◌∷◌, arith, if◌then◌else◌, is_empty,
}
use nautobot_proxmox.Prelude.Text.{text_eq_refl, Text, codes, text_eq, mem_text}
use nautobot_proxmox.Python.Value.{Value, Dict, get_or, get, str_of}
use nautobot_proxmox.Python.Assoc.{put, lookup-put, erase}
use nautobot_proxmox.Baseline.Accounts.{pve_str}
use nautobot_proxmox.Baseline.Options.{keys, unmatched, store}
use nautobot_proxmox.Baseline.Realm.{Ad, realm_options, current_option, deletes}
use nautobot_proxmox.Baseline.Realm.Table.{realm_options-distinct, realm_options-no_type}

-- The planned command, if there is one.
abbrev pub run_planned : (List Text → Dict → Dict) → Option (List Text) → Dict → Dict
run_planned run none d = d
run_planned run (some argv) d = run argv d

module _ (repr : Value → Text) where
  -- The realm's configuration after the planned command has run: the changed options are stored and
  -- the deleted ones are gone.
  unfoldable pub after_modify : Ad → Dict → Dict
  after_modify ad current =
      let want = realm_options ad in
      let stored = store (unmatched (current_option repr) current want) current in
      if is_empty (deletes repr want current) then stored else erase (codes "server2") stored

  current_option-put :
      (k j v : Text) (d : Dict)
      → current_option repr (put k (Value.str v) d) j
        ≡ (if text_eq k j then some v else current_option repr d j)
  unfolding current_option get get_or pve_str str_of
  current_option-put k j v d = ground (arith, lookup-put k j (Value.str v) d)

  current_option-erase :
      (k j : Text) (d : Dict)
      → text_eq k j ≡ false
      → current_option repr (erase k d) j ≡ current_option repr d j
  unfolding current_option get get_or
  current_option-erase k j d h = ground (arith, lookup-erase k j d)

  unmatched-erase :
      (k : Text) (want : Options) (d : Dict)
      → mem_text k (keys want) ≡ false
      → unmatched (current_option repr) (erase k d) want ≡ unmatched (current_option repr) d want
  unfolding unmatched mem_text
  unmatched-erase k [] d h = refl
  unmatched-erase k ((j, v) ∷ want) d h =
      ground (arith, current_option-erase k j d, unmatched-erase k want d)

  get_of_lookup : (k : Text) (c d : Dict) → lookup k c ≡ lookup k d → get k c ≡ get k d
  unfolding get get_or
  get_of_lookup k c d h = rw (h, get_or)

  module _ (ad : Ad) (current : Dict) where
    stored : Dict
    stored = store (unmatched (current_option repr) current (realm_options ad)) current

    kept_lookup :
        (k : Text)
        → mem_text k (keys (realm_options ad)) ≡ false
        → lookup k stored ≡ lookup k current
    unfolding stored
    kept_lookup k h =
        lookup-store_absent (current_option repr) k (realm_options ad) current current h

    after_modify_kept :
        is_empty (deletes repr (realm_options ad) current) ≡ true → after_modify ad current ≡ stored
    unfolding after_modify stored
    after_modify_kept h = rw h

    after_modify_erased :
        is_empty (deletes repr (realm_options ad) current) ≡ false
        → after_modify ad current ≡ erase (codes "server2") stored
    unfolding after_modify stored
    after_modify_erased h = rw h

    erased_absent :
        is_empty (deletes repr (realm_options ad) current) ≡ false
        → mem_text (codes "server2") (keys (realm_options ad)) ≡ false
    unfolding deletes
    erased_absent h = ground arith

    type_lookup : lookup (codes "type") (after_modify ad current) ≡ lookup (codes "type") current
    unfolding text_eq
    type_lookup = elim (Bool-cases (is_empty (deletes repr (realm_options ad) current))) [
      | inl e ↦ rw (after_modify_kept e) (kept_lookup _ (realm_options-no_type ad))
      | inr e ↦ rw (after_modify_erased e) (
          lookup-erase (codes "server2") (codes "type") stored
          ∙ kept_lookup _ (realm_options-no_type ad))
    ]

    type_kept : is_ad repr (after_modify ad current) ≡ is_ad repr current
    unfolding is_ad
    type_kept =
        rw (get_of_lookup (codes "type") (after_modify ad current) current type_lookup, is_ad)

    deletes_kept :
        is_empty (deletes repr (realm_options ad) current) ≡ true
        → deletes repr (realm_options ad) stored ≡ []
    unfolding deletes
    deletes_kept h = elim (Bool-cases (mem_text (codes "server2") (keys (realm_options ad)))) [
      | inl e ↦ ground arith
      | inr e ↦ ground (arith, get_of_lookup (codes "server2") stored current (kept_lookup _ e))
    ]

    deletes_erased : deletes repr (realm_options ad) (erase (codes "server2") stored) ≡ []
    unfolding deletes get get_or truthy
    deletes_erased = ground (
      arith,
      lookup-erase (codes "server2") (codes "server2") stored,
      text_eq_refl (codes "server2"),
    )

    no_deletes : deletes repr (realm_options ad) (after_modify ad current) ≡ []
    no_deletes = elim (Bool-cases (is_empty (deletes repr (realm_options ad) current))) [
      | inl e ↦ rw (after_modify_kept e) (deletes_kept e)
      | inr e ↦ rw (after_modify_erased e) deletes_erased
    ]

    nothing_unmatched :
        unmatched (current_option repr) (after_modify ad current) (realm_options ad) ≡ []
    nothing_unmatched =
        let settled : unmatched (current_option repr) stored (realm_options ad) ≡ [] =
          unfold stored in
          unmatched-store (current_option repr) current_option-put (realm_options ad) current
            (realm_options-distinct ad) in
        elim (Bool-cases (is_empty (deletes repr (realm_options ad) current))) [
          | inl e ↦ rw (after_modify_kept e) settled
          | inr e ↦ rw (after_modify_erased e) (
              unmatched-erase (codes "server2") (realm_options ad) stored (erased_absent e)
              ∙ settled)
        ]

  settles_at :
      (ad : Ad) (current : Dict)
      → is_ad repr current ≡ true
      → (plan_realm repr ad (some (after_modify ad current))).action ≡ unchanged
  unfolding plan_realm
  settles_at ad current h =
      ground (arith, type_kept ad current, no_deletes ad current, nothing_unmatched ad current)

  -- Where the realm on the node is an AD realm, and `pveum realm modify` stores the options it is given
  -- and drops the deleted ones, a plan made after the planned command, if there is one, has run finds
  -- nothing to change.
  pub plan_realm-settles :
      (run : List Text → Dict → Dict) (ad : Ad) (current : Dict)
      → is_ad repr current ≡ true
      → run
          (modify_argv ad.realm
            (unmatched (current_option repr) current (realm_options ad))
            (deletes repr (realm_options ad) current))
          current
        ≡ after_modify ad current
      → (plan_realm repr ad
          (some (run_planned run (plan_realm repr ad (some current)).argv current))).action
        ≡ unchanged
  unfolding plan_realm
  plan_realm-settles run ad current h e =
      elim (Bool-cases (
        is_empty (unmatched (current_option repr) current (realm_options ad))
        && is_empty (deletes repr (realm_options ad) current))) [
          | inl p ↦ ground arith
          | inr p ↦ ground (arith, settles_at ad current h)
        ]
