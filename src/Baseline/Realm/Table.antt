-- ===== src/Baseline/Realm/Table.antt =====
-- jobs/lib/host_baseline.py: the options of a realm name each key once, and never the type.
use nautobot_proxmox.Baseline.Realm.Keys.{
  set_options-distinct, set_options-absent, HasKey, opt_text-HasKey, opt_bool-HasKey,
  opt_nat-HasKey,
}
use nautobot_proxmox.Prelude.{◌≡◌, refl, false, List, [], ◌∷◌, Pointwise}
use nautobot_proxmox.Prelude.Text.{Text, codes, text_eq, mem_text}
use nautobot_proxmox.Baseline.Options.{keys, HasDistinctKeys}
use nautobot_proxmox.Baseline.Realm.{Ad, option_table, realm_options}

abbrev option_keys : List Text
option_keys =
    codes "domain"
    ∷ codes "server1"
    ∷ codes "server2"
    ∷ codes "port"
    ∷ codes "mode"
    ∷ codes "verify"
    ∷ codes "base_dn"
    ∷ codes "bind_dn"
    ∷ codes "filter"
    ∷ codes "group_filter"
    ∷ codes "sync_attributes"
    ∷ codes "sync-defaults-options"
    ∷ codes "case-sensitive"
    ∷ codes "comment"
    ∷ codes "default"
    ∷ []

option_keys-distinct : HasDistinctKeys option_keys
unfolding mem_text text_eq
option_keys-distinct = (
  refl,
  (
    refl,
    (
      refl,
      (
        refl,
        (refl, (refl, (refl, (refl, (refl, (refl, (refl, (refl, (refl, (refl, (refl, tt))))))))))),
      ),
    ),
  ),
)

option_table-HasKey : (ad : Ad) → Pointwise HasKey (option_table ad) option_keys
unfolding option_table
option_table-HasKey ad = (
  opt_text-HasKey _ ad.domain,
  (
    refl,
    (
      opt_text-HasKey _ ad.server2,
      (
        opt_nat-HasKey _ ad.port,
        (
          opt_text-HasKey _ ad.mode,
          (
            opt_bool-HasKey _ ad.verify,
            (
              opt_text-HasKey _ ad.base_dn,
              (
                opt_text-HasKey _ ad.bind_dn,
                (
                  opt_text-HasKey _ ad.user_filter,
                  (
                    opt_text-HasKey _ ad.group_filter,
                    (
                      opt_text-HasKey _ ad.sync_attributes,
                      (
                        opt_text-HasKey _ ad.sync_defaults_options,
                        (
                          opt_bool-HasKey _ ad.case_sensitive,
                          (opt_text-HasKey _ ad.comment, (opt_bool-HasKey _ ad.default_realm, tt)),
                        ),
                      ),
                    ),
                  ),
                ),
              ),
            ),
          ),
        ),
      ),
    ),
  ),
)

pub realm_options-distinct : (ad : Ad) → HasDistinctKeys (keys (realm_options ad))
unfolding realm_options
realm_options-distinct ad =
    set_options-distinct (option_table ad) option_keys (option_table-HasKey ad) option_keys-distinct

pub realm_options-no_type : (ad : Ad) → mem_text (codes "type") (keys (realm_options ad)) ≡ false
unfolding realm_options
realm_options-no_type ad =
    set_options-absent (codes "type") (option_table ad) option_keys (option_table-HasKey ad)
      (unfold mem_text text_eq in refl)
