-- ===== src/Answer/Tests.antt =====
-- The one-time keys of bmc/answer_service/app.py on a store with one key of each kind.
mod Requests
mod Ledger
use nautobot_proxmox.Prelude.{not}
use nautobot_proxmox.Python.Value.{str_or_empty, str, list}
use nautobot_proxmox.Prelude.{Bool, Option, map}
use nautobot_proxmox.Prelude.Text.{mem_text, lower}
use nautobot_proxmox.Python.Value.{Value, Dict, get_or, get, truthy, str_of}
use nautobot_proxmox.Python.Result.{ok}
use nautobot_proxmox.Python.Unique.{IsInjective}
use nautobot_proxmox.Answer.Pins.{
  squeeze, strip_underscores, with_letter, pin_name, is_ifname, is_default_pin, pin, seen_macs,
  is_no_port, pin_iface, pin_all, build_pin_mapping,
}
use nautobot_proxmox.Answer.Pins.Distinct.{IsPin, build_pin_mapping-IsPin}
use nautobot_proxmox.Answer.Nic.{
  Record, iface_type, pick_flagged, pick_member, by_id, assigned, only_one, follow, through_bridge,
  through_lag, at_port, derive_install_interface,
}
use nautobot_proxmox.Answer.Nic.Agrees.{to_iface, map_ok, to_chain, derive_install_interface-agrees}
use nautobot_proxmox.Baseline.Nic as Jobs
use nautobot_proxmox.Baseline.Nic.{refers_to}
use nautobot_proxmox.Prelude.{
  ℕ, ◌<◌, ◌≡◌, refl, true, false, none, some, List, [], ◌∷◌, arith, any, All,
}
use nautobot_proxmox.Prelude.Text.{Text, codes, text_eq}
use nautobot_proxmox.Python.Assoc.{lookup}
use nautobot_proxmox.Answer.Keys.{
  Entry, KeyFile, load_keys, ttl_for, is_fresh, issue_key, entry_valid, peek_key, consume_key, Op,
  run_ops, issue, consume, peek,
}
use nautobot_proxmox.Answer.Keys.Single.{issues, consume_key-single_use}
use nautobot_proxmox.Answer.Keys.Kept.{Spares, issue_key-good}

abbrev key : Text
key = codes "k1"

abbrev entry : Entry
entry = record { serial = codes "S1"; purpose = codes "firstboot"; issued = 100 }

abbrev sample_file : KeyFile
sample_file = some ((key, entry) ∷ [])

-- A wrong guess, a key for another node, and a peek.
abbrev sample_ops : List (Op 600 60)
sample_ops =
    consume key (codes "S2") (codes "firstboot") 110 110
    ∷ issue (codes "k2") (codes "S2") (codes "credentials") 120 120
    ∷ peek key (codes "S1") (codes "firstboot") 130
    ∷ []

consumed_once :
    (consume_key 600 60 key (codes "S1") (codes "firstboot") 105 105 sample_file).0 ≡ true
unfolding consume_key entry_valid load_keys lookup text_eq ttl_for
consumed_once = refl

nothing_issued : any (issues key) sample_ops ≡ false
unfolding text_eq
nothing_issued = refl

consume_key-single_use_example :
    (consume_key 600 60 key (codes "S1") (codes "firstboot") 140 140 (
      run_ops 600 60 sample_ops
        (consume_key 600 60 key (codes "S1") (codes "firstboot") 105 105 sample_file).1)).0
    ≡ false
consume_key-single_use_example =
    consume_key-single_use 600 60 key (codes "S1") (codes "firstboot") (codes "S1")
      (codes "firstboot") 105 105 140 140 sample_file sample_ops consumed_once nothing_issued

entry-IsFresh : (t : ℕ) → t < 200 → is_fresh 600 60 t entry ≡ true
unfolding ttl_for text_eq
entry-IsFresh t h = ground arith

sample_ops-Spares : All (Spares 600 60 key entry) sample_ops
unfolding text_eq ttl_for
sample_ops-Spares = ((refl, refl), ((refl, refl), (tt, tt)))

issue_key-good_example :
    let after =
      run_ops 600 60 sample_ops
        (issue_key 600 60 key (codes "S1") (codes "firstboot") 100 100 none) in
    (peek_key 600 60 key (codes "S1") (codes "firstboot") 150 after ≡ true)
    × ((consume_key 600 60 key (codes "S1") (codes "firstboot") 150 150 after).0 ≡ true)
issue_key-good_example =
    issue_key-good 600 60 key (codes "S1") (codes "firstboot") 100 100 150 150 none sample_ops
      (entry-IsFresh 100 (omega arith)) sample_ops-Spares (entry-IsFresh 150 (omega arith))

-- A bridge over a bond of two ports, the second one flagged.
abbrev record_of : Text → Text → Option Text → Option Text → Bool → Record
record_of id type group parent primary = record {
  id = id;
  name = id;
  type = type;
  lag = group;
  bridge = parent;
  mac = none;
  primary_member = primary;
}

abbrev sample_records : List Record
sample_records =
    record_of (codes "vmbr0") (codes "bridge") none none false
    ∷ record_of (codes "bond0") (codes "lag") none (some (codes "vmbr0")) false
    ∷ record_of (codes "p1") (codes "10g") (some (codes "bond0")) none false
    ∷ record_of (codes "p2") (codes "10g") (some (codes "bond0")) none true
    ∷ []

derive_install_interface-agrees_example :
    Jobs.derive_install_interface (map to_iface sample_records) (codes "vmbr0" ∷ [])
    ≡ map_ok to_chain (derive_install_interface sample_records (codes "vmbr0" ∷ []))
derive_install_interface-agrees_example =
    derive_install_interface-agrees sample_records (codes "vmbr0" ∷ [])

derived_port :
    derive_install_interface sample_records (codes "vmbr0" ∷ [])
    ≡ ok (
      record_of (codes "p2") (codes "10g") (some (codes "bond0")) none true,
      codes "vmbr0" ∷ codes "bond0" ∷ codes "p2" ∷ [],
    )
unfolding derive_install_interface assigned only_one through_bridge through_lag at_port by_id
    refers_to pick_member pick_flagged follow text_eq
derived_port = refl

-- How a list or a mapping prints plays no part here.
abbrev no_repr : Value → Text
no_repr v = []

abbrev rest_iface : Text → Text → Dict
rest_iface name mac = (codes "name", Value.str name) ∷ (codes "mac_address", Value.str mac) ∷ []

-- Two names that come to the same pin name, a default name, and a MAC that is not reported.
abbrev rest_ifaces : List Dict
rest_ifaces =
    rest_iface (codes "OCP-1") (codes "AA")
    ∷ rest_iface (codes "1GbE") (codes "BB")
    ∷ rest_iface (codes "ocp 1") (codes "CC")
    ∷ rest_iface (codes "nic7") (codes "DD")
    ∷ rest_iface (codes "ocp-2") (codes "EE")
    ∷ []

abbrev nic : Text → Dict
nic mac = (codes "mac", Value.str mac) ∷ []

abbrev reported : List Dict
reported = nic (codes "aa") ∷ nic (codes "bb") ∷ nic (codes "cc") ∷ nic (codes "dd") ∷ []

pinned :
    build_pin_mapping no_repr rest_ifaces reported
    ≡ (codes "aa", codes "ocp_1") ∷ (codes "bb", codes "p_1gbe") ∷ []
unfolding build_pin_mapping pin_all pin_iface seen_macs pin pin_name get get_or lookup text_eq lower
    truthy str_or_empty is_no_port iface_type mem_text is_ifname is_default_pin squeeze
    strip_underscores with_letter str_of
pinned = refl

build_pin_mapping-IsPin_example :
    ((mac linux : Text)
      → lookup mac (build_pin_mapping no_repr rest_ifaces reported) ≡ some linux
      → IsPin (seen_macs no_repr reported) mac linux)
    × IsInjective (build_pin_mapping no_repr rest_ifaces reported)
build_pin_mapping-IsPin_example = build_pin_mapping-IsPin no_repr rest_ifaces reported
