-- ===== src/Proxmox/Platform.antt =====
-- jobs/lib/platform_facts.py: what the deploy code knows of each guest system, and the order of its
-- NICs.
pub mod Named
pub mod Covers
use nautobot_proxmox.Prelude.{
  ℕ, zero, suc, ◌+◌, ◌-◌, ◌*◌, Bool, true, false, not, ◌&&◌, Option, none, some, List, [], ◌∷◌,
  ◌++◌, map, ltb, ◌==◌, if◌then◌else◌, is_some, length, take, drop, filter, is_empty, filter_map,
}
use nautobot_proxmox.Prelude.Text.{Text, codes, text_eq, mem_text, starts_with}
use nautobot_proxmox.Prelude.Sort.{sort}
use nautobot_proxmox.Python.Value.{print_nat, is_digit}
use nautobot_proxmox.Python.Result.{Result, unless, ok}
use nautobot_proxmox.Proxmox.Values.{ends_with}

-- A fixed list of NICs, or the management NIC and the text before and behind a dataplane number.
pub data NicNaming : Type 0 where
  nic_order : List Text → NicNaming
  nic_pattern : Text → Text → Text → NicNaming

pub record Facts : Type 0 where
  pub naming : NicNaming
  pub nic_model : Text
  pub scsihw : Text
  pub serial_console : Bool
  pub guest_agent : Bool
  pub ostype : Text
  pub readiness : Text
  pub pin_smbios_uuid : Bool

abbrev pub ubuntu_jumphost : Facts
ubuntu_jumphost = record {
  naming = nic_order (codes "eth0" ∷ []);
  nic_model = codes "virtio";
  scsihw = codes "virtio-scsi-single";
  serial_console = true;
  guest_agent = true;
  ostype = codes "l26";
  readiness = codes "guest-agent";
  pin_smbios_uuid = false;
}

abbrev pub paloalto_panos : Facts
paloalto_panos = record {
  naming = nic_pattern (codes "mgmt") (codes "ethernet1/") [];
  nic_model = codes "virtio";
  scsihw = codes "virtio-scsi-single";
  serial_console = true;
  guest_agent = false;
  ostype = codes "l26";
  readiness = codes "tcp-mgmt";
  pin_smbios_uuid = true;
}

unfoldable pub get_platform_facts : Text → Option Facts
get_platform_facts name =
    if text_eq name (codes "ubuntu-jumphost")
    then some ubuntu_jumphost
    else if text_eq name (codes "paloalto-panos")
    then some paloalto_panos
    else none

pub data NicRefusal : Type 0 where
  mgmt_missing : NicRefusal
  unmatched_names : List Text → NicRefusal
  not_contiguous : List ℕ → NicRefusal

digits : ℕ → Text → Option ℕ
digits acc [] = some acc
digits acc (c ∷ s) = if is_digit c then digits (acc * 10 + (c - b'0')) s else none

-- `int(s)` where `s.isdigit()`.
unfoldable pub decimal : Text → Option ℕ
unfolding digits is_digit
decimal s = if is_empty s then none else digits 0 s

-- A number that is written in its canonical digits.
if_canonical : Text → Option ℕ → Option ℕ
if_canonical s none = none
if_canonical s (some n) = if text_eq (print_nat n) s then some n else none

canonical : Text → Option ℕ
unfolding if_canonical
canonical s = if_canonical s (decimal s)

-- What stands between the two texts, where both are there.
between : Text → Text → Text → Option Text
between prefix suffix name =
    if starts_with prefix name && ends_with suffix name
    then some (take (length name - length suffix - length prefix) (drop (length prefix) name))
    else none

index_in : Option Text → Option ℕ
unfolding canonical
index_in none = none
index_in (some middle) = canonical middle

pub index_of : Text → Text → Text → Option ℕ
unfolding between index_in
index_of prefix suffix name = index_in (between prefix suffix name)

unfoldable pub nic_name : Text → Text → ℕ → Text
nic_name prefix suffix n = prefix ++ (print_nat n ++ suffix)

-- `list(range(1, n + 1))` from `k` on.
unfoldable pub up_from : ℕ → ℕ → List ℕ
up_from k zero = []
up_from k (suc n) = k ∷ up_from (k + 1) n

pub nats_eq : List ℕ → List ℕ → Bool
nats_eq [] [] = true
nats_eq (x ∷ xs) (y ∷ ys) = x == y && nats_eq xs ys
nats_eq _ _ = false

pattern_order : Text → Text → Text → List Text → Result NicRefusal (List Text)
unfolding index_of nic_name up_from nats_eq
pattern_order mgmt prefix suffix names =
    let dataplane = filter (λ n. not (text_eq n mgmt)) names in
    let indices = filter_map (index_of prefix suffix) dataplane in
    let rest = filter (λ n. not (is_some (index_of prefix suffix n))) dataplane in
    let expected = up_from 1 (length indices) in
    unless (not (mem_text mgmt names)) mgmt_missing (
      unless (not (is_empty rest)) (unmatched_names rest) (
        unless (not (nats_eq (sort ltb indices) expected)) (not_contiguous (sort ltb indices))
          (ok (mgmt ∷ map (nic_name prefix suffix) expected))))

order_for : NicNaming → List Text → Result NicRefusal (List Text)
unfolding pattern_order
order_for (nic_order order) names = ok order
order_for (nic_pattern mgmt prefix suffix) names = pattern_order mgmt prefix suffix names

unfoldable pub resolve_nic_order : Facts → List Text → Result NicRefusal (List Text)
unfolding order_for
resolve_nic_order facts names = order_for facts.naming names
