-- ===== src/Proxmox/Bootstrap.antt =====
-- jobs/lib/pa_bootstrap.py: the texts of the PA bootstrap package and the md5-crypt hash in them. The
-- MD5 digest of hashlib is an argument.
pub mod Decodes
use nautobot_proxmox.Prelude.{
  ℕ, zero, suc, ◌+◌, ◌-◌, ◌*◌, ◌/◌, ◌%◌, Bool, true, false, not, ◌&&◌, ◌||◌, Option, none, some,
  List, [], ◌∷◌, ◌++◌, ltb, leb, ◌==◌, if◌then◌else◌, length, take, any, is_empty,
}
use nautobot_proxmox.Prelude.Text.{Text, codes, starts_with}
use nautobot_proxmox.Python.Value.{is_digit, non_empty}
use nautobot_proxmox.Python.Pattern.{is_alnum, matches_dollar, repeated}
use nautobot_proxmox.Python.Result.{◌>>=◌, Result, unless, err, ok}

pub data BootstrapError : Type 0 where
  bad_hostname : BootstrapError
  address_with_dhcp : BootstrapError
  no_address : BootstrapError
  no_dns : BootstrapError
  half_pin : BootstrapError
  bad_salt : BootstrapError
  bad_hash : BootstrapError
  bad_version : BootstrapError

is_hostname_char : ℕ → Bool
is_hostname_char c = is_alnum c || c == b'.' || c == b'_' || c == b'-'

-- `_HOSTNAME_RE.match`.
unfoldable pub is_hostname : Text → Bool
unfolding is_hostname_char
is_hostname = matches_dollar (repeated is_hostname_char 1 31)

-- `"\n".join(lines) + "\n"` for at least one line.
unlines : List Text → Text
unlines [] = []
unlines (l ∷ ls) = l ++ 10 ∷ unlines ls

pub data Addressing : Type 0 where
  dhcp : Addressing
  static : Addressing

address_lines :
    Addressing
    → Option Text
    → Option Text
    → Option Text
    → List Text
    → Result BootstrapError (List Text)
address_lines dhcp none none none dns = ok (
    codes "type=dhcp-client"
    ∷ codes "dhcp-send-hostname=yes"
    ∷ codes "dhcp-send-client-id=yes"
    ∷ [])
address_lines static (some ip) (some netmask) (some gateway) dns = unless (is_empty dns) no_dns (
    ok (
      codes "type=static"
      ∷ (codes "ip-address=" ++ ip)
      ∷ (codes "netmask=" ++ netmask)
      ∷ (codes "default-gateway=" ++ gateway)
      ∷ []))
address_lines dhcp ip netmask gateway dns = err address_with_dhcp
address_lines static ip netmask gateway dns = err no_address

dns_lines : List Text → List Text
dns_lines [] = []
dns_lines (first ∷ []) = (codes "dns-primary=" ++ first) ∷ []
dns_lines (first ∷ second ∷ more) =
    (codes "dns-primary=" ++ first) ∷ (codes "dns-secondary=" ++ second) ∷ []

pin_lines : Option Text → Option Text → Result BootstrapError (List Text)
pin_lines none none = ok []
pin_lines (some id) (some value) = ok (
    codes "panorama-server=cloud"
    ∷ (codes "vm-series-auto-registration-pin-id=" ++ id)
    ∷ (codes "vm-series-auto-registration-pin-value=" ++ value)
    ∷ [])
pin_lines _ _ = err half_pin

unfoldable pub render_init_cfg :
    Text
    → Addressing
    → Option Text
    → Option Text
    → Option Text
    → List Text
    → Option Text
    → Option Text
    → Result BootstrapError Text
unfolding unlines address_lines dns_lines pin_lines
render_init_cfg hostname mode ip netmask gateway dns pin_id pin_value =
    unless (not (is_hostname hostname)) bad_hostname do
      address ← address_lines mode (non_empty ip) (non_empty netmask) (non_empty gateway) dns
      pin ← pin_lines pin_id pin_value
      ok (unlines (address ++ ((codes "hostname=" ++ hostname) ∷ (dns_lines dns ++ pin))))

-- `_ITOA64[k]`.
unfoldable pub itoa64 : ℕ → ℕ
itoa64 k =
    if k == 0
    then b'.'
    else if k == 1
    then b'/'
    else if ltb k 12
    then b'0' + (k - 2)
    else if ltb k 38
    then b'A' + (k - 12)
    else b'a' + (k - 38)

unfoldable pub byte : List ℕ → ℕ → ℕ
byte [] i = 0
byte (b ∷ bs) zero = b
byte (b ∷ bs) (suc i) = byte bs i

-- The low six bits first.
emit : ℕ → ℕ → Text
unfolding itoa64
emit zero value = []
emit (suc n) value = itoa64 (value % 64) ∷ emit n (value / 64)

triple : List ℕ → ℕ → ℕ → ℕ → Text
unfolding byte emit
triple digest i j k = emit 4 (byte digest i * 65536 + byte digest j * 256 + byte digest k)

unfoldable pub md5crypt_b64 : List ℕ → Text
unfolding triple
md5crypt_b64 digest =
    triple digest 0 6 12
    ++ (triple digest 1 7 13
        ++ (triple digest 2 8 14
            ++ (triple digest 3 9 15 ++ (triple digest 4 10 5 ++ emit 2 (byte digest 11)))))

module _ (md5 : List ℕ → List ℕ) where
  -- `alt[i % 16]` for each byte of the password.
  repeat_alt : List ℕ → ℕ → List ℕ → List ℕ
  repeat_alt alt i [] = []
  repeat_alt alt i (b ∷ password) = byte alt (i % 16) ∷ repeat_alt alt (i + 1) password

  -- A byte for each bit of the length, on fuel that a halving cannot use up.
  length_bits : ℕ → ℕ → List ℕ → List ℕ
  length_bits zero i password = []
  length_bits (suc fuel) i password =
      let rest = length_bits fuel (i / 2) password in
      if i == 0 then [] else (if i % 2 == 1 then 0 ∷ [] else take 1 password) ++ rest

  md5_round : List ℕ → List ℕ → ℕ → List ℕ → List ℕ
  md5_round password salt i result = md5 (
      (if i % 2 == 1 then password else result)
      ++ ((if i % 3 == 0 then [] else salt)
          ++ ((if i % 7 == 0 then [] else password) ++ (if i % 2 == 1 then result else password))))

  md5_rounds : ℕ → ℕ → List ℕ → List ℕ → List ℕ → List ℕ
  md5_rounds zero i password salt result = result
  md5_rounds (suc n) i password salt result =
      md5_rounds n (i + 1) password salt (md5_round password salt i result)

  -- The password and the salt as bytes.
  unfoldable pub md5crypt : List ℕ → Text → Result BootstrapError Text
  unfolding repeat_alt length_bits md5_round md5_rounds byte
  md5crypt password salt =
      let alt = md5 (password ++ (salt ++ password)) in
      let first = md5 (
        password
        ++ (codes "$1$"
            ++ (salt
                ++ (repeat_alt alt 0 password
                    ++ length_bits (suc (length password)) (length password) password)))) in
      unless (not (leb 1 (length salt) && leb (length salt) 8) || any (λ c. c == b'$') salt)
        bad_salt
        (ok
          (codes "$1$" ++ (salt ++ (b'$' ∷ md5crypt_b64 (md5_rounds 1000 0 password salt first)))))

-- `^\d+\.\d+\.\d+$`.
digits_then : Bool → ℕ → Text → Bool
digits_then seen dots [] = seen && dots == 2
digits_then seen dots (c ∷ s) =
    let more = digits_then true dots s in
    let next = digits_then false (dots + 1) s in
    if is_digit c then more else if c == b'.' && seen then next else false

is_xyz : Text → Bool
unfolding digits_then
is_xyz = matches_dollar (digits_then false 0)

unfoldable pub render_bootstrap_xml : Text → Text → Result BootstrapError Text
unfolding is_xyz unlines
render_bootstrap_xml phash version = unless (not (starts_with (codes "$1$") phash)) bad_hash (
    unless (not (is_xyz version)) bad_version (
      ok (
        unlines (
          codes "<?xml version=\"1.0\"?>"
          ∷ (codes "<config version=\"" ++ (version ++ codes "\" urldb=\"paloaltonetworks\">"))
          ∷ codes "  <mgt-config>"
          ∷ codes "    <users>"
          ∷ codes "      <entry name=\"admin\">"
          ∷ (codes "        <phash>" ++ (phash ++ codes "</phash>"))
          ∷ codes "        <permissions>"
          ∷ codes "          <role-based>"
          ∷ codes "            <superuser>yes</superuser>"
          ∷ codes "          </role-based>"
          ∷ codes "        </permissions>"
          ∷ codes "      </entry>"
          ∷ codes "    </users>"
          ∷ codes "  </mgt-config>"
          ∷ codes "</config>"
          ∷ []))))
