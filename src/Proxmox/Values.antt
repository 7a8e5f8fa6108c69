-- ===== src/Proxmox/Values.antt =====
-- Tests on the values of the API's JSON: iteration, equality with a number or a text, and the
-- percent-encoding of `urllib.parse.quote` with no safe character.
use nautobot_proxmox.Prelude.{
  ℕ, ◌+◌, ◌-◌, ◌/◌, ◌%◌, Bool, true, false, ◌||◌, Option, none, some, List, [], ◌∷◌, ◌++◌, map, ltb,
  ◌==◌, if◌then◌else◌,
}
use mathlib.Core.List.{reverse}
use nautobot_proxmox.Prelude.Text.{Text, codes, text_eq, starts_with}
use nautobot_proxmox.Python.Value.{ℤ, Value, elems, entries, str_of}
use nautobot_proxmox.Python.Pattern.{is_alnum}

-- `for x in v`; `none` where it raises. A text gives its characters, a mapping its keys.
unfoldable pub iterate : Value → Option (List Value)
iterate (Value.list vs) = some (elems vs)
iterate (Value.dict fs) = some (map (λ kv. Value.str kv.0) (entries fs))
iterate (Value.str s) = some (map (λ c. Value.str (c ∷ [])) s)
iterate _ = none

-- `v == s` for a text.
unfoldable pub is_str : Text → Value → Bool
is_str s (Value.str t) = text_eq t s
is_str s _ = false

int_eq : ℤ → ℤ → Bool
int_eq (ℤ.pos n) (ℤ.pos m) = n == m
int_eq (ℤ.negsuc n) (ℤ.negsuc m) = n == m
int_eq _ _ = false

-- `v == n` for a whole number; a float with that value prints as its digits and ".0".
unfoldable pub is_int : ℤ → Value → Bool
unfolding int_eq
is_int n (Value.int m) = int_eq m n
is_int n (Value.bool true) = int_eq (ℤ.pos 1) n
is_int n (Value.bool false) = int_eq (ℤ.pos 0) n
is_int n (Value.other b s m) = text_eq s (str_of (λ v. []) (Value.int n) ++ codes ".0")
is_int n _ = false

-- `s.endswith(p)`.
unfoldable pub ends_with : Text → Text → Bool
ends_with p s = starts_with (reverse p) (reverse s)

hex_digit : ℕ → ℕ
hex_digit n = if ltb n 10 then b'0' + n else b'A' + (n - 10)

percent : ℕ → Text
percent b = b'%' ∷ hex_digit (b / 16) ∷ hex_digit (b % 16) ∷ []

-- The UTF-8 bytes of a code point.
unfoldable pub utf8 : ℕ → List ℕ
utf8 c =
    if ltb c 128
    then c ∷ []
    else if ltb c 2048
    then (192 + c / 64) ∷ (128 + c % 64) ∷ []
    else if ltb c 65536
    then (224 + c / 4096) ∷ (128 + (c / 64) % 64) ∷ (128 + c % 64) ∷ []
    else (240 + c / 262144) ∷ (128 + (c / 4096) % 64) ∷ (128 + (c / 64) % 64) ∷ (128 + c % 64) ∷ []

concat : List Text → Text
concat [] = []
concat (t ∷ ts) = t ++ concat ts

-- `s.encode()`.
unfoldable pub encode : Text → List ℕ
unfolding utf8 concat
encode s = concat (map utf8 s)

is_unreserved : ℕ → Bool
is_unreserved c = is_alnum c || c == b'_' || c == b'.' || c == b'-' || c == b'~'

unfoldable pub quote : Text → Text
unfolding is_unreserved percent hex_digit utf8 concat is_alnum
quote [] = []
quote (c ∷ s) = (if is_unreserved c then c ∷ [] else concat (map percent (utf8 c))) ++ quote s
