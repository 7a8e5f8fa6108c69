-- ===== src/Python/Value.antt =====
-- Python's dynamic values as the program meets them in YAML, JSON and config contexts, with
-- `bool(v)`, `str(v)`, `int(v)`, `d.get(k)` and `d.get(k, default)`.
use nautobot_proxmox.Prelude.{
  ℕ, zero, suc, ◌+◌, ◌*◌, ◌-◌, ◌/◌, ◌%◌, Bool, true, false, ◌&&◌, Option, none, some, List, [], ◌∷◌,
  ltb, leb, ◌==◌, if◌then◌else◌, not, is_empty,
}
use nautobot_proxmox.Python.Assoc.{lookup}
use nautobot_proxmox.Prelude.Text.{Text, codes, strip}

-- `negsuc n` is -(n + 1).
pub data ℤ : Type 0 where
  pos : ℕ → ℤ
  negsuc : ℕ → ℤ

mutual
  -- `other` is any object that is none of these (a float, a date): what `bool`, `str` and `int`
  -- give for it, `int` with `none` where it raises.
  pub data Value : Type 0 where
    null : Value
    bool : Bool → Value
    int : ℤ → Value
    str : Text → Value
    list : Items → Value
    dict : Fields → Value
    other : Bool → Text → Option ℤ → Value

  pub data Items : Type 0 where
    empty : Items
    item : Value → Items → Items

  pub data Fields : Type 0 where
    blank : Fields
    pair : Text → Value → Fields → Fields

abbrev pub Dict : Type 0
Dict = List (Text × Value)

abbrev pub elems : Items → List Value
elems empty = []
elems (item v vs) = v ∷ elems vs

abbrev pub entries : Fields → Dict
entries blank = []
entries (pair k v fs) = (k, v) ∷ entries fs

-- `d.get(k, default)`.
unfoldable pub get_or : Text → Value → Dict → Value
unfolding lookup
get_or k default d = elim (lookup k d) [ none ↦ default | some v ↦ v ]

-- `d.get(k)`.
unfoldable pub get : Text → Dict → Value
unfolding get_or
get k d = get_or k null d

is_zero : ℤ → Bool
is_zero (pos n) = n == 0
is_zero (negsuc n) = false

-- `bool(v)`.
unfoldable pub truthy : Value → Bool
unfolding is_zero
truthy null = false
truthy (bool b) = b
truthy (int n) = not (is_zero n)
truthy (str s) = not (is_empty s)
truthy (list empty) = false
truthy (list (item v vs)) = true
truthy (dict blank) = false
truthy (dict (pair k v fs)) = true
truthy (other b s n) = b

-- The decimal digits of a number; `suc n` rounds are enough, since every round divides by ten.
print_from : ℕ → ℕ → Text → Text
print_from zero n out = out
print_from (suc fuel) n out =
    let rest = print_from fuel (n / 10) ((b'0' + n % 10) ∷ out) in
    if ltb n 10 then (b'0' + n) ∷ out else rest

unfoldable pub print_nat : ℕ → Text
unfolding print_from
print_nat n = print_from (suc n) n []

print_int : ℤ → Text
unfolding print_nat
print_int (pos n) = print_nat n
print_int (negsuc n) = b'-' ∷ print_nat (suc n)

-- `str(v)`; how a list or a mapping prints is the argument `repr`.
unfoldable pub str_of : (Value → Text) → Value → Text
unfolding print_int
str_of repr null = codes "None"
str_of repr (bool true) = codes "True"
str_of repr (bool false) = codes "False"
str_of repr (int n) = print_int n
str_of repr (str s) = s
str_of repr (list vs) = repr (list vs)
str_of repr (dict fs) = repr (dict fs)
str_of repr (other b s n) = s

unfoldable pub is_digit : ℕ → Bool
is_digit c = leb b'0' c && leb c b'9'

-- Digits with single underscores between them, read onto `acc`; `open` tells that the last
-- character was a digit.
digits_from : ℕ → Bool → Text → Option ℕ
digits_from acc open_ [] = if open_ then some acc else none
digits_from acc open_ (c ∷ s) =
    let digit = digits_from (acc * 10 + (c - b'0')) true s in
    let gap = digits_from acc false s in
    if is_digit c then digit else if c == b'_' && open_ then gap else none

negate : ℕ → ℤ
negate zero = pos zero
negate (suc n) = negsuc n

signed : Text → Option ℤ
unfolding digits_from is_digit negate
signed [] = none
signed (c ∷ s) =
    if c == b'-'
    then elim (digits_from 0 false s) [ none ↦ none | some n ↦ some (negate n) ]
    else elim (digits_from 0 false (if c == b'+' then s else c ∷ s)) [
      | none ↦ none
      | some n ↦ some (pos n)
    ]

-- `int(v)`; `none` where it raises TypeError or ValueError.
unfoldable pub int_of : Value → Option ℤ
unfolding signed strip
int_of null = none
int_of (bool true) = some (pos 1)
int_of (bool false) = some (pos 0)
int_of (int n) = some n
int_of (str s) = signed (strip s)
int_of (list vs) = none
int_of (dict fs) = none
int_of (other b s n) = n

-- `v or None`: an empty text counts as unset.
abbrev pub non_empty : Option Text → Option Text
non_empty none = none
non_empty (some []) = none
non_empty (some (c ∷ s)) = some (c ∷ s)

-- A mapping's entries; anything else has none.
abbrev pub fields_of : Value → Dict
fields_of (Value.dict fs) = entries fs
fields_of _ = []

module _ (repr : Value → Text) where
  -- `str(v or "")`.
  unfoldable pub str_or_empty : Value → Text
  unfolding truthy str_of
  str_or_empty v = if truthy v then str_of repr v else []
