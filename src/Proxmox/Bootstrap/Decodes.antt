-- ===== src/Proxmox/Bootstrap/Decodes.antt =====
-- The custom base64 of md5-crypt (jobs/lib/pa_bootstrap.py) loses nothing of a digest.
use nautobot_proxmox.Prelude.{◌∙◌}
use nautobot_proxmox.Proxmox.Bootstrap.{md5crypt_b64}
use nautobot_proxmox.Prelude.{zero, suc, ◌*◌, ◌/◌, ◌%◌, List, [], ◌∷◌, take, drop, All}
use nautobot_proxmox.Prelude.Text.{Text}
use nautobot_proxmox.Prelude.{ℕ, ◌+◌, ◌-◌, ◌<◌, ◌≡◌, arith, ltb, ◌==◌, if◌then◌else◌}
use nautobot_proxmox.Proxmox.Bootstrap.{emit, byte, triple, itoa64}

-- The value of a digit.
decode_digit : ℕ → ℕ
decode_digit c =
    if c == b'.'
    then 0
    else if c == b'/'
    then 1
    else if ltb c 58
    then c - b'0' + 2
    else if ltb c 91
    then c - b'A' + 12
    else c - b'a' + 38

decode_digit-itoa64 : (k : ℕ) → k < 64 → decode_digit (itoa64 k) ≡ k
unfolding decode_digit itoa64
decode_digit-itoa64 k h = ground arith

-- The value whose digits these are, the low ones first.
undo_digits : Text → ℕ
undo_digits [] = 0
undo_digits (c ∷ s) = decode_digit c + 64 * undo_digits s

undo_digits-emit_four : (v : ℕ) → v < 16777216 → undo_digits (emit 4 v) ≡ v
unfolding undo_digits emit
undo_digits-emit_four v h = omega (
  arith,
  decode_digit-itoa64 (v % 64) (omega arith),
  decode_digit-itoa64 (v / 64 % 64) (omega arith),
  decode_digit-itoa64 (v / 64 / 64 % 64) (omega arith),
  decode_digit-itoa64 (v / 64 / 64 / 64 % 64) (omega arith),
)

undo_digits-emit_two : (v : ℕ) → v < 256 → undo_digits (emit 2 v) ≡ v
unfolding undo_digits emit
undo_digits-emit_two v h = omega (
  arith,
  decode_digit-itoa64 (v % 64) (omega arith),
  decode_digit-itoa64 (v / 64 % 64) (omega arith),
)

-- The bytes of a digest, from its five groups of three and its last one.
assemble : ℕ → ℕ → ℕ → ℕ → ℕ → ℕ → List ℕ
assemble v w x y z last =
    v / 65536
    ∷ w / 65536
    ∷ x / 65536
    ∷ y / 65536
    ∷ z / 65536
    ∷ z % 256
    ∷ (v / 256) % 256
    ∷ (w / 256) % 256
    ∷ (x / 256) % 256
    ∷ (y / 256) % 256
    ∷ (z / 256) % 256
    ∷ last
    ∷ v % 256
    ∷ w % 256
    ∷ x % 256
    ∷ y % 256
    ∷ []

abbrev pub decode : Text → List ℕ
unfolding assemble undo_digits decode_digit
decode t =
    assemble (undo_digits (take 4 t)) (undo_digits (take 4 (drop 4 t)))
      (undo_digits (take 4 (drop 8 t))) (undo_digits (take 4 (drop 12 t)))
      (undo_digits (take 4 (drop 16 t))) (undo_digits (drop 20 t))

byte-lt : (digest : List ℕ) → All (λ b. b < 256) digest → (i : ℕ) → byte digest i < 256
unfolding byte
byte-lt [] h i = omega arith
byte-lt (b ∷ bs) (p, h) zero = p
byte-lt (b ∷ bs) (p, h) (suc i) = byte-lt bs h i

abbrev group : ℕ → ℕ → ℕ → ℕ
group a b c = a * 65536 + b * 256 + c

high_of : (a b c : ℕ) → b < 256 → c < 256 → group a b c / 65536 ≡ a
high_of a b c h k = omega arith

mid_of : (a b c : ℕ) → b < 256 → c < 256 → (group a b c / 256) % 256 ≡ b
mid_of a b c h k = omega arith

low_of : (a b c : ℕ) → c < 256 → group a b c % 256 ≡ c
low_of a b c k = omega arith

abbrev pub first_sixteen : List ℕ → List ℕ
first_sixteen d =
    byte d 0
    ∷ byte d 1
    ∷ byte d 2
    ∷ byte d 3
    ∷ byte d 4
    ∷ byte d 5
    ∷ byte d 6
    ∷ byte d 7
    ∷ byte d 8
    ∷ byte d 9
    ∷ byte d 10
    ∷ byte d 11
    ∷ byte d 12
    ∷ byte d 13
    ∷ byte d 14
    ∷ byte d 15
    ∷ []

module _ (d : List ℕ) (bytes : (i : ℕ) → byte d i < 256) where
  abbrev at : ℕ → ℕ
  at = byte d

  abbrev value : ℕ → ℕ → ℕ → ℕ
  value i j k = group (at i) (at j) (at k)

  undo_digits-triple : (i j k : ℕ) → undo_digits (emit 4 (value i j k)) ≡ value i j k
  undo_digits-triple i j k =
      undo_digits-emit_four (value i j k) (omega (arith, bytes i, bytes j, bytes k))

  high : (i j k : ℕ) → value i j k / 65536 ≡ at i
  high i j k = high_of (at i) (at j) (at k) (bytes j) (bytes k)

  mid : (i j k : ℕ) → (value i j k / 256) % 256 ≡ at j
  mid i j k = mid_of (at i) (at j) (at k) (bytes j) (bytes k)

  low : (i j k : ℕ) → value i j k % 256 ≡ at k
  low i j k = low_of (at i) (at j) (at k) (bytes k)

  assemble-bytes :
      assemble (value 0 6 12) (value 1 7 13) (value 2 8 14) (value 3 9 15) (value 4 10 5) (at 11)
      ≡ first_sixteen d
  unfolding assemble
  assemble-bytes = λ t.
      high 0 6 12 t
      ∷ high 1 7 13 t
      ∷ high 2 8 14 t
      ∷ high 3 9 15 t
      ∷ high 4 10 5 t
      ∷ low 4 10 5 t
      ∷ mid 0 6 12 t
      ∷ mid 1 7 13 t
      ∷ mid 2 8 14 t
      ∷ mid 3 9 15 t
      ∷ mid 4 10 5 t
      ∷ at 11
      ∷ low 0 6 12 t
      ∷ low 1 7 13 t
      ∷ low 2 8 14 t
      ∷ low 3 9 15 t
      ∷ []

  decode-triples : decode (md5crypt_b64 d) ≡ first_sixteen d
  unfolding md5crypt_b64 triple emit decode
  decode-triples =
      (λ t.
        assemble (undo_digits-triple 0 6 12 t) (undo_digits-triple 1 7 13 t)
          (undo_digits-triple 2 8 14 t) (undo_digits-triple 3 9 15 t) (undo_digits-triple 4 10 5 t)
          (undo_digits-emit_two (at 11) (bytes 11) t))
      ∙ assemble-bytes

-- Reading the digits that stand for a digest of bytes back gives its sixteen bytes.
pub md5crypt_b64-decode :
    (digest : List ℕ)
    → All (λ b. b < 256) digest
    → decode (md5crypt_b64 digest) ≡ first_sixteen digest
md5crypt_b64-decode digest bytes = decode-triples digest (byte-lt digest bytes)
