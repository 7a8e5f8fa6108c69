-- ===== src/Proxmox/Platform/Named.antt =====
-- jobs/lib/platform_facts.py: a NIC name that counts is the name written with its number.
use nautobot_proxmox.Prelude.{◌+◌, ltb, ltb→lt, ltb-false-le, length-drop}
use mathlib.Core.Path.{subst, ap₂}
use mathlib.Core.List.{reverse, reverse-reverse, reverse-append}
use nautobot_proxmox.Prelude.{
  ℕ, zero, suc, ◌-◌, ◌≤◌, ◌≡◌, refl, sym, ap, ◌∙◌, ◌≢◌, inl, inr, true, ◌&&◌, Option, none, some,
  List, [], ◌∷◌, ◌++◌, arith, ◌==◌, ==_iff, Bool-cases, and_split, some_inj, length, take, drop,
}
use nautobot_proxmox.Prelude.Text.{Text, text_eq, text_eq_iff, starts_with}
use nautobot_proxmox.Python.Value.{print_nat}
use nautobot_proxmox.Proxmox.Values.{ends_with}
use nautobot_proxmox.Proxmox.Platform.{
  index_in, index_of, nic_name, nats_eq, canonical, if_canonical, between, decimal,
}

pub nats_eq-eq : (xs ys : List ℕ) → nats_eq xs ys ≡ true → xs ≡ ys
unfolding nats_eq
nats_eq-eq [] [] h = refl
nats_eq-eq [] (y ∷ ys) h = absurd (ground arith)
nats_eq-eq (x ∷ xs) [] h = absurd (ground arith)
nats_eq-eq (x ∷ xs) (y ∷ ys) h = ground (arith, nats_eq-eq xs ys)

if_canonical-some : (s : Text) (o : Option ℕ) (n : ℕ) → if_canonical s o ≡ some n → print_nat n ≡ s
unfolding if_canonical
if_canonical-some s none n h = absurd (ground arith)
if_canonical-some s (some m) n h = elim (Bool-cases (text_eq (print_nat m) s)) [
  | inl y ↦
      subst (λ k. print_nat k ≡ s) (some_inj m n (rw y at h)) ((text_eq_iff (print_nat m) s).0 y)
  | inr y ↦ absurd (let k = rw y at h in ground arith)
]

canonical-some : (s : Text) (n : ℕ) → canonical s ≡ some n → print_nat n ≡ s
unfolding canonical
canonical-some s n h = if_canonical-some s (decimal s) n h

canonical-nonempty : (n : ℕ) → canonical [] ≢ some n
unfolding canonical if_canonical decimal
canonical-nonempty n h = ground arith

starts_with-split : (p s : Text) → starts_with p s ≡ true → s ≡ p ++ drop (length p) s
unfolding starts_with
starts_with-split [] s h = refl
starts_with-split (c ∷ p) [] h = absurd (ground arith)
starts_with-split (c ∷ p) (d ∷ s) h =
    let (e, k) = and_split (c == d) (starts_with p s) h in
    ap₂ (λ x y. x ∷ y) (sym ((==_iff c d).0 e)) (starts_with-split p s k)

ends_with-split : (q s : Text) → ends_with q s ≡ true → (l : Text) × (s ≡ l ++ q)
unfolding ends_with
ends_with-split q s h =
    let rest = drop (length (reverse q)) (reverse s) in
    (
      reverse rest,
      sym (reverse-reverse s)
          ∙ ap reverse (starts_with-split (reverse q) (reverse s) h)
          ∙ reverse-append (reverse q) rest
          ∙ ap (λ u. reverse rest ++ u) (reverse-reverse q),
    )

drop-append : (k : ℕ) (l q : Text) → k ≤ length l → drop k (l ++ q) ≡ drop k l ++ q
drop-append zero l q h = refl
drop-append (suc k) [] q h = absurd (omega arith)
drop-append (suc k) (c ∷ l) q h = drop-append k l q (omega arith)

take-append : (l q : Text) → take (length l) (l ++ q) ≡ l
take-append [] q = refl
take-append (c ∷ l) q = ap (λ u. c ∷ u) (take-append l q)

length-append : (l q : Text) → length (l ++ q) ≡ length l + length q
length-append [] q = omega arith
length-append (c ∷ l) q = omega (arith, length-append l q)

middle-split :
    (prefix suffix name middle l : Text)
    → name ≡ prefix ++ drop (length prefix) name
    → name ≡ l ++ suffix
    → take (length name - length suffix - length prefix) (drop (length prefix) name) ≡ middle
    → middle ≢ []
    → name ≡ prefix ++ (middle ++ suffix)
middle-split prefix suffix name middle l starts ends taken full =
    let size : length name ≡ length l + length suffix = ap length ends ∙ length-append l suffix in
    elim (Bool-cases (ltb (length prefix) (length l))) [
      | inl y ↦
          let d = drop (length prefix) l in
          let rest : drop (length prefix) name ≡ d ++ suffix =
            ap (drop (length prefix)) ends
            ∙ drop-append (length prefix) l suffix
                (omega (arith, ltb→lt (length prefix) (length l) y)) in
          let count : length name - length suffix - length prefix ≡ length d =
            omega (arith, length-drop (length prefix) l) in
          let same : middle ≡ d = sym taken ∙ ap₂ take count rest ∙ take-append d suffix in
          starts ∙ ap (λ u. prefix ++ u) (rest ∙ ap (λ u. u ++ suffix) (sym same))
      | inr n ↦
          let count : length name - length suffix - length prefix ≡ 0 =
            omega (arith, ltb-false-le (length prefix) (length l) n) in
          absurd (full (sym taken ∙ ap (λ (m : ℕ). take m (drop (length prefix) name)) count))
    ]

between-split :
    (prefix suffix name middle : Text)
    → between prefix suffix name ≡ some middle
    → middle ≢ []
    → name ≡ prefix ++ (middle ++ suffix)
unfolding between
between-split prefix suffix name middle h full =
    elim (Bool-cases (starts_with prefix name && ends_with suffix name)) [
      | inr n ↦ absurd (let k = rw n at h in ground arith)
      | inl y ↦
          let (starts, ends) = and_split (starts_with prefix name) (ends_with suffix name) y in
          let (l, e) = ends_with-split suffix name ends in
          let rest = drop (length prefix) name in
          let taken : take (length name - length suffix - length prefix) rest ≡ middle =
            some_inj _ _ (rw y at h) in
          middle-split prefix suffix name middle l (starts_with-split prefix name starts) e taken
            full
    ]

module _ (prefix suffix : Text) where
  index_in-name :
      (o : Option Text) (name : Text) (n : ℕ)
      → between prefix suffix name ≡ o
      → index_in o ≡ some n
      → name ≡ nic_name prefix suffix n
  unfolding index_in nic_name
  index_in-name none name n e h = absurd (ground arith)
  index_in-name (some middle) name n e h =
      let digits : print_nat n ≡ middle = canonical-some middle n h in
      between-split prefix suffix name middle e
        (λ nothing. canonical-nonempty n (subst (λ u. canonical u ≡ some n) nothing h))
      ∙ ap (λ u. prefix ++ (u ++ suffix)) (sym digits)

  pub index_of-name :
      (name : Text) (n : ℕ) → index_of prefix suffix name ≡ some n → name ≡ nic_name prefix suffix n
  unfolding index_of
  index_of-name name n h = index_in-name (between prefix suffix name) name n refl h
