-- ===== src/Python/Pattern.antt =====
-- The regular expressions of the program as tests on texts. `$` also matches before a newline that
-- ends the text, which `chop_newline` spells out.
use nautobot_proxmox.Prelude.{
  ap, sym, ◌≡◌, ◌∙◌, ◌⊎◌, inl, inr, true, ◌++◌, arith, ==_iff, Bool-cases, Option-cases,
}
use mathlib.Core.List.{reverse, reverse-reverse, reverse-cons}
use nautobot_proxmox.Prelude.{
  ℕ, Bool, false, ◌&&◌, ◌||◌, Option, none, some, [], ◌∷◌, leb, ◌==◌, if◌then◌else◌, length, all,
}
use nautobot_proxmox.Prelude.Text.{Text}
use nautobot_proxmox.Python.Value.{is_digit}

unfoldable pub is_lower_alpha : ℕ → Bool
is_lower_alpha c = leb b'a' c && leb c b'z'

unfoldable pub is_upper_alpha : ℕ → Bool
is_upper_alpha c = leb b'A' c && leb c b'Z'

unfoldable pub is_alnum : ℕ → Bool
unfolding is_lower_alpha is_upper_alpha is_digit
is_alnum c = is_lower_alpha c || is_upper_alpha c || is_digit c

chop_reversed : Text → Option Text
chop_reversed [] = none
chop_reversed (c ∷ s) = if c == 10 then some (reverse s) else none

-- The text before a newline that ends it.
unfoldable pub chop_newline : Text → Option Text
unfolding chop_reversed
chop_newline s = chop_reversed (reverse s)

-- `^p$` with `re.match`, for a pattern whose own texts hold no newline.
unfoldable pub matches_dollar : (Text → Bool) → Text → Bool
unfolding chop_newline
matches_dollar p s = p s || elim (chop_newline s) [ none ↦ false | some t ↦ p t ]

-- `[class]{lo,hi}`.
unfoldable pub repeated : (ℕ → Bool) → ℕ → ℕ → Text → Bool
repeated p lo hi s = all p s && (leb lo (length s) && leb (length s) hi)

-- What `^p$` lets through: a text of the pattern, or one with a newline behind it.
abbrev pub IsOrLine : (Text → Bool) → Text → Type 0
IsOrLine p s = (p s ≡ true) ⊎ ((t : Text) × (p t ≡ true) × (s ≡ t ++ 10 ∷ []))

chop_reversed_lem : (r t : Text) → chop_reversed r ≡ some t → r ≡ 10 ∷ reverse t
unfolding chop_reversed
chop_reversed_lem [] t h = absurd (ground arith)
chop_reversed_lem (c ∷ s) t h = elim (Bool-cases (c == 10)) [
  | inl e ↦
      let same : reverse s ≡ t = ground arith in
      ap (λ d. d ∷ s) ((==_iff c 10).0 e)
      ∙ ap (λ u. 10 ∷ u) (sym (reverse-reverse s) ∙ ap reverse same)
  | inr e ↦ absurd (ground arith)
]

chop_newline_lem : (s t : Text) → chop_newline s ≡ some t → s ≡ t ++ 10 ∷ []
unfolding chop_newline
chop_newline_lem s t h =
    sym (reverse-reverse s)
    ∙ ap reverse (chop_reversed_lem (reverse s) t h)
    ∙ reverse-cons 10 (reverse t)
    ∙ ap (λ u. u ++ 10 ∷ []) (reverse-reverse t)

pub matches_dollar-IsOrLine :
    (p : Text → Bool) (s : Text) → matches_dollar p s ≡ true → IsOrLine p s
unfolding matches_dollar
matches_dollar-IsOrLine p s h = elim (Bool-cases (p s)) [
  | inl e ↦ inl e
  | inr e ↦ elim (Option-cases (chop_newline s)) [
    | inl n ↦ absurd (ground arith)
    | inr (t, c) ↦ inr (t, ground arith, chop_newline_lem s t c)
  ]
]
