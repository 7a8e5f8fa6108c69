-- ===== src/Prelude/Sort.antt =====
-- Python's `sorted` with a strict order on keys, as a stable insertion sort.
use Prim.Native.Nat.{ℕ, suc, ◌≤◌}
use mathlib.Core.Path.{◌≡◌, refl, ap, ◌∙◌}
use mathlib.Core.Bool.{Bool, true, false}
use mathlib.Core.List.{List, [], ◌∷◌}
use native.Mathlib.Omega.{arith}
use mathlib.Core.Logic.{inl, inr}
use nautobot_proxmox.Prelude.Tests.{if◌then◌else◌, Bool-cases}
use nautobot_proxmox.Prelude.Lists.{length, All, All-filter, filter}

module _ {ℓ} {A : Type ℓ} (lt : A → A → Bool) where
  -- `x` goes before the first element that is not less than it, so equal keys keep their order.
  unfoldable pub insert : A → List A → List A
  insert x [] = x ∷ []
  insert x (y ∷ ys) = if lt y x then y ∷ insert x ys else x ∷ y ∷ ys

  unfoldable pub sort : List A → List A
  unfolding insert
  sort [] = []
  sort (x ∷ xs) = insert x (sort xs)

  pub length-insert : (x : A) (ys : List A) → length (insert x ys) ≡ suc (length ys)
  unfolding insert
  length-insert x [] = refl
  length-insert x (y ∷ ys) = ground (arith, length-insert x ys)

  pub length-sort : (xs : List A) → length (sort xs) ≡ length xs
  unfolding sort
  length-sort [] = refl
  length-sort (x ∷ xs) = length-insert x (sort xs) ∙ ap suc (length-sort xs)

  module _ {κ} (P : A → Type κ) where
    All-insert : (x : A) (ys : List A) → P x → All P ys → All P (insert x ys)
    unfolding insert
    All-insert x [] p h = (p, tt)
    All-insert x (y ∷ ys) p (q, h) = place (lt y x) (All-insert x ys p h)
      where
        place : (b : Bool) → All P (insert x ys) → All P (if b then y ∷ insert x ys else x ∷ y ∷ ys)
        place true k = (q, k)
        place false k = (p, (q, h))

    pub All-sort : (xs : List A) → All P xs → All P (sort xs)
    unfolding sort
    All-sort [] h = tt
    All-sort (x ∷ xs) (p, h) = All-insert x (sort xs) p (All-sort xs h)

-- Every element's key is at most those of the elements behind it.
abbrev pub IsSortedBy {ℓ} : {A : Type ℓ} → (A → ℕ) → List A → Type 0
IsSortedBy key [] = Unit
IsSortedBy key (x ∷ xs) = All (λ y. key x ≤ key y) xs × IsSortedBy key xs

module _ {ℓ} {A : Type ℓ} (lt : A → A → Bool) (key : A → ℕ)
    (below : (x y : A) → lt x y ≡ true → key x ≤ key y)
    (above : (x y : A) → lt x y ≡ false → key y ≤ key x) where
  All-le :
      (n : ℕ) (x : A) (ys : List A)
      → n ≤ key x
      → All (λ y. key x ≤ key y) ys
      → All (λ y. n ≤ key y) ys
  All-le n x [] h k = tt
  All-le n x (y ∷ ys) h (p, k) = (omega arith, All-le n x ys h k)

  insert-IsSortedBy : (x : A) (ys : List A) → IsSortedBy key ys → IsSortedBy key (insert lt x ys)
  unfolding insert
  insert-IsSortedBy x [] h = (tt, tt)
  insert-IsSortedBy x (y ∷ ys) (p, h) = elim (Bool-cases (lt y x)) [
    | inl e ↦
        rw e (All-insert lt (λ z. key y ≤ key z) x ys (below y x e) p, insert-IsSortedBy x ys h)
    | inr e ↦ rw e ((above y x e, All-le (key x) y ys (above y x e) p), (p, h))
  ]

  pub sort-IsSortedBy : (xs : List A) → IsSortedBy key (sort lt xs)
  unfolding sort
  sort-IsSortedBy [] = tt
  sort-IsSortedBy (x ∷ xs) = insert-IsSortedBy x (sort lt xs) (sort-IsSortedBy xs)

filter-IsSortedBy_if :
    {A : Type 0} (key : A → ℕ) (x : A) (xs : List A) (b : Bool)
    → All (λ y. key x ≤ key y) xs
    → IsSortedBy key xs
    → IsSortedBy key (if b then x ∷ xs else xs)
filter-IsSortedBy_if key x xs true h k = (h, k)
filter-IsSortedBy_if key x xs false h k = k

pub filter-IsSortedBy :
    {A : Type 0} (key : A → ℕ) (p : A → Bool) (xs : List A)
    → IsSortedBy key xs
    → IsSortedBy key (filter p xs)
filter-IsSortedBy key p [] h = tt
filter-IsSortedBy key p (x ∷ xs) (q, h) =
    filter-IsSortedBy_if key x (filter p xs) (p x) (All-filter (λ y. key x ≤ key y) p xs q)
      (filter-IsSortedBy key p xs h)
