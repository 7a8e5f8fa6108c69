-- ===== src/Prelude/Membership.antt =====
-- Elements of lists that are mapped, filtered and sorted.
use mathlib.Core.Path.{◌≡◌, refl, sym, ap, subst, ◌∙◌}
use mathlib.Core.Logic.{◌↔◌, ◌⊎◌, inl, inr}
use mathlib.Core.Bool.{Bool, true}
use mathlib.Core.Option.{Option, none, some}
use mathlib.Core.List.{List, [], ◌∷◌, map}
use nautobot_proxmox.Prelude.Tests.{Bool-cases, Option-cases}
use nautobot_proxmox.Prelude.Lists.{In, filter, filter_map}
use nautobot_proxmox.Prelude.Sort.{insert, sort}

module _ {A B : Type 0} (f : A → B) where
  pub In-map : (x : A) (xs : List A) → In x xs → In (f x) (map f xs)
  In-map x [] h = h
  In-map x (y ∷ ys) (inl e) = inl (ap f e)
  In-map x (y ∷ ys) (inr h) = inr (In-map x ys h)

  pub map-In : (y : B) (xs : List A) → In y (map f xs) → (x : A) × In x xs × (y ≡ f x)
  map-In y [] h = absurd h
  map-In y (x ∷ xs) (inl e) = (x, inl refl, e)
  map-In y (x ∷ xs) (inr h) = let (z, k, e) = map-In y xs h in (z, inr k, e)

module _ {A : Type 0} (lt : A → A → Bool) where
  insert-In : (x y : A) (ys : List A) → In x (insert lt y ys) → (x ≡ y) ⊎ In x ys
  unfolding insert
  insert-In x y [] h = h
  insert-In x y (z ∷ zs) h = elim (Bool-cases (lt z y)) [
    | inl e ↦
        let k : (x ≡ z) ⊎ In x (insert lt y zs) = rw e at h in
        elim k [
          | inl m ↦ inr (inl m)
          | inr m ↦ elim (insert-In x y zs m) [ inl n ↦ inl n | inr n ↦ inr (inr n) ]
        ]
    | inr e ↦ rw e at h
  ]

  In-insert : (x y : A) (ys : List A) → (x ≡ y) ⊎ In x ys → In x (insert lt y ys)
  unfolding insert
  In-insert x y [] h = h
  In-insert x y (z ∷ zs) h = elim (Bool-cases (lt z y)) [
    | inl e ↦ rw e (elim h [
      | inl m ↦ inr (In-insert x y zs (inl m))
      | inr m ↦ elim m [ inl n ↦ inl n | inr n ↦ inr (In-insert x y zs (inr n)) ]
    ])
    | inr e ↦ rw e h
  ]

  -- Sorting keeps the elements.
  pub sort-In : (x : A) (xs : List A) → In x (sort lt xs) ↔ In x xs
  unfolding sort
  sort-In x [] = (λ h. h, λ h. h)
  sort-In x (y ∷ ys) = (
    λ h. elim (insert-In x y (sort lt ys) h) [ inl m ↦ inl m | inr m ↦ inr ((sort-In x ys).0 m) ],
    λ h. In-insert x y (sort lt ys) (elim h [ inl m ↦ inl m | inr m ↦ inr ((sort-In x ys).1 m) ]),
  )

module _ {A : Type 0} (p : A → Bool) where
  pub filter-In : (x : A) (xs : List A) → In x (filter p xs) → In x xs × (p x ≡ true)
  filter-In x [] h = absurd h
  filter-In x (y ∷ ys) h = elim (Bool-cases (p y)) [
    | inl e ↦
        let k : (x ≡ y) ⊎ In x (filter p ys) = rw e at h in
        elim k [
          | inl m ↦ (inl m, subst (λ z. p z ≡ true) (sym m) e)
          | inr m ↦ let (i, t) = filter-In x ys m in (inr i, t)
        ]
    | inr e ↦ let (i, t) = filter-In x ys (rw e at h) in (inr i, t)
  ]

  pub In-filter : (x : A) (xs : List A) → In x xs → p x ≡ true → In x (filter p xs)
  In-filter x [] h e = h
  In-filter x (y ∷ ys) (inl k) e =
      let kept : p y ≡ true = subst (λ z. p z ≡ true) k e in rw kept (inl k)
  In-filter x (y ∷ ys) (inr k) e = elim (Bool-cases (p y)) [
    | inl t ↦ rw t (inr (In-filter x ys k e))
    | inr t ↦ rw t (In-filter x ys k e)
  ]

module _ {A B : Type 0} (f : A → Option B) where
  -- What the head of the list adds.
  abbrev added : Option B → List A → List B
  added o xs = elim o [ none ↦ filter_map f xs | some y ↦ y ∷ filter_map f xs ]

  pub filter_map-In :
      (y : B) (xs : List A) → In y (filter_map f xs) → (x : A) × In x xs × (f x ≡ some y)
  filter_map-In y [] h = absurd h
  filter_map-In y (x ∷ xs) h = elim (Option-cases (f x)) [
    | inl e ↦
        let (w, m, t) = filter_map-In y xs (subst (λ o. In y (added o xs)) e h) in (w, inr m, t)
    | inr (z, e) ↦
        let k : (y ≡ z) ⊎ In y (filter_map f xs) = subst (λ o. In y (added o xs)) e h in
        elim k [
          | inl m ↦ (x, inl refl, e ∙ ap some (sym m))
          | inr m ↦ let (w, i, t) = filter_map-In y xs m in (w, inr i, t)
        ]
  ]

  pub In-filter_map :
      (x : A) (y : B) (xs : List A) → In x xs → f x ≡ some y → In y (filter_map f xs)
  In-filter_map x y [] h e = h
  In-filter_map x y (z ∷ zs) (inl k) e =
      let found : f z ≡ some y = sym (ap f k) ∙ e in
      subst (λ o. In y (added o zs)) (sym found) (inl refl)
  In-filter_map x y (z ∷ zs) (inr k) e = elim (Option-cases (f z)) [
    | inl t ↦ subst (λ o. In y (added o zs)) (sym t) (In-filter_map x y zs k e)
    | inr (w, t) ↦ subst (λ o. In y (added o zs)) (sym t) (inr (In-filter_map x y zs k e))
  ]
