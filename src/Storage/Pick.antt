-- ===== src/Storage/Pick.antt =====
-- What a capacity pick of jobs/lib/storage_layout.py guarantees: enough equal drives at one end.
use mathlib.Core.Path.{subst}
use nautobot_proxmox.Prelude.{
  length-map, All-map, ℕ, zero, suc, ◌-◌, ◌≤◌, ◌<◌, ◌≡◌, refl, sym, ◌≢◌, inl, inr, Bool, true,
  false, not, some, List, [], ◌∷◌, ◌++◌, map, arith, ◌==◌, ==_iff, Bool-cases, is_some, and_split,
  length, take, drop, any, all, filter, is_empty, take-append-drop, length-take, length-drop, All,
  All-append_left, All-append_right,
}
use nautobot_proxmox.Prelude.Text.{text_ltb}
use nautobot_proxmox.Prelude.Sort.{length-sort, IsSortedBy}
use nautobot_proxmox.Storage.Spec.{Select, smallest, largest}
use nautobot_proxmox.Storage.Drives.{
  Drive, known_capacity, capacity, unknown_ids, pick, common_size,
}

module _ {A : Type 0} (p : A → Bool) where
  All-filter_empty : (xs : List A) → length (filter p xs) ≡ 0 → All (λ x. p x ≡ false) xs
  All-filter_empty [] h = tt
  All-filter_empty (x ∷ xs) h = elim (Bool-cases (p x)) [
    | inl e ↦ absurd (omega (arith, rw e at h))
    | inr e ↦ (e, All-filter_empty xs (rw e at h))
  ]

length_of_is_empty : {A : Type 0} (xs : List A) → is_empty xs ≡ true → length xs ≡ 0
length_of_is_empty [] h = refl
length_of_is_empty (x ∷ xs) h = cc

abbrev pub IsKnown : Drive → Type 0
IsKnown d = is_some (known_capacity d) ≡ true

pub not-eq-false : (b : Bool) → not b ≡ false → b ≡ true
not-eq-false true h = refl
not-eq-false false h = ground arith

-- Drives of which none is named in a refusal have a reported capacity.
pub unknown_ids_empty : (ds : List Drive) → is_empty (unknown_ids ds) ≡ true → All IsKnown ds
unfolding unknown_ids
unknown_ids_empty ds h =
    let missing = filter (λ d. not (is_some (known_capacity d))) ds in
    let none_missing : length missing ≡ 0 = omega (
      arith,
      length_of_is_empty _ h,
      length-sort text_ltb (map (λ (d : Drive). d.id) missing),
      length-map (λ (d : Drive). d.id) missing,
    ) in
    All-map (λ d. not-eq-false _) ds (All-filter_empty _ ds none_missing)

pub known_capacity-capacity :
    (d : Drive) (n : ℕ) → IsKnown d → capacity d ≡ n → known_capacity d ≡ some n
unfolding capacity
known_capacity-capacity d n k e = ground arith

-- `size` is the only capacity of the drives.
abbrev pub IsEvenly : ℕ → List Drive → Type 0
IsEvenly size ds = All (λ d. capacity d ≡ size) ds

all_sized : (n : ℕ) (ds : List Drive) → all (λ e. capacity e == n) ds ≡ true → IsEvenly n ds
all_sized n [] h = tt
all_sized n (d ∷ ds) h =
    let (here, later) = and_split _ _ h in ((==_iff _ _).0 here, all_sized n ds later)

pub common_size-IsEvenly : (ds : List Drive) (n : ℕ) → common_size ds ≡ some n → IsEvenly n ds
unfolding common_size
common_size-IsEvenly [] n h = tt
common_size-IsEvenly (d ∷ ds) n h = elim (Bool-cases (all (λ e. capacity e == capacity d) ds)) [
  | inl e ↦
      let same : capacity d ≡ n = ground arith in
      (same, subst (λ k. IsEvenly k ds) same (all_sized (capacity d) ds e))
  | inr e ↦ absurd (ground arith)
]

any_sized :
    (n : ℕ) (ds : List Drive) → any (λ d. capacity d == n) ds ≡ false → All (λ d. capacity d ≢ n) ds
any_sized n [] h = tt
any_sized n (d ∷ ds) h = (ground arith, any_sized n ds (ground arith))

-- The drives are at the end of the order that the rule picks from.
abbrev pub IsBeyond : Select → ℕ → Drive → Type 0
IsBeyond smallest size d = size < capacity d
IsBeyond largest size d = capacity d < size

module _ {A : Type 0} (key : A → ℕ) where
  sorted_append :
      (xs ys : List A) → IsSortedBy key (xs ++ ys) → All (λ x. All (λ y. key x ≤ key y) ys) xs
  sorted_append [] ys h = tt
  sorted_append (x ∷ xs) ys (p, h) =
      (All-append_right (λ y. key x ≤ key y) xs ys p, sorted_append xs ys h)

module _ (size : ℕ) where
  above_first :
      (xs ys : List Drive)
      → 0 < length xs
      → IsEvenly size xs
      → All (λ x. All (λ y. capacity x ≤ capacity y) ys) xs
      → All (λ y. size ≤ capacity y) ys
  above_first [] ys h e k = absurd (omega arith)
  above_first (x ∷ xs) ys h (e, _) (k, _) = All-map (λ y le. omega arith) ys k

  below_last :
      (xs ys : List Drive)
      → 0 < length ys
      → IsEvenly size ys
      → All (λ x. All (λ y. capacity x ≤ capacity y) ys) xs
      → All (λ x. capacity x ≤ size) xs
  below_last xs [] h e k = absurd (omega arith)
  below_last xs (y ∷ ys) h (e, _) k = All-map (λ x (le, _). omega arith) xs k

  strictly_above :
      (ys : List Drive)
      → All (λ y. size ≤ capacity y) ys
      → All (λ y. capacity y ≢ size) ys
      → All (IsBeyond smallest size) ys
  strictly_above [] h k = tt
  strictly_above (y ∷ ys) (p, h) (q, k) = (omega arith, strictly_above ys h k)

  strictly_below :
      (ys : List Drive)
      → All (λ y. capacity y ≤ size) ys
      → All (λ y. capacity y ≢ size) ys
      → All (IsBeyond largest size) ys
  strictly_below [] h k = tt
  strictly_below (y ∷ ys) (p, h) (q, k) = (omega arith, strictly_below ys h k)

pub length-pick :
    (s : Select) (n : ℕ) (free : List Drive)
    → 0 < n
    → n ≤ length free
    → length (pick s n free).0 ≡ n
unfolding pick
length-pick smallest n free h k = omega (arith, length-take n free)
length-pick largest zero free h k = absurd (omega arith)
length-pick largest (suc n) free h k = omega (arith, length-drop (length free - suc n) free)

module _ {κ} (P : Drive → Type κ) where
  pub pick-All :
      (s : Select) (n : ℕ) (free : List Drive)
      → All P free
      → All P (pick s n free).0 × All P (pick s n free).1
  unfolding pick
  pick-All smallest n free h =
      let h' = subst (All P) (sym (take-append-drop n free)) h in
      (All-append_left P (take n free) _ h', All-append_right P (take n free) _ h')
  pick-All largest zero free h = (h, tt)
  pick-All largest (suc n) free h =
      let k = length free - suc n in
      let h' = subst (All P) (sym (take-append-drop k free)) h in
      (All-append_right P (take k free) _ h', All-append_left P (take k free) _ h')

-- A pick of one size that no drive left over shares lies strictly at its end of the order.
pub pick-IsBeyond :
    (s : Select) (n : ℕ) (free : List Drive) (size : ℕ)
    → IsSortedBy capacity free
    → 0 < n
    → n ≤ length free
    → IsEvenly size (pick s n free).0
    → any (λ d. capacity d == size) (pick s n free).1 ≡ false
    → All (IsBeyond s size) (pick s n free).1
unfolding pick
pick-IsBeyond smallest n free size sorted h k e a =
    let split = subst (IsSortedBy capacity) (sym (take-append-drop n free)) sorted in
    let pos : 0 < length (take n free) = omega (arith, length-take n free) in
    let ordered = sorted_append capacity (take n free) (drop n free) split in
    strictly_above size (drop n free) (above_first size (take n free) (drop n free) pos e ordered)
      (any_sized size (drop n free) a)
pick-IsBeyond largest zero free size sorted h k e a = tt
pick-IsBeyond largest (suc n) free size sorted h k e a =
    let m = length free - suc n in
    let split = subst (IsSortedBy capacity) (sym (take-append-drop m free)) sorted in
    let pos : 0 < length (drop m free) = omega (arith, length-drop m free) in
    let ordered = sorted_append capacity (take m free) (drop m free) split in
    strictly_below size (take m free) (below_last size (take m free) (drop m free) pos e ordered)
      (any_sized size (take m free) a)
