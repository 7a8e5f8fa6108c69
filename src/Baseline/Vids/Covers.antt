-- ===== src/Baseline/Vids/Covers.antt =====
-- `_bridge_vids` (jobs/lib/host_baseline.py): the ranges hold exactly the VLAN ids, in the fewest
-- ranges.
use nautobot_proxmox.Prelude.{
  ℕ, ◌+◌, ◌≤◌, ◌<◌, ◌≡◌, refl, ◌∙◌, inl, inr, Bool, ◌&&◌, ◌||◌, List, [], ◌∷◌, arith, leb, ◌==◌,
  Bool-cases, any, All, All-map,
}
use nautobot_proxmox.Baseline.Vids.{insert_once, sorted_set, ranges_from, ranges}

abbrev pub mem_nat : ℕ → List ℕ → Bool
mem_nat v ws = any (λ w. v == w) ws

-- A range of the list holds the id.
abbrev pub covers : ℕ → List (ℕ × ℕ) → Bool
covers v rs = any (λ r. leb r.0 v && leb v r.1) rs

-- The ranges are not empty and in order, with an id missing between any two.
abbrev pub AreApart : List (ℕ × ℕ) → Type 0
AreApart [] = Unit
AreApart ((a, b) ∷ []) = a ≤ b
AreApart ((a, b) ∷ (c, d) ∷ rs) = (a ≤ b) × (b + 1 < c) × AreApart ((c, d) ∷ rs)

abbrev IsIncreasing : List ℕ → Type 0
IsIncreasing [] = Unit
IsIncreasing (v ∷ vs) = All (λ w. v < w) vs × IsIncreasing vs

covers-ranges_from :
    (v start prev : ℕ) (vids : List ℕ)
    → start ≤ prev
    → covers v (ranges_from start prev vids) ≡ ((leb start v && leb v prev) || mem_nat v vids)
unfolding ranges_from
covers-ranges_from v start prev [] h = refl
covers-ranges_from v start prev (vid ∷ vids) h = elim (Bool-cases (vid == prev + 1)) [
  | inl e ↦ rw e (covers-ranges_from v start vid vids (ground arith) ∙ ground arith)
  | inr e ↦ rw e (ground (arith, covers-ranges_from v vid vid vids))
]

mem_nat-insert_once :
    (v w : ℕ) (ws : List ℕ) → mem_nat v (insert_once w ws) ≡ (v == w || mem_nat v ws)
unfolding insert_once
mem_nat-insert_once v w [] = refl
mem_nat-insert_once v w (x ∷ ws) = ground (arith, mem_nat-insert_once v w ws)

mem_nat-sorted_set : (v : ℕ) (vids : List ℕ) → mem_nat v (sorted_set vids) ≡ mem_nat v vids
unfolding sorted_set
mem_nat-sorted_set v [] = refl
mem_nat-sorted_set v (w ∷ vids) =
    ground (arith, mem_nat-insert_once v w (sorted_set vids), mem_nat-sorted_set v vids)

All-insert_once :
    (n v : ℕ) (ws : List ℕ) → n < v → All (λ w. n < w) ws → All (λ w. n < w) (insert_once v ws)
unfolding insert_once
All-insert_once n v [] h k = (h, tt)
All-insert_once n v (w ∷ ws) h (p, k) = ground (arith, All-insert_once n v ws h k)

lt-All : (v w : ℕ) (ws : List ℕ) → v < w → All (λ x. w < x) ws → All (λ x. v < x) ws
lt-All v w ws h k = All-map (λ x p. omega arith) ws k

insert_once-IsIncreasing : (v : ℕ) (ws : List ℕ) → IsIncreasing ws → IsIncreasing (insert_once v ws)
unfolding insert_once
insert_once-IsIncreasing v [] h = (tt, tt)
insert_once-IsIncreasing v (w ∷ ws) (p, h) =
    ground (arith, insert_once-IsIncreasing v ws h, All-insert_once w v ws, lt-All v w ws)

sorted_set-IsIncreasing : (vids : List ℕ) → IsIncreasing (sorted_set vids)
unfolding sorted_set
sorted_set-IsIncreasing [] = tt
sorted_set-IsIncreasing (v ∷ vids) =
    insert_once-IsIncreasing v (sorted_set vids) (sorted_set-IsIncreasing vids)

abbrev StartsAfter : ℕ → List (ℕ × ℕ) → Type 0
StartsAfter b [] = Unit
StartsAfter b ((c, d) ∷ rs) = b + 1 < c

AreApart-cons :
    (a b : ℕ) (rs : List (ℕ × ℕ)) → a ≤ b → StartsAfter b rs → AreApart rs → AreApart ((a, b) ∷ rs)
AreApart-cons a b [] h s k = h
AreApart-cons a b ((c, d) ∷ rs) h s k = (h, s, k)

ranges_from-StartsAfter :
    (b start prev : ℕ) (vids : List ℕ) → b + 1 < start → StartsAfter b (ranges_from start prev vids)
unfolding ranges_from
ranges_from-StartsAfter b start prev [] h = h
ranges_from-StartsAfter b start prev (vid ∷ vids) h =
    ground (arith, ranges_from-StartsAfter b start vid vids h)

ranges_from-AreApart :
    (start prev : ℕ) (vids : List ℕ)
    → start ≤ prev
    → All (λ v. prev < v) vids
    → IsIncreasing vids
    → AreApart (ranges_from start prev vids)
unfolding ranges_from
ranges_from-AreApart start prev [] h k i = h
ranges_from-AreApart start prev (vid ∷ vids) h (p, k) (q, i) = elim (Bool-cases (vid == prev + 1)) [
  | inl e ↦ rw e (ranges_from-AreApart start vid vids (omega arith) q i)
  | inr e ↦ rw e (
      AreApart-cons start prev (ranges_from vid vid vids) h
        (ranges_from-StartsAfter prev vid vid vids (ground arith))
        (ranges_from-AreApart vid vid vids (omega arith) q i))
]

ranges-covers : (v : ℕ) (vids : List ℕ) → covers v (ranges vids) ≡ mem_nat v vids
unfolding ranges
ranges-covers v [] = refl
ranges-covers v (vid ∷ vids) = covers-ranges_from v vid vid vids (omega arith) ∙ ground arith

ranges-AreApart : (vids : List ℕ) → IsIncreasing vids → AreApart (ranges vids)
unfolding ranges
ranges-AreApart [] h = tt
ranges-AreApart (vid ∷ vids) (p, h) = ranges_from-AreApart vid vid vids (omega arith) p h

-- The ranges of the VLAN ids hold exactly these ids; none is empty, they are in order, and between
-- two ranges at least one id is missing, so no fewer ranges would do.
pub ranges-exact :
    (vids : List ℕ)
    → ((v : ℕ) → covers v (ranges (sorted_set vids)) ≡ mem_nat v vids)
      × AreApart (ranges (sorted_set vids))
ranges-exact vids = (
  λ v. ranges-covers v (sorted_set vids) ∙ mem_nat-sorted_set v vids,
  ranges-AreApart (sorted_set vids) (sorted_set-IsIncreasing vids),
)
