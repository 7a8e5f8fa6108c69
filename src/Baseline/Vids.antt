-- ===== src/Baseline/Vids.antt =====
-- jobs/lib/host_baseline.py, `_bridge_vids`: VLAN ids as the ranges of ifupdown2's bridge-vids.
pub mod Covers
use nautobot_proxmox.Prelude.{ℕ, ◌+◌, List, [], ◌∷◌, ◌++◌, map, ltb, ◌==◌, if◌then◌else◌}
use nautobot_proxmox.Prelude.Text.{Text, codes}
use nautobot_proxmox.Python.Value.{print_nat}

-- `sorted(set(vids))`.
unfoldable pub insert_once : ℕ → List ℕ → List ℕ
insert_once v [] = v ∷ []
insert_once v (w ∷ ws) =
    let rest = insert_once v ws in
    if ltb v w then v ∷ w ∷ ws else if v == w then w ∷ ws else w ∷ rest

unfoldable pub sorted_set : List ℕ → List ℕ
unfolding insert_once
sorted_set [] = []
sorted_set (v ∷ vs) = insert_once v (sorted_set vs)

-- The loop, from the range `start` to `prev` that is open.
unfoldable pub ranges_from : ℕ → ℕ → List ℕ → List (ℕ × ℕ)
ranges_from start prev [] = (start, prev) ∷ []
ranges_from start prev (vid ∷ vids) =
    let longer = ranges_from start vid vids in
    let closed = (start, prev) ∷ ranges_from vid vid vids in
    if vid == prev + 1 then longer else closed

unfoldable pub ranges : List ℕ → List (ℕ × ℕ)
unfolding ranges_from
ranges [] = []
ranges (vid ∷ vids) = ranges_from vid vid vids

range_text : ℕ × ℕ → Text
unfolding print_nat
range_text (start, prev) =
    if start == prev then print_nat start else print_nat start ++ b'-' ∷ print_nat prev

-- `sep.join(parts)`.
unfoldable pub join : Text → List Text → Text
join sep [] = []
join sep (t ∷ []) = t
join sep (t ∷ u ∷ ts) = t ++ (sep ++ join sep (u ∷ ts))

unfoldable pub bridge_vids : List ℕ → Text
unfolding ranges sorted_set range_text join
bridge_vids vids = join (codes " ") (map range_text (ranges (sorted_set vids)))
