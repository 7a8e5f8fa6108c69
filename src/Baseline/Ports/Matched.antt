-- ===== src/Baseline/Ports/Matched.antt =====
-- `match_ports` (jobs/lib/host_baseline.py): no two ports get the same NIC, and each gets the one with
-- its address.
use nautobot_proxmox.Python.Unique.{IsInjective, IsKeptApart, put-IsKeptApart}
use nautobot_proxmox.Prelude.{
  ◌≡◌, refl, ◌∙◌, ◌⊎◌, inl, inr, true, false, none, some, List, [], ◌∷◌, ◌++◌, arith, Bool-cases,
  is_some, is_empty, All, In, All-In,
}
use nautobot_proxmox.Prelude.Text.{Text, text_eq, text_eq_refl, text_eq_iff}
use nautobot_proxmox.Python.Assoc.{lookup, put, lookup-put}
use nautobot_proxmox.Baseline.Ports.{
  Option, give, Port, Link, PortProblem, Matching, nics_at, place, match_from, match_ports,
}

is_empty-append : (xs : List PortProblem) (x : PortProblem) → is_empty (xs ++ x ∷ []) ≡ false
is_empty-append [] x = refl
is_empty-append (y ∷ ys) x = refl

module _ (links : List Link) (physical : List Text) where
  abbrev Refused : Matching → Matching → Type 0
  Refused m n = (n.names ≡ m.names) × (n.used ≡ m.used) × (is_empty n.problems ≡ false)

  abbrev taken : Matching → Port → Text → Matching
  taken m p nic = record {
    names = put p.id nic m.names;
    used = put nic p.name m.used;
    problems = m.problems;
  }

  give-cases :
      (m : Matching) (p : Port) (nic : Text) (o : Option Text)
      → Refused m (give m p nic o) ⊎ ((o ≡ none) × (give m p nic o ≡ taken m p nic))
  unfolding give
  give-cases m p nic none = inr (refl, refl)
  give-cases m p nic (some holder) = inl (refl, refl, is_empty-append m.problems _)

  place-cases :
      (m : Matching) (p : Port) (hits : List Text)
      → Refused m (place links physical m p hits)
        ⊎ ((nic : Text) × (hits ≡ nic ∷ [])
            × (lookup nic m.used ≡ none)
            × (place links physical m p hits ≡ taken m p nic))
  unfolding place
  place-cases m p [] = inl (refl, refl, is_empty-append m.problems _)
  place-cases m p (nic ∷ nic' ∷ rest) = inl (refl, refl, is_empty-append m.problems _)
  place-cases m p (nic ∷ []) = elim (give-cases m p nic (lookup nic m.used)) [
    | inl refused ↦ inl refused
    | inr (free, e) ↦ inr (nic, refl, free, e)
  ]

  -- What a matching keeps true: a NIC that is given is in use, and is given to one port.
  abbrev IsKept : Matching → Type 0
  IsKept m = IsKeptApart m.names m.used

  place-IsKept :
      (m : Matching) (p : Port) (hits : List Text)
      → IsKept m
      → IsKept (place links physical m p hits)
  place-IsKept m p hits h = elim (place-cases m p hits) [
    | inl (e, f, _) ↦ rw (e, f) h
    | inr (nic, _, free, e) ↦ rw e (put-IsKeptApart p.id nic p.name m.names m.used free h)
  ]

  match_from-IsKept :
      (m : Matching) (ports : List Port) → IsKept m → IsKept (match_from links physical m ports)
  unfolding match_from
  match_from-IsKept m [] h = h
  match_from-IsKept m (p ∷ ports) h =
      match_from-IsKept (place links physical m p (nics_at links physical p.mac)) ports
        (place-IsKept m p (nics_at links physical p.mac) h)

  -- The given NIC is the only one with the address of the port.
  module _ (all_ports : List Port) where
    abbrev Holds : Text → Text → Type 0
    Holds i nic =
        (p : Port) × In p all_ports × (p.id ≡ i) × (nics_at links physical p.mac ≡ nic ∷ [])

    abbrev IsSourced : Matching → Type 0
    IsSourced m = (i nic : Text) → lookup i m.names ≡ some nic → Holds i nic

    place-IsSourced :
        (m : Matching) (p : Port)
        → In p all_ports
        → IsSourced m
        → IsSourced (place links physical m p (nics_at links physical p.mac))
    place-IsSourced m p member h = elim (place-cases m p (nics_at links physical p.mac)) [
      | inl (e, f, _) ↦ rw e h
      | inr (nic, hit, free, e) ↦ rw e (λ i n k. elim (Bool-cases (text_eq p.id i)) [
        | inl q ↦ (
          p,
          member,
          (text_eq_iff p.id i).0 q,
          hit ∙ ground (arith, lookup-put p.id i nic m.names),
        )
        | inr q ↦ h i n (ground (arith, lookup-put p.id i nic m.names))
      ])
    ]

    match_from-IsSourced :
        (m : Matching) (ports : List Port)
        → All (λ p. In p all_ports) ports
        → IsSourced m
        → IsSourced (match_from links physical m ports)
    unfolding match_from
    match_from-IsSourced m [] member h = h
    match_from-IsSourced m (p ∷ ports) (one, member) h =
        match_from-IsSourced (place links physical m p (nics_at links physical p.mac)) ports member
          (place-IsSourced m p one h)

  -- A problem stays, and so does a given NIC.
  place-problems :
      (m : Matching) (p : Port) (hits : List Text)
      → is_empty (place links physical m p hits).problems ≡ true
      → (is_empty m.problems ≡ true)
        × (is_some (lookup p.id (place links physical m p hits).names) ≡ true)
        × ((i : Text)
            → is_some (lookup i m.names) ≡ true
            → is_some (lookup i (place links physical m p hits).names) ≡ true)
  place-problems m p hits h = elim (place-cases m p hits) [
    | inl (_, _, e) ↦ absurd (ground arith)
    | inr (nic, _, free, e) ↦ (
      ground arith,
      rw e (ground (arith, lookup-put p.id p.id nic m.names, text_eq_refl p.id)),
      λ i k. rw e (ground (arith, lookup-put p.id i nic m.names)),
    )
  ]

  match_from_complete :
      (m : Matching) (ports : List Port)
      → is_empty (match_from links physical m ports).problems ≡ true
      → (is_empty m.problems ≡ true)
        × ((i : Text)
            → is_some (lookup i m.names) ≡ true
            → is_some (lookup i (match_from links physical m ports).names) ≡ true)
        × All (λ p. is_some (lookup p.id (match_from links physical m ports).names) ≡ true) ports
  unfolding match_from
  match_from_complete m [] h = (h, λ i k. k, tt)
  match_from_complete m (p ∷ ports) h =
      let next = place links physical m p (nics_at links physical p.mac) in
      let (clean, kept, rest) = match_from_complete next ports h in
      let (before, given, kept') = place-problems m p (nics_at links physical p.mac) clean in
      (before, λ i k. kept i (kept' i k), (kept p.id given, rest))

  pub record IsMatching (ports : List Port) (r : Matching) : Type 0 where
    pub injective : IsInjective r.names
    pub sourced : IsSourced ports r
    pub complete :
        is_empty r.problems ≡ true → All (λ p. is_some (lookup p.id r.names) ≡ true) ports

  -- The names that `match_ports` gives are of different NICs for different ports, each is the only
  -- physical NIC with the address of a port of that id, and where no problem is reported every port
  -- has one.
  pub match_ports-IsMatching :
      (ports : List Port) → IsMatching ports (match_ports links physical ports)
  unfolding match_ports
  match_ports-IsMatching ports =
      let start : Matching = record { names = []; used = []; problems = [] } in
      record {
        injective =
            (match_from-IsKept start ports
              (λ i n h. absurd (ground arith), λ i j n h k. absurd (ground arith))).1;
        sourced =
            match_from-IsSourced ports start ports (All-In ports) (λ i n h. absurd (ground arith));
        complete = λ h. (match_from_complete start ports h).2;
      }
