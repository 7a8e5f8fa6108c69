-- ===== src/Python/Dict.antt =====
-- A dict holds each of its keys once.
use nautobot_proxmox.Prelude.{
  ◌≡◌, refl, Bool, Bool-cases, Option, none, some, List, [], ◌∷◌, filter, inl, inr, if◌then◌else◌,
  arith, ◌∙◌, sym,
}
use nautobot_proxmox.Prelude.Text.{Text, text_eq, text_eq_iff}
use nautobot_proxmox.Python.Assoc.{lookup, put, erase, lookup-put, lookup-erase}

module _ {V : Type 0} where
  abbrev pub IsDict : List (Text × V) → Type 0
  IsDict [] = Unit
  IsDict ((k, v) ∷ d) = (lookup k d ≡ none) × IsDict d

  pub put-IsDict : (k : Text) (v : V) (d : List (Text × V)) → IsDict d → IsDict (put k v d)
  unfolding put lookup
  put-IsDict k v [] h = (refl, tt)
  put-IsDict k v ((j, w) ∷ d) (absent, h) = elim (Bool-cases (text_eq j k)) [
    | inl y ↦ rw y (absent, h)
    | inr n ↦
        rw n
          (ground (arith, lookup-put k j v d, text_eq_iff j k, text_eq_iff k j), put-IsDict k v d h)
  ]

  pub erase-IsDict : (k : Text) (d : List (Text × V)) → IsDict d → IsDict (erase k d)
  unfolding erase
  erase-IsDict k [] h = tt
  erase-IsDict k ((j, w) ∷ d) (absent, h) = elim (Bool-cases (text_eq j k)) [
    | inl y ↦ rw y (erase-IsDict k d h)
    | inr n ↦ rw n (ground (arith, lookup-erase k j d), erase-IsDict k d h)
  ]

  module _ (p : V → Bool) where
    -- The value where it passes the test.
    abbrev pub kept : Option V → Option V
    kept none = none
    kept (some v) = if p v then some v else none

    pub lookup-filter :
        (k : Text) (d : List (Text × V))
        → IsDict d
        → lookup k (filter (λ kv. p kv.1) d) ≡ kept (lookup k d)
    unfolding lookup
    lookup-filter k [] h = refl
    lookup-filter k ((j, v) ∷ d) (absent, h) = elim (Bool-cases (text_eq j k)) [
      | inl same ↦
          let gone : lookup k d ≡ none = rw (sym ((text_eq_iff j k).0 same)) absent in
          elim (Bool-cases (p v)) [
            | inl y ↦ rw y (rw same (rw y refl))
            | inr n ↦ rw n (rw same (rw n (lookup-filter k d h ∙ rw gone refl)))
          ]
      | inr apart ↦ elim (Bool-cases (p v)) [
        | inl y ↦ rw y (rw apart (lookup-filter k d h))
        | inr n ↦ rw n (rw apart (lookup-filter k d h))
      ]
    ]

    pub filter-IsDict : (d : List (Text × V)) → IsDict d → IsDict (filter (λ kv. p kv.1) d)
    filter-IsDict [] h = tt
    filter-IsDict ((j, v) ∷ d) (absent, h) = elim (Bool-cases (p v)) [
      | inl y ↦ rw y (lookup-filter j d h ∙ rw absent refl, filter-IsDict d h)
      | inr n ↦ rw n (filter-IsDict d h)
    ]
