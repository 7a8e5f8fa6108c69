-- ===== src/Baseline/Nic.antt =====
-- jobs/lib/host_baseline.py: the interface records, and the install port that they name.
pub mod Reached
use nautobot_proxmox.Prelude.{
  ℕ, Bool, true, false, ◌||◌, Option, none, some, List, [], ◌∷◌, ◌++◌, map, ◌==◌, if◌then◌else◌,
  any, filter, find_last,
}
use nautobot_proxmox.Prelude.Text.{Text, text_eq}
use nautobot_proxmox.Python.Value.{ℤ, get}
use nautobot_proxmox.Python.Result.{◌>>=◌, ok, Result, err}

-- `iface["type"]`, where only these two are told apart from a port's.
pub data IfaceType : Type 0 where
  bridge lag : IfaceType
  virtual : IfaceType
  physical : Text → IfaceType

-- `interface_record`'s result.
pub record Iface : Type 0 where
  pub id : Text
  pub name : Text
  pub type : IfaceType
  pub lag : Option Text
  pub bridge : Option Text
  pub mac : Option Text
  pub mtu : Option ℤ
  pub mode : Text
  pub tagged_vids : List ℕ
  pub description : Text
  pub lag_mode : Option Text
  pub lag_xmit_hash : Option Text
  pub primary_member : Bool
  pub ips : List Text

-- Which group a member is picked from.
pub data Group : Type 0 where
  a_bridge a_lag : Group

-- The `InstallNicError`s, with the names in their messages.
pub data NicError : Type 0 where
  no_members several_flagged none_flagged : Group → Text → NicError
  not_assigned : NicError
  on_several : List Text → NicError
  too_deep : Text → List Text → NicError

unfoldable pub is_bridge : IfaceType → Bool
is_bridge bridge = true
is_bridge _ = false

unfoldable pub is_lag : IfaceType → Bool
is_lag lag = true
is_lag _ = false

-- `i.get(field) == id`.
unfoldable pub refers_to : Option Text → Text → Bool
refers_to none id = false
refers_to (some r) id = text_eq r id

-- `_pick_member`: the flagged member, or the only one.
unfoldable pub pick_flagged : Group → Text → List Iface → List Iface → Result NicError Iface
pick_flagged g parent [] flagged = err (no_members g parent)
pick_flagged g parent members (f ∷ f' ∷ fs) = err (several_flagged g parent)
pick_flagged g parent (m ∷ []) flagged = ok m
pick_flagged g parent members (f ∷ []) = ok f
pick_flagged g parent members [] = err (none_flagged g parent)

unfoldable pub pick_member : Group → Text → List Iface → Result NicError Iface
unfolding pick_flagged
pick_member g parent members =
    pick_flagged g parent members (filter (λ m. m.primary_member) members)

-- `by_id.get(id)`.
unfoldable pub by_id : Text → List Iface → Option Iface
unfolding find_last
by_id id ifaces = find_last (λ i. text_eq i.id id) ifaces

-- The interfaces that the address is assigned to, each once; an entry of `by_id` is known by its id.
unfoldable pub assigned : List Iface → List Text → List Iface → List Iface
unfolding by_id
assigned ifaces [] mine = mine
assigned ifaces (x ∷ xs) mine = assigned ifaces xs (elim (by_id x ifaces) [
  | none ↦ mine
  | some i ↦ if any (λ j. text_eq j.id i.id) mine then mine else mine ++ i ∷ []
])

-- The only one of the interfaces that carry the address.
unfoldable pub only_one : List Iface → Result NicError Iface
only_one [] = err not_assigned
only_one (i ∷ []) = ok i
only_one (i ∷ j ∷ rest) = err (on_several (map (λ k. k.name) (i ∷ j ∷ rest)))

abbrev pub Chain : Type 0
Chain = Iface × List Text

-- `chain.append(iface["name"])`.
unfoldable pub follow : List Text → Iface → Result NicError Chain
follow chain m = ok (m, chain ++ m.name ∷ [])

module _ (ifaces : List Iface) where
  -- From a bridge to its port.
  unfoldable pub through_bridge : Chain → Result NicError Chain
  unfolding is_bridge refers_to pick_member follow
  through_bridge (i, chain) =
      if is_bridge i.type
      then pick_member a_bridge i.name (filter (λ j. refers_to j.bridge i.id) ifaces)
        >>= follow chain
      else ok (i, chain)

  -- From a LAG to its member.
  unfoldable pub through_lag : Chain → Result NicError Chain
  unfolding is_lag refers_to pick_member follow
  through_lag (i, chain) =
      if is_lag i.type
      then pick_member a_lag i.name (filter (λ j. refers_to j.lag i.id) ifaces) >>= follow chain
      else ok (i, chain)

  -- The nesting that is supported ends at a port.
  unfoldable pub at_port : Chain → Result NicError Chain
  unfolding is_bridge is_lag
  at_port (i, chain) =
      if is_bridge i.type || is_lag i.type then err (too_deep i.name chain) else ok (i, chain)

  unfoldable pub derive_install_interface : List Text → Result NicError Chain
  unfolding assigned only_one through_bridge through_lag at_port
  derive_install_interface primary_ids = do
    carrier ← only_one (assigned ifaces primary_ids [])
    c ← through_bridge (carrier, carrier.name ∷ [])
    d ← through_lag c
    at_port d
