-- ===== src/Baseline/Ports.antt =====
-- jobs/lib/host_baseline.py, `match_ports`: the ports of the model and the NICs of the node.
pub mod Matched
use nautobot_proxmox.Prelude.{ℕ, false, Option, none, some, List, [], ◌∷◌, ◌++◌, map, filter}
use nautobot_proxmox.Prelude.Text.{Text, codes, text_eq, text_ltb, mem_text}
use nautobot_proxmox.Prelude.Sort.{sort}
use nautobot_proxmox.Python.Value.{get, non_empty, other}
use nautobot_proxmox.Python.Assoc.{lookup, put}

-- A port of the network model.
pub record Port : Type 0 where
  pub id : Text
  pub name : Text
  pub mac : Text
  pub mtu : Option ℕ
  pub description : Text

-- What `match_ports` reads of a link of the node.
pub record Link : Type 0 where
  pub name : Text
  pub mac : Option Text
  pub permaddr : Option Text

-- The problems, with the names in their messages.
pub data PortProblem : Type 0 where
  not_on_node : Text → Text → List Text → PortProblem
  on_several_nics : Text → Text → List Text → PortProblem
  same_nic : Text → Text → Text → PortProblem

pub record Matching : Type 0 where
  pub names : List (Text × Text)
  pub used : List (Text × Text)
  pub problems : List PortProblem

-- `link.get("permaddr") or link.get("mac")`, where it is set.
unfoldable pub link_mac : Link → Option Text
link_mac l = elim (non_empty l.permaddr) [ none ↦ non_empty l.mac | some m ↦ some m ]

-- How the message shows the address of a link.
abbrev shown_mac : Option Text → Text
shown_mac none = codes "None"
shown_mac (some m) = m

-- The port gets the NIC, unless another port has it.
unfoldable pub give : Matching → Port → Text → Option Text → Matching
unfolding put
give m p nic (some holder) = record m { problems = m.problems ++ same_nic p.name holder nic ∷ [] }
give m p nic none = record {
  names = put p.id nic m.names;
  used = put nic p.name m.used;
  problems = m.problems;
}

module _ (links : List Link) (physical : List Text) where
  -- The node's physical NICs.
  nics : List Link
  unfolding mem_text
  nics = filter (λ l. mem_text l.name physical) links

  -- `by_mac.get(mac, [])`: the physical NICs with this address.
  unfoldable pub nics_at : Text → List Text
  unfolding nics link_mac
  nics_at mac =
      map (λ l. l.name)
        (filter (λ l. elim (link_mac l) [ none ↦ false | some a ↦ text_eq a mac ]) nics)

  -- The NICs with their addresses, for the message.
  seen_nics : List Text
  unfolding nics link_mac sort
  seen_nics = sort text_ltb (map (λ l. l.name ++ (codes "=" ++ shown_mac (link_mac l))) nics)

  -- The body of the loop, by the NICs with the port's address.
  unfoldable pub place : Matching → Port → List Text → Matching
  unfolding seen_nics give lookup sort
  place m p [] = record m { problems = m.problems ++ not_on_node p.name p.mac seen_nics ∷ [] }
  place m p (nic ∷ nic' ∷ rest) = record m {
    problems = m.problems ++ on_several_nics p.mac p.name (sort text_ltb (nic ∷ nic' ∷ rest)) ∷ [];
  }
  place m p (nic ∷ []) = give m p nic (lookup nic m.used)

  unfoldable pub match_from : Matching → List Port → Matching
  unfolding place nics_at
  match_from m [] = m
  match_from m (p ∷ ports) = match_from (place m p (nics_at p.mac)) ports

  unfoldable pub match_ports : List Port → Matching
  unfolding match_from
  match_ports ports = match_from (record { names = []; used = []; problems = [] }) ports
