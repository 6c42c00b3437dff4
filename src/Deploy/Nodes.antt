-- ===== src/Deploy/Nodes.antt =====
-- The deploy nodes that a coordinator knows, and its slot among them
-- (pkg/deploy/protocol_coordinator.go, and again pkg/deploy/protocol_coordinator_with_db.go).
pub mod Membership
pub mod Slots
pub mod Order
use zingthings.Base.{
  ℕ, zero, suc, ◌+◌, ◌<◌, ◌≡◌, ◌≢◌, refl, ap, Bool, true, false, not, ◌&&◌, ◌||◌, Option, none,
  some, List, [], ◌∷◌, ◌++◌, arith, if◌then◌else◌, length, get_elem?, Bool-cases, inl, inr, ◌==◌,
  ◌∙◌,
}
use zingthings.Base.Int.{ℤ}
use zingthings.Base.Text.{Text, text_eq_iff}
use zingthings.Core.Info.{NodeInfo, same_node, same_node_iff}
use zingthings.Core.Document.{Document, unmarshal_node}

-- The events of the watch on the deploy nodes: a value that was put, or the value before a deletion.
pub data WatchEvent : Type 0 where
  put : Document → WatchEvent
  deleted : Document → WatchEvent

-- The loop over AllNodeInfos: the first entry of the node gets the new timestamp, and a node that
-- has none is appended.
unfoldable pub put_node : NodeInfo → List NodeInfo → List NodeInfo
put_node n [] = n ∷ []
put_node n (m ∷ nodes) =
    if same_node m n then record m { timestamp = n.timestamp } ∷ nodes else m ∷ put_node n nodes

unfoldable pub delete_node : NodeInfo → List NodeInfo → List NodeInfo
delete_node n [] = []
delete_node n (m ∷ nodes) =
    let rest = delete_node n nodes in if not (same_node m n) then m ∷ rest else rest

abbrev pub on_some :
    Option NodeInfo → (NodeInfo → List NodeInfo → List NodeInfo) → List NodeInfo → List NodeInfo
on_some none f nodes = nodes
on_some (some n) f nodes = f n nodes

unfoldable pub on_event : WatchEvent → List NodeInfo → List NodeInfo
on_event (put v) nodes = on_some (unmarshal_node v) put_node nodes
on_event (deleted v) nodes = on_some (unmarshal_node v) delete_node nodes

unfoldable pub on_events : List WatchEvent → List NodeInfo → List NodeInfo
unfolding on_event
on_events [] nodes = nodes
on_events (e ∷ es) nodes = on_events es (on_event e nodes)

-- The nodes that are read at the start are appended as they come.
unfoldable pub load_nodes : List Document → List NodeInfo → List NodeInfo
load_nodes [] nodes = nodes
load_nodes (v ∷ vs) nodes =
    load_nodes vs (elim (unmarshal_node v) [ none ↦ nodes | some n ↦ nodes ++ n ∷ [] ])

slot_loop : NodeInfo → ℕ → List NodeInfo → ℕ
slot_loop current i [] = 0
slot_loop current i (n ∷ nodes) = if same_node n current then i else slot_loop current (suc i) nodes

-- The index of the first entry of the coordinator's own node, and 0 if it has none.
unfoldable pub get_current_slot : NodeInfo → List NodeInfo → ℕ
unfolding slot_loop
get_current_slot current nodes = slot_loop current 0 nodes

unfoldable pub knows : NodeInfo → List NodeInfo → Bool
knows n [] = false
knows n (m ∷ nodes) = same_node m n || knows n nodes

-- No node has two entries.
abbrev pub IsDistinct : List NodeInfo → Type 0
IsDistinct [] = Unit {0}
IsDistinct (n ∷ nodes) = (knows n nodes ≡ false) × IsDistinct nodes
