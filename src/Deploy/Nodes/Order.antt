-- ===== src/Deploy/Nodes/Order.antt =====
-- The order of the nodes that a coordinator knows, by the time at which it starts
-- (pkg/deploy/protocol_coordinator.go).
use zingthings.Base.{◌≡◌, refl, true, false, none, some, List, [], ◌∷◌, ◌++◌, arith, ◌∙◌, ap}
use zingthings.Core.Info.{NodeInfo, ProtocolInfo, same_node, same_node_iff}
use zingthings.Core.Document.{Document, marshal_node, fits_int64, unmarshal_node-marshal_node}
use zingthings.Deploy.Nodes.{
  put, put_node, on_some, on_event, on_events, load_nodes, get_current_slot, slot_loop,
}
use zingthings.Deploy.Schedule.{is_own_slot}

-- A node whose document can be read back.
abbrev pub IsStorable : NodeInfo → Type 0
IsStorable n = (fits_int64 n.port ≡ true) × (fits_int64 n.timestamp ≡ true)

-- The list of a coordinator on `a` that started alone and then saw `b` come, and the list of a
-- coordinator on `b` that found both, `b` first, as etcd gives them if its key is the smaller one.
abbrev pub seen_by_first : NodeInfo → NodeInfo → List NodeInfo
seen_by_first a b = on_events (put (marshal_node b) ∷ []) (load_nodes (marshal_node a ∷ []) [])

abbrev pub seen_by_second : NodeInfo → NodeInfo → List NodeInfo
seen_by_second a b = load_nodes (marshal_node b ∷ marshal_node a ∷ []) []

load_nodes-cons :
    (n : NodeInfo) (vs : List Document) (nodes : List NodeInfo)
    → IsStorable n
    → load_nodes (marshal_node n ∷ vs) nodes ≡ load_nodes vs (nodes ++ n ∷ [])
unfolding load_nodes
load_nodes-cons n vs nodes (p, t) =
    ap
      (λ o.
        load_nodes vs (elim o as (λ o. List NodeInfo) [ none ↦ nodes | some n ↦ nodes ++ n ∷ [] ]))
      (unmarshal_node-marshal_node n p t)

on_event-put :
    (n : NodeInfo) (nodes : List NodeInfo)
    → IsStorable n
    → on_event (put (marshal_node n)) nodes ≡ put_node n nodes
unfolding on_event
on_event-put n nodes (p, t) = ap (λ o. on_some o put_node nodes) (unmarshal_node-marshal_node n p t)

put_node-other : (a b : NodeInfo) → same_node a b ≡ false → put_node b (a ∷ []) ≡ a ∷ b ∷ []
unfolding put_node
put_node-other a b e = rw e refl

seen_by_first-eq :
    (a b : NodeInfo)
    → IsStorable a
    → IsStorable b
    → same_node a b ≡ false
    → seen_by_first a b ≡ a ∷ b ∷ []
unfolding on_events load_nodes
seen_by_first-eq a b sa sb e =
    ap (on_event (put (marshal_node b))) (load_nodes-cons a [] [] sa)
    ∙ on_event-put b (a ∷ []) sb
    ∙ put_node-other a b e

seen_by_second-eq : (a b : NodeInfo) → IsStorable a → IsStorable b → seen_by_second a b ≡ b ∷ a ∷ []
unfolding load_nodes
seen_by_second-eq a b sa sb =
    load_nodes-cons b (marshal_node a ∷ []) [] sb ∙ load_nodes-cons a [] (b ∷ []) sa

first_slot : (n m : NodeInfo) → get_current_slot n (n ∷ m ∷ []) ≡ 0
unfolding get_current_slot slot_loop
first_slot n m = ground (arith, same_node_iff n n)

-- Let a coordinator start alone on a node, and then another one on another node whose key in etcd is
-- smaller, with ports and times of 64 bits. Then both take slot 0 of two, and so each protocol that
-- one of them takes for its own is also taken by the other.
pub started_in_turn :
    (a b : NodeInfo)
    → IsStorable a
    → IsStorable b
    → same_node a b ≡ false
    → (get_current_slot a (seen_by_first a b) ≡ 0)
      × (get_current_slot b (seen_by_second a b) ≡ 0)
      × ((p : ProtocolInfo)
          → is_own_slot a (seen_by_first a b) p ≡ is_own_slot b (seen_by_second a b) p)
unfolding is_own_slot
started_in_turn a b sa sb e =
    rw (seen_by_first-eq a b sa sb e, seen_by_second-eq a b sa sb)
      (first_slot a b, first_slot b a, λ p. rw (first_slot a b, first_slot b a) refl)
