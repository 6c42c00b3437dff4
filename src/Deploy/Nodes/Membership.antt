-- ===== src/Deploy/Nodes/Membership.antt =====
-- The list of deploy nodes against the history of the watch (pkg/deploy/protocol_coordinator.go).
use zingthings.Base.{
  ◌≡◌, refl, Bool, true, not, ◌&&◌, ◌||◌, Option, none, some, List, [], ◌∷◌, arith, Bool-cases, inl,
  inr, ◌∙◌, ap,
}
use zingthings.Core.Info.{NodeInfo, same_node, same_node_iff}
use zingthings.Core.Document.{unmarshal_node}
use zingthings.Deploy.Nodes.{
  WatchEvent, put, deleted, put_node, delete_node, on_event, on_events, on_some, knows, IsDistinct,
}

pub same_node_comm : (a b : NodeInfo) → same_node a b ≡ same_node b a
same_node_comm a b = ground (arith, same_node_iff a b, same_node_iff b a)

pub same_node_left : (a b c : NodeInfo) → same_node a b ≡ true → same_node a c ≡ same_node b c
same_node_left a b c h = ground (arith, same_node_iff a b, same_node_iff a c, same_node_iff b c)

-- An entry's node does not depend on its timestamp.
same_node-timestamp :
    (m n k : NodeInfo) → same_node (record m { timestamp = n.timestamp }) k ≡ same_node m k
unfolding same_node
same_node-timestamp m n k = refl

knows-put_node :
    (n k : NodeInfo) (nodes : List NodeInfo)
    → knows k (put_node n nodes) ≡ (same_node n k || knows k nodes)
unfolding knows put_node
knows-put_node n k [] = refl
knows-put_node n k (m ∷ nodes) =
    ground (arith, knows-put_node n k nodes, same_node-timestamp m n k, same_node_left m n k)

knows-delete_node :
    (n k : NodeInfo) (nodes : List NodeInfo)
    → knows k (delete_node n nodes) ≡ (not (same_node n k) && knows k nodes)
unfolding knows delete_node
knows-delete_node n k [] = ground arith
knows-delete_node n k (m ∷ nodes) = ground (
  arith,
  knows-delete_node n k nodes,
  same_node_left m n k,
  same_node_left n m k,
  same_node_comm m n,
  same_node_left n k m,
  same_node_comm m k,
)

timestamp-same_node :
    (m n k : NodeInfo) → same_node k (record m { timestamp = n.timestamp }) ≡ same_node k m
unfolding same_node
timestamp-same_node m n k = refl

knows-timestamp :
    (m n : NodeInfo) (nodes : List NodeInfo)
    → knows (record m { timestamp = n.timestamp }) nodes ≡ knows m nodes
unfolding knows
knows-timestamp m n [] = refl
knows-timestamp m n (k ∷ nodes) = rw (timestamp-same_node m n k, knows-timestamp m n nodes)

put_node-IsDistinct :
    (n : NodeInfo) (nodes : List NodeInfo) → IsDistinct nodes → IsDistinct (put_node n nodes)
unfolding put_node knows
put_node-IsDistinct n [] d = (refl, tt)
put_node-IsDistinct n (m ∷ nodes) d = elim (Bool-cases (same_node m n)) [
  | inl old ↦ rw old (knows-timestamp m n nodes ∙ d.0, d.1)
  | inr new ↦ rw new (
    knows-put_node n m nodes ∙ rw (same_node_comm n m, new, d.0),
    put_node-IsDistinct n nodes d.1,
  )
]

delete_node-IsDistinct :
    (n : NodeInfo) (nodes : List NodeInfo) → IsDistinct nodes → IsDistinct (delete_node n nodes)
unfolding delete_node
delete_node-IsDistinct n [] d = tt
delete_node-IsDistinct n (m ∷ nodes) d =
    ground (arith, delete_node-IsDistinct n nodes d.1, knows-delete_node n m nodes)

on_event-IsDistinct :
    (e : WatchEvent) (nodes : List NodeInfo) → IsDistinct nodes → IsDistinct (on_event e nodes)
unfolding on_event
on_event-IsDistinct (put v) nodes d =
    elim (unmarshal_node v) as (λ o. IsDistinct (on_some o put_node nodes)) [
      | none ↦ d
      | some n ↦ put_node-IsDistinct n nodes d
    ]
on_event-IsDistinct (deleted v) nodes d =
    elim (unmarshal_node v) as (λ o. IsDistinct (on_some o delete_node nodes)) [
      | none ↦ d
      | some n ↦ delete_node-IsDistinct n nodes d
    ]

-- If no node has two entries, no sequence of watch events gives a node a second entry.
pub on_events-IsDistinct :
    (es : List WatchEvent) (nodes : List NodeInfo)
    → IsDistinct nodes
    → IsDistinct (on_events es nodes)
unfolding on_events
on_events-IsDistinct [] nodes d = d
on_events-IsDistinct (e ∷ es) nodes d =
    on_events-IsDistinct es (on_event e nodes) (on_event-IsDistinct e nodes d)

-- Whether a node is there after a history: the last event that names it decides.
abbrev after_event : NodeInfo → WatchEvent → Bool → Bool
after_event k (put v) before = elim (unmarshal_node v) [
  | none ↦ before
  | some n ↦ same_node n k || before
]
after_event k (deleted v) before = elim (unmarshal_node v) [
  | none ↦ before
  | some n ↦ not (same_node n k) && before
]

unfoldable pub after_events : NodeInfo → List WatchEvent → Bool → Bool
after_events k [] before = before
after_events k (e ∷ es) before = after_events k es (after_event k e before)

knows-on_event :
    (e : WatchEvent) (k : NodeInfo) (nodes : List NodeInfo)
    → knows k (on_event e nodes) ≡ after_event k e (knows k nodes)
unfolding on_event
knows-on_event (put v) k nodes = go (unmarshal_node v)
  where
    go :
        (o : Option NodeInfo)
        → knows k (on_some o put_node nodes)
          ≡ elim o [ none ↦ knows k nodes | some n ↦ same_node n k || knows k nodes ]
    go none = refl
    go (some n) = knows-put_node n k nodes
knows-on_event (deleted v) k nodes = go (unmarshal_node v)
  where
    go :
        (o : Option NodeInfo)
        → knows k (on_some o delete_node nodes)
          ≡ elim o [ none ↦ knows k nodes | some n ↦ not (same_node n k) && knows k nodes ]
    go none = refl
    go (some n) = knows-delete_node n k nodes

-- The list knows a node exactly if the last event about it was a put, or if there was none and the
-- list knew it before.
pub knows-on_events :
    (es : List WatchEvent) (k : NodeInfo) (nodes : List NodeInfo)
    → knows k (on_events es nodes) ≡ after_events k es (knows k nodes)
unfolding on_events after_events
knows-on_events [] k nodes = refl
knows-on_events (e ∷ es) k nodes =
    knows-on_events es k (on_event e nodes) ∙ ap (after_events k es) (knows-on_event e k nodes)
