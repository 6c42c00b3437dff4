-- ===== src/Deploy/WithDb/Watch.antt =====
-- The list of nodes of the coordinator with a database
-- (pkg/deploy/protocol_coordinator_with_db.go) against that of the other coordinator
-- (pkg/deploy/protocol_coordinator.go).
use zingthings.Base.{
  ◌≡◌, refl, ◌∙◌, ap, Bool, true, false, not, Option, none, some, List, [], ◌∷◌, ◌++◌,
  if◌then◌else◌, keep,
}
use zingthings.Core.Info.{NodeInfo, same_node}
use zingthings.Core.Document.{unmarshal_node}
use zingthings.Deploy.Nodes.{
  WatchEvent, put, deleted, put_node, delete_node, on_event, on_events, on_some,
}
use zingthings.Deploy.WithDb.{
  mark_node, put_deploy_node, delete_deploy_node, on_deploy_event, on_deploy_events,
}

put_deploy_node-put_node :
    (n : NodeInfo) (nodes : List NodeInfo) → put_deploy_node n nodes ≡ put_node n nodes
unfolding put_deploy_node mark_node put_node
put_deploy_node-put_node n [] = refl
put_deploy_node-put_node n (m ∷ nodes) =
    by_node (same_node m n) (mark_node n nodes) (put_deploy_node-put_node n nodes)
  where
    by_node :
        (b : Bool) (r : Bool × List NodeInfo)
        → (if not r.0 then r.1 ++ n ∷ [] else r.1) ≡ put_node n nodes
        → let found : Bool × List NodeInfo =
            if b then (true, record m { timestamp = n.timestamp } ∷ nodes) else (r.0, m ∷ r.1) in
          (if not found.0 then found.1 ++ n ∷ [] else found.1)
          ≡ (if b then record m { timestamp = n.timestamp } ∷ nodes else m ∷ put_node n nodes)
    by_node true r e = refl
    by_node false (true, nodes') e = ap (λ l. m ∷ l) e
    by_node false (false, nodes') e = ap (λ l. m ∷ l) e

delete_deploy_node-delete_node :
    (n : NodeInfo) (nodes : List NodeInfo) → delete_deploy_node n nodes ≡ delete_node n nodes
unfolding delete_deploy_node keep delete_node
delete_deploy_node-delete_node n [] = refl
delete_deploy_node-delete_node n (m ∷ nodes) =
    ap (λ rest. if not (same_node m n) then m ∷ rest else rest)
      (delete_deploy_node-delete_node n nodes)

on_deploy_event-on_event :
    (e : WatchEvent) (nodes : List NodeInfo) → on_deploy_event e nodes ≡ on_event e nodes
unfolding on_deploy_event on_event
on_deploy_event-on_event (put v) nodes = by_read (unmarshal_node v)
  where
    by_read :
        (o : Option NodeInfo)
        → elim o as (λ o. List NodeInfo) [ none ↦ nodes | some n ↦ put_deploy_node n nodes ]
          ≡ on_some o put_node nodes
    by_read none = refl
    by_read (some n) = put_deploy_node-put_node n nodes
on_deploy_event-on_event (deleted v) nodes = by_read (unmarshal_node v)
  where
    by_read :
        (o : Option NodeInfo)
        → elim o as (λ o. List NodeInfo) [ none ↦ nodes | some n ↦ delete_deploy_node n nodes ]
          ≡ on_some o delete_node nodes
    by_read none = refl
    by_read (some n) = delete_deploy_node-delete_node n nodes

pub on_deploy_events-on_events :
    (es : List WatchEvent) (nodes : List NodeInfo) → on_deploy_events es nodes ≡ on_events es nodes
unfolding on_deploy_events on_events
on_deploy_events-on_events [] nodes = refl
on_deploy_events-on_events (e ∷ es) nodes =
    on_deploy_events-on_events es (on_deploy_event e nodes)
    ∙ ap (on_events es) (on_deploy_event-on_event e nodes)
