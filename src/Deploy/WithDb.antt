-- ===== src/Deploy/WithDb.antt =====
-- The coordinator with a database (pkg/deploy/protocol_coordinator_with_db.go).
pub mod Watch
mod Tests
use zingthings.Base.{
  Bool, true, false, not, Option, none, some, List, [], ◌∷◌, ◌++◌, if◌then◌else◌, keep, Outcome, ok,
  panics,
}
use zingthings.Core.Info.{NodeInfo, same_node, build_deploy_key}
use zingthings.Core.Document.{unmarshal_node, marshal_node}
use zingthings.Outside.{Outside, Run, pure, ◌>>=◌}
use zingthings.Deploy.Balance.{Coordinator, new_coordinator}
use zingthings.Deploy.Nodes.{WatchEvent, put, deleted}

-- Whether there is an etcd client; without one the field is nil. The database is never used.
pub record CoordinatorWithDb : Type 0 where
  pub coordinator : Coordinator
  pub has_client : Bool

unfoldable pub new_coordinator_with_db : NodeInfo → CoordinatorWithDb
unfolding new_coordinator
new_coordinator_with_db n = record { coordinator = new_coordinator n; has_client = false }

-- The loop over AllNodeInfos: alreadyExists, and the entries with the new timestamp.
unfoldable pub mark_node : NodeInfo → List NodeInfo → Bool × List NodeInfo
mark_node n [] = (false, [])
mark_node n (m ∷ nodes) =
    let rest = mark_node n nodes in
    if same_node m n
    then (true, record m { timestamp = n.timestamp } ∷ nodes)
    else (rest.0, m ∷ rest.1)

unfoldable pub put_deploy_node : NodeInfo → List NodeInfo → List NodeInfo
unfolding mark_node
put_deploy_node n nodes =
    let (already_exists, nodes') = mark_node n nodes in
    if not already_exists then nodes' ++ n ∷ [] else nodes'

unfoldable pub delete_deploy_node : NodeInfo → List NodeInfo → List NodeInfo
delete_deploy_node n nodes = keep (λ info. not (same_node info n)) nodes

-- One event; a value that cannot be read is passed over.
unfoldable pub on_deploy_event : WatchEvent → List NodeInfo → List NodeInfo
unfolding put_deploy_node delete_deploy_node
on_deploy_event (put v) nodes = elim (unmarshal_node v) [
  | none ↦ nodes
  | some n ↦ put_deploy_node n nodes
]
on_deploy_event (deleted v) nodes = elim (unmarshal_node v) [
  | none ↦ nodes
  | some n ↦ delete_deploy_node n nodes
]

-- The loop over the events of one response.
unfoldable pub on_deploy_events : List WatchEvent → List NodeInfo → List NodeInfo
unfolding on_deploy_event
on_deploy_events [] nodes = nodes
on_deploy_events (e ∷ es) nodes = on_deploy_events es (on_deploy_event e nodes)

module _ (o : Outside) where
  open o use {State, put}

  -- The start of register: a nil client and a lease that is not granted panic. Whether it goes on
  -- to the keep-alive loop and the watch.
  unfoldable pub register_with_db : Bool → CoordinatorWithDb → Run State (Outcome Bool)
  register_with_db granted c =
      if c.has_client
      then (if granted
          then (do
            done ←
                put (build_deploy_key c.coordinator.current_node)
                  (marshal_node c.coordinator.current_node)
            pure (ok done))
          else pure panics)
      else pure panics
