-- ===== src/Deploy/WithDb/Tests.antt =====
-- The theorem on the coordinator with a database (pkg/deploy/protocol_coordinator_with_db.go), and
-- its start, at one example each.
use zingthings.Base.{◌≡◌, refl, true, List, [], ◌∷◌, panics}
use zingthings.Base.Text.{codes}
use zingthings.Base.Int.{pos}
use zingthings.Core.Info.{NodeInfo}
use zingthings.Core.Document.{marshal_node}
use zingthings.Outside.{Outside}
use zingthings.Deploy.Nodes.{WatchEvent, put, deleted, on_events}
use zingthings.Deploy.WithDb.{new_coordinator_with_db, register_with_db, on_deploy_events}
use zingthings.Deploy.WithDb.Watch.{on_deploy_events-on_events}

abbrev node : NodeInfo
node = record { host = codes "n"; port = pos 9; timestamp = pos 0 }

abbrev came_and_went : List WatchEvent
came_and_went = put (marshal_node node) ∷ put (marshal_node node) ∷ deleted (marshal_node node) ∷ []

on_deploy_events-on_events_example :
    on_deploy_events came_and_went (node ∷ []) ≡ on_events came_and_went (node ∷ [])
on_deploy_events-on_events_example = on_deploy_events-on_events came_and_went (node ∷ [])

-- NewCoordinatorWithDB sets no client, so register panics.
no_client :
    (o : Outside) (s : o.State)
    → (register_with_db o true (new_coordinator_with_db node) s).0 ≡ panics
unfolding register_with_db new_coordinator_with_db
no_client o s = refl
