-- ===== src/Deploy/Server.antt =====
-- The deploy server (pkg/deploy/deploy.go): it spreads the replicas of a protocol over the live
-- containers.
pub mod Replicas
use zingthings.Base.{
  ℕ, zero, suc, ◌+◌, Bool, true, false, Option, none, some, List, [], ◌∷◌, ◌++◌, if◌then◌else◌,
  length, ltb, Outcome, ok, panics, diverges,
}
use zingthings.Base.Text.{Text, codes}
use zingthings.Base.Int.{ℤ, pos, negsuc, itoa}
use zingthings.Base.Dict.{Dict}
use zingthings.Core.Types.{DeployRequest, DeviceInfo}
use zingthings.Core.Info.{NodeInfo, ProtocolInfo, build_address}
use zingthings.Outside.{Outside, Run, pure, ◌>>=◌}
use zingthings.Client.{client_deploy}
use zingthings.Util.Network.{Interface, get_local_ip}
use zingthings.Deploy.Balance.{Coordinator, new_coordinator}
use zingthings.Deploy.Query.{get_all_alive, get_alive, or_empty, check_protocol_already_alive}
use zingthings.Deploy.Dispatch.{url_of}

new_coordinator_at : ℤ → ℤ → Outcome (Option Text) → Outcome Coordinator
new_coordinator_at port timestamp (ok (some ip)) =
    ok (new_coordinator (record { host = ip; port = port; timestamp = timestamp }))
new_coordinator_at port timestamp (ok none) = panics
new_coordinator_at port timestamp panics = panics
new_coordinator_at port timestamp diverges = diverges

-- NewDeploy, with the time in milliseconds: its coordinator.
unfoldable pub new_deploy : Option (List Interface) → ℤ → ℤ → Outcome Coordinator
unfolding new_coordinator_at
new_deploy interfaces port timestamp = new_coordinator_at port timestamp (get_local_ip interfaces)

pub record Request : Type 0 where
  pub deploy_request : DeployRequest
  pub number : ℤ

-- A number that is not positive stands for 1.
unfoldable pub number_of : ℤ → ℕ
number_of (pos zero) = 1
number_of (pos (suc n)) = suc n
number_of (negsuc n) = 1

-- if len(alive)-number > 0 { i < number } else { range alive }
unfoldable pub replicas : ℤ → ℕ → ℕ
unfolding number_of
replicas number alive = if ltb (number_of number) alive then number_of number else alive

-- The protocol that a replica of a group is asked for.
unfoldable pub replica_info : DeployRequest → Text → ℕ → ℤ → ProtocolInfo
replica_info request group i timestamp = record {
  id = request.protocol_id ++ (b':' ∷ (group ++ (b':' ∷ itoa (pos i))));
  timestamp = timestamp;
  protocol_type = request.protocol_type;
  address = [];
}

-- The request for a replica of a group.
unfoldable pub replica_request : DeployRequest → Text → List DeviceInfo → ℕ → DeployRequest
replica_request request group infos i = record {
  number_index = pos i;
  protocol_id = request.protocol_id;
  device_info_map = (group, infos) ∷ [];
  properties = request.properties;
  protocol_type = request.protocol_type;
}

abbrev pub status_ok : ℕ
status_ok = 200

abbrev pub status_bad_request : ℕ
status_bad_request = 400

abbrev pub status_service_unavailable : ℕ
status_service_unavailable = 503

module _ (o : Outside) where
  open o use {State, now}

  -- doDealDeploy; the error of the container is only logged. A nil node panics.
  do_deal_deploy : DeployRequest → Option NodeInfo → Run State (Outcome Bool)
  do_deal_deploy request none = pure panics
  do_deal_deploy request (some n) = do
    response ← client_deploy o (url_of (build_address n)) request
    pure (ok true)

  -- One replica of one group: asked for first, and then given to the next container.
  place : DeployRequest → Text → List DeviceInfo → ℕ → Coordinator → Run State (Outcome Coordinator)
  unfolding do_deal_deploy replica_info replica_request
  place request group infos i c = do
    timestamp ← now
    already ← check_protocol_already_alive o (replica_info request group i timestamp)
    if already then pure (ok c) else do
      chosen ← get_alive o c
      done ← do_deal_deploy (replica_request request group infos i) chosen.0
      pure (elim done [ ok b ↦ ok chosen.1 | panics ↦ panics | diverges ↦ diverges ])

  -- All groups of a replica.
  place_groups :
      DeployRequest
      → Dict (List DeviceInfo)
      → ℕ
      → Outcome Coordinator
      → Run State (Outcome Coordinator)
  unfolding place
  place_groups request [] i (ok c) = pure (ok c)
  place_groups request ((group, infos) ∷ groups) i (ok c) = do
    c' ← place request group infos i c
    place_groups request groups i c'
  place_groups request groups i panics = pure panics
  place_groups request groups i diverges = pure diverges

  -- The replicas from i on.
  place_replicas : DeployRequest → ℕ → ℕ → Outcome Coordinator → Run State (Outcome Coordinator)
  unfolding place_groups
  place_replicas request zero i c = pure c
  place_replicas request (suc k) i c = do
    c' ← place_groups request request.device_info_map i c
    place_replicas request k (suc i) c'

  with_status : Outcome Coordinator → Outcome (ℕ × Coordinator)
  with_status (ok c) = ok (status_ok, c)
  with_status panics = panics
  with_status diverges = diverges

  place_on : Request → List NodeInfo → Coordinator → Run State (Outcome (ℕ × Coordinator))
  unfolding place_replicas with_status replicas
  place_on request [] c = pure (ok (status_service_unavailable, c))
  place_on request (n ∷ nodes) c = do
    placed ←
        place_replicas request.deploy_request (replicas request.number (length (n ∷ nodes))) 0
          (ok c)
    pure (with_status placed)

  -- The handler takes the request, or none if its body cannot be read as one.
  unfoldable pub deal_deploy_request :
      Option Request → Coordinator → Run State (Outcome (ℕ × Coordinator))
  unfolding place_on
  deal_deploy_request none c = pure (ok (status_bad_request, c))
  deal_deploy_request (some request) c = do
    alive ← get_all_alive o
    place_on request (or_empty alive) c
