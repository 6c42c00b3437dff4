-- ===== src/Deploy/Dispatch.antt =====
-- Moving a protocol to a live container (doRemoveGarbageData and dispatchToAlive of
-- pkg/deploy/protocol_coordinator.go).
pub mod Bounds
use zingthings.Base.{
  ℕ, zero, suc, ◌+◌, ◌<◌, ◌≡◌, refl, Bool, true, false, not, Option, none, some, List, [], ◌∷◌,
  ◌++◌, if◌then◌else◌, length, ltb, ◌==◌,
}
use zingthings.Base.Text.{Text, codes, text_eq}
use zingthings.Base.Int.{pos}
use zingthings.Core.Types.{DeployRequest, UnDeployRequest, DeviceGroup}
use zingthings.Core.Info.{NodeInfo, ProtocolInfo, build_address, node_key, info_key, address_key}
use zingthings.Core.Document.{Document, ProtocolInfoDetail, unmarshal_detail}
use zingthings.Outside.{Outside, Run, KeyValue, Response, pure, ◌>>=◌}
use zingthings.Client.{client_deploy, client_undeploy, get_protocol_status, trim_slash}
use zingthings.Deploy.Balance.{Coordinator}
use zingthings.Deploy.Query.{is_found, get_alive, check_protocol_already_alive}

abbrev pub running : Text
running = codes "RUNNING"

abbrev pub no_group : DeviceGroup
no_group = record { device_group_name = []; device_group_id = [] }

-- MakeClient of fmt.Sprintf("http://%s", address)
abbrev pub url_of : Text → Text
url_of address = trim_slash (codes "http://" ++ address)

unfoldable pub undeploy_request : ProtocolInfo → UnDeployRequest
undeploy_request p = record {
  number_index = pos 0;
  protocol_id = p.id;
  protocol_type = p.protocol_type;
  device_group = no_group;
}

unfoldable pub deploy_request : ProtocolInfo → ProtocolInfoDetail → DeployRequest
deploy_request p detail = record {
  number_index = pos 0;
  protocol_id = p.id;
  device_info_map = (detail.device_group.device_group_id, detail.device_infos) ∷ [];
  properties = [];
  protocol_type = p.protocol_type;
}

-- The end of a pass of the loop: the pass is over with an answer, or the loop goes on.
pub data Pass : Type 0 where
  returns : Option NodeInfo → Bool → Pass
  continues : Pass

-- protocolStatus == core.RUNNING
unfoldable pub settle_status : NodeInfo → Option Text → Pass
settle_status alive none = returns none false
settle_status alive (some t) = if text_eq t running then returns (some alive) true else continues

-- Seven passes: the counter leaves the loop when it is above 5.
abbrev pub dispatch_fuel : ℕ
dispatch_fuel = 7

module _ (o : Outside) where
  open o use {State, get, delete}

  -- if get.Count > 0 { undeploy on the old node }
  undeploy_old : ProtocolInfo → NodeInfo → List KeyValue → Run State (Option NodeInfo × Bool × Bool)
  unfolding undeploy_request
  undeploy_old p alive [] = pure (none, false, false)
  undeploy_old p alive (kv ∷ kvs) = do
    response ← client_undeploy o (url_of p.address) (undeploy_request p)
    pure (elim response [ none ↦ (some alive, false, true) | some r ↦ (none, false, false) ])

  unfoldable pub do_remove_garbage_data :
      ProtocolInfo → NodeInfo → Run State (Option NodeInfo × Bool × Bool)
  unfolding undeploy_old
  do_remove_garbage_data p alive =
      if text_eq (build_address alive) p.address then pure (none, false, false) else do
        deleted ← delete (node_key p)
        if not deleted then pure (some alive, false, true) else do
          found ← get (address_key p) false
          elim found [ none ↦ pure (some alive, false, true) | some kvs ↦ undeploy_old p alive kvs ]

  -- After the deployment: the clean-up and the status, after the bound on the passes.
  unfoldable pub settle_on : ProtocolInfo → NodeInfo → Run State Pass
  unfolding do_remove_garbage_data settle_status
  settle_on p alive = do
    cleaned ← do_remove_garbage_data p alive
    status ← get_protocol_status o (url_of (build_address alive)) p
    pure (settle_status alive status)

  unfoldable pub settle : ProtocolInfo → NodeInfo → ℕ → Run State Pass
  unfolding settle_on
  settle p alive count = if ltb 5 count then pure (returns none false) else settle_on p alive

  after_deploy : ProtocolInfo → NodeInfo → ℕ → Option Response → Run State Pass
  unfolding settle
  after_deploy p alive count none = pure (returns none false)
  after_deploy p alive count (some r) = settle p alive count

  deploy_detail : ProtocolInfo → NodeInfo → ℕ → Option ProtocolInfoDetail → Run State Pass
  unfolding after_deploy deploy_request
  deploy_detail p alive count none = pure (returns none false)
  deploy_detail p alive count (some detail) = do
    response ← client_deploy o (url_of (build_address alive)) (deploy_request p detail)
    after_deploy p alive count response

  deploy_found : ProtocolInfo → NodeInfo → ℕ → Option (List KeyValue) → Run State Pass
  unfolding deploy_detail
  deploy_found p alive count none = pure (returns none false)
  deploy_found p alive count (some []) = pure (returns none false)
  deploy_found p alive count (some (kv ∷ kvs)) =
      deploy_detail p alive count (unmarshal_detail kv.value)

  -- One pass of the loop.
  unfoldable pub pass : ProtocolInfo → NodeInfo → ℕ → Run State Pass
  unfolding deploy_found
  pass p alive count = do found ← get (info_key p) false; deploy_found p alive count found

  -- The loop; none if the fuel is used up.
  unfoldable pub dispatch_loop :
      ℕ → ProtocolInfo → NodeInfo → ℕ → Run State (Option (Option NodeInfo × Bool))
  dispatch_loop zero p alive count = pure none
  dispatch_loop (suc fuel) p alive count = do
    outcome ← pass p alive count
    elim outcome [
      | returns n b ↦ pure (some (n, b))
      | continues ↦ dispatch_loop fuel p alive (suc count)
    ]

  -- The branch of checkProtocolAlreadyAlive: clean up only, or enter the loop.
  unfoldable pub dispatch_chosen :
      ProtocolInfo → NodeInfo → Bool → Run State (Option (Option NodeInfo × Bool))
  unfolding dispatch_loop do_remove_garbage_data
  dispatch_chosen p alive true = do
    cleaned ← do_remove_garbage_data p alive
    pure (some (none, true))
  dispatch_chosen p alive false = dispatch_loop dispatch_fuel p alive 0

  -- dispatchToAlive, with the coordinator's turn moved on.
  unfoldable pub dispatch_to_alive :
      Coordinator → ProtocolInfo → Run State (Option (Option NodeInfo × Bool) × Coordinator)
  unfolding dispatch_chosen
  dispatch_to_alive c p = do
    chosen ← get_alive o c
    elim chosen.0 [
      | none ↦ pure (some (none, false), chosen.1)
      | some alive ↦ do
        already ← check_protocol_already_alive o p
        answer ← dispatch_chosen p alive already
        pure (answer, chosen.1)
    ]
