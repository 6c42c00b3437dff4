-- ===== src/Container/Announce/Deployed.antt =====
-- The status of a protocol that a container has deployed, and undeployed again
-- (pkg/protocol/container/container.go over pkg/protocol/register/etcd_register.go).
use zingthings.Base.{ℕ, ◌≡◌, ap, sym, ◌∙◌, Option, none, some, List, [], ◌∷◌, ok}
use zingthings.Base.Text.{Text}
use zingthings.Base.Dict.{Dict}
use zingthings.Core.Types.{DeviceInfo, DeployRequest, UnDeployRequest}
use zingthings.Core.Info.{NodeInfo, ProtocolInfo}
use zingthings.Core.Document.{Document}
use zingthings.Core.Protocol.{
  Protocol, get, get_protocol_type, http_client, http_client_type, ProtocolKind,
}
use zingthings.Extension.{Network}
use zingthings.Outside.{Outside}
use zingthings.Container.{
  Process, deploy, deal_un_deploy_request, build_protocol_id, undeploy_id, stop_protocol,
  get_protocol_setup, get_protocol_status, running, pending, status_ok,
}
use zingthings.Container.Register.{IsMap}
use zingthings.Container.Fresh.{protocol_of, deploy_http_client}
use zingthings.Container.Again.{deploy-undeploy}
use zingthings.Container.Announce.{bus, announce}
use zingthings.Container.Announce.Status.{
  IsReadable, IsAsking, status_after_deploy, status_after_un_deploy,
}

module _ (o : Outside) (node : NodeInfo) where
  abbrev pub status_of : ProtocolInfo → Process → o.State → ℕ × Option Text
  status_of i s t =
      (get_protocol_status o node s.protocols (some i) (announce o node bus s.published t).1).0

module _ (o : Outside) (find : o.State → Text → Option Document) (etcd : IsMap o find)
    (readable : IsReadable o find) (node : NodeInfo) where
  open o use {State}

  -- The status after an undeployment, whose process is known.
  status_of-stopped :
      (net : Network) (i : ProtocolInfo) (p : Protocol) (s s' : Process) (t : State)
      → s' ≡ stop_protocol net p s
      → IsAsking i p s.protocols
      → status_of o node i s' t ≡ (status_ok, some pending)
  unfolding stop_protocol
  status_of-stopped net i p s s' t e asks =
      ap (λ s. status_of o node i s t) e
      ∙ status_after_un_deploy o find etcd readable node s.protocols i p s.published t asks

  -- If etcd keeps what it is given and can be read, then a container that has deployed an HTTP client
  -- for one group under a new id answers a question for that id and type that it is running, and
  -- once it has undeployed the same id, that it is pending.
  pub deploy-status :
      (net : Network) (id : ℕ) (setups : Dict ProtocolKind) (request : DeployRequest) (group : Text)
      (infos : List DeviceInfo) (undeploy : UnDeployRequest) (i : ProtocolInfo) (s : Process)
      (t : State)
      → request.device_info_map ≡ (group, infos) ∷ []
      → get_protocol_setup request.protocol_type setups ≡ some http_client
      → get i.id s.protocols ≡ none
      → i.id ≡ build_protocol_id request.protocol_id group request.number_index
      → i.protocol_type ≡ http_client_type
      → undeploy_id undeploy ≡ i.id
      → (s' : Process) × (deploy net id setups request s ≡ ok (none, s'))
        × (status_of o node i s' t ≡ (status_ok, some running))
        × (status_of o node i (deal_un_deploy_request net (some undeploy) s').1 t
            ≡ (status_ok, some pending))
  unfolding get_protocol_type
  deploy-status net id setups request group infos undeploy i s t map kind new same_id same_type
        undeploys =
      let p =
        protocol_of http_client (build_protocol_id request.protocol_id group request.number_index)
          group infos in
      let new' = ap (λ k. get k s.protocols) (sym same_id) ∙ new in
      let (s', deployed, at_p, published, opened) =
        deploy_http_client net id setups request group infos s map kind new' in
      let asks : IsAsking i p s'.protocols = record {
        same_id = same_id;
        same_type = same_type;
        known = ap (λ k. get k s'.protocols) same_id ∙ at_p;
      } in
      (
        s',
        deployed,
        ap
              (λ events.
                (get_protocol_status o node s'.protocols (some i)
                  (announce o node bus events t).1).0)
              published
            ∙ status_after_deploy o find etcd readable node s'.protocols i p s.published t asks,
        status_of-stopped net i p s' (deal_un_deploy_request net (some undeploy) s').1 t
            (deploy-undeploy net id setups request group infos [] undeploy s' p map
              (undeploys ∙ same_id) at_p).0
            asks,
      )
