-- ===== src/Container/Tests.antt =====
-- The theorems on the container (pkg/protocol/container/container.go) at one example each.
use zingthings.Base.{◌≡◌, refl, true, Option, none, some, [], ◌∷◌, ok}
use zingthings.Base.Text.{Text, codes, text_eq}
use zingthings.Base.Int.{pos}
use zingthings.Base.Dict.{Dict, lookup, insert, delete, lookup-insert, lookup-delete}
use zingthings.Core.Types.{DeployRequest, UnDeployRequest}
use zingthings.Core.Protocol.{Protocol, ProtocolKind, http_client, http_client_type, get}
use zingthings.Core.Pipeline.{new_pipeline}
use zingthings.Extension.{Network}
use zingthings.Extension.Lifecycle.{IsOpened}
use zingthings.Container.{
  Process, deploy, build_protocol_id, undeploy_id, deal_un_deploy_request, stop_protocol,
  get_protocol_setup, group_of, protocol_deploy_success,
}
use zingthings.Outside.{Outside}
use zingthings.Core.Info.{node_key, info_key, protocol_key}
use zingthings.Core.Document.{Document, marshal_protocol}
use zingthings.Container.Register.{
  IsMap, info_of, detail_of, on_protocol_deploy_success, on_protocol_deploy_success-find,
}
use zingthings.Container.Deployment.{IsKeyed, IsKept, deploy-IsKeyed}
use zingthings.Container.Again.{deploy-undeploy}
use zingthings.Container.Fresh.{protocol_of, deploy_http_client}

abbrev net : Network
net = record { listens = λ p port. true; shuts_down = λ p. true }

abbrev setups : Dict ProtocolKind
setups = (http_client_type, http_client) ∷ []

abbrev request : DeployRequest
request = record {
  number_index = pos 3;
  protocol_id = codes "p";
  device_info_map = (codes "g", []) ∷ [];
  properties = [];
  protocol_type = http_client_type;
}

abbrev process : Process
process = record {
  store = record {
    pipelines = new_pipeline ∷ [];
    channels = λ a. none;
    next_channel = 0;
    manager = [];
  };
  protocols = [];
  published = [];
}

abbrev protocol : Protocol
protocol =
    protocol_of http_client (build_protocol_id (codes "p") (codes "g") (pos 3)) (codes "g") []

supported : get_protocol_setup http_client_type setups ≡ some http_client
unfolding get_protocol_setup lookup text_eq
supported = refl

absent : get (build_protocol_id (codes "p") (codes "g") (pos 3)) process.protocols ≡ none
unfolding get lookup
absent = refl

deploy_http_client_example :
    (s' : Process) × (deploy net 0 setups request process ≡ ok (none, s'))
    × (get (build_protocol_id (codes "p") (codes "g") (pos 3)) s'.protocols ≡ some protocol)
    × (s'.published ≡ (protocol_deploy_success, protocol) ∷ [])
    × IsOpened protocol http_client_type process.store s'.store
deploy_http_client_example =
    deploy_http_client net 0 setups request (codes "g") [] process refl supported absent

abbrev deployed : Process
deployed = (deploy_http_client net 0 setups request (codes "g") [] process refl supported absent).0

deployed-deploy : deploy net 0 setups request process ≡ ok (none, deployed)
deployed-deploy =
    (deploy_http_client net 0 setups request (codes "g") [] process refl supported absent).1

deployed-get :
    get (build_protocol_id (codes "p") (codes "g") (pos 3)) deployed.protocols ≡ some protocol
deployed-get =
    (deploy_http_client net 0 setups request (codes "g") [] process refl supported absent).2

deploy-IsKeyed_example : IsKeyed deployed × IsKept process deployed
unfolding get lookup
deploy-IsKeyed_example =
    deploy-IsKeyed net 0 setups request process deployed none (λ k p e. nothing k p e)
      deployed-deploy
  where
    nothing :
        (k : Text) (p : Protocol) → ◌≡◌ {A = Option Protocol} none (some p) → p.protocol_id ≡ k
    nothing k p e = cc

abbrev undeploy : UnDeployRequest
undeploy = record {
  number_index = pos 3;
  protocol_id = codes "p";
  protocol_type = http_client_type;
  device_group = group_of (codes "g");
}

deploy-undeploy_example :
    let s' = (deal_un_deploy_request net (some undeploy) deployed).1 in
    (s' ≡ stop_protocol net protocol deployed) × (deploy net 0 setups request s' ≡ ok (none, s'))
unfolding undeploy_id
deploy-undeploy_example =
    deploy-undeploy net 0 setups request (codes "g") [] [] undeploy deployed protocol refl refl
      deployed-get

-- etcd as a map.
abbrev etcd : Outside
etcd = record {
  State = Dict Document;
  get = λ k prefix m. (none, m);
  put = λ k d m. (true, insert k d m);
  delete = λ k m. (true, delete k m);
  post = λ url body m. (none, m);
  now = λ m. (pos 7, m);
}

etcd-IsMap : IsMap etcd (λ m k. lookup k m)
etcd-IsMap = record {
  put_ok = λ k d m. refl;
  delete_ok = λ k m. refl;
  find-put = λ k j d m. lookup-insert k j d m;
  find-delete = λ k j m. lookup-delete k j m;
  find-now = λ j m. refl;
}

on_protocol_deploy_success-find_example :
    let s' = (on_protocol_deploy_success etcd (codes "n:1") protocol []).1 in
    let i = info_of (codes "n:1") protocol (pos 7) in
    (lookup (node_key i) s' ≡ some (marshal_protocol i))
    × (lookup (info_key i) s' ≡ some (detail_of protocol))
    × (lookup (protocol_key i) s' ≡ some (marshal_protocol i))
on_protocol_deploy_success-find_example =
    on_protocol_deploy_success-find etcd (λ m k. lookup k m) etcd-IsMap (codes "n:1") protocol []
