-- ===== src/Container/Announce/Tests.antt =====
-- A container and its etcd register (pkg/protocol/container/container.go,
-- pkg/protocol/register/etcd_register.go) at one example.
use zingthings.Base.{◌≡◌, refl, true, none, some, [], ◌∷◌, ok}
use zingthings.Base.Text.{codes, text_eq}
use zingthings.Base.Int.{pos}
use zingthings.Base.Dict.{Dict, lookup, insert, delete, lookup-insert, lookup-delete}
use zingthings.Core.Types.{DeployRequest, UnDeployRequest}
use zingthings.Core.Info.{NodeInfo, ProtocolInfo}
use zingthings.Core.Document.{Document}
use zingthings.Core.Protocol.{ProtocolKind, http_client, http_client_type, get}
use zingthings.Core.Pipeline.{new_pipeline}
use zingthings.Extension.{Network}
use zingthings.Outside.{Outside}
use zingthings.Container.{
  Process, deploy, build_protocol_id, undeploy_id, deal_un_deploy_request, get_protocol_setup,
  group_of, status_ok, running, pending,
}
use zingthings.Container.Register.{IsMap}
use zingthings.Container.Announce.Status.{entries}
use zingthings.Container.Announce.Deployed.{status_of, deploy-status}

abbrev net : Network
net = record { listens = λ p port. true; shuts_down = λ p. true }

abbrev setups : Dict ProtocolKind
setups = (http_client_type, http_client) ∷ []

abbrev request : DeployRequest
request = record {
  number_index = pos 3;
  protocol_id = codes "p";
  device_info_map = (codes "g", []) ∷ [];
  properties = [];
  protocol_type = http_client_type;
}

abbrev undeploy : UnDeployRequest
undeploy = record {
  number_index = pos 3;
  protocol_id = codes "p";
  protocol_type = http_client_type;
  device_group = group_of (codes "g");
}

abbrev process : Process
process = record {
  store = record {
    pipelines = new_pipeline ∷ [];
    channels = λ a. none;
    next_channel = 0;
    manager = [];
  };
  protocols = [];
  published = [];
}

-- etcd as a map that can be read.
abbrev etcd : Outside
etcd = record {
  State = Dict Document;
  get = λ k prefix m. (some (entries k (lookup k m)), m);
  put = λ k d m. (true, insert k d m);
  delete = λ k m. (true, delete k m);
  post = λ url body m. (none, m);
  now = λ m. (pos 7, m);
}

etcd-IsMap : IsMap etcd (λ m k. lookup k m)
etcd-IsMap = record {
  put_ok = λ k d m. refl;
  delete_ok = λ k m. refl;
  find-put = λ k j d m. lookup-insert k j d m;
  find-delete = λ k j m. lookup-delete k j m;
  find-now = λ j m. refl;
}

abbrev node : NodeInfo
node = record { host = codes "n"; port = pos 8776; timestamp = pos 1 }

abbrev question : ProtocolInfo
question = record {
  id = build_protocol_id (codes "p") (codes "g") (pos 3);
  timestamp = pos 0;
  protocol_type = http_client_type;
  address = [];
}

deploy-status_example :
    (s' : Process) × (deploy net 0 setups request process ≡ ok (none, s'))
    × (status_of etcd node question s' [] ≡ (status_ok, some running))
    × (status_of etcd node question (deal_un_deploy_request net (some undeploy) s').1 []
        ≡ (status_ok, some pending))
unfolding get lookup text_eq get_protocol_setup undeploy_id
deploy-status_example =
    deploy-status etcd (λ m k. lookup k m) etcd-IsMap (λ k m. refl) node net 0 setups request
      (codes "g") [] undeploy question process [] refl refl refl refl refl refl
