-- ===== src/Container.antt =====
-- The container that runs protocols (pkg/protocol/container/container.go), with the setups and the
-- wrapper of pkg/protocol/core/protocol.go.
pub mod Ids
pub mod Deployment
pub mod Again
pub mod Fresh
pub mod Register
pub mod Announce
pub mod Machine
pub mod Wrapper
mod Tests
use zingthings.Base.{
  ℕ, ◌≡◌, refl, Bool, true, false, Option, none, some, List, [], ◌∷◌, ◌++◌, if◌then◌else◌, Outcome,
  ok, panics, diverges, ◌>>=◌,
}
use zingthings.Base.Text.{Text, codes, contains_byte}
use zingthings.Base.Int.{ℤ, itoa}
use zingthings.Base.Dict.{Dict, lookup, insert}
use zingthings.Core.Types.{DeviceGroup, DeviceInfo, DeployRequest, UnDeployRequest}
use zingthings.Core.Info.{NodeInfo, ProtocolInfo, build_address, protocol_key}
use zingthings.Core.Protocol.{set_context, Protocol, ProtocolKind, get, register_if_absent, get_all}
use zingthings.Core.Channel.{Store}
use zingthings.Extension.{Network, start, stop}
use zingthings.Outside.{Outside, Run, KeyValue}

abbrev pub protocol_deploy_success : Text
protocol_deploy_success = codes "ProtocolDeploySuccess"

abbrev pub protocol_un_deploy_success : Text
protocol_un_deploy_success = codes "ProtocolUnDeploySuccess"

-- The process: its channels and pipelines, DefaultProtocolManagerCommon (which is also the
-- ProtocolManager of the container), and what was published on DefaultEventBus, in order.
pub record Process : Type 0 where
  pub store : Store
  pub protocols : Dict Protocol
  pub published : List (Text × Protocol)

-- RegisterProtocol and GetProtocolSetup: a setup makes a protocol of its kind.
unfoldable pub register_protocol : Text → ProtocolKind → Dict ProtocolKind → Dict ProtocolKind
register_protocol t kind setups = insert t kind setups

unfoldable pub get_protocol_setup : Text → Dict ProtocolKind → Option ProtocolKind
get_protocol_setup t setups = lookup t setups

-- An id with a colon stands for itself; another is joined with the group and the index.
unfoldable pub build_protocol_id : Text → Text → ℤ → Text
build_protocol_id id group index =
    if contains_byte b':' id then id else id ++ (b':' ∷ (group ++ (b':' ∷ itoa index)))

pub data DeployError : Type 0 where
  protocol_type_not_support : DeployError

unfoldable pub get_protocol :
    Dict ProtocolKind → Text → Text → DeviceGroup → List DeviceInfo → Option Protocol
unfolding get_protocol_setup
get_protocol setups t id group infos = elim (get_protocol_setup t setups) [
  | none ↦ none
  | some kind ↦
      some (record { kind = kind; protocol_id = id; device_group = group; device_infos = infos })
]

-- The process after a protocol was started, published and registered.
abbrev pub entered : Protocol → Process → Store → Process
entered p s store = record {
  store = store;
  protocols = (register_if_absent p.protocol_id p s.protocols).1;
  published = s.published ++ (protocol_deploy_success, p) ∷ [];
}

unfoldable pub run_protocol : Network → ℕ → DeployRequest → Protocol → Process → Outcome Process
run_protocol net id request p s = do
  store ← start net id (set_context request.properties) p s.store
  ok (entered p s store)

-- &DeviceGroup{DeviceGroupId: group}
abbrev pub group_of : Text → DeviceGroup
group_of group = record { device_group_name = []; device_group_id = group }

-- The loop of Deploy over the groups, in the order in which Go comes to them. It ends at the first
-- group whose id is registered.
unfoldable pub deploy_groups :
    Network
    → ℕ
    → Dict ProtocolKind
    → DeployRequest
    → Dict (List DeviceInfo)
    → Process
    → Outcome (Option DeployError × Process)
unfolding get_protocol run_protocol
deploy_groups net id setups request [] s = ok (none, s)
deploy_groups net id setups request ((group, infos) ∷ groups) s =
    let protocol_id = build_protocol_id request.protocol_id group request.number_index in
    elim (get protocol_id s.protocols) [
      | some running ↦ ok (none, s)
      | none ↦ elim (get_protocol setups request.protocol_type protocol_id (group_of group) infos) [
        | none ↦ ok (some protocol_type_not_support, s)
        | some p ↦ do
          s' ← run_protocol net id request p s
          deploy_groups net id setups request groups s'
      ]
    ]

unfoldable pub deploy :
    Network
    → ℕ
    → Dict ProtocolKind
    → DeployRequest
    → Process
    → Outcome (Option DeployError × Process)
unfolding deploy_groups
deploy net id setups request s = deploy_groups net id setups request request.device_info_map s

abbrev status_ok : ℕ
status_ok = 200

abbrev status_bad_request : ℕ
status_bad_request = 400

abbrev deploy_reply : Option DeployError × Process → ℕ × Process
deploy_reply (none, s) = (status_ok, s)
deploy_reply (some e, s) = (status_bad_request, s)

-- The handlers take the request, or none if its body cannot be read as one, and return a status.
unfoldable pub deal_deploy_request :
    Network → ℕ → Dict ProtocolKind → Option DeployRequest → Process → Outcome (ℕ × Process)
unfolding deploy
deal_deploy_request net id setups none s = ok (status_bad_request, s)
deal_deploy_request net id setups (some request) s = do
  outcome ← deploy net id setups request s
  ok (deploy_reply outcome)

-- Stop of a ProtocolWrapper.
unfoldable pub stop_protocol : Network → Protocol → Process → Process
stop_protocol net p s = record s {
  store = stop net p s.store;
  published = s.published ++ (protocol_un_deploy_success, p) ∷ [];
}

unfoldable pub undeploy_id : UnDeployRequest → Text
undeploy_id request =
    build_protocol_id request.protocol_id request.device_group.device_group_id request.number_index

unfoldable pub deal_un_deploy_request : Network → Option UnDeployRequest → Process → ℕ × Process
unfolding stop_protocol undeploy_id
deal_un_deploy_request net none s = (status_bad_request, s)
deal_un_deploy_request net (some request) s = elim (get (undeploy_id request) s.protocols) [
  | none ↦ (status_ok, s)
  | some p ↦ (status_ok, stop_protocol net p s)
]

-- On a shutdown signal every protocol is stopped.
stop_each : Network → List Protocol → Process → Process
unfolding stop_protocol
stop_each net [] s = s
stop_each net (p ∷ ps) s = stop_each net ps (stop_protocol net p s)

unfoldable pub shutdown : Network → Process → Process
unfolding stop_each
shutdown net s = stop_each net (get_all s.protocols) s

abbrev pub running : Text
running = codes "RUNNING"

abbrev pub pending : Text
pending = codes "PENDING"

module _ (o : Outside) where
  open o use {State, get}

  -- KeyExists of pkg/protocol/register/etcd_register.go
  unfoldable pub key_exists : Text → Run State Bool
  key_exists key s =
      let (found, s') = get key false s in
      (elim found [ none ↦ false | some [] ↦ false | some (kv ∷ kvs) ↦ true ], s')

  unfoldable pub get_protocol_status :
      NodeInfo → Dict Protocol → Option ProtocolInfo → Run State (ℕ × Option Text)
  unfolding key_exists
  get_protocol_status node protocols none s = ((status_bad_request, none), s)
  get_protocol_status node protocols (some info) s =
      elim (zingthings.Core.Protocol.get info.id protocols) [
        | none ↦ ((status_ok, some pending), s)
        | some p ↦
            let (exists, s') =
              key_exists (protocol_key (record info { address = build_address node })) s in
            ((status_ok, some (if exists then running else pending)), s')
      ]
