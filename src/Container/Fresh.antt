-- ===== src/Container/Fresh.antt =====
-- Deploying a new protocol (Deploy of pkg/protocol/container/container.go).
use zingthings.Base.{ℕ, ◌≡◌, refl, none, some, List, [], ◌∷◌, ◌++◌, ok, ◌∙◌, ap}
use zingthings.Base.Text.{Text, text_eq_refl}
use zingthings.Base.Dict.{Dict}
use zingthings.Core.Types.{DeviceInfo, DeployRequest}
use zingthings.Core.Protocol.{
  set_context, Protocol, ProtocolKind, http_client, http_client_type, get,
}
use zingthings.Core.Channel.{Store}
use zingthings.Extension.{Network, start}
use zingthings.Extension.Lifecycle.{IsOpened, start_http_client-opens}
use zingthings.Container.{
  Process, entered, build_protocol_id, get_protocol, get_protocol_setup, run_protocol,
  deploy_groups, deploy, group_of, protocol_deploy_success,
}
use zingthings.Container.Deployment.{lookup-register_if_absent}

-- The protocol that is set up for a group.
abbrev pub protocol_of : ProtocolKind → Text → Text → List DeviceInfo → Protocol
protocol_of kind id group infos = record {
  kind = kind;
  protocol_id = id;
  device_group = group_of group;
  device_infos = infos;
}

entered-get :
    (p : Protocol) (s : Process) (store : Store)
    → get p.protocol_id s.protocols ≡ none
    → get p.protocol_id (entered p s store).protocols ≡ some p
unfolding get
entered-get p s store new =
    lookup-register_if_absent p.protocol_id p.protocol_id p s.protocols
    ∙ rw (new, text_eq_refl p.protocol_id) refl

module _ (net : Network) (id : ℕ) (setups : Dict ProtocolKind) (request : DeployRequest) where
  get_protocol-setup :
      (i group : Text) (infos : List DeviceInfo) (kind : ProtocolKind)
      → get_protocol_setup request.protocol_type setups ≡ some kind
      → get_protocol setups request.protocol_type i (group_of group) infos
        ≡ some (protocol_of kind i group infos)
  unfolding get_protocol
  get_protocol-setup i group infos kind e = rw (e, get_protocol) refl

  run_protocol-start :
      (p : Protocol) (s : Process) (store : Store)
      → start net id (set_context request.properties) p s.store ≡ ok store
      → run_protocol net id request p s ≡ ok (entered p s store)
  unfolding run_protocol
  run_protocol-start p s store e = rw e refl

  deploy_groups-new :
      (group : Text) (infos : List DeviceInfo) (groups : Dict (List DeviceInfo)) (s s' : Process)
      (p : Protocol)
      → let protocol_id = build_protocol_id request.protocol_id group request.number_index in
        get protocol_id s.protocols ≡ none
        → get_protocol setups request.protocol_type protocol_id (group_of group) infos ≡ some p
        → run_protocol net id request p s ≡ ok s'
        → deploy_groups net id setups request ((group, infos) ∷ groups) s
          ≡ deploy_groups net id setups request groups s'
  unfolding deploy_groups
  deploy_groups-new group infos groups s s' p new at_p runs =
      rw (new, at_p, runs, deploy_groups) refl

-- Deploying an HTTP client for one group under an id that is new ends without an error: the
-- protocol is registered and published, and its devices have a channel of its type.
pub deploy_http_client :
    (net : Network) (id : ℕ) (setups : Dict ProtocolKind) (request : DeployRequest) (group : Text)
    (infos : List DeviceInfo) (s : Process)
    → request.device_info_map ≡ (group, infos) ∷ []
    → get_protocol_setup request.protocol_type setups ≡ some http_client
    → let protocol_id = build_protocol_id request.protocol_id group request.number_index in
      let p = protocol_of http_client protocol_id group infos in
      get protocol_id s.protocols ≡ none
      → (s' : Process) × (deploy net id setups request s ≡ ok (none, s'))
        × (get protocol_id s'.protocols ≡ some p)
        × (s'.published ≡ s.published ++ (protocol_deploy_success, p) ∷ [])
        × IsOpened p http_client_type s.store s'.store
unfolding deploy deploy_groups
deploy_http_client net id setups request group infos s e kind new =
    let protocol_id = build_protocol_id request.protocol_id group request.number_index in
    let p = protocol_of http_client protocol_id group infos in
    let (store, started, opened) =
      start_http_client-opens net id (set_context request.properties) p s.store refl in
    (
      entered p s store,
      ap (λ groups. deploy_groups net id setups request groups s) e
          ∙ deploy_groups-new net id setups request group infos [] s (entered p s store) p new
              (get_protocol-setup net id setups request protocol_id group infos http_client kind)
              (run_protocol-start net id setups request p s store started),
      entered-get p s store new,
      refl,
      opened,
    )
