-- ===== src/Deploy/Query.antt =====
-- What the coordinator asks of etcd (getAllAlive, getAlive and checkProtocolAlreadyAlive of
-- pkg/deploy/protocol_coordinator.go).
use zingthings.Base.{Bool, true, false, Option, none, some, List, [], ◌∷◌, if◌then◌else◌}
use zingthings.Core.Info.{NodeInfo, ProtocolInfo, build_address, protocol_key, complete_path}
use zingthings.Core.Document.{unmarshal_node, unmarshal_protocol, marshal_protocol}
use zingthings.Outside.{Outside, Run, KeyValue, pure, ◌>>=◌}
use zingthings.Deploy.Balance.{Coordinator, select_node}

-- The nodes of the values that can be read, in their order.
unfoldable pub nodes_of : List KeyValue → List NodeInfo
nodes_of [] = []
nodes_of (kv ∷ kvs) =
    let rest = nodes_of kvs in elim (unmarshal_node kv.value) [ none ↦ rest | some n ↦ n ∷ rest ]

-- get.Count > 0
abbrev pub is_found : List KeyValue → Bool
is_found [] = false
is_found (kv ∷ kvs) = true

-- The range over a nil list has no turns.
abbrev pub or_empty : Option (List NodeInfo) → List NodeInfo
or_empty none = []
or_empty (some nodes) = nodes

module _ (o : Outside) where
  open o use {State, get}

  -- none is Go's nil, after an error.
  unfoldable pub get_all_alive : Run State (Option (List NodeInfo))
  unfolding nodes_of
  get_all_alive = do
    found ← get complete_path true
    pure (elim found [ none ↦ none | some kvs ↦ some (nodes_of kvs) ])

  unfoldable pub get_alive : Coordinator → Run State (Option NodeInfo × Coordinator)
  unfolding get_all_alive select_node
  get_alive c = do alive ← get_all_alive; pure (select_node (or_empty alive) c)

  -- The loop over the live containers: whether one of them runs the protocol.
  alive_loop : ProtocolInfo → List NodeInfo → Run State Bool
  alive_loop p [] = pure false
  alive_loop p (v ∷ nodes) = elim (unmarshal_protocol (marshal_protocol p)) [
    | none ↦ pure false
    | some copy ↦ do
      found ← get (protocol_key (record copy { address = build_address v })) false
      elim found [
        | none ↦ pure false
        | some kvs ↦ if is_found kvs then pure true else alive_loop p nodes
      ]
  ]

  -- Its node is nil on every path, so the answer is the Boolean alone.
  unfoldable pub check_protocol_already_alive : ProtocolInfo → Run State Bool
  unfolding get_all_alive alive_loop
  check_protocol_already_alive p = do
    alive ← get_all_alive
    elim alive [ none ↦ pure false | some nodes ↦ alive_loop p nodes ]
