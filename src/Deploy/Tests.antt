-- ===== src/Deploy/Tests.antt =====
-- The theorems on the coordinator (pkg/deploy/protocol_coordinator.go) at one example each, with
-- etcd as a map and one container that runs what it is given.
use zingthings.Base.{
  suc, length, ◌≤◌, ◌↔◌, ◌⊎◌, false, ℕ, ◌≡◌, ◌≢◌, refl, Bool, true, Option, none, some, List, [],
  ◌∷◌, if◌then◌else◌, arith, ok, panics, keep,
}
use zingthings.Base.Text.{Text, codes, text_eq, has_prefix}
use zingthings.Base.Int.{pos, int_eq, itoa, nat_text}
use zingthings.Base.Dict.{Dict, lookup, insert, delete}
use zingthings.Core.Info.{
  same_node, NodeInfo, ProtocolInfo, build_protocol_key, build_key, build_address, node_key,
  protocol_key, info_key,
}
use zingthings.Core.Document.{
  fits_int64, unmarshal_protocol, Document, detail, marshal_node, unmarshal_node, marshal_protocol,
}
use zingthings.Outside.{Outside, KeyValue}
use zingthings.Deploy.Nodes.{
  WatchEvent, put, deleted, on_event, on_events, delete_node, knows, IsDistinct, get_current_slot,
}
use zingthings.Deploy.Nodes.Membership.{on_events-IsDistinct, knows-on_events, after_events}
use zingthings.Deploy.Balance.{Coordinator, next_run, turns, wrapped, next_run-turns}
use zingthings.Deploy.Query.{get_alive, check_protocol_already_alive}
use zingthings.Deploy.Dispatch.{dispatch_to_alive}
use zingthings.Deploy.Dispatch.Bounds.{IsDispatched, dispatch_to_alive-IsDispatched}
use zingthings.Deploy.Hash.{string_to_hash_code}
use zingthings.Deploy.Schedule.{
  is_own_slot, pick_own, build_need_dispatch_protocol, get_schedule_one_protocol,
}
use zingthings.Deploy.Schedule.Bounded.{
  is_free, take, build_need_dispatch_protocol-take, length-build_need_dispatch_protocol,
}
use zingthings.Deploy.Server.{replica_info, replica_request}
use zingthings.Deploy.Server.Replicas.{replica_info-replica_request}
use zingthings.Container.{build_protocol_id}
use zingthings.Base.Text.{contains_byte}
use zingthings.Core.Types.{DeployRequest}
use zingthings.Deploy.Fault.{goes_on, protocol_deleted, on_fault_event}
use zingthings.Deploy.Fault.Exclusive.{protocol_deleted-once}
use zingthings.Deploy.Fault.Interleaved.{System, Reach, start, later, watch}
use zingthings.Deploy.Fault.Interleaved.Exclusion.{interleaved_once}
use zingthings.Deploy.Nodes.Order.{seen_by_first, seen_by_second, started_in_turn}

abbrev node : ℕ → NodeInfo
node n = record { host = codes "n"; port = pos n; timestamp = pos 0 }

abbrev nodes : List NodeInfo
nodes = node 1 ∷ node 2 ∷ []

abbrev history : List WatchEvent
history = put (marshal_node (node 3)) ∷ deleted (marshal_node (node 1)) ∷ []

nodes-IsDistinct : IsDistinct nodes
unfolding knows same_node text_eq int_eq
nodes-IsDistinct = (refl, (refl, tt))

on_events-IsDistinct_example : IsDistinct (on_events history nodes)
on_events-IsDistinct_example = on_events-IsDistinct history nodes nodes-IsDistinct

knows-on_events_example :
    knows (node 1) (on_events history nodes) ≡ after_events (node 1) history (knows (node 1) nodes)
knows-on_events_example = knows-on_events history (node 1) nodes

abbrev coordinator : Coordinator
coordinator = record {
  current_node = node 1;
  all_nodes = nodes;
  load_balance = none;
  load_balance_index = 1;
}

next_run-turns_example : next_run 3 nodes coordinator ≡ turns 3 nodes (wrapped 1 2)
next_run-turns_example = next_run-turns 3 (node 1) (node 2 ∷ []) coordinator

-- etcd as a map.
abbrev entries : (Text → Bool) → Dict Document → List KeyValue
entries test [] = []
entries test ((k, d) ∷ m) =
    let rest = entries test m in if test k then record { key = k; value = d } ∷ rest else rest

abbrev memory : Outside
memory = record {
  State = Dict Document;
  get = λ k prefix m. (some (entries (if prefix then has_prefix k else text_eq k) m), m);
  put = λ k d m. (true, insert k d m);
  delete = λ k m. (true, delete k m);
  post = λ url body m. (
    some (record {
      status_code = 200;
      response = some (record { code = pos 1; message = []; status = some (codes "RUNNING") });
    }),
    m,
  );
  now = λ m. (pos 0, m);
}

abbrev protocol : Text → ProtocolInfo
protocol id = record {
  id = id;
  timestamp = pos 0;
  protocol_type = codes "HTTP_CLIENT";
  address = codes "n:9";
}

abbrev etcd : Dict Document
etcd =
    (build_key (node 1), marshal_node (node 1))
    ∷ (node_key (protocol (codes "p")), marshal_protocol (protocol (codes "p")))
    ∷ (node_key (protocol (codes "q")), marshal_protocol (protocol (codes "q")))
    ∷ (
      info_key (protocol (codes "p")),
      detail (record {
        device_group = record { device_group_name = []; device_group_id = codes "g" };
        device_infos = [];
      }),
    )
    ∷ []

dispatch_to_alive-IsDispatched_example :
    let (chosen, s') = get_alive memory coordinator etcd in
    IsDispatched chosen.0
      (check_protocol_already_alive memory (protocol (codes "p")) s').0
      (dispatch_to_alive memory coordinator (protocol (codes "p")) etcd).0.0
dispatch_to_alive-IsDispatched_example =
    dispatch_to_alive-IsDispatched memory coordinator (protocol (codes "p")) etcd

-- etcd that stays as it is.
abbrev answer : Text → Bool → Option (List KeyValue)
answer k prefix = some (entries (if prefix then has_prefix k else text_eq k) etcd)

abbrev fixed : Outside
fixed = record memory { get = λ k prefix m. (answer k prefix, m) }

build_need_dispatch_protocol-take_example :
    (build_need_dispatch_protocol fixed nodes (node 9) []).0
    ≡ (elim (answer (build_protocol_key (node 9)) true) [
      | none ↦ panics
      | some kvs ↦ ok (take 2 (keep (is_free answer) kvs))
    ])
build_need_dispatch_protocol-take_example =
    build_need_dispatch_protocol-take fixed answer (λ k b s. refl) nodes (node 9) []

abbrev wanted : DeployRequest
wanted = record {
  number_index = pos 0;
  protocol_id = codes "p:1";
  device_info_map = [];
  properties = [];
  protocol_type = codes "HTTP_CLIENT";
}

replica_info-replica_request_example :
    let given = replica_request wanted (codes "g") [] 2 in
    (build_protocol_id given.protocol_id (codes "g") given.number_index
      ≡ (replica_info wanted (codes "g") 2 (pos 0)).id)
    ↔ (contains_byte b':' wanted.protocol_id ≡ false)
replica_info-replica_request_example = replica_info-replica_request wanted (codes "g") [] 2 (pos 0)

abbrev second : Coordinator
second = record coordinator { current_node = node 2 }

protocol_deleted-once_example :
    (on_fault_event memory
        (protocol_deleted (marshal_protocol (protocol (codes "q"))))
        coordinator
        etcd
      ≡ (goes_on coordinator, etcd))
    ⊎ (on_fault_event memory
          (protocol_deleted (marshal_protocol (protocol (codes "q"))))
          second
          etcd
        ≡ (goes_on second, etcd))
unfolding unmarshal_protocol marshal_protocol lookup text_eq fits_int64
protocol_deleted-once_example =
    protocol_deleted-once memory coordinator second 0 1 (marshal_protocol (protocol (codes "q")))
      (protocol (codes "q")) etcd etcd refl nodes-IsDistinct refl refl (omega arith) refl

-- The record of a protocol by node.
abbrev record_of : Text → KeyValue
record_of id = record { key = node_key (protocol id); value = marshal_protocol (protocol id) }

length-build_need_dispatch_protocol_example :
    length (record_of (codes "p") ∷ record_of (codes "q") ∷ []) ≤ length nodes
unfolding string_to_hash_code same_node int_eq build_need_dispatch_protocol has_prefix
    build_protocol_key build_key node_key build_address itoa nat_text unmarshal_protocol
    marshal_protocol lookup text_eq fits_int64 protocol_key info_key
length-build_need_dispatch_protocol_example =
    length-build_need_dispatch_protocol fixed nodes (node 9)
      (record_of (codes "p") ∷ record_of (codes "q") ∷ []) [] refl

-- Two coordinators, each of which has seen that a third node is gone.
abbrev third_gone : List WatchEvent
third_gone = deleted (marshal_node (node 3)) ∷ []

abbrev both_saw : (s : System fixed) × Reach fixed third_gone (λ i. node (suc i)) nodes s
both_saw = (
  _,
  later (later (start []) (watch 0 (deleted (marshal_node (node 3))) refl))
      (watch 1 (deleted (marshal_node (node 3))) refl),
)

interleaved_once_example : (protocol (codes "q")).id ≢ (protocol (codes "p")).id
unfolding get_schedule_one_protocol string_to_hash_code get_current_slot same_node int_eq
    is_own_slot pick_own build_need_dispatch_protocol has_prefix build_protocol_key build_key
    node_key build_address itoa nat_text unmarshal_protocol marshal_protocol lookup text_eq
    fits_int64 protocol_key info_key on_events on_event delete_node unmarshal_node marshal_node
interleaved_once_example =
    interleaved_once fixed third_gone (λ i. node (suc i)) nodes 0 1 0 1 (node 9) (node 9)
      (protocol (codes "q")) (protocol (codes "p")) [] [] both_saw.1 nodes-IsDistinct refl refl refl
      (omega arith) refl refl

started_in_turn_example :
    (get_current_slot (node 2) (seen_by_first (node 2) (node 1)) ≡ 0)
    × (get_current_slot (node 1) (seen_by_second (node 2) (node 1)) ≡ 0)
    × ((p : ProtocolInfo)
        → is_own_slot (node 2) (seen_by_first (node 2) (node 1)) p
          ≡ is_own_slot (node 1) (seen_by_second (node 2) (node 1)) p)
unfolding fits_int64 same_node text_eq int_eq
started_in_turn_example = started_in_turn (node 2) (node 1) (refl, refl) (refl, refl) refl
