-- ===== src/Deploy/Fault.antt =====
-- The watches by which a coordinator reacts to containers and protocols that are gone (fault of
-- pkg/deploy/protocol_coordinator.go). An event is one step; the events of one response come one
-- after the other.
pub mod Exclusive
pub mod Interleaved
use zingthings.Base.{
  ℕ, Bool, true, false, not, Option, none, some, List, [], ◌∷◌, if◌then◌else◌, is_some, Outcome, ok,
  panics, diverges,
}
use zingthings.Base.Text.{Text, codes}
use zingthings.Base.Int.{ℤ}
use zingthings.Base.Dict.{lookup}
use zingthings.Core.Info.{
  NodeInfo, ProtocolInfo, complete_recover, build_protocol_key, build_recover_key, node_key,
}
use zingthings.Core.Document.{
  Document, object, detail, malformed, unmarshal_node, marshal_node, unmarshal_protocol,
}
use zingthings.Outside.{Outside, Run, KeyValue, pure, ◌>>=◌}
use zingthings.Deploy.Balance.{Coordinator}
use zingthings.Deploy.Dispatch.{dispatch_to_alive}
use zingthings.Deploy.Schedule.{is_own_slot, get_schedule_one_protocol}

-- The events on which the loop acts: on the containers, the protocols and the recover keys.
pub data FaultEvent : Type 0 where
  container_put : Document → FaultEvent
  container_deleted : Document → FaultEvent
  protocol_deleted : Document → FaultEvent
  recover_put : KeyValue → FaultEvent

-- After an event the loop goes on, it has ended, or the process has panicked.
pub data Fault : Type 0 where
  goes_on : Coordinator → Fault
  ended : Fault
  crashed : Fault

has_timestamp : Document → Bool
has_timestamp (object fields) = is_some (lookup (codes "timestamp") fields)
has_timestamp (detail d) = false
has_timestamp malformed = false

-- json.Unmarshal into a node whose timestamp is set: a timestamp in the document overwrites it.
unfoldable pub unmarshal_onto : ℤ → Document → Option NodeInfo
unfolding has_timestamp
unmarshal_onto t v = elim (unmarshal_node v) [
  | none ↦ none
  | some n ↦ some (if has_timestamp v then n else record n { timestamp = t })
]

module _ (o : Outside) where
  open o use {State, get, put, delete, now}

  put_recover : Option NodeInfo → Run State Bool
  put_recover none = pure true
  put_recover (some n) = put (build_recover_key n) (marshal_node n)

  -- A container has come: every recover key is put again, which is an event for the recover watch.
  unfoldable pub recover_again : List KeyValue → Run State Bool
  unfolding put_recover unmarshal_onto
  recover_again [] = pure true
  recover_again (dv ∷ dvs) = do
    timestamp ← now
    done ← put_recover (unmarshal_onto timestamp dv.value)
    recover_again dvs

  recover_found : Option (List KeyValue) → Run State Bool
  unfolding recover_again
  recover_found none = pure true
  recover_found (some kvs) = recover_again kvs

  on_container_put : Option NodeInfo → Run State Bool
  unfolding recover_found
  on_container_put none = pure true
  on_container_put (some n) = do
    found ← get complete_recover true
    done ← recover_found found
    pure true

  -- A container is gone: if it has protocols, its recover key is put. If that fails, the loop ends.
  leave_recover : NodeInfo → Option (List KeyValue) → Run State Bool
  leave_recover n none = pure true
  leave_recover n (some []) = pure true
  leave_recover n (some (kv ∷ kvs)) = do
    timestamp ← now
    put (build_recover_key n) (marshal_node (record n { timestamp = timestamp }))

  on_container_deleted : Option NodeInfo → Run State Bool
  unfolding leave_recover
  on_container_deleted none = pure true
  on_container_deleted (some n) = do found ← get (build_protocol_key n) true; leave_recover n found

  dispatch_ignored : Coordinator → ProtocolInfo → Run State Fault
  dispatch_ignored c p = do answer ← dispatch_to_alive o c p; pure (goes_on answer.1)

  -- A protocol has lost its lease: it is dispatched if it is recorded by node and of the own slot.
  dispatch_found : Coordinator → ProtocolInfo → Option (List KeyValue) → Run State Fault
  unfolding dispatch_ignored
  dispatch_found c p none = pure (goes_on c)
  dispatch_found c p (some []) = pure (goes_on c)
  dispatch_found c p (some (kv ∷ kvs)) = elim (c.all_nodes) [
    | [] ↦ pure (goes_on c)
    | n ∷ nodes ↦
        if is_own_slot c.current_node c.all_nodes p then dispatch_ignored c p else pure (goes_on c)
  ]

  on_protocol_deleted : Coordinator → Option ProtocolInfo → Run State Fault
  unfolding dispatch_found
  on_protocol_deleted c none = pure (goes_on c)
  on_protocol_deleted c (some p) = do found ← get (node_key p) false; dispatch_found c p found

  -- A recover key was put: one protocol of the node is dispatched, or the key is deleted.
  recover_scheduled : Coordinator → Text → Outcome (Option ProtocolInfo) → Run State Fault
  unfolding dispatch_ignored
  recover_scheduled c key (ok none) = do done ← delete key; pure (goes_on c)
  recover_scheduled c key (ok (some p)) = dispatch_ignored c p
  recover_scheduled c key panics = pure crashed
  recover_scheduled c key diverges = pure crashed

  on_recover_put : Coordinator → Text → Option NodeInfo → Run State Fault
  unfolding recover_scheduled
  on_recover_put c key none = pure (goes_on c)
  on_recover_put c key (some n) = do
    scheduled ← get_schedule_one_protocol o c.current_node c.all_nodes n
    recover_scheduled c key scheduled

  goes_on_if : Coordinator → Bool → Fault
  goes_on_if c b = if b then goes_on c else ended

  unfoldable pub on_fault_event : FaultEvent → Coordinator → Run State Fault
  unfolding on_container_put on_container_deleted on_protocol_deleted on_recover_put goes_on_if
  on_fault_event (container_put v) c = do
    done ← on_container_put (unmarshal_node v)
    pure (goes_on_if c done)
  on_fault_event (container_deleted v) c = do
    done ← on_container_deleted (unmarshal_node v)
    pure (goes_on_if c done)
  on_fault_event (protocol_deleted v) c = on_protocol_deleted c (unmarshal_protocol v)
  on_fault_event (recover_put kv) c = on_recover_put c kv.key (unmarshal_node kv.value)
