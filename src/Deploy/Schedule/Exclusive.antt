-- ===== src/Deploy/Schedule/Exclusive.antt =====
-- That no two coordinators schedule the same protocol (getScheduleOneProtocol of
-- pkg/deploy/protocol_coordinator.go).
use zingthings.Base.{
  ℕ, ◌%◌, ◌≡◌, ◌≢◌, some, List, [], ◌∷◌, length, get_elem?, arith, ok, panics, diverges, Outcome,
  sym, ◌∙◌,
}
use zingthings.Core.Info.{NodeInfo, ProtocolInfo}
use zingthings.Outside.{Outside, KeyValue}
use zingthings.Deploy.Nodes.{get_current_slot, IsDistinct}
use zingthings.Deploy.Nodes.Slots.{get_current_slot-get_elem?}
use zingthings.Deploy.Hash.{string_to_hash_code}
use zingthings.Deploy.Schedule.{
  pick_own, pick_from, is_own_slot, get_schedule_one_protocol, build_need_dispatch_protocol,
}

abbrev slot_of : List NodeInfo → ProtocolInfo → ℕ
slot_of all p = string_to_hash_code p.id % length all

pick_own-slot :
    (current : NodeInfo) (all : List NodeInfo) (kvs : List KeyValue) (p : ProtocolInfo)
    → pick_own current all kvs ≡ some p
    → slot_of all p ≡ get_current_slot current all
unfolding pick_own is_own_slot
pick_own-slot current all [] p e = cc
pick_own-slot current all (kv ∷ kvs) p e = ground (arith, pick_own-slot current all kvs p)

pick_from-slot :
    (current : NodeInfo) (all : List NodeInfo) (r : Outcome (List KeyValue)) (p : ProtocolInfo)
    → pick_from current all r ≡ ok (some p)
    → slot_of all p ≡ get_current_slot current all
unfolding pick_from
pick_from-slot current all (ok kvs) p e = pick_own-slot current all kvs p cc
pick_from-slot current all panics p e = cc
pick_from-slot current all diverges p e = cc

-- A protocol that is scheduled has the slot of the coordinator's own node, whatever etcd answers.
pub get_schedule_one_protocol-slot :
    (o : Outside) (current n : NodeInfo) (all : List NodeInfo) (p : ProtocolInfo) (s : o.State)
    → (get_schedule_one_protocol o current all n s).0 ≡ ok (some p)
    → string_to_hash_code p.id % length all ≡ get_current_slot current all
unfolding get_schedule_one_protocol
get_schedule_one_protocol-slot o current n [] p s e = cc
get_schedule_one_protocol-slot o current n (m ∷ all) p s e =
    pick_from-slot current (m ∷ all) (build_need_dispatch_protocol o (m ∷ all) n s).0 p e

-- Two coordinators that know the same nodes, one entry for each, and run on different ones of them
-- never schedule protocols with the same id, whatever etcd answers to each.
pub scheduled_once :
    (o : Outside) (all : List NodeInfo) (i j : ℕ) (a b n m : NodeInfo) (p q : ProtocolInfo)
    (s t : o.State)
    → IsDistinct all
    → get_elem? all i ≡ some a
    → get_elem? all j ≡ some b
    → i ≢ j
    → (get_schedule_one_protocol o a all n s).0 ≡ ok (some p)
    → (get_schedule_one_protocol o b all m t).0 ≡ ok (some q)
    → p.id ≢ q.id
scheduled_once o all i j a b n m p q s t d ei ej ne ep eq same =
    let slot_a = get_current_slot-get_elem? a i all d ei in
    let slot_b = get_current_slot-get_elem? b j all d ej in
    let own_p = get_schedule_one_protocol-slot o a n all p s ep in
    let own_q = get_schedule_one_protocol-slot o b m all q t eq in
    ne (sym slot_a ∙ sym own_p ∙ rw same own_q ∙ slot_b)
