-- ===== src/Deploy/Fault/Exclusive.antt =====
-- That at most one coordinator acts on the loss of a protocol (fault of
-- pkg/deploy/protocol_coordinator.go).
use zingthings.Base.{
  ℕ, ◌%◌, ◌≡◌, ◌≢◌, ◌⊎◌, inl, inr, refl, true, false, Bool-cases, Option, none, some, List, [], ◌∷◌,
  if◌then◌else◌, length, get_elem?, arith, ap, ◌∙◌, sym,
}
use zingthings.Core.Info.{NodeInfo, ProtocolInfo, node_key}
use zingthings.Core.Document.{Document, unmarshal_protocol}
use zingthings.Outside.{Outside, Run, KeyValue}
use zingthings.Deploy.Balance.{Coordinator}
use zingthings.Deploy.Hash.{string_to_hash_code}
use zingthings.Deploy.Nodes.{get_current_slot, IsDistinct}
use zingthings.Deploy.Nodes.Slots.{get_current_slot-get_elem?}
use zingthings.Deploy.Schedule.{is_own_slot}
use zingthings.Deploy.Fault.{
  Fault, goes_on, protocol_deleted, dispatch_found, dispatch_ignored, on_protocol_deleted,
  on_fault_event,
}

slot-is_own_slot :
    (current : NodeInfo) (all : List NodeInfo) (p : ProtocolInfo)
    → is_own_slot current all p ≡ true
    → string_to_hash_code p.id % length all ≡ get_current_slot current all
unfolding is_own_slot
slot-is_own_slot current all p h = ground arith

-- Of two nodes with an entry each, at most one has the slot of a protocol.
one_idle :
    (all : List NodeInfo) (i j : ℕ) (a b : NodeInfo) (p : ProtocolInfo)
    → IsDistinct all
    → get_elem? all i ≡ some a
    → get_elem? all j ≡ some b
    → i ≢ j
    → (is_own_slot a all p ≡ false) ⊎ (is_own_slot b all p ≡ false)
one_idle all i j a b p d ei ej ne = elim (Bool-cases (is_own_slot a all p)) [
  | inr idles ↦ inl idles
  | inl own ↦ elim (Bool-cases (is_own_slot b all p)) [
    | inr idles ↦ inr idles
    | inl also ↦
        let slot_a = get_current_slot-get_elem? a i all d ei in
        let slot_b = get_current_slot-get_elem? b j all d ej in
        absurd (
          ne (
            sym slot_a
            ∙ sym (slot-is_own_slot a all p own)
            ∙ slot-is_own_slot b all p also
            ∙ slot_b))
  ]
]

module _ (o : Outside) where
  open o use {State, get}

  dispatch_found-idle :
      (c : Coordinator) (p : ProtocolInfo) (found : Option (List KeyValue)) (s : State)
      → is_own_slot c.current_node c.all_nodes p ≡ false
      → dispatch_found o c p found s ≡ (goes_on c, s)
  unfolding dispatch_found
  dispatch_found-idle c p none s h = refl
  dispatch_found-idle c p (some []) s h = refl
  dispatch_found-idle c p (some (kv ∷ kvs)) s h = by_nodes c.all_nodes
    where
      by_nodes :
          (all : List NodeInfo)
          → (elim all as (λ all. Run State Fault) [
            | [] ↦ λ s. (goes_on c, s)
            | n ∷ nodes ↦
                if is_own_slot c.current_node c.all_nodes p then dispatch_ignored o c p else λ s.
                (goes_on c, s)
          ])
              s
            ≡ (goes_on c, s)
      by_nodes [] = refl
      by_nodes (n ∷ nodes) = rw h refl

  idle :
      (c : Coordinator) (v : Document) (p : ProtocolInfo) (s : State)
      → unmarshal_protocol v ≡ some p
      → is_own_slot c.current_node c.all_nodes p ≡ false
      → on_fault_event o (protocol_deleted v) c s ≡ (goes_on c, (get (node_key p) false s).1)
  unfolding on_fault_event on_protocol_deleted
  idle c v p s e h =
      ap (λ q. on_protocol_deleted o c q s) e
      ∙ dispatch_found-idle c p (get (node_key p) false s).0 (get (node_key p) false s).1 h

  pub protocol_deleted-once :
      (c d : Coordinator) (i j : ℕ) (v : Document) (p : ProtocolInfo) (s t : State)
      → c.all_nodes ≡ d.all_nodes
      → IsDistinct c.all_nodes
      → get_elem? c.all_nodes i ≡ some c.current_node
      → get_elem? c.all_nodes j ≡ some d.current_node
      → i ≢ j
      → unmarshal_protocol v ≡ some p
      → (on_fault_event o (protocol_deleted v) c s ≡ (goes_on c, (get (node_key p) false s).1))
        ⊎ (on_fault_event o (protocol_deleted v) d t ≡ (goes_on d, (get (node_key p) false t).1))
  protocol_deleted-once c d i j v p s t same distinct ei ej ne e =
      elim (one_idle c.all_nodes i j c.current_node d.current_node p distinct ei ej ne) [
        | inl idles ↦ inl (idle c v p s e idles)
        | inr idles ↦
            inr (idle d v p t e (ap (λ all. is_own_slot d.current_node all p) (sym same) ∙ idles))
      ]
