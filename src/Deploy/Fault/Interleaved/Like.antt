-- ===== src/Deploy/Fault/Interleaved/Like.antt =====
-- That the reaction to a fault leaves a coordinator its node and the nodes that it knows
-- (pkg/deploy/protocol_coordinator.go).
use zingthings.Base.{
  ◌≡◌, refl, Bool, true, false, Option, none, some, List, [], ◌∷◌, if◌then◌else◌, Outcome, ok,
  panics, diverges,
}
use zingthings.Core.Info.{NodeInfo, ProtocolInfo}
use zingthings.Outside.{Outside, Run, KeyValue}
use zingthings.Deploy.Balance.{Coordinator, next, select_node}
use zingthings.Deploy.Query.{get_alive, get_all_alive, or_empty, check_protocol_already_alive}
use zingthings.Deploy.Dispatch.{dispatch_to_alive, dispatch_chosen}
use zingthings.Deploy.Schedule.{is_own_slot}
use zingthings.Deploy.Fault.{
  FaultEvent, Fault, goes_on, ended, crashed, container_put, container_deleted, protocol_deleted,
  recover_put, on_fault_event, dispatch_ignored, dispatch_found, on_protocol_deleted,
  recover_scheduled, on_recover_put, goes_on_if,
}

-- A coordinator that has the node and the nodes of another.
abbrev pub IsLike : Coordinator → Coordinator → Type 0
IsLike c d = (d.current_node ≡ c.current_node) × (d.all_nodes ≡ c.all_nodes)

abbrev pub IsLikeIn : Coordinator → Fault → Type 0
IsLikeIn c (goes_on d) = IsLike c d
IsLikeIn c ended = Unit {0}
IsLikeIn c crashed = Unit {0}

next-IsLike : (nodes : List NodeInfo) (c : Coordinator) → IsLike c (next nodes c).1
unfolding next
next-IsLike [] c = (refl, refl)
next-IsLike (n ∷ nodes) c = (refl, refl)

select_node-IsLike : (nodes : List NodeInfo) (c : Coordinator) → IsLike c (select_node nodes c).1
unfolding select_node
select_node-IsLike nodes c = by_choice c.load_balance
  where
    by_choice :
        (choice : Option (List NodeInfo → Option NodeInfo))
        → IsLike c
            (elim choice as (λ l. Option NodeInfo × Coordinator) [
              | none ↦ next nodes c
              | some choose ↦ (choose nodes, c)
            ]).1
    by_choice none = next-IsLike nodes c
    by_choice (some choose) = (refl, refl)

module _ (o : Outside) where
  open o use {State}

  alive-IsLike : (c : Coordinator) (s : State) → IsLike c (get_alive o c s).0.1
  unfolding get_alive
  alive-IsLike c s = select_node-IsLike (or_empty (get_all_alive o s).0) c

  dispatch_to_alive-IsLike :
      (c : Coordinator) (p : ProtocolInfo) (s : State) → IsLike c (dispatch_to_alive o c p s).0.1
  unfolding dispatch_to_alive
  dispatch_to_alive-IsLike c p s =
      by_chosen (get_alive o c s).0.0 (get_alive o c s).0.1 (get_alive o c s).1 (alive-IsLike c s)
    where
      by_chosen :
          (n : Option NodeInfo) (d : Coordinator) (t : State)
          → IsLike c d
          → IsLike c
              (elim n as (λ n. Run State (Option (Option NodeInfo × Bool) × Coordinator)) [
                | none ↦ λ s. ((some (none, false), d), s)
                | some alive ↦ λ s.
                    let (already, s1) = check_protocol_already_alive o p s in
                    let (answer, s2) = dispatch_chosen o p alive already s1 in ((answer, d), s2)
              ]
                t).0.1
      by_chosen none d t h = h
      by_chosen (some alive) d t h = h

  dispatch_found-IsLike :
      (c : Coordinator) (p : ProtocolInfo) (found : Option (List KeyValue)) (s : State)
      → IsLikeIn c (dispatch_found o c p found s).0
  unfolding dispatch_found dispatch_ignored
  dispatch_found-IsLike c p none s = (refl, refl)
  dispatch_found-IsLike c p (some []) s = (refl, refl)
  dispatch_found-IsLike c p (some (kv ∷ kvs)) s =
      by_nodes c.all_nodes (is_own_slot c.current_node c.all_nodes p)
    where
      by_nodes :
          (all : List NodeInfo) (own : Bool)
          → IsLikeIn c
              ((elim all as (λ all. Run State Fault) [
                | [] ↦ λ s. (goes_on c, s)
                | n ∷ nodes ↦ if own then dispatch_ignored o c p else λ s. (goes_on c, s)
              ])
                s).0
      by_nodes [] own = (refl, refl)
      by_nodes (n ∷ nodes) true = dispatch_to_alive-IsLike c p s
      by_nodes (n ∷ nodes) false = (refl, refl)

  on_protocol_deleted-IsLike :
      (c : Coordinator) (p : Option ProtocolInfo) (s : State)
      → IsLikeIn c (on_protocol_deleted o c p s).0
  unfolding on_protocol_deleted
  on_protocol_deleted-IsLike c none s = (refl, refl)
  on_protocol_deleted-IsLike c (some p) s = dispatch_found-IsLike c p _ _

  recover_scheduled-IsLike :
      (c : Coordinator) (key : _) (r : Outcome (Option ProtocolInfo)) (s : State)
      → IsLikeIn c (recover_scheduled o c key r s).0
  unfolding recover_scheduled dispatch_ignored
  recover_scheduled-IsLike c key (ok none) s = (refl, refl)
  recover_scheduled-IsLike c key (ok (some p)) s = dispatch_to_alive-IsLike c p s
  recover_scheduled-IsLike c key panics s = tt
  recover_scheduled-IsLike c key diverges s = tt

  on_recover_put-IsLike :
      (c : Coordinator) (key : _) (n : Option NodeInfo) (s : State)
      → IsLikeIn c (on_recover_put o c key n s).0
  unfolding on_recover_put
  on_recover_put-IsLike c key none s = (refl, refl)
  on_recover_put-IsLike c key (some n) s = recover_scheduled-IsLike c key _ _

  goes_on_if-IsLike : (c : Coordinator) (b : Bool) → IsLikeIn c (goes_on_if o c b)
  unfolding goes_on_if
  goes_on_if-IsLike c true = (refl, refl)
  goes_on_if-IsLike c false = tt

  pub on_fault_event-IsLike :
      (e : FaultEvent) (c : Coordinator) (s : State) → IsLikeIn c (on_fault_event o e c s).0
  unfolding on_fault_event
  on_fault_event-IsLike (container_put v) c s = goes_on_if-IsLike c _
  on_fault_event-IsLike (container_deleted v) c s = goes_on_if-IsLike c _
  on_fault_event-IsLike (protocol_deleted v) c s = on_protocol_deleted-IsLike c _ s
  on_fault_event-IsLike (recover_put kv) c s = on_recover_put-IsLike c kv.key _ s
