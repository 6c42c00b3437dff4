-- ===== src/Deploy/Fault/Interleaved/Exclusion.antt =====
-- That interleaved coordinators do not schedule the same protocols
-- (pkg/deploy/protocol_coordinator.go).
use zingthings.Base.{
  ℕ, zero, suc, ◌≡◌, ◌≢◌, refl, ap, sym, ◌∙◌, Option, some, List, [], ◌∷◌, get_elem?, ◌==◌, ==_iff,
  Bool-cases, inl, inr, ok, subst,
}
use zingthings.Core.Info.{NodeInfo, ProtocolInfo}
use zingthings.Outside.{Outside}
use zingthings.Deploy.Balance.{Coordinator}
use zingthings.Deploy.Nodes.{WatchEvent, on_event, on_events, IsDistinct}
use zingthings.Deploy.Nodes.Membership.{on_events-IsDistinct}
use zingthings.Deploy.Schedule.{get_schedule_one_protocol}
use zingthings.Deploy.Schedule.Exclusive.{scheduled_once}
use zingthings.Deploy.Fault.{Fault, goes_on, on_fault_event}
use zingthings.Deploy.Fault.Interleaved.{
  System, Step, fault, watch, others, Reach, start, later, with_event,
}
use zingthings.Deploy.Fault.Interleaved.Like.{IsLike, IsLikeIn, on_fault_event-IsLike}

abbrev pub first_events : ℕ → List WatchEvent → List WatchEvent
first_events zero es = []
first_events (suc k) [] = []
first_events (suc k) (e ∷ es) = e ∷ first_events k es

on_events-next :
    (k : ℕ) (es : List WatchEvent) (e : WatchEvent) (nodes : List NodeInfo)
    → get_elem? es k ≡ some e
    → on_events (first_events (suc k) es) nodes ≡ on_event e (on_events (first_events k es) nodes)
unfolding on_events
on_events-next k [] e nodes h = cc
on_events-next zero (d ∷ es) e nodes h = ap (λ d. on_event d nodes) (same d e h)
  where
    same : (d e : WatchEvent) → ◌≡◌ {A = Option WatchEvent} (some d) (some e) → d ≡ e
    same d e h = cc
on_events-next (suc k) (d ∷ es) e nodes h = on_events-next k es e (on_event d nodes) h

module _ (o : Outside) (history : List WatchEvent) (node : ℕ → NodeInfo)
    (initial : List NodeInfo) where
  -- What a coordinator should know after some events.
  abbrev pub known_after : ℕ → List NodeInfo
  known_after k = on_events (first_events k history) initial

  abbrev IsFollower : NodeInfo → ℕ → Coordinator → Type 0
  IsFollower n k c = (c.current_node ≡ n) × (c.all_nodes ≡ known_after k)

  abbrev IsFollowing : System o → Type 0
  IsFollowing s = (i : ℕ) → IsFollower (node i) (s.seen i) (s.coordinators i)

  fault-IsFollower :
      (n : NodeInfo) (k : ℕ) (c d : Coordinator) (r : Fault × o.State) (t : o.State)
      → IsLikeIn c r.0
      → r ≡ (goes_on d, t)
      → IsFollower n k c
      → IsFollower n k d
  fault-IsFollower n k c d r t like e h =
      let same : IsLike c d = subst (λ r. IsLikeIn c r.0) e like in (same.0 ∙ h.0, same.1 ∙ h.1)

  Step-IsFollowing : {s t : System o} → Step o history s t → IsFollowing s → IsFollowing t
  Step-IsFollowing {s} (fault i e c t goes) h j = elim (Bool-cases (i == j)) [
    | inl here ↦ rw here (
        subst (λ j. IsFollower (node j) (s.seen j) c) ((==_iff i j).0 here)
          (fault-IsFollower (node i) (s.seen i) (s.coordinators i) c
            (on_fault_event o e (s.coordinators i) s.world) t
            (on_fault_event-IsLike o e (s.coordinators i) s.world) goes (h i)))
    | inr there ↦ rw there (h j)
  ]
  Step-IsFollowing {s} (watch i e at_e) h j = elim (Bool-cases (i == j)) [
    | inl here ↦ rw here (
        subst (λ j. IsFollower (node j) (suc (s.seen i)) (with_event e (s.coordinators i)))
          ((==_iff i j).0 here)
          (
            (h i).0,
            ap (on_event e) (h i).1 ∙ sym (on_events-next (s.seen i) history e initial at_e),
          ))
    | inr there ↦ rw there (h j)
  ]
  Step-IsFollowing (others t) h j = h j

  Reach-IsFollowing : {s : System o} → Reach o history node initial s → IsFollowing s
  unfolding on_events
  Reach-IsFollowing (start t) = λ i. (refl, refl)
  Reach-IsFollowing (later r step) = Step-IsFollowing step (Reach-IsFollowing r)

  -- In every reachable state of any interleaving, a coordinator runs on its own node and knows
  -- exactly what the events that it has handled leave of the nodes that it loaded.
  pub Reach-known_after :
      {s : System o}
      → Reach o history node initial s
      → (i : ℕ)
      → ((s.coordinators i).current_node ≡ node i)
        × ((s.coordinators i).all_nodes ≡ known_after (s.seen i))
  Reach-known_after r = Reach-IsFollowing r

  pub interleaved_once :
      {s : System o} (x y i j : ℕ) (n m : NodeInfo) (p q : ProtocolInfo) (t u : o.State)
      → Reach o history node initial s
      → IsDistinct initial
      → s.seen x ≡ s.seen y
      → get_elem? (known_after (s.seen x)) i ≡ some (node x)
      → get_elem? (known_after (s.seen x)) j ≡ some (node y)
      → i ≢ j
      → (get_schedule_one_protocol o
          (s.coordinators x).current_node
          (s.coordinators x).all_nodes
          n
          t).0
        ≡ ok (some p)
      → (get_schedule_one_protocol o
          (s.coordinators y).current_node
          (s.coordinators y).all_nodes
          m
          u).0
        ≡ ok (some q)
      → p.id ≢ q.id
  interleaved_once {s} x y i j n m p q t u r distinct level ei ej ne ep eq =
      let (node_x, nodes_x) = Reach-IsFollowing r x in
      let (node_y, nodes_y) = Reach-IsFollowing r y in
      let nodes_y' : (s.coordinators y).all_nodes ≡ known_after (s.seen x) =
        nodes_y ∙ ap known_after (sym level) in
      scheduled_once o (known_after (s.seen x)) i j (node x) (node y) n m p q t u
        (on_events-IsDistinct (first_events (s.seen x) history) initial distinct) ei ej ne
        (sym (ap (λ all. (get_schedule_one_protocol o (node x) all n t).0) nodes_x)
          ∙ sym
              (ap (λ a. (get_schedule_one_protocol o a (s.coordinators x).all_nodes n t).0) node_x)
          ∙ ep)
        (sym (ap (λ all. (get_schedule_one_protocol o (node y) all m u).0) nodes_y')
          ∙ sym
              (ap (λ a. (get_schedule_one_protocol o a (s.coordinators y).all_nodes m u).0) node_y)
          ∙ eq)
