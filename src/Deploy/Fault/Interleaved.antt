-- ===== src/Deploy/Fault/Interleaved.antt =====
-- Several coordinators over one etcd (pkg/deploy/protocol_coordinator.go): the watches on the nodes
-- and on the faults, interleaved in any order.
pub mod Like
pub mod Exclusion
use zingthings.Base.{ℕ, suc, ◌≡◌, Option, none, some, List, [], ◌∷◌, get_elem?, if◌then◌else◌, ◌==◌}
use zingthings.Core.Info.{NodeInfo}
use zingthings.Outside.{Outside}
use zingthings.Deploy.Balance.{Coordinator}
use zingthings.Deploy.Nodes.{WatchEvent, on_event}
use zingthings.Deploy.Fault.{FaultEvent, goes_on, on_fault_event}

abbrev pub update {ℓ} : {A : Type ℓ} → (ℕ → A) → ℕ → A → ℕ → A
update f i a j = if i == j then a else f j

-- etcd and the rest of the world, the coordinators by number, and how many events of the watch on
-- the nodes each has handled.
pub record System (o : Outside) : Type 0 where
  pub world : o.State
  pub coordinators : ℕ → Coordinator
  pub seen : ℕ → ℕ

-- The coordinator after an event of the watch on the nodes.
abbrev pub with_event : WatchEvent → Coordinator → Coordinator
with_event e c = record c { all_nodes = on_event e c.all_nodes }

-- All coordinators are sent the same events on the nodes, in the same order. One step is one event
-- at one coordinator, or a change of the world by others. A coordinator whose loop has ended takes
-- no steps.
pub data Step (o : Outside) (history : List WatchEvent) (s : System o) : System o → Type 0 where
  fault :
      (i : ℕ) (e : FaultEvent) (c : Coordinator) (t : o.State)
      → on_fault_event o e (s.coordinators i) s.world ≡ (goes_on c, t)
      → Step o history s (record s { world = t; coordinators = update s.coordinators i c })
  watch :
      (i : ℕ) (e : WatchEvent)
      → get_elem? history (s.seen i) ≡ some e
      → Step o history s (record s {
        coordinators = update s.coordinators i (with_event e (s.coordinators i));
        seen = update s.seen i (suc (s.seen i));
      })
  others : (t : o.State) → Step o history s (record s { world = t })

-- The coordinators have loaded the same nodes.
pub data Reach (o : Outside) (history : List WatchEvent) (node : ℕ → NodeInfo)
    (initial : List NodeInfo) : System o → Type 0 where
  start :
      (t : o.State)
      → Reach o history node initial (record {
        world = t;
        coordinators = λ i. record {
          current_node = node i;
          all_nodes = initial;
          load_balance = none;
          load_balance_index = 0;
        };
        seen = λ i. 0;
      })
  later :
      {s t : System o}
      → Reach o history node initial s
      → Step o history s t
      → Reach o history node initial t
