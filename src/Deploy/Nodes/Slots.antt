-- ===== src/Deploy/Nodes/Slots.antt =====
-- Which coordinator takes which slot (getCurrentSlot of pkg/deploy/protocol_coordinator.go).
use zingthings.Base.{
  ℕ, zero, suc, ◌+◌, ◌<◌, ◌≤◌, ◌≡◌, ◌≢◌, refl, true, false, some, List, [], ◌∷◌, arith, Bool-cases,
  inl, inr, ◌⊎◌, get_elem?,
}
use zingthings.Core.Info.{NodeInfo, same_node, same_node_iff}
use zingthings.Deploy.Nodes.{slot_loop, get_current_slot, knows, IsDistinct}
use zingthings.Deploy.Nodes.Membership.{same_node_left, same_node_comm}

slot_loop-le :
    (current a : NodeInfo) (k i : ℕ) (nodes : List NodeInfo)
    → get_elem? nodes i ≡ some a
    → same_node a current ≡ true
    → slot_loop current k nodes ≤ k + i
unfolding slot_loop
slot_loop-le current a k i [] e same = cc
slot_loop-le current a k zero (n ∷ nodes) e same = ground arith
slot_loop-le current a k (suc i) (n ∷ nodes) e same =
    ground (arith, slot_loop-le current a (suc k) i nodes e same)

-- The loop ends at an entry of the node, or with 0.
slot_loop_hit :
    (current : NodeInfo) (k : ℕ) (nodes : List NodeInfo)
    → (slot_loop current k nodes ≡ 0)
      ⊎ ((i : ℕ) × (b : NodeInfo) × (slot_loop current k nodes ≡ k + i)
          × (get_elem? nodes i ≡ some b)
          × (same_node b current ≡ true))
unfolding slot_loop
slot_loop_hit current k [] = inl refl
slot_loop_hit current k (n ∷ nodes) = elim (Bool-cases (same_node n current)) [
  | inl hit ↦ inr (0, n, rw hit (omega arith), refl, hit)
  | inr miss ↦ elim (slot_loop_hit current (suc k) nodes) [
    | inl none_left ↦ inl (rw miss none_left)
    | inr (i, b, e, at_i, same) ↦ inr (suc i, b, rw miss (omega arith), at_i, same)
  ]
]

not_knows :
    (n a : NodeInfo) (i : ℕ) (nodes : List NodeInfo)
    → get_elem? nodes i ≡ some a
    → knows n nodes ≡ false
    → same_node a n ≡ false
unfolding knows
not_knows n a i [] e h = cc
not_knows n a zero (m ∷ nodes) e h = ground arith
not_knows n a (suc i) (m ∷ nodes) e h = ground (arith, not_knows n a i nodes)

slot_loop-eq :
    (n : NodeInfo) (k i : ℕ) (nodes : List NodeInfo)
    → IsDistinct nodes
    → get_elem? nodes i ≡ some n
    → slot_loop n k nodes ≡ k + i
unfolding slot_loop
slot_loop-eq n k i [] d e = cc
slot_loop-eq n k zero (m ∷ nodes) d e = ground (arith, same_node_iff m n)
slot_loop-eq n k (suc i) (m ∷ nodes) d e =
    ground
      (arith, slot_loop-eq n (suc k) i nodes d.1 e, not_knows m n i nodes e d.0, same_node_comm m n)

-- If no node has two entries, the coordinator of the i-th node has slot i.
pub get_current_slot-get_elem? :
    (n : NodeInfo) (i : ℕ) (nodes : List NodeInfo)
    → IsDistinct nodes
    → get_elem? nodes i ≡ some n
    → get_current_slot n nodes ≡ i
unfolding get_current_slot
get_current_slot-get_elem? n i nodes d e = omega (arith, slot_loop-eq n 0 i nodes d e)

-- If a node has two entries, no coordinator has the slot of the second one.
pub duplicate_unclaimed :
    (current a b : NodeInfo) (i j : ℕ) (nodes : List NodeInfo)
    → i < j
    → get_elem? nodes i ≡ some a
    → get_elem? nodes j ≡ some b
    → same_node a b ≡ true
    → get_current_slot current nodes ≢ j
unfolding get_current_slot
duplicate_unclaimed current a b i j nodes lt ei ej same e = elim (slot_loop_hit current 0 nodes) [
  | inl missing ↦ omega arith
  | inr (k, c, ek, at_k, hit) ↦
      ground (arith, slot_loop-le current a 0 i nodes ei, same_node_left a b current same)
]
