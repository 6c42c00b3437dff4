-- ===== src/Deploy/Balance.antt =====
-- The round robin over live containers (next and selectNode of
-- pkg/deploy/protocol_coordinator.go, and the state of pkg/deploy/type.go).
use zingthings.Base.{
  ℕ, zero, suc, ◌+◌, ◌%◌, ◌<◌, ◌≡◌, refl, Option, none, some, List, [], ◌∷◌, arith, if◌then◌else◌,
  length, get_elem?, leb, ◌∙◌, ap, sym,
}
use native.Mathlib.Numerals.{towards_numerals}
use native.Mathlib.Nat.{mod-add-mod, mod-mod, mod-eq_of_lt}
use zingthings.Core.Info.{NodeInfo}

-- A LoadBalance, if one is set, and the index of the round robin.
pub record Coordinator : Type 0 where
  pub current_node : NodeInfo
  pub all_nodes : List NodeInfo
  pub load_balance : Option (List NodeInfo → Option NodeInfo)
  pub load_balance_index : ℕ

-- The Coordinator of NewCoordinatorEtcd and NewCoordinatorWithDB.
unfoldable pub new_coordinator : NodeInfo → Coordinator
new_coordinator n = record {
  current_node = n;
  all_nodes = [];
  load_balance = none;
  load_balance_index = 0;
}

-- An index at the end of the list or behind it starts again at 0.
abbrev pub wrapped : ℕ → ℕ → ℕ
wrapped index n = if leb n index then 0 else index

unfoldable pub next : List NodeInfo → Coordinator → Option NodeInfo × Coordinator
next [] c = (none, c)
next (n ∷ nodes) c =
    let index = wrapped c.load_balance_index (length (n ∷ nodes)) in
    (
      get_elem? (n ∷ nodes) index,
      record c { load_balance_index = (index + 1) % length (n ∷ nodes) },
    )

unfoldable pub select_node : List NodeInfo → Coordinator → Option NodeInfo × Coordinator
unfolding next
select_node nodes c = elim c.load_balance [ none ↦ next nodes c | some choose ↦ (choose nodes, c) ]

-- The answers of k calls in a row over the same containers.
unfoldable pub next_run : ℕ → List NodeInfo → Coordinator → List (Option NodeInfo)
next_run zero nodes c = []
next_run (suc k) nodes c = (next nodes c).0 ∷ next_run k nodes (next nodes c).1

-- The containers from an index on, round and round.
unfoldable pub turns : ℕ → List NodeInfo → ℕ → List (Option NodeInfo)
turns zero nodes index = []
turns (suc k) nodes index = get_elem? nodes (index % length nodes) ∷ turns k nodes (suc index)

suc-mod : (i n : ℕ) → suc i % n ≡ suc (i % n) % n
suc-mod i n = simp towards_numerals (sym (mod-add-mod i n 1))

cons_eq {ℓ} :
    {A : Type ℓ} {a b : A} {xs ys : List A} → a ≡ b → xs ≡ ys → ◌≡◌ {A = List A} (a ∷ xs) (b ∷ ys)
cons_eq e f = λ i. e i ∷ f i

turns-mod :
    (k : ℕ) (nodes : List NodeInfo) (i : ℕ) → turns k nodes (i % length nodes) ≡ turns k nodes i
unfolding turns
turns-mod zero nodes i = refl
turns-mod (suc k) nodes i = cons_eq (ap (get_elem? nodes) (mod-mod i (length nodes))) (
    sym (turns-mod k nodes (suc (i % length nodes)))
    ∙ ap (turns k nodes) (sym (suc-mod i (length nodes)))
    ∙ turns-mod k nodes (suc i))

next-index :
    (n : NodeInfo) (nodes : List NodeInfo) (c : Coordinator)
    → (next (n ∷ nodes) c).1.load_balance_index
      ≡ suc (wrapped c.load_balance_index (length (n ∷ nodes))) % length (n ∷ nodes)
unfolding next
next-index n nodes c = ground arith

wrapped-mod : (i n : ℕ) → 0 < n → wrapped (i % n) n ≡ i % n
wrapped-mod i n h = grind arith

-- Calls in a row over the same containers, at least one, go round them in their order, from the
-- index on, or from the first if the index is behind the last.
pub next_run-turns :
    (k : ℕ) (n : NodeInfo) (nodes : List NodeInfo) (c : Coordinator)
    → next_run k (n ∷ nodes) c
      ≡ turns k (n ∷ nodes) (wrapped c.load_balance_index (length (n ∷ nodes)))
unfolding next_run turns next
next_run-turns zero n nodes c = refl
next_run-turns (suc k) n nodes c =
    cons_eq (ap (get_elem? (n ∷ nodes)) (sym (mod-eq_of_lt within))) (
      next_run-turns k n nodes (next (n ∷ nodes) c).1
      ∙ ap (λ i. turns k (n ∷ nodes) (wrapped i size)) (next-index n nodes c)
      ∙ ap (turns k (n ∷ nodes)) (wrapped-mod (suc start) size (omega arith))
      ∙ turns-mod k (n ∷ nodes) (suc start))
  where
    size : ℕ
    size = length (n ∷ nodes)

    start : ℕ
    start = wrapped c.load_balance_index size

    within : start < size
    within = ground arith
