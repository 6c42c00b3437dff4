-- ===== src/Core/Pipeline/Chain.antt =====
-- Contexts on the heap (pkg/protocol/core/pipeline.go), and lists of them that are linked both
-- ways.
use zingthings.Base.{
  ℕ, ◌<◌, ◌≡◌, Bool, false, ◌||◌, Option, none, some, List, [], ◌∷◌, ◌==◌, if◌then◌else◌,
}
use zingthings.Base.Text.{Text, text_eq}
use zingthings.Core.Handler.{ChannelHandler, can_handle_down_stream, can_handle_up_stream}

abbrev pub Ptr : Type 0
Ptr = ℕ

pub record HandlerContext : Type 0 where
  pub next : Ptr
  pub prev : Ptr
  pub name : Text
  pub handler : ChannelHandler
  pub can_handle_down_stream : Bool
  pub can_handle_up_stream : Bool

abbrev pub context : (next prev : Ptr) → Text → ChannelHandler → HandlerContext
context next prev name handler = record {
  next = next;
  prev = prev;
  name = name;
  handler = handler;
  can_handle_down_stream = can_handle_down_stream handler;
  can_handle_up_stream = can_handle_up_stream handler;
}

abbrev pub Heap : Type 0
Heap = Ptr → Option HandlerContext

unfoldable pub write : Heap → Ptr → HandlerContext → Heap
write h a c b = if a == b then some c else h b

with_next : Ptr → Option HandlerContext → Option HandlerContext
with_next v none = none
with_next v (some c) = some (record c { next = v })

with_prev : Ptr → Option HandlerContext → Option HandlerContext
with_prev v none = none
with_prev v (some c) = some (record c { prev = v })

-- The heap after c.next = v, and after c.prev = v, for the context c at `a`.
unfoldable pub link_next : Ptr → Ptr → Heap → Heap
unfolding with_next
link_next a v h b = if a == b then with_next v (h b) else h b

unfoldable pub link_prev : Ptr → Ptr → Heap → Heap
unfolding with_prev
link_prev a v h b = if a == b then with_prev v (h b) else h b

-- What a pipeline stands for: address, name and handler of each context, from the head on.
abbrev pub Cells : Type 0
Cells = List (Ptr × Text × ChannelHandler)

abbrev pub head_or : Ptr → Cells → Ptr
head_or stop [] = stop
head_or stop ((a, _, _) ∷ xs) = a

abbrev pub last_or : Ptr → Cells → Ptr
last_or prev [] = prev
last_or prev ((a, _, _) ∷ xs) = last_or a xs

abbrev pub has : Ptr → Cells → Bool
has a [] = false
has a ((b, _, _) ∷ xs) = (a == b) || has a xs

abbrev pub find_ptr : Text → Cells → Option Ptr
find_ptr k [] = none
find_ptr k ((a, n, _) ∷ xs) = if text_eq n k then some a else find_ptr k xs

-- The contexts of `xs` point at one another in order; the first has `prev` behind it, and the last
-- has `stop` before it.
pub data Chain (h : Heap) (stop : Ptr) : Ptr → Cells → Type 0 where
  nil : {prev : Ptr} → Chain h stop prev []
  link :
      {prev a : Ptr} {n : Text} {c : ChannelHandler} {xs : Cells}
      → h a ≡ some (context (head_or stop xs) prev n c)
      → Chain h stop a xs
      → Chain h stop prev ((a, n, c) ∷ xs)

-- Addresses and names are distinct, and the addresses are in use.
abbrev pub IsSound : Ptr → Cells → Type 0
IsSound fresh [] = Unit {0}
IsSound fresh ((a, n, _) ∷ xs) =
    (0 < a) × (a < fresh) × (has a xs ≡ false) × (find_ptr n xs ≡ none) × IsSound fresh xs
