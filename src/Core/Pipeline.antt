-- ===== src/Core/Pipeline.antt =====
-- DefaultChannelHandlerPipeline (pkg/protocol/core/pipeline.go): contexts linked both ways on a
-- heap, and a map from names to contexts. Address 0 is nil. The pipeline's lock makes each
-- operation one step.
pub mod Chain
pub mod Links
pub mod View
pub mod Add
pub mod Fields
pub mod Remove
pub mod Replace
pub mod Replaced
pub mod Send
pub mod FanOut
pub mod Tests
use zingthings.Base.{
  ℕ, zero, suc, ◌+◌, ◌<◌, ◌≡◌, refl, Bool, true, false, not, Option, none, some, List, [], ◌∷◌,
  ◌++◌, Outcome, ok, panics, diverges, ◌>>=◌, ◌==◌, if◌then◌else◌, is_some, arith,
}
use zingthings.Base.Text.{Text, text_eq}
use zingthings.Base.Dict.{Dict, lookup, insert, delete}
use zingthings.Core.Types.{Datum}
use zingthings.Core.Handler.{
  ChannelHandler, Reaction, Call, can_handle_down_stream, can_handle_up_stream,
}
use Chain.{Ptr, HandlerContext, context, Heap, write, link_next, link_prev}

pub record Pipeline : Type 0 where
  pub head : Ptr
  pub tail : Ptr
  pub channel_map : Dict Ptr
  pub heap : Heap
  pub fresh : Ptr

pub data PipelineError : Type 0 where
  is_exists is_not_exists : Text → PipelineError

unfoldable pub new_pipeline : Pipeline
new_pipeline = record { head = 0; tail = 0; channel_map = []; heap = λ a. none; fresh = 1 }

abbrev pub is_empty {ℓ} : {A : Type ℓ} → List A → Bool
is_empty [] = true
is_empty (x ∷ xs) = false

-- A field of the context at an address; a nil pointer panics.
unfoldable pub deref : Heap → Ptr → Outcome HandlerContext
deref h a = elim (h a) [ none ↦ panics | some c ↦ ok c ]

-- c.next = v and c.prev = v
unfoldable pub set_next : Ptr → Ptr → Heap → Outcome Heap
set_next a v h = elim (h a) [ none ↦ panics | some c ↦ ok (link_next a v h) ]

unfoldable pub set_prev : Ptr → Ptr → Heap → Outcome Heap
set_prev a v h = elim (h a) [ none ↦ panics | some c ↦ ok (link_prev a v h) ]

unfoldable pub check_name : Text → Pipeline → Bool
check_name name p = is_some (lookup name p.channel_map)

-- &DefaultChannelHandlerContext{...}, entered in the map
enter : (next prev : Ptr) → Text → ChannelHandler → Heap → Pipeline → Pipeline
enter next prev name handler h p = record p {
  channel_map = insert name p.fresh p.channel_map;
  heap = write h p.fresh (context next prev name handler);
  fresh = suc p.fresh;
}

add_only : Text → ChannelHandler → Pipeline → Pipeline
unfolding enter
add_only name handler p = record (enter 0 0 name handler p.heap p) {
  head = p.fresh;
  tail = p.fresh;
}

unfoldable pub add_first :
    Text → ChannelHandler → Pipeline → Outcome (Option PipelineError × Pipeline)
unfolding add_only set_prev check_name enter
add_first name handler p =
    if is_empty p.channel_map
    then ok (none, add_only name handler p)
    else if check_name name p
    then ok (some (is_exists name), p)
    else do
      h ← set_prev p.head p.fresh p.heap
      ok (none, record (enter p.head 0 name handler h p) { head = p.fresh })

unfoldable pub add_last :
    Text → ChannelHandler → Pipeline → Outcome (Option PipelineError × Pipeline)
unfolding add_only set_next check_name enter
add_last name handler p =
    if is_empty p.channel_map
    then ok (none, add_only name handler p)
    else if check_name name p
    then ok (some (is_exists name), p)
    else do
      h ← set_next p.tail p.fresh p.heap
      ok (none, record (enter 0 p.tail name handler h p) { tail = p.fresh })

unfoldable pub get : Text → Pipeline → Outcome (Option ChannelHandler)
unfolding deref
get name p = elim (lookup name p.channel_map) [
  | none ↦ ok none
  | some a ↦ do c ← deref p.heap a; ok (some c.handler)
]

unfoldable pub get_first : Pipeline → Outcome ChannelHandler
unfolding deref
get_first p = do c ← deref p.heap p.head; ok c.handler

unfoldable pub get_last : Pipeline → Outcome ChannelHandler
unfolding deref
get_last p = do c ← deref p.heap p.tail; ok c.handler

-- if len(p.channelMap) == 0 { p.head = nil; p.tail = nil }
reset_if_empty : Pipeline → Pipeline
reset_if_empty p = if is_empty p.channel_map then record p { head = 0; tail = 0 } else p

unfoldable pub remove_first : Pipeline → Outcome (ChannelHandler × Pipeline)
unfolding deref set_next set_prev reset_if_empty
remove_first p = do
  old ← deref p.heap p.head
  h ← (if old.next == 0 then ok p.heap else set_prev old.next 0 p.heap)
  h' ← set_next p.head 0 h
  ok (
    old.handler,
    reset_if_empty
        (record p { head = old.next; channel_map = delete old.name p.channel_map; heap = h' }),
  )

unfoldable pub remove_last : Pipeline → Outcome (ChannelHandler × Pipeline)
unfolding deref set_next set_prev reset_if_empty
remove_last p = do
  old ← deref p.heap p.tail
  h ← (if old.prev == 0 then ok p.heap else set_next old.prev 0 p.heap)
  h' ← set_prev p.tail 0 h
  ok (
    old.handler,
    reset_if_empty
        (record p { tail = old.prev; channel_map = delete old.name p.channel_map; heap = h' }),
  )

-- The loop of Replace: the first context of that name from `a` on.
unfoldable pub find_context : ℕ → Heap → Ptr → Text → Outcome (Option (Ptr × HandlerContext))
unfolding deref
find_context zero h a name = diverges
find_context (suc fuel) h a name = if a == 0 then ok none else do
  c ← deref h a
  if text_eq c.name name then ok (some (a, c)) else find_context fuel h c.next name

unfoldable pub swap_context :
    Ptr × HandlerContext → Text → ChannelHandler → Pipeline → Outcome Pipeline
unfolding set_next set_prev enter
swap_context (a, c) new_name handler p = do
  h ← (if c.prev == 0 then ok p.heap else set_next c.prev p.fresh p.heap)
  h' ← (if c.next == 0 then ok h else set_prev c.next p.fresh h)
  ok (enter c.next c.prev new_name handler h' p)

-- The handler that is returned (`nil` as none), the error, and the pipeline.
unfoldable pub replace :
    ℕ
    → Text
    → Text
    → ChannelHandler
    → Pipeline
    → Outcome (Option ChannelHandler × Option PipelineError × Pipeline)
unfolding check_name find_context swap_context
replace fuel old_name new_name handler p =
    if check_name new_name p
    then ok (none, some (is_exists new_name), p)
    else if not (check_name old_name p)
    then ok (none, some (is_not_exists old_name), p)
    else if is_empty p.channel_map
    then ok (none, none, p)
    else do
      found ← find_context fuel p.heap p.head old_name
      elim found [
        | none ↦ ok (none, none, p)
        | some (a, c) ↦ do
          p' ← swap_context (a, c) new_name handler p
          ok (some c.handler, none, p')
      ]

-- One way through the contexts: which of them take part, where the next one is, and what the
-- handler of one does.
pub record Direction : Type 0 where
  pub can_handle : HandlerContext → Bool
  pub step : HandlerContext → Ptr
  pub reaction : ChannelHandler → Option (Datum → Reaction)

abbrev pub up_stream : Direction
up_stream = record {
  can_handle = λ c. c.can_handle_up_stream;
  step = λ c. c.next;
  reaction = λ h. h.up;
}

abbrev pub down_stream : Direction
down_stream = record {
  can_handle = λ c. c.can_handle_down_stream;
  step = λ c. c.prev;
  reaction = λ h. h.down;
}

-- getUpStreamChannelHandlerContext and getDownStreamChannelHandlerContext, from an address on.
unfoldable pub seek : Direction → ℕ → Heap → Ptr → Outcome (Option HandlerContext)
unfolding deref
seek way zero h a = diverges
seek way (suc fuel) h a =
    if a == 0
    then ok none
    else do c ← deref h a; if way.can_handle c then ok (some c) else seek way fuel h (way.step c)

-- The calls of one handler, then those of what it forwards.
abbrev pub react :
    Option (Datum → Reaction) → Datum → (Datum → Outcome (List Call)) → Outcome (List Call)
react none d next = ok []
react (some f) d next = elim (f d).forward [
  | none ↦ ok (f d).calls
  | some d' ↦ do rest ← next d'; ok ((f d).calls ++ rest)
]

-- SendUpStream and SendDownStream of a context, whose successor stands at `a`: the calls that are
-- made. Fuel for the handlers, and for the walk to each of them.
unfoldable pub send_from : Direction → ℕ → ℕ → Heap → Ptr → Datum → Outcome (List Call)
unfolding seek
send_from way zero walk h a d = diverges
send_from way (suc fuel) walk h a d = do
  found ← seek way walk h a
  elim found [
    | none ↦ ok []
    | some c ↦ react (way.reaction c.handler) d (send_from way fuel walk h (way.step c))
  ]

unfoldable pub send_up_stream : ℕ → Pipeline → Datum → Outcome (List Call)
unfolding send_from
send_up_stream fuel p d = send_from up_stream fuel fuel p.heap p.head d

unfoldable pub send_down_stream : ℕ → Pipeline → Datum → Outcome (List Call)
unfolding send_from
send_down_stream fuel p d = send_from down_stream fuel fuel p.heap p.tail d
