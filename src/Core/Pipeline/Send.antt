-- ===== src/Core/Pipeline/Send.antt =====
-- SendUpStream and SendDownStream (pkg/protocol/core/pipeline.go): which deal functions are called,
-- in which order, and with which message.
use zingthings.Base.{
  ℕ, zero, suc, ◌+◌, ◌<◌, ◌≡◌, refl, sym, ap, true, false, Option, none, some, List, [], ◌∷◌, ◌++◌,
  arith, ok, Outcome, is_some, ◌∙◌, ◌>>=◌, ◌==◌, length, inl, inr, Option-cases,
}
use mathlib.Core.List.{reverse, reverse_aux, append-nil}
use zingthings.Core.Types.{Datum}
use zingthings.Core.Handler.{
  ChannelHandler, Reaction, Call, can_handle_up_stream, can_handle_down_stream,
}
use zingthings.Core.Pipeline.{
  Pipeline, Direction, up_stream, down_stream, seek, send_from, send_up_stream, send_down_stream,
  react,
}
use zingthings.Core.Pipeline.Chain.{
  Ptr, Heap, HandlerContext, context, Cells, head_or, last_or, Chain, nil, link, IsSound,
}
use zingthings.Core.Pipeline.Fields.{deref-eq}
use zingthings.Core.Pipeline.View.{IsLinked}

-- What a reaction calls, then what the others call for the datum that it forwards.
abbrev pub then_calls : Reaction → (Datum → List Call) → List Call
then_calls r next = r.calls ++ elim r.forward [ none ↦ [] | some d ↦ next d ]

-- Each handler that takes part is called in turn, as long as the one before it forwards.
unfoldable pub calls_along :
    (ChannelHandler → Option (Datum → Reaction)) → List ChannelHandler → Datum → List Call
calls_along f [] d = []
calls_along f (c ∷ cs) d = elim (f c) [
  | none ↦ calls_along f cs d
  | some g ↦ then_calls (g d) (calls_along f cs)
]

abbrev pub handlers : Cells → List ChannelHandler
handlers [] = []
handlers ((a, n, c) ∷ xs) = c ∷ handlers xs

-- From an address the direction leads through the contexts `cs` to nil.
data Walk (way : Direction) (h : Heap) : Ptr → List HandlerContext → Type 0 where
  stop : Walk way h 0 []
  go :
      {a : Ptr} {c : HandlerContext} {cs : List HandlerContext}
      → 0 < a
      → h a ≡ some c
      → way.can_handle c ≡ is_some (way.reaction c.handler)
      → Walk way h (way.step c) cs
      → Walk way h a (c ∷ cs)

abbrev handlers_of : List HandlerContext → List ChannelHandler
handlers_of [] = []
handlers_of (c ∷ cs) = c.handler ∷ handlers_of cs

-- What the loop of get…StreamChannelHandlerContext finds of the contexts ahead.
data Found (way : Direction) (h : Heap) (cs : List HandlerContext)
    : Outcome (Option HandlerContext) → Type 0 where
  nothing :
      ((d : Datum) → calls_along way.reaction (handlers_of cs) d ≡ []) → Found way h cs (ok none)
  first :
      {c : HandlerContext} {rest : List HandlerContext} (g : Datum → Reaction)
      → way.reaction c.handler ≡ some g
      → Walk way h (way.step c) rest
      → length rest < length cs
      → ((d : Datum)
          → calls_along way.reaction (handlers_of cs) d
            ≡ then_calls (g d) (calls_along way.reaction (handlers_of rest)))
      → Found way h cs (ok (some c))

module _ {way : Direction} {h : Heap} where
  skipped :
      {cs : List HandlerContext} {r : Outcome (Option HandlerContext)} (c : HandlerContext)
      → way.reaction c.handler ≡ none
      → Found way h cs r
      → Found way h (c ∷ cs) r
  unfolding calls_along
  skipped c e (nothing same) = nothing (λ d. rw e (same d))
  skipped c e (first g eg walk lt same) = first g eg walk (omega arith) (λ d. rw e (same d))

  seek-Found :
      (fuel : ℕ) {a : Ptr} {cs : List HandlerContext}
      → Walk way h a cs
      → length cs < fuel
      → Found way h cs (seek way fuel h a)
  unfolding seek calls_along
  seek-Found zero walk lt = absurd (omega arith)
  seek-Found (suc fuel) stop lt = nothing (λ d. refl)
  seek-Found (suc fuel) (go {a} {c} pos e can walk) lt =
      let ne : (a == 0) ≡ false = ground arith in
      elim (Option-cases (way.reaction c.handler)) [
        | inl out ↦
            let skip : way.can_handle c ≡ false = can ∙ ap is_some out in
            rw (ne, deref-eq h a c e, skip) (skipped c out (seek-Found fuel walk (omega arith)))
        | inr (g, eg) ↦
            let takes : way.can_handle c ≡ true = can ∙ ap is_some eg in
            rw (ne, deref-eq h a c e, takes) (first g eg walk (omega arith) (λ d. rw eg))
      ]

react-some :
    (g : Datum → Reaction) (d : Datum) (next : Datum → Outcome (List Call))
    (calls : Datum → List Call)
    → ((e : Datum) → next e ≡ ok (calls e))
    → react (some g) d next ≡ ok (then_calls (g d) calls)
react-some g d next calls ih = elim (Option-cases (g d).forward) [
  | inl last ↦ rw last (ap ok (sym (append-nil (g d).calls)))
  | inr (d', more) ↦ rw (more, ih d') refl
]

react-calls :
    (r : Option (Datum → Reaction)) (g : Datum → Reaction) (d : Datum)
    (next : Datum → Outcome (List Call)) (calls : Datum → List Call)
    → r ≡ some g
    → ((e : Datum) → next e ≡ ok (calls e))
    → react r d next ≡ ok (then_calls (g d) calls)
react-calls r g d next calls e ih = rw e (react-some g d next calls ih)

module _ {way : Direction} {h : Heap} where
  finish :
      {cs : List HandlerContext} {r : Outcome (Option HandlerContext)} (d : Datum)
      (next : Ptr → Datum → Outcome (List Call))
      → Found way h cs r
      → ((a : Ptr) (rest : List HandlerContext)
          → Walk way h a rest
          → length rest < length cs
          → (e : Datum) → next a e ≡ ok (calls_along way.reaction (handlers_of rest) e))
      → (do
        found ← r
        elim found [ none ↦ ok [] | some c ↦ react (way.reaction c.handler) d (next (way.step c)) ])
        ≡ ok (calls_along way.reaction (handlers_of cs) d)
  finish d next (nothing same) ih = ap ok (sym (same d))
  finish d next (first {c} {rest} g e walk lt same) ih =
      react-calls (way.reaction c.handler) g d (next (way.step c))
        (calls_along way.reaction (handlers_of rest)) e (ih (way.step c) rest walk lt)
      ∙ ap ok (sym (same d))

  -- The calls of a direction are those of its handlers in turn, given a round of fuel for each.
  send_from-calls :
      (fuel walk : ℕ) {a : Ptr} {cs : List HandlerContext} (d : Datum)
      → Walk way h a cs
      → length cs < fuel
      → length cs < walk
      → send_from way fuel walk h a d ≡ ok (calls_along way.reaction (handlers_of cs) d)
  unfolding send_from
  send_from-calls zero walk d w lt lt' = absurd (omega arith)
  send_from-calls (suc fuel) walk d w lt lt' =
      finish d (send_from way fuel walk h) (seek-Found walk w lt')
        (λ a rest w' shorter e. send_from-calls fuel walk e w' (omega arith) (omega arith))

-- The contexts of a view, as the loops of SendUpStream and SendDownStream meet them.
up_contexts : Ptr → Cells → List HandlerContext
up_contexts prev [] = []
up_contexts prev ((a, n, c) ∷ xs) = context (head_or 0 xs) prev n c ∷ up_contexts a xs

up-Walk :
    {h : Heap} (fresh : Ptr) {prev : Ptr} {xs : Cells}
    → Chain h 0 prev xs
    → IsSound fresh xs
    → Walk up_stream h (head_or 0 xs) (up_contexts prev xs)
unfolding up_contexts can_handle_up_stream
up-Walk fresh nil sound = stop
up-Walk fresh (link e rest) sound = go sound.0 e refl (up-Walk fresh rest sound.4)

handlers-up_contexts : (prev : Ptr) (xs : Cells) → handlers_of (up_contexts prev xs) ≡ handlers xs
unfolding up_contexts
handlers-up_contexts prev [] = refl
handlers-up_contexts prev ((a, n, c) ∷ xs) = ap (◌∷◌ c) (handlers-up_contexts a xs)

length-up_contexts : (prev : Ptr) (xs : Cells) → length (up_contexts prev xs) ≡ length xs
unfolding up_contexts
length-up_contexts prev [] = refl
length-up_contexts prev ((a, n, c) ∷ xs) = ap suc (length-up_contexts a xs)

-- With more fuel than contexts, SendUpStream on a linked pipeline ends, and gives a datum to the
-- upstream handlers from the first context to the last: each is called with what the one before it
-- forwarded, and the first that forwards nothing ends the run.
pub send_up_stream-calls :
    {p : Pipeline} {xs : Cells} (fuel : ℕ) (d : Datum)
    → IsLinked p xs
    → length xs < fuel
    → send_up_stream fuel p d ≡ ok (calls_along (λ c. c.up) (handlers xs) d)
unfolding send_up_stream
send_up_stream-calls {p} {xs} fuel d v lt = rw (v.head) (
    send_from-calls fuel fuel d (up-Walk p.fresh v.chain v.sound) enough enough
    ∙ ap (λ cs. ok (calls_along (λ c. c.up) cs d)) (handlers-up_contexts 0 xs))
  where
    enough : length (up_contexts 0 xs) < fuel
    enough = omega (arith, length-up_contexts 0 xs)

down_contexts : Ptr → Cells → List HandlerContext → List HandlerContext
down_contexts prev [] behind = behind
down_contexts prev ((a, n, c) ∷ xs) behind =
    down_contexts a xs (context (head_or 0 xs) prev n c ∷ behind)

down-Walk :
    {h : Heap} (fresh : Ptr) {prev : Ptr} {xs : Cells} {behind : List HandlerContext}
    → Chain h 0 prev xs
    → IsSound fresh xs
    → Walk down_stream h prev behind
    → Walk down_stream h (last_or prev xs) (down_contexts prev xs behind)
unfolding down_contexts can_handle_down_stream
down-Walk fresh nil sound walk = walk
down-Walk fresh (link e rest) sound walk = down-Walk fresh rest sound.4 (go sound.0 e refl walk)

handlers-down_contexts :
    (prev : Ptr) (xs : Cells) (behind : List HandlerContext)
    → handlers_of (down_contexts prev xs behind) ≡ reverse_aux (handlers xs) (handlers_of behind)
unfolding down_contexts
handlers-down_contexts prev [] behind = refl
handlers-down_contexts prev ((a, n, c) ∷ xs) behind =
    handlers-down_contexts a xs (context (head_or 0 xs) prev n c ∷ behind)

length-down_contexts :
    (prev : Ptr) (xs : Cells) (behind : List HandlerContext)
    → length (down_contexts prev xs behind) ≡ length xs + length behind
unfolding down_contexts
length-down_contexts prev [] behind = omega arith
length-down_contexts prev ((a, n, c) ∷ xs) behind =
    omega (arith, length-down_contexts a xs (context (head_or 0 xs) prev n c ∷ behind))

-- With more fuel than contexts, SendDownStream on a linked pipeline ends, and gives a datum to the
-- downstream handlers from the last context to the first, each with what the one before it
-- forwarded.
pub send_down_stream-calls :
    {p : Pipeline} {xs : Cells} (fuel : ℕ) (d : Datum)
    → IsLinked p xs
    → length xs < fuel
    → send_down_stream fuel p d ≡ ok (calls_along (λ c. c.down) (reverse (handlers xs)) d)
unfolding send_down_stream
send_down_stream-calls {p} {xs} fuel d v lt = rw (v.tail) (
    send_from-calls fuel fuel d (down-Walk p.fresh v.chain v.sound stop) enough enough
    ∙ ap (λ cs. ok (calls_along (λ c. c.down) cs d)) (handlers-down_contexts 0 xs []))
  where
    enough : length (down_contexts 0 xs []) < fuel
    enough = omega (arith, length-down_contexts 0 xs [])
