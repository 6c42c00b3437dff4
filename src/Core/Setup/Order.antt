-- ===== src/Core/Setup/Order.antt =====
-- The pipeline after InitChannelHandler (pkg/protocol/core/channel_handler.go), for any order of the
-- map.
use zingthings.Base.{
  ℕ, suc, ◌<◌, ◌≡◌, refl, ◌∙◌, ap, sym, subst, Bool, true, false, none, List, [], ◌∷◌, ◌++◌, map,
  arith, length, ok, if◌then◌else◌,
}
use zingthings.Base.Text.{Text, text_eq, text_eq_iff}
use zingthings.Base.Dict.{Dict}
use zingthings.Core.Types.{Message, message}
use zingthings.Core.Handler.{
  ChannelHandler, Deal, Call, as_handler, new_async_simple_up_channel_handler,
}
use zingthings.Core.Pipeline.{Pipeline, new_pipeline, send_up_stream}
use zingthings.Core.Pipeline.Chain.{Ptr, Cells, find_ptr}
use zingthings.Core.Pipeline.Links.{find_ptr-append}
use zingthings.Core.Pipeline.View.{IsPipeline, new_pipeline-IsPipeline}
use zingthings.Core.Pipeline.Add.{add_last-snoc}
use zingthings.Core.Pipeline.Send.{calls_along, handlers, send_up_stream-calls}
use zingthings.Core.Setup.{
  ChannelHandlerRegister, get_register_channel_handler, set_up, init_channel_handler, added_last,
}

-- A name and the handler that is added under it.
abbrev pub Named : Type 0
Named = Text × ChannelHandler

abbrev pub registered : List Named → List ChannelHandlerRegister
registered hs = map (λ h. added_last h.0 h.1) hs

abbrev pub is_named : Text → List Named → Bool
is_named n [] = false
is_named n ((k, c) ∷ hs) = if text_eq k n then true else is_named n hs

-- The names are distinct, as the keys of a map are, and not in use in a pipeline.
abbrev pub IsNew : Cells → List Named → Type 0
IsNew xs [] = Unit {0}
IsNew xs ((n, c) ∷ hs) = (find_ptr n xs ≡ none) × (is_named n hs ≡ false) × IsNew xs hs

-- Name and handler of each context.
abbrev pub named_of : Cells → List Named
named_of [] = []
named_of ((a, n, c) ∷ xs) = (n, c) ∷ named_of xs

IsNew-snoc :
    (a : Ptr) (n : Text) (c : ChannelHandler) (xs : Cells) (hs : List Named)
    → is_named n hs ≡ false
    → IsNew xs hs
    → IsNew (xs ++ (a, n, c) ∷ []) hs
IsNew-snoc a n c xs [] out h = tt
IsNew-snoc a n c xs ((m, d) ∷ hs) out (new, later, rest) = (
  find_ptr-append m xs ((a, n, c) ∷ [])
      ∙ ground (arith, new, out, text_eq_iff m n, text_eq_iff n m),
  later,
  IsNew-snoc a n c xs hs (ground (arith, out)) rest,
)

append_nil : (xs : Cells) → xs ++ [] ≡ xs
append_nil [] = refl
append_nil (x ∷ xs) = ap (λ l. x ∷ l) (append_nil xs)

snoc-append :
    (x : Ptr × Text × ChannelHandler) (xs ys : Cells) → (xs ++ x ∷ []) ++ ys ≡ xs ++ x ∷ ys
snoc-append x [] ys = refl
snoc-append x (y ∷ xs) ys = ap (λ l. y ∷ l) (snoc-append x xs ys)

-- On a well-formed pipeline, handlers whose names are distinct and not in use are all added, behind
-- the contexts that are there and in the order in which they come.
pub set_up-appends :
    (hs : List Named) {p : Pipeline} (xs : Cells)
    → IsPipeline p xs
    → IsNew xs hs
    → (q : Pipeline) × (ys : Cells) × (set_up (registered hs) p ≡ ok q)
      × IsPipeline q (xs ++ ys)
      × (named_of ys ≡ hs)
unfolding set_up added_last
set_up-appends [] {p} xs v new = (p, [], refl, subst (IsPipeline p) (sym (append_nil xs)) v, refl)
set_up-appends ((n, c) ∷ hs) {p} xs v new =
    let (p1, added, v1) = add_last-snoc n c xs v new.0 in
    let (q, ys, ok_q, vq, same) =
      set_up-appends hs (xs ++ (p.fresh, n, c) ∷ []) v1
        (IsNew-snoc p.fresh n c xs hs new.1 new.2) in
    (
      q,
      (p.fresh, n, c) ∷ ys,
      rw (added, ok_q) refl,
      subst (IsPipeline q) (snoc-append (p.fresh, n, c) xs ys) vq,
      ap (λ l. (n, c) ∷ l) same,
    )

-- An asynchronous upstream handler for all messages, under a name.
abbrev pub UpDeal : Type 0
UpDeal = Text × Deal

abbrev pub up_deal : UpDeal → Named
up_deal (n, d) = (n, as_handler (new_async_simple_up_channel_handler d))

-- One call for each deal function, in order, each with the message itself.
abbrev pub calls_of : List UpDeal → Message → List Call
calls_of [] m = []
calls_of ((n, d) ∷ ds) m = record { id = d.id; async = true; given = m } ∷ calls_of ds m

handlers-named_of : (ys : Cells) → handlers ys ≡ map (λ h. h.1) (named_of ys)
handlers-named_of [] = refl
handlers-named_of ((a, n, c) ∷ ys) = ap (λ l. c ∷ l) (handlers-named_of ys)

length-named_of : (ys : Cells) → length (named_of ys) ≡ length ys
length-named_of [] = refl
length-named_of ((a, n, c) ∷ ys) = ap suc (length-named_of ys)

length-up_deal : (ds : List UpDeal) → length (map up_deal ds) ≡ length ds
length-up_deal [] = refl
length-up_deal ((n, d) ∷ ds) = ap suc (length-up_deal ds)

calls_along-up_deal :
    (ds : List UpDeal) (m : Message)
    → calls_along (λ c. c.up) (map (λ h. h.1) (map up_deal ds)) (message m) ≡ calls_of ds m
unfolding calls_along as_handler new_async_simple_up_channel_handler
calls_along-up_deal [] m = refl
calls_along-up_deal ((n, d) ∷ ds) m =
    ap (λ l. record { id = d.id; async = true; given = m } ∷ l) (calls_along-up_deal ds m)

-- Start with an empty pipeline, and let asynchronous upstream handlers for all messages be registered
-- under distinct names. If Go runs over the registrations in the order of `ds`, InitChannelHandler
-- succeeds, and then SendUpStream with more fuel than handlers calls each of their deal functions
-- once, in that order, each with the message itself.
pub send_up_stream-init_channel_handler :
    (order : List ChannelHandlerRegister → List ChannelHandlerRegister)
    (m : Dict ChannelHandlerRegister) (ds : List UpDeal) (fuel : ℕ) (d : Message)
    → get_register_channel_handler order m ≡ registered (map up_deal ds)
    → IsNew [] (map up_deal ds)
    → length ds < fuel
    → (q : Pipeline) × (init_channel_handler order m new_pipeline ≡ ok q)
      × (send_up_stream fuel q (message d) ≡ ok (calls_of ds d))
unfolding init_channel_handler
send_up_stream-init_channel_handler order m ds fuel d runs new lt =
    let (q, ys, ok_q, v, same) = set_up-appends (map up_deal ds) [] new_pipeline-IsPipeline new in
    let few : length ys < fuel =
      omega (arith, length-named_of ys, ap length same, length-up_deal ds, lt) in
    let by_name : handlers ys ≡ map (λ h. h.1) (map up_deal ds) =
      handlers-named_of ys ∙ ap (map (λ h. h.1)) same in
    (
      q,
      ap (λ l. set_up l new_pipeline) runs ∙ ok_q,
      send_up_stream-calls fuel (message d) v.linked few
          ∙ ap ok
              (ap (λ l. calls_along (λ c. c.up) l (message d)) by_name ∙ calls_along-up_deal ds d),
    )
