-- ===== src/Core/Pipeline/FanOut.antt =====
-- Pipelines of the handlers that pkg/protocol/core/channel_handler.go constructs for one protocol
-- type each, on their message.
use zingthings.Base.{
  ℕ, ◌<◌, ◌≡◌, refl, ap, List, [], ◌∷◌, map, ok, if◌then◌else◌, ◌∙◌, Bool-cases, length, inl, inr,
}
use mathlib.Core.List.{reverse, reverse_aux}
use zingthings.Base.Text.{Text}
use zingthings.Core.Types.{Message, message}
use zingthings.Core.Handler.{
  ChannelHandler, Deal, Call, as_handler, new_simple_up_protocol_type_channel_handler,
  new_simple_down_protocol_type_channel_handler, has_protocol_type, after_deal,
}
use zingthings.Core.Pipeline.{Pipeline, send_up_stream, send_down_stream}
use zingthings.Core.Pipeline.Chain.{Cells}
use zingthings.Core.Pipeline.View.{IsLinked}
use zingthings.Core.Pipeline.Send.{
  calls_along, handlers, send_up_stream-calls, send_down_stream-calls,
}

-- A deal function for the messages of one protocol type.
abbrev pub Registration : Type 0
Registration = Text × Deal

abbrev pub up_handler : Registration → ChannelHandler
up_handler (t, d) = as_handler (new_simple_up_protocol_type_channel_handler t d)

abbrev pub down_handler : Registration → ChannelHandler
down_handler (t, d) = as_handler (new_simple_down_protocol_type_channel_handler t d)

-- The calls that a message should make: one for each deal function of its type, in order, each
-- with the message as the ones before it left it.
unfoldable pub fan_out : List Registration → Message → List Call
fan_out [] m = []
fan_out ((t, d) ∷ rs) m =
    if has_protocol_type t m
    then record { id = d.id; async = d.async; given = m } ∷ fan_out rs (after_deal d m)
    else fan_out rs m

calls_along-up :
    (rs : List Registration) (m : Message)
    → calls_along (λ c. c.up) (map up_handler rs) (message m) ≡ fan_out rs m
unfolding calls_along fan_out as_handler new_simple_up_protocol_type_channel_handler
calls_along-up [] m = refl
calls_along-up ((t, d) ∷ rs) m = elim (Bool-cases (has_protocol_type t m)) [
  | inl mine ↦ rw (mine, calls_along-up rs (after_deal d m))
  | inr not_mine ↦ rw (not_mine, calls_along-up rs m)
]

calls_along-down :
    (rs : List Registration) (m : Message)
    → calls_along (λ c. c.down) (map down_handler rs) (message m) ≡ fan_out rs m
unfolding calls_along fan_out as_handler new_simple_down_protocol_type_channel_handler
calls_along-down [] m = refl
calls_along-down ((t, d) ∷ rs) m = elim (Bool-cases (has_protocol_type t m)) [
  | inl mine ↦ rw (mine, calls_along-down rs (after_deal d m))
  | inr not_mine ↦ rw (not_mine, calls_along-down rs m)
]

map-reverse_aux {ℓ κ} :
    {A : Type ℓ} {B : Type κ} (f : A → B) (xs ys : List A)
    → reverse_aux (map f xs) (map f ys) ≡ map f (reverse_aux xs ys)
map-reverse_aux f [] ys = refl
map-reverse_aux f (x ∷ xs) ys = map-reverse_aux f xs (x ∷ ys)

module _ {p : Pipeline} {xs : Cells} (fuel : ℕ) (rs : List Registration) (m : Message)
    (v : IsLinked p xs) (lt : length xs < fuel) where
  -- On a linked pipeline of upstream handlers for one protocol type each, with more fuel than
  -- contexts, SendUpStream calls exactly the deal functions of the message's type, from the first
  -- to the last.
  pub send_up_stream-fan_out :
      handlers xs ≡ map up_handler rs → send_up_stream fuel p (message m) ≡ ok (fan_out rs m)
  send_up_stream-fan_out e =
      send_up_stream-calls fuel (message m) v lt ∙ rw e (ap ok (calls_along-up rs m))

  -- On a linked pipeline of downstream handlers for one protocol type each, with more fuel than
  -- contexts, SendDownStream calls exactly the deal functions of the message's type, from the last
  -- to the first.
  pub send_down_stream-fan_out :
      handlers xs ≡ map down_handler rs
      → send_down_stream fuel p (message m) ≡ ok (fan_out (reverse rs) m)
  send_down_stream-fan_out e =
      send_down_stream-calls fuel (message m) v lt
      ∙ rw (e, map-reverse_aux down_handler rs []) (ap ok (calls_along-down (reverse rs) m))
