-- ===== src/Core/Link/Routing.antt =====
-- Which deal functions UpLink and DownLink (pkg/protocol/core/uplink.go, downlink.go) reach.
use zingthings.Base.{
  ℕ, ◌<◌, ◌≡◌, true, false, none, some, List, [], map, arith, ok, length, get_elem?,
}
use mathlib.Core.List.{reverse}
use zingthings.Base.Text.{Text, text_eq}
use zingthings.Base.Dict.{lookup}
use zingthings.Core.Types.{Message, message, text}
use zingthings.Core.Pipeline.{Pipeline}
use zingthings.Core.Pipeline.Chain.{Cells}
use zingthings.Core.Pipeline.View.{IsLinked}
use zingthings.Core.Pipeline.Send.{handlers}
use zingthings.Core.Pipeline.FanOut.{Registration, down_handler, fan_out, send_down_stream-fan_out}
use zingthings.Core.Channel.{
  Store, DefaultChannel, get, get_attach, channel_send_down_stream, protocol_type_key,
}
use zingthings.Core.Link.{down_link, with_type}

-- A channel at address `a` over a pipeline of downstream handlers for one protocol type each.
pub record IsDownChannel (s : Store) (a : ℕ) (c : DefaultChannel) (xs : Cells)
    (rs : List Registration) : Type 0 where
  pub pipeline : Pipeline
  pub channel : s.channels a ≡ some c
  pub found : get_elem? s.pipelines c.pipeline ≡ some pipeline
  pub linked : IsLinked pipeline xs
  pub registered : handlers xs ≡ map down_handler rs

module _ (s : Store) (a : ℕ) (c : DefaultChannel) (xs : Cells) (rs : List Registration) (fuel : ℕ)
    (m : Message) (v : IsDownChannel s a c xs rs) (here : get m.header.device_id s.manager ≡ some a)
    (lt : length xs < fuel) where
  sent :
      (m' : Message) → channel_send_down_stream fuel a (message m') s ≡ ok (fan_out (reverse rs) m')
  unfolding channel_send_down_stream
  sent m' =
      ground
        (arith, v.channel, v.found, send_down_stream-fan_out fuel rs m' v.linked lt v.registered)

  -- For a device with a channel over a linked pipeline of downstream handlers for one protocol type
  -- each, DownLink gives a message without a protocol type the type that is attached to the
  -- channel, and reaches exactly the deal functions for that type.
  pub down_link-attached :
      (t : Text)
      → text_eq m.header.protocol_type [] ≡ true
      → lookup protocol_type_key c.attach_map ≡ some (text t)
      → down_link fuel m s ≡ ok (none, fan_out (reverse rs) (with_type t m))
  unfolding down_link get_attach
  down_link-attached t untyped e = ground (arith, here, v.channel, sent (with_type t m))

  -- A message with a protocol type keeps it, whatever is attached to the channel.
  pub down_link-typed :
      text_eq m.header.protocol_type [] ≡ false
      → down_link fuel m s ≡ ok (none, fan_out (reverse rs) m)
  unfolding down_link get_attach
  down_link-typed typed = ground (arith, here, v.channel, sent m)
