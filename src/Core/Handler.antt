-- ===== src/Core/Handler.antt =====
-- Channel handlers (pkg/protocol/core/channel_handler.go and the interfaces of types.go).
use zingthings.Base.{
  ℕ, Bool, true, false, ◌&&◌, not, Option, none, some, List, [], ◌∷◌, if◌then◌else◌, is_some,
}
use zingthings.Base.Text.{Text, text_eq}
use zingthings.Core.Types.{Message, Datum, message, other}

-- A deal function: its number, whether it is started by `go`, and what it does to the message.
pub record Deal : Type 0 where
  pub id : ℕ
  pub async : Bool
  pub effect : Message → Message

-- A deal function called with a message.
pub record Call : Type 0 where
  pub id : ℕ
  pub async : Bool
  pub given : Message

-- What a handler does with a datum: the deal functions it calls, and what it sends on.
pub record Reaction : Type 0 where
  pub calls : List Call
  pub forward : Option Datum

-- A `ChannelHandler` is any value; the two fields are its type assertions to
-- ChannelDownStreamHandler and ChannelUpStreamHandler.
pub record ChannelHandler : Type 0 where
  pub down : Option (Datum → Reaction)
  pub up : Option (Datum → Reaction)

unfoldable pub can_handle_down_stream : ChannelHandler → Bool
can_handle_down_stream h = is_some h.down

unfoldable pub can_handle_up_stream : ChannelHandler → Bool
can_handle_up_stream h = is_some h.up

pub record SimplePredicateChannelHandler : Type 0 where
  pub protocol_type : Text
  pub predicate_down : Option (Message → Bool)
  pub predicate_up : Option (Message → Bool)
  pub deal_down : Option Deal
  pub deal_up : Option Deal

-- nil != predicate && !predicate(message)
unfoldable pub refuses : Option (Message → Bool) → Message → Bool
refuses none m = false
refuses (some predicate) m = not (predicate m)

-- A deal that is started by `go` does not change what is sent on.
unfoldable pub after_deal : Deal → Message → Message
after_deal d m = if d.async then m else d.effect m

deal_message : Option Deal → Message → Reaction
deal_message none m = record { calls = []; forward = none }
deal_message (some d) m = record {
  calls = record { id = d.id; async = d.async; given = m } ∷ [];
  forward = some (message (after_deal d m));
}

on_stream : Option (Message → Bool) → Option Deal → Datum → Reaction
unfolding refuses after_deal deal_message
on_stream predicate deal (message m) =
    if refuses predicate m
    then record { calls = []; forward = some (message m) }
    else deal_message deal m
on_stream predicate deal (other n) = record { calls = []; forward = some (other n) }

unfoldable pub on_channel_down_stream : SimplePredicateChannelHandler → Datum → Reaction
unfolding on_stream
on_channel_down_stream s = on_stream s.predicate_down s.deal_down

unfoldable pub on_channel_up_stream : SimplePredicateChannelHandler → Datum → Reaction
unfolding on_stream
on_channel_up_stream s = on_stream s.predicate_up s.deal_up

-- A SimplePredicateChannelHandler, or a struct that embeds one, as a handler of a pipeline.
unfoldable pub as_handler : SimplePredicateChannelHandler → ChannelHandler
unfolding on_channel_down_stream on_channel_up_stream
as_handler s = record { down = some (on_channel_down_stream s); up = some (on_channel_up_stream s) }

abbrev always : Message → Bool
always m = true

abbrev never : Message → Bool
never m = false

-- message.Header.ProtocolType != "" && protocolType == message.Header.ProtocolType
unfoldable pub has_protocol_type : Text → Message → Bool
has_protocol_type t m = not (text_eq m.header.protocol_type []) && text_eq t m.header.protocol_type

abbrev run_async : Deal → Deal
run_async d = record d { async = true }

unfoldable pub new_simple_all_channel_handler : Deal → Deal → SimplePredicateChannelHandler
new_simple_all_channel_handler deal_down deal_up = record {
  protocol_type = [];
  predicate_down = some always;
  predicate_up = some always;
  deal_down = some deal_down;
  deal_up = some deal_up;
}

unfoldable pub new_async_simple_all_channel_handler : Deal → Deal → SimplePredicateChannelHandler
unfolding new_simple_all_channel_handler
new_async_simple_all_channel_handler deal_down deal_up =
    new_simple_all_channel_handler (run_async deal_down) (run_async deal_up)

unfoldable pub new_simple_up_channel_handler : Deal → SimplePredicateChannelHandler
new_simple_up_channel_handler deal = record {
  protocol_type = [];
  predicate_down = some never;
  predicate_up = some always;
  deal_down = none;
  deal_up = some deal;
}

unfoldable pub new_async_simple_up_channel_handler : Deal → SimplePredicateChannelHandler
unfolding new_simple_up_channel_handler
new_async_simple_up_channel_handler deal = new_simple_up_channel_handler (run_async deal)

unfoldable pub new_simple_up_protocol_type_channel_handler :
    Text → Deal → SimplePredicateChannelHandler
unfolding has_protocol_type
new_simple_up_protocol_type_channel_handler t deal = record {
  protocol_type = t;
  predicate_down = some never;
  predicate_up = some (has_protocol_type t);
  deal_down = none;
  deal_up = some deal;
}

unfoldable pub new_simple_down_protocol_type_channel_handler :
    Text → Deal → SimplePredicateChannelHandler
unfolding has_protocol_type
new_simple_down_protocol_type_channel_handler t deal = record {
  protocol_type = t;
  predicate_down = some (has_protocol_type t);
  predicate_up = some never;
  deal_down = some deal;
  deal_up = none;
}

unfoldable pub new_async_simple_down_protocol_type_channel_handler :
    Text → Deal → SimplePredicateChannelHandler
unfolding new_simple_down_protocol_type_channel_handler
new_async_simple_down_protocol_type_channel_handler t deal =
    new_simple_down_protocol_type_channel_handler t (run_async deal)

unfoldable pub new_simple_down_channel_handler : Deal → SimplePredicateChannelHandler
new_simple_down_channel_handler deal = record {
  protocol_type = [];
  predicate_down = some always;
  predicate_up = some never;
  deal_down = some deal;
  deal_up = none;
}
