-- ===== src/Core/Setup.antt =====
-- The registry of channel handlers and their set-up (pkg/protocol/core/channel_handler.go), and what
-- the init functions of pkg/protocol/channelhandler register.
pub mod Order
mod Tests
use zingthings.Base.{Option, none, some, List, [], ◌∷◌, Outcome, ok, ◌>>=◌}
use zingthings.Base.Text.{Text}
use zingthings.Base.Dict.{Dict, insert}
use zingthings.Core.Handler.{ChannelHandler}
use zingthings.Core.Protocol.{get_all}
use zingthings.Core.Pipeline.{Pipeline, PipelineError, add_last}

-- A Setup acts on the common pipeline.
pub record ChannelHandlerRegister : Type 0 where
  pub channel_handler_type : Text
  pub setup : Pipeline → Outcome (Option PipelineError × Pipeline)

unfoldable pub register_channel_handler :
    ChannelHandlerRegister → Dict ChannelHandlerRegister → Dict ChannelHandlerRegister
register_channel_handler r m = insert r.channel_handler_type r m

-- The registrations in the order in which Go runs over the map, which is not specified: `order` is
-- that of this run.
unfoldable pub get_register_channel_handler :
    (List ChannelHandlerRegister → List ChannelHandlerRegister)
    → Dict ChannelHandlerRegister
    → List ChannelHandlerRegister
get_register_channel_handler order m = order (get_all m)

-- The loop ends at the first error.
unfoldable pub set_up : List ChannelHandlerRegister → Pipeline → Outcome Pipeline
set_up [] p = ok p
set_up (r ∷ rs) p = do
  added ← r.setup p
  elim (added.0) [ none ↦ set_up rs added.1 | some e ↦ ok added.1 ]

unfoldable pub init_channel_handler :
    (List ChannelHandlerRegister → List ChannelHandlerRegister)
    → Dict ChannelHandlerRegister
    → Pipeline
    → Outcome Pipeline
unfolding get_register_channel_handler set_up
init_channel_handler order m p = set_up (get_register_channel_handler order m) p

-- What the init functions of device_online_up.go, record_device_report_offline_up.go and
-- sarama_kafka_up.go register: AddLast of their handler, under the name of the type.
unfoldable pub added_last : Text → ChannelHandler → ChannelHandlerRegister
unfolding add_last
added_last name handler = record {
  channel_handler_type = name;
  setup = λ p. add_last name handler p;
}
