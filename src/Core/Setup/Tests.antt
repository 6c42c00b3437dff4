-- ===== src/Core/Setup/Tests.antt =====
-- The theorems on the set-up of the channel handlers (pkg/protocol/core/channel_handler.go) at one
-- example each.
use zingthings.Base.{◌≡◌, refl, List, [], ◌∷◌, map, arith, ok}
use mathlib.Core.List.{reverse}
use zingthings.Base.Text.{codes, text_eq}
use zingthings.Base.Dict.{Dict, insert}
use zingthings.Core.Types.{message}
use zingthings.Core.Protocol.{get_all}
use zingthings.Core.Pipeline.{Pipeline, new_pipeline, send_up_stream}
use zingthings.Core.Pipeline.Tests.{report, deal_of}
use zingthings.Core.Setup.{
  ChannelHandlerRegister, register_channel_handler, get_register_channel_handler,
  init_channel_handler, added_last,
}
use zingthings.Core.Setup.Order.{
  UpDeal, up_deal, calls_of, registered, send_up_stream-init_channel_handler,
}

-- Kafka comes last here: this run goes over the map backwards.
abbrev kafka_last : List UpDeal
kafka_last =
    (codes "recordDeviceReportOffline", deal_of 2)
    ∷ (codes "deviceOnline", deal_of 1)
    ∷ (codes "kafka", deal_of 3)
    ∷ []

abbrev registry : Dict ChannelHandlerRegister
registry = insert_all (reverse (registered (map up_deal kafka_last))) []
  where
    insert_all :
        List ChannelHandlerRegister → Dict ChannelHandlerRegister → Dict ChannelHandlerRegister
    insert_all [] m = m
    insert_all (r ∷ rs) m = insert_all rs (register_channel_handler r m)

send_up_stream-init_channel_handler_example :
    (q : Pipeline) × (init_channel_handler reverse registry new_pipeline ≡ ok q)
    × (send_up_stream 5 q (message report) ≡ ok (calls_of kafka_last report))
unfolding register_channel_handler get_register_channel_handler added_last insert get_all text_eq
send_up_stream-init_channel_handler_example =
    send_up_stream-init_channel_handler reverse registry kafka_last 5 report refl
      (refl, refl, (refl, refl, (refl, refl, tt))) (omega arith)
