-- ===== src/Core/Tests.antt =====
-- The theorems on the protocols, the event bus, the links, the keys and the documents
-- (pkg/protocol/core) at one example each.
use zingthings.Base.{refl, none, some, [], ◌∷◌, if◌then◌else◌, ◌==◌}
use zingthings.Base.Text.{codes}
use zingthings.Base.Int.{pos}
use zingthings.Base.Dict.{Dict}
use zingthings.Core.Types.{Value, number, text, Message}
use zingthings.Core.Protocol.{http_client}
use zingthings.Core.Channel.{Store, DefaultChannel, protocol_type_key}
use zingthings.Core.Link.{with_type}
use zingthings.Core.Link.Routing.{IsDownChannel}
use zingthings.Core.Info.{NodeInfo, ProtocolInfo}
use zingthings.Core.Pipeline.FanOut.{down_handler}
use zingthings.Core.Pipeline.Tests.{down_three, cells_of, three-IsPipeline, registrations, report}

abbrev properties : Dict Value
properties = (codes "port", number (pos 9000)) ∷ []

abbrev channel : DefaultChannel
channel = record {
  protocol = record {
    kind = http_client;
    protocol_id = codes "p";
    device_group = record { device_group_name = []; device_group_id = codes "g" };
    device_infos = [];
  };
  pipeline = 0;
  attach_map = (protocol_type_key, text (codes "HTTP")) ∷ [];
}

abbrev store : Store
store = record {
  pipelines = down_three ∷ [];
  channels = λ a. if a == 5 then some channel else none;
  next_channel = 6;
  manager = (codes "d", 5) ∷ [];
}

store-IsDownChannel : IsDownChannel store 5 channel (cells_of down_handler) registrations
store-IsDownChannel = record {
  pipeline = down_three;
  channel = refl;
  found = refl;
  linked = (three-IsPipeline down_handler).linked;
  registered = refl;
}

abbrev untyped : Message
untyped = with_type [] report

abbrev node : NodeInfo
node = record { host = codes "10.0.0.1"; port = pos 877; timestamp = pos 5 }

abbrev elsewhere : ProtocolInfo
elsewhere = record {
  id = codes "p";
  timestamp = pos 5;
  protocol_type = codes "HTTP_CLIENT";
  address = codes "10.0.0.1:8776";
}
