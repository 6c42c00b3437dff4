-- ===== src/Extension/Tests.antt =====
-- The theorems on starting and stopping protocols (pkg/protocol/extension/protocol) at one example
-- each.
use zingthings.Base.{if◌then◌else◌, ◌==◌, ◌≡◌, refl, true, none, some, [], ◌∷◌, arith, ok}
use mathlib.Core.List.{reverse}
use zingthings.Base.Text.{codes, text_eq}
use zingthings.Base.Dict.{lookup}
use zingthings.Core.Types.{DeviceInfo, Message}
use zingthings.Core.Protocol.{
  Protocol, ProtocolKind, http_client, http_server, tcp_server, http_client_type,
}
use zingthings.Core.Pipeline.{Pipeline, new_pipeline}
use zingthings.Core.Pipeline.View.{new_pipeline-IsPipeline}
use zingthings.Core.Pipeline.FanOut.{up_handler, down_handler, fan_out}
use zingthings.Core.Pipeline.Tests.{
  three, down_three, cells_of, three-IsPipeline, registrations, report,
}
use zingthings.Core.Channel.{Store, DefaultChannel, get}
use zingthings.Core.Link.{down_link, with_type}
use zingthings.Extension.{Network, start, stop}
use zingthings.Extension.Report.{
  IsUpChannel, is_reporter, report_message, property_report, outcome_of, property_report-fan_out,
}
use zingthings.Extension.Devices.{has_device}
use zingthings.Extension.Lifecycle.{
  IsOpened, opened, start_http_client-opens, down_link-start_http_client, stop-start_http_client,
}
use zingthings.Extension.HttpServer.{start_http_server-opens, start_http_server-again}

abbrev net : Network
net = record { listens = λ p port. true; shuts_down = λ p. true }

abbrev device : DeviceInfo
device = record {
  properties = [];
  device_id = codes "d";
  device_name = [];
  device_group = record { device_group_name = []; device_group_id = codes "g" };
}

abbrev protocol : ProtocolKind → Protocol
protocol kind = record {
  kind = kind;
  protocol_id = codes "p:g:0";
  device_group = record { device_group_name = []; device_group_id = codes "g" };
  device_infos = device ∷ [];
}

abbrev store_of : Pipeline → Store
store_of p = record {
  pipelines = p ∷ [];
  channels = λ a. none;
  next_channel = 5;
  manager = (codes "e", 4) ∷ [];
}

abbrev untyped : Message
untyped = with_type [] report

abbrev with_client :
    (s' : Store) × (start net 0 [] (protocol http_client) (store_of down_three) ≡ ok s')
    × IsOpened (protocol http_client) http_client_type (store_of down_three) s'
with_client = start_http_client-opens net 0 [] (protocol http_client) (store_of down_three) refl

down_link-start_http_client_example :
    down_link 4 untyped with_client.0
    ≡ ok (none, fan_out (reverse registrations) (with_type http_client_type untyped))
unfolding has_device text_eq
down_link-start_http_client_example =
    down_link-start_http_client net 0 [] (protocol http_client) (store_of down_three) with_client.0
      down_three (cells_of down_handler) registrations 4 untyped refl with_client.1 refl
      (three-IsPipeline down_handler).linked refl (omega arith) refl refl

stop-start_http_client_example :
    get (codes "e") (stop net (protocol http_client) with_client.0).manager ≡ some 4
unfolding has_device text_eq get lookup
stop-start_http_client_example =
    stop-start_http_client net 0 [] (protocol http_client) (store_of down_three) with_client.0
      (codes "e") refl with_client.1

abbrev with_tcp : Store
with_tcp = opened (protocol tcp_server) (codes "TCP_SERVER") (store_of down_three)

abbrev empty : Store
empty = store_of new_pipeline

abbrev server : Store
server =
    (start_http_server-opens net 1 [] (protocol http_server) empty new_pipeline [] [] refl refl
      new_pipeline-IsPipeline refl).1

server-start : start net 1 [] (protocol http_server) empty ≡ ok server
server-start =
    (start_http_server-opens net 1 [] (protocol http_server) empty new_pipeline [] [] refl refl
      new_pipeline-IsPipeline refl).2

start_http_server-again_example :
    (start net 2 [] (protocol http_server) (stop net (protocol http_server) server)
      ≡ ok (stop net (protocol http_server) server))
    × (get (codes "d") (stop net (protocol http_server) server).manager ≡ none)
unfolding has_device text_eq
start_http_server-again_example =
    start_http_server-again net 1 2 [] (protocol http_server) empty server new_pipeline [] []
      (codes "d") refl refl new_pipeline-IsPipeline server-start refl refl

abbrev channel : DefaultChannel
channel = record { protocol = protocol http_server; pipeline = 0; attach_map = [] }

abbrev reporting : Store
reporting = record {
  pipelines = three up_handler ∷ [];
  channels = λ a. if a == 5 then some channel else none;
  next_channel = 6;
  manager = (codes "d", 5) ∷ [];
}

reporting-IsUpChannel : IsUpChannel reporting 5 channel (cells_of up_handler) registrations
reporting-IsUpChannel = record {
  pipeline = three up_handler;
  channel = refl;
  found = refl;
  linked = (three-IsPipeline up_handler).linked;
  registered = refl;
}

property_report-fan_out_example :
    outcome_of
      (property_report 4 (protocol http_server) (codes "g") (codes "d") (some []) reporting)
    ≡ ok (200, fan_out registrations (report_message (protocol http_server) (codes "d") []))
unfolding is_reporter get lookup text_eq
property_report-fan_out_example =
    property_report-fan_out reporting 5 channel (cells_of up_handler) registrations 4
      (protocol http_server) (codes "g") (codes "d") [] reporting-IsUpChannel refl (omega arith)
