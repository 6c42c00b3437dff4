-- ===== src/Extension.antt =====
-- Starting and stopping protocols (pkg/protocol/extension/protocol: httpclient/httpclient.go,
-- httpserver/httpserver.go, httpserver/httpserver_down.go and tcpserver/tcpserver.go).
pub mod Devices
pub mod Lifecycle
pub mod Accept
pub mod HttpServer
pub mod Report
pub mod Hex
pub mod Connection
pub mod Requests
mod Tests
use zingthings.Base.{
  ℕ, Bool, true, false, Option, none, some, List, [], ◌∷◌, if◌then◌else◌, Outcome, ok, panics,
  ◌>>=◌,
}
use zingthings.Base.Text.{Text, codes}
use zingthings.Base.Int.{ℤ, pos}
use zingthings.Base.Dict.{Dict}
use zingthings.Core.Types.{Value, text, DeviceInfo}
use zingthings.Core.Handler.{
  ChannelHandler, as_handler, new_async_simple_down_protocol_type_channel_handler,
}
use zingthings.Core.Pipeline.{Pipeline, PipelineError, add_first}
use zingthings.Core.Protocol.{
  Protocol, ProtocolKind, http_client, http_server, tcp_server, http_client_type, http_server_type,
  tcp_server_type, get_port,
}
use zingthings.Core.Channel.{
  Store, create, attach, register, remove, pipeline_at, protocol_type_key,
}

-- Go's net and net/http: whether a TCP port can be listened on, and whether Shutdown of a server
-- returns nil.
pub record Network : Type 0 where
  pub listens : Protocol → ℤ → Bool
  pub shuts_down : Protocol → Bool

-- for _, info := range DeviceInfos { ChannelManager.Register(string(info.DeviceId), channel) }
unfoldable pub register_all : List DeviceInfo → ℕ → Dict ℕ → Dict ℕ
unfolding register
register_all [] a m = m
register_all (d ∷ ds) a m = register_all ds a (register d.device_id a m).1

-- for _, info := range DeviceInfos { ChannelManager.Remove(string(info.DeviceId)) }
unfoldable pub remove_all : List DeviceInfo → Dict ℕ → Dict ℕ
unfolding remove
remove_all [] m = m
remove_all (d ∷ ds) m = remove_all ds (remove d.device_id m).1

-- The end of every Start: a channel with the type attached, registered for all devices. The common
-- pipeline has number 0.
unfoldable pub open_channel : Protocol → Text → Store → Outcome Store
unfolding create attach register_all
open_channel p t s = do
  s' ← attach (create 0 p s).0 protocol_type_key (text t) (create 0 p s).1
  ok (record s' { manager = register_all p.device_infos (create 0 p s).0 s'.manager })

unfoldable pub close_channel : Protocol → Store → Store
unfolding remove_all
close_channel p s = record s { manager = remove_all p.device_infos s.manager }

unfoldable pub start_http_client : Protocol → Store → Outcome Store
unfolding open_channel
start_http_client p s = open_channel p http_client_type s

abbrev pub http_server_down : Text
http_server_down = codes "httpServerDown"

-- NewHttpServerDownChannelHandler: the deal function, which only logs, has the number given.
unfoldable pub new_http_server_down_channel_handler : ℕ → ChannelHandler
unfolding as_handler new_async_simple_down_protocol_type_channel_handler
new_http_server_down_channel_handler id = as_handler (
    new_async_simple_down_protocol_type_channel_handler http_server_type
      (record { id = id; async = true; effect = λ m. m }))

-- if err != nil { return } after AddFirst
after_add_first : Protocol → Store → List Pipeline → Option PipelineError × Pipeline → Outcome Store
unfolding open_channel
after_add_first p s others (some e, q) = ok s
after_add_first p s others (none, q) =
    open_channel p http_server_type (record s { pipelines = q ∷ others })

-- The server itself runs in a goroutine of its own.
unfoldable pub start_http_server : ℕ → Protocol → Store → Outcome Store
unfolding add_first after_add_first new_http_server_down_channel_handler
start_http_server id p s = elim (s.pipelines) [
  | [] ↦ panics
  | common ∷ others ↦ do
    added ← add_first http_server_down (new_http_server_down_channel_handler id) common
    after_add_first p s others added
]

abbrev pub default_port : ℤ
default_port = pos 8887

unfoldable pub start_tcp_server : Network → Dict Value → Protocol → Store → Outcome Store
unfolding open_channel get_port
start_tcp_server net properties p s =
    if net.listens p (get_port properties default_port)
    then open_channel p tcp_server_type s
    else ok s

-- Start of the interface Protocol, by its implementation.
start_as : ProtocolKind → Network → ℕ → Dict Value → Protocol → Store → Outcome Store
unfolding start_http_client start_http_server start_tcp_server
start_as http_client net id properties p s = start_http_client p s
start_as http_server net id properties p s = start_http_server id p s
start_as tcp_server net id properties p s = start_tcp_server net properties p s

unfoldable pub start : Network → ℕ → Dict Value → Protocol → Store → Outcome Store
unfolding start_as
start net id properties p s = start_as p.kind net id properties p s

-- Stop. An HTTP server whose Shutdown fails, and a TCP server, leave the channels as they are.
stop_as : ProtocolKind → Network → Protocol → Store → Store
unfolding close_channel
stop_as http_client net p s = close_channel p s
stop_as http_server net p s = if net.shuts_down p then close_channel p s else s
stop_as tcp_server net p s = s

unfoldable pub stop : Network → Protocol → Store → Store
unfolding stop_as
stop net p s = stop_as p.kind net p s
