-- ===== src/Extension/Requests/Tests.antt =====
-- The theorems on the requests of the HTTP client
-- (pkg/protocol/extension/protocol/httpclient/httpclient.go) at one example each.
use zingthings.Base.{
  ◌≡◌, refl, true, some, none, Option, [], ◌∷◌, arith, ok, if◌then◌else◌, ◌==◌, keep,
}
use zingthings.Base.Text.{Text, codes, text_eq}
use zingthings.Base.Int.{pos, int_eq}
use zingthings.Base.Dict.{lookup}
use zingthings.Core.Types.{Value, text, int, texts, DeviceInfo}
use zingthings.Core.Protocol.{Protocol, http_client}
use zingthings.Core.Channel.{Store, DefaultChannel, get}
use zingthings.Core.Pipeline.FanOut.{up_handler, fan_out}
use zingthings.Core.Pipeline.Tests.{three, cells_of, three-IsPipeline, registrations}
use zingthings.Extension.Report.{IsUpChannel}
use zingthings.Extension.Requests.{
  HttpRequest, execution_time_interval, http_requests, base_url, request_message, deal_request,
  execute, interval_of, need_requests, requests_of,
}
use zingthings.Extension.Requests.Selection.{execute-outcome}
use zingthings.Extension.Requests.Delivery.{own_device, deal_request-fan_out}

abbrev get_status : HttpRequest
get_status = record {
  method = codes "GET";
  path = codes "/status";
  header = [];
  content = [];
  query = [];
}

-- A device with one interval, and requests of which the second cannot be read.
abbrev device : Value → DeviceInfo
device interval = record {
  properties =
      (execution_time_interval, interval)
      ∷ (http_requests, texts (codes "1" ∷ [] ∷ codes "2" ∷ []))
      ∷ [];
  device_id = codes "d";
  device_name = [];
  device_group = record { device_group_name = []; device_group_id = codes "h" };
}

abbrev parse : Text → Option HttpRequest
parse t = if text_eq t [] then none else some get_status

execute-outcome_example :
    execute parse [] (device (int (pos 5000)) ∷ [])
    ≡ ok (record { failed = true; started = (get_status, device (int (pos 5000))) ∷ [] })
unfolding lookup text_eq int_eq interval_of need_requests keep requests_of
execute-outcome_example =
    execute-outcome parse [] (device (int (pos 5000)) ∷ []) (pos 5000)
      (λ d. codes "1" ∷ [] ∷ codes "2" ∷ []) refl (refl, tt)

abbrev client : Protocol
client = record {
  kind = http_client;
  protocol_id = codes "p:g:0";
  device_group = record { device_group_name = []; device_group_id = codes "g" };
  device_infos = [];
}

abbrev channel : DefaultChannel
channel = record { protocol = client; pipeline = 0; attach_map = [] }

abbrev asking : Store
asking = record {
  pipelines = three up_handler ∷ [];
  channels = λ a. if a == 5 then some channel else none;
  next_channel = 6;
  manager = (codes "d", 5) ∷ [];
}

asking-IsUpChannel : IsUpChannel asking 5 channel (cells_of up_handler) registrations
asking-IsUpChannel = record {
  pipeline = three up_handler;
  channel = refl;
  found = refl;
  linked = (three-IsPipeline up_handler).linked;
  registered = refl;
}

deal_request-fan_out_example :
    deal_request 4 client
      ((base_url, text (codes "http://h")) ∷ [])
      (λ url. some url)
      get_status
      (device (int (pos 1)))
      asking
    ≡ ok (
      own_device client (device (int (pos 1))),
      fan_out registrations (
          request_message client
            (own_device client (device (int (pos 1))))
            (codes "http://h/status")),
    )
unfolding get lookup text_eq
deal_request-fan_out_example =
    deal_request-fan_out asking 5 channel (cells_of up_handler) registrations 4 client
      (device (int (pos 1))) asking-IsUpChannel refl (omega arith)
      ((base_url, text (codes "http://h")) ∷ []) (λ url. some url) get_status (codes "http://h")
      refl
