-- ===== src/Extension/Requests.antt =====
-- The requests of the HTTP client (Execute and dealRequest of
-- pkg/protocol/extension/protocol/httpclient/httpclient.go).
pub mod Selection
pub mod Delivery
mod Tests
use zingthings.Base.{
  ℕ, Bool, true, false, Option, none, some, List, [], ◌∷◌, ◌++◌, if◌then◌else◌, keep, Outcome, ok,
  panics, ◌>>=◌,
}
use zingthings.Base.Text.{Text, codes, text_eq}
use zingthings.Base.Int.{ℤ, pos, int_eq}
use zingthings.Base.Dict.{Dict, lookup}
use zingthings.Core.Types.{
  Value, bytes, text, int, number, texts, object, plain, DeviceInfo, Message,
}
use zingthings.Core.Handler.{Call}
use zingthings.Core.Protocol.{Protocol, http_client_type}
use zingthings.Core.Channel.{Store}
use zingthings.Core.Link.{new_up_message, up_link}

pub record HttpRequest : Type 0 where
  pub method : Text
  pub path : Text
  pub header : Dict Text
  pub content : Text
  pub query : Dict Text

abbrev pub execution_time_interval : Text
execution_time_interval = codes "executionTimeInterval"

abbrev pub http_requests : Text
http_requests = codes "httpRequests"

abbrev pub base_url : Text
base_url = codes "baseUrl"

-- value.(int), value.([]string) and value.(string)
abbrev pub as_int : Value → Outcome ℤ
as_int (int n) = ok n
as_int v = panics

abbrev pub as_texts : Value → Outcome (List Text)
as_texts (texts ts) = ok ts
as_texts v = panics

abbrev pub as_text : Value → Outcome Text
as_text (text t) = ok t
as_text v = panics

-- The interval of the configuration, and 5000 if it has none.
unfoldable pub interval_of : Dict Value → Outcome ℤ
interval_of config = elim (lookup execution_time_interval config) [
  | none ↦ ok (pos 5000)
  | some v ↦ as_int v
]

-- value == executionTimeInterval, for a value of any type.
abbrev pub equals_int : ℤ → Value → Bool
equals_int n (int k) = int_eq k n
equals_int n v = false

-- if value, ok := Properties["executionTimeInterval"]; ok && value == executionTimeInterval
unfoldable pub has_interval : ℤ → DeviceInfo → Bool
has_interval n d = elim (lookup execution_time_interval d.properties) [
  | none ↦ false
  | some v ↦ equals_int n v
]

unfoldable pub need_requests : ℤ → List DeviceInfo → List DeviceInfo
unfolding has_interval
need_requests n ds = keep (has_interval n) ds

-- Properties["httpRequests"].([]string)
unfoldable pub requests_of : DeviceInfo → Outcome (List Text)
requests_of d = elim (lookup http_requests d.properties) [ none ↦ panics | some v ↦ as_texts v ]

-- Whether an error was returned, and the calls of dealRequest that were started before.
pub record Executed : Type 0 where
  pub failed : Bool
  pub started : List (HttpRequest × DeviceInfo)

abbrev pub after_started : List (HttpRequest × DeviceInfo) → Executed → Executed
after_started started e = record e { started = started ++ e.started }

-- `parse` is json.Unmarshal into an HttpRequest.
unfoldable pub start_requests : (Text → Option HttpRequest) → DeviceInfo → List Text → Executed
start_requests parse d [] = record { failed = false; started = [] }
start_requests parse d (t ∷ ts) = elim (parse t) [
  | none ↦ record { failed = true; started = [] }
  | some r ↦ after_started ((r, d) ∷ []) (start_requests parse d ts)
]

unfoldable pub start_devices : (Text → Option HttpRequest) → List DeviceInfo → Outcome Executed
unfolding requests_of start_requests
start_devices parse [] = ok (record { failed = false; started = [] })
start_devices parse (d ∷ ds) = do
  ts ← requests_of d
  let here = start_requests parse d ts
  if here.failed
      then ok here
      else do rest ← start_devices parse ds; ok (after_started here.started rest)

unfoldable pub execute :
    (Text → Option HttpRequest) → Dict Value → List DeviceInfo → Outcome Executed
unfolding interval_of need_requests start_devices
execute parse config ds = do n ← interval_of config; start_devices parse (need_requests n ds)

unfoldable pub request_message : Protocol → DeviceInfo → Text → Message
unfolding new_up_message
request_message p d body =
    new_up_message
      (record {
        device_group_id = p.device_group.device_group_id;
        device_id = d.device_id;
        protocol_type = http_client_type;
      })
      (plain (bytes body))

-- `fetch` is the body of the answer to a GET request, as far as it can be read, or none if the
-- request fails; its body is closed then too, and panics.
get_request :
    ℕ
    → Protocol
    → (Text → Option Text)
    → Text
    → DeviceInfo
    → Store
    → Outcome (DeviceInfo × List Call)
unfolding request_message up_link
get_request fuel p fetch url d s = elim (fetch url) [
  | none ↦ panics
  | some body ↦ do calls ← up_link fuel (request_message p d body) s; ok (d, calls)
]

-- The result is the device with its group, and the calls of the pipeline.
unfoldable pub deal_request :
    ℕ
    → Protocol
    → Dict Value
    → (Text → Option Text)
    → HttpRequest
    → DeviceInfo
    → Store
    → Outcome (DeviceInfo × List Call)
unfolding get_request
deal_request fuel p properties fetch request device s =
    let d = record device { device_group = p.device_group } in
    elim (lookup base_url properties) [
      | none ↦ ok (d, [])
      | some v ↦
          if text_eq request.method (codes "GET")
          then (as_text v >>= λ base. get_request fuel p fetch (base ++ request.path) d s)
          else ok (d, [])
    ]
