-- ===== src/Extension/Requests/Delivery.antt =====
-- What a request of the HTTP client sends up
-- (dealRequest of pkg/protocol/extension/protocol/httpclient/httpclient.go).
use zingthings.Base.{
  ℕ, ◌<◌, ◌≡◌, refl, Bool, true, false, Option, none, some, List, [], ◌++◌, arith, length,
  if◌then◌else◌, Outcome, ok, panics, ◌>>=◌,
}
use zingthings.Base.Text.{Text, codes, text_eq}
use zingthings.Base.Dict.{Dict, lookup}
use zingthings.Core.Types.{Value, text, DeviceInfo}
use zingthings.Core.Handler.{Call}
use zingthings.Core.Protocol.{Protocol}
use zingthings.Core.Pipeline.Chain.{Cells}
use zingthings.Core.Pipeline.FanOut.{Registration, fan_out, send_up_stream-fan_out}
use zingthings.Core.Channel.{Store, DefaultChannel, get, channel_send_up_stream}
use zingthings.Core.Link.{new_up_message, up_link}
use zingthings.Extension.Report.{IsUpChannel}
use zingthings.Extension.Requests.{
  HttpRequest, base_url, request_message, get_request, deal_request,
}

abbrev pub own_device : Protocol → DeviceInfo → DeviceInfo
own_device p device = record device { device_group = p.device_group }

module _ (s : Store) (a : ℕ) (c : DefaultChannel) (xs : Cells) (rs : List Registration) (fuel : ℕ)
    (p : Protocol) (device : DeviceInfo) (v : IsUpChannel s a c xs rs)
    (here : get device.device_id s.manager ≡ some a) (lt : length xs < fuel) where
  up_link-request_message :
      (body : Text)
      → up_link fuel (request_message p (own_device p device) body) s
        ≡ ok (fan_out rs (request_message p (own_device p device) body))
  unfolding up_link channel_send_up_stream request_message new_up_message
  up_link-request_message body = ground (
    arith,
    here,
    v.channel,
    v.found,
    send_up_stream-fan_out fuel rs (request_message p (own_device p device) body) v.linked lt
        v.registered,
  )

  pub deal_request-fan_out :
      (properties : Dict Value) (fetch : Text → Option Text) (request : HttpRequest) (base : Text)
      → lookup base_url properties ≡ some (text base)
      → deal_request fuel p properties fetch request device s ≡ (
          if text_eq request.method (codes "GET")
          then (elim (fetch (base ++ request.path)) as (λ o. Outcome (DeviceInfo × List Call)) [
            | none ↦ panics
            | some body ↦
                ok (own_device p device, fan_out rs (request_message p (own_device p device) body))
          ])
          else ok (own_device p device, []))
  unfolding deal_request get_request
  deal_request-fan_out properties fetch request base e =
      rw (e, deal_request)
        (by_method (text_eq request.method (codes "GET")) (fetch (base ++ request.path)))
    where
      by_method :
          (b : Bool) (o : Option Text)
          → (if b
              then (elim o as (λ o. Outcome (DeviceInfo × List Call)) [
                | none ↦ panics
                | some body ↦
                    up_link fuel (request_message p (own_device p device) body) s >>= λ calls.
                    ok (own_device p device, calls)
              ])
              else ok (own_device p device, []))
            ≡ (if b
                then (elim o as (λ o. Outcome (DeviceInfo × List Call)) [
                  | none ↦ panics
                  | some body ↦ ok (
                    own_device p device,
                    fan_out rs (request_message p (own_device p device) body),
                  )
                ])
                else ok (own_device p device, []))
      by_method false o = refl
      by_method true none = refl
      by_method true (some body) = rw (up_link-request_message body) refl
