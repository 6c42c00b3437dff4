-- ===== src/Extension/Report.antt =====
-- The reports that an HTTP server takes from devices (propertyReport of
-- pkg/protocol/extension/protocol/httpserver/httpserver.go).
use zingthings.Base.{
  ℕ, ◌<◌, ◌≡◌, refl, Bool, true, false, ◌&&◌, ◌||◌, Option, none, some, List, [], ◌∷◌,
  if◌then◌else◌, arith, map, length, get_elem?, is_some, sym, Outcome, ok, panics, diverges, ◌>>=◌,
}
use zingthings.Base.Text.{Text, text_eq}
use zingthings.Core.Types.{DeviceGroup, DeviceInfo, Message, plain, bytes}
use zingthings.Core.Handler.{Call}
use zingthings.Core.Protocol.{Protocol, http_server_type}
use zingthings.Core.Pipeline.{Pipeline}
use zingthings.Core.Pipeline.Chain.{Cells}
use zingthings.Core.Pipeline.View.{IsLinked}
use zingthings.Core.Pipeline.Send.{handlers}
use zingthings.Core.Pipeline.FanOut.{Registration, up_handler, fan_out, send_up_stream-fan_out}
use zingthings.Core.Channel.{Store, DefaultChannel, get, channel_send_up_stream}
use zingthings.Core.Link.{new_up_message, up_link}

abbrev status_ok : ℕ
status_ok = 200

abbrev status_not_found : ℕ
status_not_found = 404

abbrev status_internal_server_error : ℕ
status_internal_server_error = 500

-- The condition of the loop on a device, for the group and the device of the path.
unfoldable pub is_reporter : DeviceGroup → Text → Text → DeviceInfo → Bool
is_reporter own group device k =
    text_eq k.device_id device
    && (text_eq group own.device_group_id || text_eq group k.device_group.device_group_id)

-- The loop: the first such device is given the group of the server; none if there is no such device.
unfoldable pub claim_device : DeviceGroup → Text → Text → List DeviceInfo → Option (List DeviceInfo)
unfolding is_reporter
claim_device own group device [] = none
claim_device own group device (k ∷ ks) =
    let rest = claim_device own group device ks in
    if is_reporter own group device k
    then some (record k { device_group = own } ∷ ks)
    else elim rest [ none ↦ none | some ks' ↦ some (k ∷ ks') ]

unfoldable pub report_message : Protocol → Text → Text → Message
unfolding new_up_message
report_message p device body =
    new_up_message
      (record {
        device_group_id = p.device_group.device_group_id;
        device_id = device;
        protocol_type = http_server_type;
      })
      (plain (bytes body))

-- The handler for the path /{group}/{device}/propertyReport; the body is none if it cannot be read.
-- The status, the protocol with its devices, and the calls of the pipeline.
unfoldable pub property_report :
    ℕ → Protocol → Text → Text → Option Text → Store → Outcome (ℕ × Protocol × List Call)
unfolding claim_device report_message
property_report fuel p group device none s = ok (status_internal_server_error, p, [])
property_report fuel p group device (some body) s =
    elim (claim_device p.device_group group device p.device_infos) [
      | none ↦ ok (status_not_found, p, [])
      | some infos ↦ do
        calls ← up_link fuel (report_message p device body) s
        ok (status_ok, record p { device_infos = infos }, calls)
    ]

-- A device with a channel at `a` over a pipeline of upstream handlers for one protocol type each.
pub record IsUpChannel (s : Store) (a : ℕ) (c : DefaultChannel) (xs : Cells)
    (rs : List Registration) : Type 0 where
  pub pipeline : Pipeline
  pub channel : s.channels a ≡ some c
  pub found : get_elem? s.pipelines c.pipeline ≡ some pipeline
  pub linked : IsLinked pipeline xs
  pub registered : handlers xs ≡ map up_handler rs

-- Whether an entry of a list passes a test.
abbrev pub any : (DeviceInfo → Bool) → List DeviceInfo → Bool
any test [] = false
any test (k ∷ ks) = test k || any test ks

claim_device-any :
    (own : DeviceGroup) (group device : Text) (ks : List DeviceInfo)
    → is_some (claim_device own group device ks) ≡ any (is_reporter own group device) ks
unfolding claim_device
claim_device-any own group device [] = refl
claim_device-any own group device (k ∷ ks) =
    by_test (is_reporter own group device k) (claim_device own group device ks)
      (claim_device-any own group device ks)
  where
    by_test :
        (b : Bool) (rest : Option (List DeviceInfo))
        → is_some rest ≡ any (is_reporter own group device) ks
        → is_some (
            if b
            then some (record k { device_group = own } ∷ ks)
            else elim rest as (λ o. Option (List DeviceInfo)) [
              | none ↦ none
              | some ks' ↦ some (k ∷ ks')
            ])
          ≡ (b || any (is_reporter own group device) ks)
    by_test true rest e = refl
    by_test false none e = e
    by_test false (some ks') e = e

-- The status and the calls of a report.
abbrev pub outcome_of : Outcome (ℕ × Protocol × List Call) → Outcome (ℕ × List Call)
outcome_of (ok (status, p, calls)) = ok (status, calls)
outcome_of panics = panics
outcome_of diverges = diverges

module _ (s : Store) (a : ℕ) (c : DefaultChannel) (xs : Cells) (rs : List Registration) (fuel : ℕ)
    (p : Protocol) (group device body : Text) (v : IsUpChannel s a c xs rs)
    (here : get device s.manager ≡ some a) (lt : length xs < fuel) where
  sent_up :
      up_link fuel (report_message p device body) s ≡ ok (fan_out rs (report_message p device body))
  unfolding up_link channel_send_up_stream report_message new_up_message
  sent_up = ground (
    arith,
    here,
    v.channel,
    v.found,
    send_up_stream-fan_out fuel rs (report_message p device body) v.linked lt v.registered,
  )

  pub property_report-fan_out : outcome_of (property_report fuel p group device (some body) s) ≡ (
      if any (is_reporter p.device_group group device) p.device_infos
      then ok (200, fan_out rs (report_message p device body))
      else ok (404, []))
  unfolding property_report
  property_report-fan_out =
      by_claim (claim_device p.device_group group device p.device_infos)
        (claim_device-any p.device_group group device p.device_infos)
    where
      by_claim :
          (o : Option (List DeviceInfo))
          → is_some o ≡ any (is_reporter p.device_group group device) p.device_infos
          → outcome_of (elim o as (λ o. Outcome (ℕ × Protocol × List Call)) [
            | none ↦ ok (404, p, [])
            | some infos ↦ up_link fuel (report_message p device body) s >>= λ calls.
                ok (200, record p { device_infos = infos }, calls)
          ])
            ≡ (if any (is_reporter p.device_group group device) p.device_infos
                then ok (200, fan_out rs (report_message p device body))
                else ok (404, []))
      by_claim none e = rw (sym e) refl
      by_claim (some infos) e = rw (sym e, sent_up) refl
