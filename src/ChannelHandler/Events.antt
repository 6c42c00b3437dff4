-- ===== src/ChannelHandler/Events.antt =====
-- The listeners of the device events (pkg/protocol/events/device_event.go), which do nothing, on
-- the event bus of pkg/protocol/core/event_bus.go.
use zingthings.Base.{◌≡◌, refl, ◌∙◌, Bool, false, ◌||◌, List, arith}
use zingthings.Base.Text.{Text, codes, text_eq}
use zingthings.Base.Dict.{Dict}
use zingthings.Core.EventBus.{subscribe, publish, publish-subscribe}

abbrev device_online : Text
device_online = codes "DeviceOnline"

abbrev device_offline : Text
device_offline = codes "DeviceOffline"

abbrev device_report_success : Text
device_report_success = codes "DeviceReportSuccess"

abbrev device_down_link_success : Text
device_down_link_success = codes "DeviceDownLinkSuccess"

abbrev device_report_failed : Text
device_report_failed = codes "DeviceReportFailed"

abbrev pub is_device_event : Text → Bool
is_device_event topic =
    text_eq device_online topic
    || text_eq device_offline topic
    || text_eq device_report_success topic
    || text_eq device_down_link_success topic
    || text_eq device_report_failed topic

-- A topic with no device event differs from each of them.
not_device_event :
    (topic : Text)
    → is_device_event topic ≡ false
    → (text_eq device_online topic ≡ false)
      × (text_eq device_offline topic ≡ false)
      × (text_eq device_report_success topic ≡ false)
      × (text_eq device_down_link_success topic ≡ false)
      × (text_eq device_report_failed topic ≡ false)
not_device_event topic other =
    (ground arith, ground arith, ground arith, ground arith, ground arith)

module _ {ℓ} {S : Type ℓ} where
  subscribe-other {κ} :
      {E : Type κ} (topic k : Text) (f : S) (event : E) (b : Dict (List S))
      → text_eq topic k ≡ false
      → publish k event (subscribe topic f b) ≡ publish k event b
  subscribe-other topic k f event b other = publish-subscribe topic k f event b ∙ rw other refl

  -- `f` is the empty function.
  unfoldable pub init_event_listener : S → Dict (List S) → Dict (List S)
  init_event_listener f b = subscribe device_report_failed f (
      subscribe device_down_link_success f (
        subscribe device_report_success f
          (subscribe device_offline f (subscribe device_online f b))))

  -- The other topics keep their subscribers.
  pub publish-init_event_listener {κ} :
      {E : Type κ} (topic : Text) (f : S) (event : E) (b : Dict (List S))
      → is_device_event topic ≡ false
      → publish topic event (init_event_listener f b) ≡ publish topic event b
  unfolding init_event_listener
  publish-init_event_listener topic f event b other =
      let (p, q, r, s, t) = not_device_event topic other in
      subscribe-other _ topic f event _ t
      ∙ subscribe-other _ topic f event _ s
      ∙ subscribe-other _ topic f event _ r
      ∙ subscribe-other _ topic f event _ q
      ∙ subscribe-other _ topic f event _ p
