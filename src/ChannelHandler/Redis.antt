-- ===== src/ChannelHandler/Redis.antt =====
-- The record of reports in Redis (RedisReportRecord of
-- pkg/protocol/channelhandler/record_device_report_offline_up.go), and the handler for devices that
-- are online (pkg/protocol/channelhandler/device_online_up.go).
pub mod Overdue
mod Tests
use zingthings.Base.{
  ℕ, zero, suc, ◌+◌, ◌^◌, Bool, true, false, not, ◌&&◌, Option, none, some, List, [], ◌∷◌, ◌++◌,
  ltb, if◌then◌else◌, ◌==◌,
}
use zingthings.Base.Text.{Text, codes, text_eq}
use zingthings.Base.Int.{ℤ, pos, negsuc, itoa}
use zingthings.Base.Decimal.{atoi}
use zingthings.Core.Types.{Message}
use zingthings.Core.Protocol.{is_not_long_connection}
use zingthings.ChannelHandler.{get_device_offline_millisecond}
use zingthings.Outside.{Run, pure, ◌>>=◌}

-- The hash of the reports in Redis, by the client go-redis, and the clock in milliseconds. none is
-- an error; HScan gives fields and the next cursor.
pub record Redis : Type 1 where
  pub State : Type 0
  pub now : Run State ℕ
  pub hscan : ℕ → Run State (Option (List Text × ℕ))
  pub hget : Text → Run State (Option Text)
  pub hdel : Text → Run State Bool
  pub hset : Text → Text → Run State Bool

-- current - int64(timeStamp) > getDeviceOfflineMillisecond(), where the difference of a negative
-- time may be out of the range of int64, and is negative then.
unfoldable pub is_overdue : ℕ → ℤ → Bool
is_overdue current (pos t) = ltb (t + get_device_offline_millisecond) current
is_overdue current (negsuc n) =
    ltb get_device_offline_millisecond (current + suc n) && ltb (current + suc n) (2 ^ 63)

-- The time of a field, if it could be read and is an int.
abbrev pub time_in : Option Text → Option ℤ
time_in none = none
time_in (some t) = atoi t

abbrev pub is_gone : ℕ → Option Text → Bool
is_gone current value = elim (time_in value) [ none ↦ false | some t ↦ is_overdue current t ]

-- How a tick ended: at the end of the scan, by an error, which ends the goroutine, or not yet, when
-- the fuel is used up; with the devices for which DeviceOffline was published.
pub data Scanned : Type 0 where
  scanned failed scanning : List Text → Scanned

abbrev pub after_page : List Text → Scanned → Scanned
after_page gone (scanned rest) = scanned (gone ++ rest)
after_page gone (failed rest) = failed (gone ++ rest)
after_page gone (scanning rest) = scanning (gone ++ rest)

module _ (r : Redis) where
  open r use {State, now, hscan, hget, hdel, hset}

  -- The loop over the fields of one page: what is published.
  unfoldable pub scan_fields : ℕ → List Text → Run State (List Text)
  unfolding is_overdue
  scan_fields current [] = pure []
  scan_fields current (field ∷ fields) = do
    value ← hget field
    if is_gone current value
        then (do done ← hdel field; rest ← scan_fields current fields; pure (field ∷ rest))
        else scan_fields current fields

  -- The pages from a cursor on; a scan ends when the cursor is 0 again.
  unfoldable pub scan_loop : ℕ → ℕ → Run State Scanned
  unfolding scan_fields
  scan_loop zero cursor = pure (scanning [])
  scan_loop (suc fuel) cursor = do
    current ← now
    page ← hscan cursor
    elim page [
      | none ↦ pure (failed [])
      | some found ↦ do
        gone ← scan_fields current found.0
        if found.1 == 0
            then pure (scanned gone)
            else (do rest ← scan_loop fuel found.1; pure (after_page gone rest))
    ]

  -- One tick.
  unfoldable pub redis_tick : ℕ → Run State Scanned
  unfolding scan_loop
  redis_tick fuel = scan_loop fuel 0

  unfoldable pub redis_save_record : Text → ℕ → Run State Bool
  redis_save_record device time = hset device (itoa (pos time))

  -- The deal function over this record; `micro` is the time in microseconds.
  unfoldable pub redis_deal_record : ℕ → Message → Run State Bool
  unfolding redis_save_record
  redis_deal_record micro m =
      if not (text_eq m.header.protocol_type []) && is_not_long_connection m.header.protocol_type
      then redis_save_record m.header.device_id micro
      else pure true

-- The deal function of deviceOnline: the event that it publishes, with the message.
unfoldable pub deal_online : Message → Option (Text × Message)
deal_online m =
    if not (text_eq m.header.protocol_type []) && is_not_long_connection m.header.protocol_type
    then some (codes "DeviceOnline", m)
    else none
