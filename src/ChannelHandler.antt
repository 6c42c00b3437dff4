-- ===== src/ChannelHandler.antt =====
-- The records of reports, by which devices are taken to be offline
-- (pkg/protocol/channelhandler/record_device_report_offline_up.go): the record in memory.
pub mod Events
pub mod Sweep
pub mod Redis
mod Tests
use zingthings.Base.{
  ℕ, ◌+◌, ◌*◌, Bool, true, false, not, ◌&&◌, List, [], ◌∷◌, length, ltb, leb, if◌then◌else◌,
}
use zingthings.Base.Text.{Text, text_eq}
use zingthings.Base.Dict.{Dict, insert}
use zingthings.Core.Types.{Message}
use zingthings.Core.Protocol.{is_not_long_connection}

-- LocalMemoryReportRecord: the times by device, and the limit on their number.
pub record LocalMemoryReportRecord : Type 0 where
  pub pool : Dict ℕ
  pub limit : ℕ

abbrev pub get_device_offline_millisecond : ℕ
get_device_offline_millisecond = 5 * 60 * 1000

unfoldable pub size : LocalMemoryReportRecord → ℕ
size r = length r.pool

unfoldable pub save_record : Text → ℕ → LocalMemoryReportRecord → LocalMemoryReportRecord
unfolding size
save_record device time r =
    if leb r.limit (size r) then r else record r { pool = insert device time r.pool }

-- current - timeStamp > getDeviceOfflineMillisecond(), on times that are not negative
unfoldable pub is_offline : ℕ → ℕ → Bool
is_offline current time = ltb (time + get_device_offline_millisecond) current

-- A tick of Start: the devices for which DeviceOffline is published, and the pool without them.
unfoldable pub sweep_pool : ℕ → Dict ℕ → List Text × Dict ℕ
unfolding is_offline
sweep_pool current [] = ([], [])
sweep_pool current ((device, time) ∷ pool) =
    let rest = sweep_pool current pool in
    if is_offline current time then (device ∷ rest.0, rest.1) else (rest.0, (device, time) ∷ rest.1)

unfoldable pub sweep : ℕ → LocalMemoryReportRecord → List Text × LocalMemoryReportRecord
unfolding sweep_pool
sweep current r =
    let (offline, pool) = sweep_pool current r.pool in (offline, record r { pool = pool })

-- The deal function of the handler: a message of a protocol without long connections is recorded
-- with the time in microseconds, `micro`.
unfoldable pub deal_record : ℕ → Message → LocalMemoryReportRecord → LocalMemoryReportRecord
unfolding save_record
deal_record micro m r =
    if not (text_eq m.header.protocol_type []) && is_not_long_connection m.header.protocol_type
    then save_record m.header.device_id micro r
    else r
