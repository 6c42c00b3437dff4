-- ===== src/ChannelHandler/Sweep.antt =====
-- What is recorded and what is taken to be offline
-- (pkg/protocol/channelhandler/record_device_report_offline_up.go).
use zingthings.Base.{
  ℕ, suc, ◌*◌, ◌≤◌, ◌<◌, ◌≡◌, refl, ◌∙◌, ap, true, false, Option, none, some, [], ◌∷◌, length,
  arith, leb, if◌then◌else◌,
}
use zingthings.Base.Text.{Text, text_eq, text_eq_iff}
use zingthings.Base.Dict.{Dict, lookup, insert, lookup-insert_self}
use zingthings.Base.Dict.Keyed.{IsSingle, insert-IsSingle}
use zingthings.Core.Types.{Message}
use zingthings.Core.Protocol.{is_not_long_connection}
use zingthings.ChannelHandler.{
  LocalMemoryReportRecord, size, save_record, is_offline, sweep_pool, sweep, deal_record,
}

length-insert-le : (k : Text) (v : ℕ) (m : Dict ℕ) → length (insert k v m) ≤ suc (length m)
unfolding insert
length-insert-le k v [] = omega arith
length-insert-le k v ((j, w) ∷ m) = ground (arith, length-insert-le k v m)

-- Recording a message never makes more records than the limit.
pub size-deal_record :
    (micro : ℕ) (m : Message) (r : LocalMemoryReportRecord)
    → size r ≤ r.limit
    → size (deal_record micro m r) ≤ r.limit
unfolding deal_record save_record size
size-deal_record micro m r h = ground (arith, length-insert-le m.header.device_id micro r.pool)

-- At the limit the time of a device is not brought up to date, also if the device has a record.
pub save_record-full :
    (device : Text) (time : ℕ) (r : LocalMemoryReportRecord)
    → r.limit ≤ size r
    → save_record device time r ≡ r
unfolding save_record
save_record-full device time r h = ground arith

-- With one time for each device, a sweep keeps exactly the devices whose time is not too old.
pub lookup-sweep :
    (current : ℕ) (k : Text) (pool : Dict ℕ)
    → IsSingle pool
    → lookup k (sweep_pool current pool).1 ≡ (elim (lookup k pool) as (λ o. Option ℕ) [
      | none ↦ none
      | some time ↦ if is_offline current time then none else some time
    ])
unfolding sweep_pool lookup
lookup-sweep current k [] d = refl
lookup-sweep current k ((j, time) ∷ pool) d =
    ground (arith, lookup-sweep current k pool d.1, text_eq_iff j k)

deal_record-stores :
    (micro : ℕ) (m : Message) (r : LocalMemoryReportRecord)
    → size r < r.limit
    → text_eq m.header.protocol_type [] ≡ false
    → is_not_long_connection m.header.protocol_type ≡ true
    → deal_record micro m r ≡ record r { pool = insert m.header.device_id micro r.pool }
unfolding deal_record save_record
deal_record-stores micro m r room typed short =
    let free : leb r.limit (size r) ≡ false = ground arith in rw (typed, short, free) refl

recent : (current time : ℕ) → current ≤ time → is_offline current time ≡ false
unfolding is_offline
recent current time h = ground arith

-- Take a record with room and one time for each device. After a message of a protocol without long
-- connections is recorded at 1000 * milli microseconds, a sweep keeps its device at any clock value
-- up to 1000 * milli milliseconds.
pub sweep-deal_record :
    (milli current : ℕ) (m : Message) (r : LocalMemoryReportRecord)
    → IsSingle r.pool
    → size r < r.limit
    → text_eq m.header.protocol_type [] ≡ false
    → is_not_long_connection m.header.protocol_type ≡ true
    → current ≤ 1000 * milli
    → lookup m.header.device_id (sweep current (deal_record (1000 * milli) m r)).1.pool
      ≡ some (1000 * milli)
unfolding sweep
sweep-deal_record milli current m r d room typed short early =
    ap (λ r. lookup m.header.device_id (sweep_pool current r.pool).1)
      (deal_record-stores (1000 * milli) m r room typed short)
    ∙ lookup-sweep current m.header.device_id (insert m.header.device_id (1000 * milli) r.pool)
        (insert-IsSingle m.header.device_id (1000 * milli) r.pool d)
    ∙ rw
        (
          lookup-insert_self m.header.device_id (1000 * milli) r.pool,
          recent current (1000 * milli) early,
        )
        refl
