-- ===== src/ChannelHandler/Redis/Tests.antt =====
-- The theorems on the record in Redis
-- (pkg/protocol/channelhandler/record_device_report_offline_up.go) at one example each.
use zingthings.Base.{◌≡◌, refl, true, false, some, [], ◌∷◌, arith}
use zingthings.Base.Text.{Text, codes, text_eq}
use zingthings.Base.Dict.{Dict, lookup, insert, delete, lookup-insert, lookup-delete}
use zingthings.Core.Protocol.{is_not_long_connection}
use zingthings.Core.Pipeline.Tests.{report}
use zingthings.Util.{contains}
use zingthings.ChannelHandler.Redis.{Redis, scan_fields, redis_deal_record}
use zingthings.ChannelHandler.Redis.Overdue.{IsHash, scan_fields-redis_deal_record}

abbrev memory : Redis
memory = record {
  State = Dict Text;
  now = λ m. (1000000, m);
  hscan = λ cursor m. (some (codes "d" ∷ codes "e" ∷ [], 0), m);
  hget = λ k m. (lookup k m, m);
  hdel = λ k m. (true, delete k m);
  hset = λ k v m. (true, insert k v m);
}

memory-IsHash : IsHash memory (λ m k. lookup k m)
memory-IsHash = record {
  hget_ok = λ k m. refl;
  find-hget = λ k j m. refl;
  find-hdel = λ k j m. lookup-delete k j m;
  find-hset = λ k v j m. lookup-insert k j v m;
}

abbrev reports : Dict Text
reports = (codes "d", codes "5000") ∷ (codes "e", codes "999999") ∷ []

scan_fields-redis_deal_record_example :
    contains
      (scan_fields memory 700000
        (codes "d" ∷ [])
        (redis_deal_record memory 700000 report reports).1).0
      report.header.device_id
    ≡ false
unfolding text_eq is_not_long_connection
scan_fields-redis_deal_record_example =
    scan_fields-redis_deal_record memory (λ m k. lookup k m) 700 700000 report (codes "d" ∷ [])
      reports memory-IsHash refl refl (omega arith) (omega arith)
