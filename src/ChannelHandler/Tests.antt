-- ===== src/ChannelHandler/Tests.antt =====
-- The theorems on the records of reports
-- (pkg/protocol/channelhandler/record_device_report_offline_up.go) at one example each.
use zingthings.Base.{[], ◌∷◌}
use zingthings.Base.Text.{codes}
use zingthings.Core.Types.{Message, plain, bytes}
use zingthings.ChannelHandler.{LocalMemoryReportRecord}

abbrev record_of_one : LocalMemoryReportRecord
record_of_one = record { pool = (codes "d", 5) ∷ []; limit = 10 }

abbrev report : Message
report = record {
  header = record {
    device_group_id = codes "g";
    device_id = codes "e";
    protocol_type = codes "HTTP_CLIENT";
  };
  metadata = [];
  payload = plain (bytes []);
}
