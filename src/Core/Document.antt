-- ===== src/Core/Document.antt =====
-- The JSON documents that the program keeps in etcd (encoding/json on the types of
-- pkg/protocol/core/types.go), by their fields. A missing field is read as the zero value, an
-- unknown one is passed over, and one of another type is an error.
use zingthings.Base.{◌≡◌, Bool, true, Option, none, some, List, [], ◌∷◌, if◌then◌else◌, ltb}
use zingthings.Base.Text.{Text, codes, text_eq}
use zingthings.Base.Int.{ℤ, pos, negsuc}
use zingthings.Base.Dict.{Dict, lookup}
use zingthings.Core.Types.{DeviceGroup, DeviceInfo}
use zingthings.Core.Info.{NodeInfo, ProtocolInfo}

pub data Scalar : Type 0 where
  str : Text → Scalar
  num : ℤ → Scalar

pub record ProtocolInfoDetail : Type 0 where
  pub device_group : DeviceGroup
  pub device_infos : List DeviceInfo

-- A stored value: an object of strings and numbers, the document of a ProtocolInfoDetail, or text
-- that is no object.
pub data Document : Type 0 where
  object : Dict Scalar → Document
  detail : ProtocolInfoDetail → Document
  malformed : Document

-- The range of int and int64.
unfoldable pub fits_int64 : ℤ → Bool
fits_int64 (pos n) = ltb n 9223372036854775808
fits_int64 (negsuc n) = ltb n 9223372036854775808

as_text : Option Scalar → Option Text
as_text none = some []
as_text (some (str t)) = some t
as_text (some (num n)) = none

as_int : Option Scalar → Option ℤ
as_int none = some (pos 0)
as_int (some (str t)) = none
as_int (some (num n)) = if fits_int64 n then some n else none

infixl 5 ◌>>=◌
abbrev pub ◌>>=◌ {ℓ κ} : {A : Type ℓ} {B : Type κ} → Option A → (A → Option B) → Option B
none >>= f = none
some a >>= f = f a

unfoldable pub marshal_node : NodeInfo → Document
marshal_node n = object (
    (codes "host", str n.host)
    ∷ (codes "port", num n.port)
    ∷ (codes "timestamp", num n.timestamp)
    ∷ [])

node_of : Dict Scalar → Option NodeInfo
unfolding as_text as_int
node_of fields = do
  host ← as_text (lookup (codes "host") fields)
  port ← as_int (lookup (codes "port") fields)
  timestamp ← as_int (lookup (codes "timestamp") fields)
  some (record { host = host; port = port; timestamp = timestamp })

unfoldable pub unmarshal_node : Document → Option NodeInfo
unfolding node_of
unmarshal_node (object fields) = node_of fields
unmarshal_node (detail d) = node_of []
unmarshal_node malformed = none

unfoldable pub marshal_protocol : ProtocolInfo → Document
marshal_protocol p = object (
    (codes "id", str p.id)
    ∷ (codes "timestamp", num p.timestamp)
    ∷ (codes "protocolType", str p.protocol_type)
    ∷ (codes "address", str p.address)
    ∷ [])

protocol_of : Dict Scalar → Option ProtocolInfo
unfolding as_text as_int
protocol_of fields = do
  id ← as_text (lookup (codes "id") fields)
  timestamp ← as_int (lookup (codes "timestamp") fields)
  protocol_type ← as_text (lookup (codes "protocolType") fields)
  address ← as_text (lookup (codes "address") fields)
  some (record { id = id; timestamp = timestamp; protocol_type = protocol_type; address = address })

unfoldable pub unmarshal_protocol : Document → Option ProtocolInfo
unfolding protocol_of
unmarshal_protocol (object fields) = protocol_of fields
unmarshal_protocol (detail d) = protocol_of []
unmarshal_protocol malformed = none

-- Of a document that is no detail every field of a ProtocolInfoDetail is missing.
abbrev no_group : DeviceGroup
no_group = record { device_group_name = []; device_group_id = [] }

unfoldable pub unmarshal_detail : Document → Option ProtocolInfoDetail
unmarshal_detail (object fields) = some (record { device_group = no_group; device_infos = [] })
unmarshal_detail (detail d) = some d
unmarshal_detail malformed = none

-- A node whose numbers are int64 values comes back from its document.
pub unmarshal_node-marshal_node :
    (n : NodeInfo)
    → fits_int64 n.port ≡ true
    → fits_int64 n.timestamp ≡ true
    → unmarshal_node (marshal_node n) ≡ some n
unfolding unmarshal_node marshal_node lookup text_eq
unmarshal_node-marshal_node n p t = rw (p, t)

-- So does a protocol.
pub unmarshal_protocol-marshal_protocol :
    (p : ProtocolInfo)
    → fits_int64 p.timestamp ≡ true
    → unmarshal_protocol (marshal_protocol p) ≡ some p
unfolding unmarshal_protocol marshal_protocol lookup text_eq
unmarshal_protocol-marshal_protocol p t = rw t
