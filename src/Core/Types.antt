-- ===== src/Core/Types.antt =====
-- Messages and the data that a pipeline carries (pkg/protocol/core/types.go). An `interface{}` is
-- the sum of the dynamic types that the program tells apart.
use zingthings.Base.{ℕ, List}
use zingthings.Base.Text.{Text}
use zingthings.Base.Dict.{Dict}
use zingthings.Base.Int.{ℤ}

-- Values of `interface{}` in properties, metadata and message data. A number of a JSON document is a
-- float64 there, never an int: `number` has one with an integral value.
pub data Value : Type 0 where
  bytes : Text → Value
  text : Text → Value
  int : ℤ → Value
  number : ℤ → Value
  texts : List Text → Value
  object : ℕ → Value

-- `Message.Data`: a plain value, or a `*ResponseData` with the number of its response channel.
pub data Payload : Type 0 where
  plain : Value → Payload
  response_data : Value → ℕ → Payload

pub record Header : Type 0 where
  pub device_group_id : Text
  pub device_id : Text
  pub protocol_type : Text

pub record Message : Type 0 where
  pub header : Header
  pub metadata : Dict Value
  pub payload : Payload

-- What SendUpStream and SendDownStream are given: a `*Message`, or anything else.
pub data Datum : Type 0 where
  message : Message → Datum
  other : ℕ → Datum

pub record DeviceGroup : Type 0 where
  pub device_group_name : Text
  pub device_group_id : Text

pub record DeviceInfo : Type 0 where
  pub properties : Dict Value
  pub device_id : Text
  pub device_name : Text
  pub device_group : DeviceGroup

pub record DeployRequest : Type 0 where
  pub number_index : ℤ
  pub protocol_id : Text
  pub device_info_map : Dict (List DeviceInfo)
  pub properties : Dict Value
  pub protocol_type : Text

pub record UnDeployRequest : Type 0 where
  pub number_index : ℤ
  pub protocol_id : Text
  pub protocol_type : Text
  pub device_group : DeviceGroup
