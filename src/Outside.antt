-- ===== src/Outside.antt =====
-- What the program uses and does not implement: etcd (go.etcd.io/etcd/client), the HTTP transport
-- to the containers, and the clock. Each call may change the state of that world, and may fail.
use zingthings.Base.{ℕ, Bool, Option, List}
use zingthings.Base.Text.{Text}
use zingthings.Base.Int.{ℤ}
use zingthings.Core.Types.{DeployRequest, UnDeployRequest}
use zingthings.Core.Info.{ProtocolInfo}
use zingthings.Core.Document.{Document}

-- A key and its value.
pub record KeyValue : Type 0 where
  pub key : Text
  pub value : Document

-- The bodies that the program posts.
pub data Body : Type 0 where
  deploy : DeployRequest → Body
  undeploy : UnDeployRequest → Body
  status : ProtocolInfo → Body

-- A reply that could be read as a Response; `status` is its data read as a ProtocolStatus.
pub record Response : Type 0 where
  pub code : ℤ
  pub message : Text
  pub status : Option Text

pub record Reply : Type 0 where
  pub status_code : ℕ
  pub response : Option Response

-- A computation that passes the state of the world on.
abbrev pub Run : Type 0 → Type 0 → Type 0
Run S A = S → A × S

abbrev pub pure : {S A : Type 0} → A → Run S A
pure a s = (a, s)

infixl 5 ◌>>=◌
abbrev pub ◌>>=◌ : {S A B : Type 0} → Run S A → (A → Run S B) → Run S B
◌>>=◌ m f s = f (m s).0 (m s).1

-- `get` takes a key, and whether it is a prefix; none is an error, as it is for `post`.
pub record Outside : Type 1 where
  pub State : Type 0
  pub get : Text → Bool → Run State (Option (List KeyValue))
  pub put : Text → Document → Run State Bool
  pub delete : Text → Run State Bool
  pub post : Text → Body → Run State (Option Reply)
  pub now : Run State ℤ
