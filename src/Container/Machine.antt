-- ===== src/Container/Machine.antt =====
-- The port and the node of a container (GetContainerServerPort of
-- pkg/protocol/container/container.go, getCurrentNodeInfo of
-- pkg/protocol/register/etcd_register.go).
use zingthings.Base.{
  ◌≡◌, ap, Option, none, some, List, [], if◌then◌else◌, Outcome, ok, panics, diverges, true,
  diverges,
}
use zingthings.Base.Text.{Text, codes, text_eq}
use zingthings.Base.Int.{ℤ, itoa}
use zingthings.Base.Decimal.{atoi, atoi-itoa, itoa-ne-nil, IsInt64}
use zingthings.Core.Info.{NodeInfo}
use zingthings.Util.Network.{Interface, get_local_ip, get_local_ip-offline, offline}

node_at : ℤ → ℤ → Outcome (Option Text) → Outcome NodeInfo
node_at port timestamp (ok (some ip)) =
    ok (record { host = ip; port = port; timestamp = timestamp })
node_at port timestamp (ok none) = panics
node_at port timestamp panics = panics
node_at port timestamp diverges = diverges

-- `timestamp` is the time in milliseconds.
unfoldable pub get_current_node_info : Option (List Interface) → ℤ → ℤ → Outcome NodeInfo
unfolding node_at
get_current_node_info interfaces port timestamp = node_at port timestamp (get_local_ip interfaces)

abbrev pub default_port : Text
default_port = codes "8776"

to_port : Option ℤ → Outcome ℤ
to_port none = panics
to_port (some port) = ok port

-- `deploy_port` is the variable DeployPort of the environment.
unfoldable pub get_container_server_port : Text → Outcome ℤ
unfolding to_port
get_container_server_port deploy_port =
    to_port (atoi (if text_eq deploy_port [] then default_port else deploy_port))

-- The decimal text of a port is read back as that port.
get_container_server_port-itoa : (n : ℤ) → IsInt64 n → get_container_server_port (itoa n) ≡ ok n
unfolding get_container_server_port to_port
get_container_server_port-itoa n h = rw (itoa-ne-nil n) (ap to_port (atoi-itoa n h))

-- Without an address of the machine getCurrentNodeInfo panics.
get_current_node_info-offline :
    (is : List Interface) (port timestamp : ℤ)
    → offline is ≡ true
    → get_current_node_info (some is) port timestamp ≡ panics
unfolding get_current_node_info node_at
get_current_node_info-offline is port timestamp e =
    ap (node_at port timestamp) (get_local_ip-offline is e)
