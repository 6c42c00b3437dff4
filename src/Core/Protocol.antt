-- ===== src/Core/Protocol.antt =====
-- Protocols and their manager (pkg/protocol/core/protocol.go), and the node context
-- (pkg/protocol/core/nodecontext.go).
use zingthings.Base.{
  ◌≡◌, refl, Bool, true, false, ◌||◌, Option, none, some, List, [], ◌∷◌, if◌then◌else◌, arith,
}
use zingthings.Base.Text.{Text, codes, text_eq, text_eq_iff}
use zingthings.Base.Int.{ℤ}
use zingthings.Base.Dict.{Dict, lookup, insert, delete, lookup-insert, lookup-delete}
use zingthings.Core.Types.{Value, bytes, text, int, number, texts, object, DeviceGroup, DeviceInfo}

abbrev pub http_client_type : Text
http_client_type = codes "HTTP_CLIENT"

abbrev pub http_server_type : Text
http_server_type = codes "HTTP_SERVER"

abbrev pub tcp_server_type : Text
tcp_server_type = codes "TCP_SERVER"

abbrev pub tcp_client_type : Text
tcp_client_type = codes "TCP_CLIENT"

-- The implementations of the interface Protocol.
pub data ProtocolKind : Type 0 where
  http_client http_server tcp_server : ProtocolKind

-- A protocol: its implementation, and the fields of GenericProtocol that are its own. The managers,
-- factories and the pipeline there are the ones that all protocols share.
pub record Protocol : Type 0 where
  pub kind : ProtocolKind
  pub protocol_id : Text
  pub device_group : DeviceGroup
  pub device_infos : List DeviceInfo

abbrev pub kind_type : ProtocolKind → Text
kind_type http_client = http_client_type
kind_type http_server = http_server_type
kind_type tcp_server = tcp_server_type

unfoldable pub get_protocol_type : Protocol → Text
get_protocol_type p = kind_type p.kind

-- Nothing but a TCP server holds long connections.
unfoldable pub is_not_long_connection : Text → Bool
is_not_long_connection t =
    if text_eq t http_client_type || text_eq t http_server_type || text_eq t tcp_client_type
    then true
    else if text_eq t tcp_server_type
    then false
    else true

-- DefaultProtocolManager, over any kind of entry.
module _ {ℓ} {V : Type ℓ} where
  unfoldable pub register : Text → V → Dict V → V × Dict V
  register key v m = (v, insert key v m)

  unfoldable pub get : Text → Dict V → Option V
  get key m = lookup key m

  unfoldable pub insert_absent : Text → V → Dict V → Option V → V × Dict V
  insert_absent key v m none = (v, insert key v m)
  insert_absent key v m (some old) = (old, m)

  unfoldable pub register_if_absent : Text → V → Dict V → V × Dict V
  unfolding insert_absent
  register_if_absent key v m = insert_absent key v m (lookup key m)

  unfoldable pub remove : Text → Dict V → Option V × Dict V
  remove key m = (lookup key m, delete key m)

  unfoldable pub get_all : Dict V → List V
  get_all [] = []
  get_all ((k, v) ∷ m) = v ∷ get_all m

  -- RegisterIfAbsent keeps what the key has: its result is what Get then returns, and a second
  -- call changes nothing.
  pub register_if_absent_lem :
      (key : Text) (v w : V) (m : Dict V)
      → let (r, m') = register_if_absent key v m in
        (get key m' ≡ some r)
        × (register_if_absent key w m' ≡ (r, m'))
        × ((k : Text) → text_eq key k ≡ false → get k m' ≡ get k m)
  unfolding register_if_absent get
  register_if_absent_lem key v w m = go (lookup key m) refl
    where
      go :
          (o : Option V)
          → lookup key m ≡ o
          → let (r, m') = insert_absent key v m o in
            (lookup key m' ≡ some r)
            × (insert_absent key w m' (lookup key m') ≡ (r, m'))
            × ((k : Text) → text_eq key k ≡ false → lookup k m' ≡ lookup k m)
      go none e =
          let now = lookup-insert key key v m in
          (
            ground (arith, now, text_eq_iff key key),
            ground (arith, now, text_eq_iff key key),
            λ k ne. ground (arith, lookup-insert key k v m),
          )
      go (some old) e = (e, rw e, λ k ne. refl)

  -- Remove returns what Get did, and then the key has nothing.
  pub remove_lem :
      (key k : Text) (m : Dict V)
      → let (r, m') = remove key m in
        (r ≡ get key m) × (get k m' ≡ (if text_eq key k then none else get k m))
  unfolding remove get
  remove_lem key k m = (refl, lookup-delete key k m)

-- GetPort of a node context.
as_port : Option Value → ℤ → ℤ
as_port (some (int n)) default = n
as_port other default = default

unfoldable pub get_port : Dict Value → ℤ → ℤ
unfolding as_port
get_port properties default = as_port (lookup (codes "port") properties) default

-- SetContext puts the context of the process under a key of its own; a nil map is made first.
unfoldable pub set_context : Dict Value → Dict Value
set_context properties = insert (codes "Context") (object 0) properties

-- A value that comes from JSON, which is never an int.
abbrev pub IsDecoded : Value → Type 0
IsDecoded (int n) = ⊥
IsDecoded v = Unit

-- If the port in the properties of a deployment comes from JSON, it is not used: GetPort returns the
-- default.
pub get_port-decoded :
    (properties : Dict Value) (default : ℤ)
    → ((v : Value) → lookup (codes "port") properties ≡ some v → IsDecoded v)
    → get_port properties default ≡ default
unfolding get_port
get_port-decoded properties default decoded = go (lookup (codes "port") properties) decoded
  where
    go : (o : Option Value) → ((v : Value) → o ≡ some v → IsDecoded v) → as_port o default ≡ default
    go none d = refl
    go (some (int n)) d = absurd (d (int n) refl)
    go (some (number n)) d = refl
    go (some (bytes t)) d = refl
    go (some (text t)) d = refl
    go (some (texts ts)) d = refl
    go (some (object n)) d = refl
