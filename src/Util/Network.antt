-- ===== src/Util/Network.antt =====
-- The address of the machine (pkg/util/network/network.go). The interfaces are what package net
-- tells.
use zingthings.Base.{
  ◌≡◌, refl, ap, Bool, true, not, ◌||◌, ◌&&◌, arith, Option, none, some, List, [], ◌∷◌, ◌++◌,
  if◌then◌else◌, Outcome, ok, panics,
}
use zingthings.Base.Text.{Text}

-- An IP address: whether it is a loopback address, and its text if it is one of version 4.
pub record Ip : Type 0 where
  pub is_loopback : Bool
  pub to4 : Option Text

-- The dynamic types of net.Addr; none is a nil IP.
pub data Address : Type 0 where
  ip_net : Option Ip → Address
  ip_addr : Option Ip → Address
  other : Address

-- A network interface; no addresses is an error of Addrs.
pub record Interface : Type 0 where
  pub is_up : Bool
  pub is_loopback : Bool
  pub addresses : Option (List Address)

address_ip : Address → Option Ip
address_ip (ip_net ip) = ip
address_ip (ip_addr ip) = ip
address_ip other = none

-- One turn of the loop over the addresses of an interface.
add_ip : Option Ip → List Text → List Text
add_ip none ips = ips
add_ip (some ip) ips =
    if ip.is_loopback then ips else elim ip.to4 [ none ↦ ips | some t ↦ ips ++ t ∷ [] ]

add_ips : List Address → List Text → List Text
unfolding add_ip address_ip
add_ips [] ips = ips
add_ips (a ∷ rest) ips = add_ips rest (add_ip (address_ip a) ips)

unfoldable pub machine_loop : List Interface → List Text → Option (List Text)
unfolding add_ips
machine_loop [] ips = some ips
machine_loop (i ∷ is) ips =
    if not i.is_up || i.is_loopback
    then machine_loop is ips
    else elim i.addresses [ none ↦ none | some addresses ↦ machine_loop is (add_ips addresses ips) ]

-- No interfaces is an error of net.Interfaces.
unfoldable pub get_machine_ips : Option (List Interface) → Option (List Text)
unfolding machine_loop
get_machine_ips none = none
get_machine_ips (some interfaces) = machine_loop interfaces []

first_ip : Option (List Text) → Outcome (Option Text)
first_ip none = ok none
first_ip (some []) = panics
first_ip (some (ip ∷ ips)) = ok (some ip)

-- The first of them; without one, ps[0] is out of range.
unfoldable pub get_local_ip : Option (List Interface) → Outcome (Option Text)
unfolding get_machine_ips first_ip
get_local_ip interfaces = first_ip (get_machine_ips interfaces)

abbrev pub offline : List Interface → Bool
offline [] = true
offline (i ∷ is) = (not i.is_up || i.is_loopback) && offline is

loop-offline :
    (is : List Interface) (ips : List Text) → offline is ≡ true → machine_loop is ips ≡ some ips
unfolding machine_loop
loop-offline [] ips e = refl
loop-offline (i ∷ is) ips e = ground (arith, loop-offline is ips)

-- A machine whose interfaces are all down or loopback makes GetLocalIP panic.
pub get_local_ip-offline :
    (is : List Interface) → offline is ≡ true → get_local_ip (some is) ≡ panics
unfolding get_local_ip get_machine_ips first_ip
get_local_ip-offline is e = ap first_ip (loop-offline is [] e)
