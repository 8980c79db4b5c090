-- ===== src/Scanners/Sockets.antt =====
-- The sockets of the passive scanners: `open_socket` of backend/src/scanners/dhcp/finder.rs,
-- mdns/finder.rs and ssdp/finder.rs.
use oott.Prelude.{
  some_inj, ℕ, Bool, true, false, ◌≡◌, ◌↔◌, refl, Option, none, some, List, [], ◌∷◌, any, ◌++◌,
  arith, if◌then◌else◌,
}
use oott.Prelude.Text.{Text}
use oott.Db.{Result, ok, err}
use oott.Utils.Network.{NetworkInterface, select_interface, first_ipv4}
use oott.Scanners.Ipv4.{Ipv4Addr, ipv4}
use oott.Scanners.Listening.{
  Outside, Incoming, Listener, SocketError, dhcp_listen, mdns_listen, ssdp_listen,
}

-- A call on the socket, with its arguments.
pub data SocketCall : Type 0 where
  creates_udp reuses_address reuses_port : SocketCall
  binds : Ipv4Addr → (port : ℕ) → SocketCall
  joins_multicast : (group iface_ip : Ipv4Addr) → SocketCall
  sets_nonblocking : SocketCall
  takes_socket : SocketCall

pub data OpenError : Type 0 where
  no_interface no_ipv4 : OpenError
  refused : SocketCall → OpenError

abbrev dhcp_server_port : ℕ
dhcp_server_port = 67

abbrev mdns_port : ℕ
mdns_port = 5353

abbrev ssdp_port : ℕ
ssdp_port = 1900

abbrev mdns_group : Ipv4Addr
mdns_group = ipv4 224 0 0 251

abbrev ssdp_group : Ipv4Addr
ssdp_group = ipv4 239 255 255 250

abbrev unspecified : Ipv4Addr
unspecified = ipv4 0 0 0 0

-- Calls in their order, up to the first that the system refuses.
unfoldable pub make_calls : (SocketCall → Bool) → List SocketCall → Result OpenError (Unit {0})
make_calls refuses [] = ok tt
make_calls refuses (c ∷ calls) = if refuses c then err (refused c) else make_calls refuses calls

-- The calls that the three have in common, on a Unix system, and what stands between `bind` and
-- `set_nonblocking`.
abbrev pub calls_on : (port : ℕ) → List SocketCall → List SocketCall
calls_on port joins =
    creates_udp
    ∷ reuses_address
    ∷ reuses_port
    ∷ binds unspecified port
    ∷ (joins ++ sets_nonblocking ∷ takes_socket ∷ [])

-- dhcp/finder.rs, `open_socket`.
unfoldable pub dhcp_open_socket : (SocketCall → Bool) → Result OpenError (Unit {0})
unfolding make_calls
dhcp_open_socket refuses = make_calls refuses (calls_on dhcp_server_port [])

-- The sockets of multicast groups, from the address of the interface on.
abbrev join_from :
    (SocketCall → Bool) → (port : ℕ) → Ipv4Addr → Option Ipv4Addr → Result OpenError (Unit {0})
join_from refuses port group none = err no_ipv4
join_from refuses port group (some ip) =
    make_calls refuses (calls_on port (joins_multicast group ip ∷ []))

abbrev join_on :
    (SocketCall → Bool)
    → (port : ℕ) → Ipv4Addr
    → Option NetworkInterface
    → Result OpenError (Unit {0})
join_on refuses port group none = err no_interface
join_on refuses port group (some iface) = join_from refuses port group (first_ipv4 iface.ips)

-- mdns/finder.rs and ssdp/finder.rs, `open_socket`.
unfoldable pub mdns_open_socket :
    (SocketCall → Bool) → List NetworkInterface → Option Text → Result OpenError (Unit {0})
unfolding make_calls select_interface first_ipv4
mdns_open_socket refuses interfaces interface =
    join_on refuses mdns_port mdns_group (select_interface interfaces interface)

unfoldable pub ssdp_open_socket :
    (SocketCall → Bool) → List NetworkInterface → Option Text → Result OpenError (Unit {0})
unfolding make_calls select_interface first_ipv4
ssdp_open_socket refuses interfaces interface =
    join_on refuses ssdp_port ssdp_group (select_interface interfaces interface)

abbrev is_ok : Result OpenError (Unit {0}) → Bool
is_ok (ok _) = true
is_ok (err e) = false

-- The listening tasks with their sockets.
unfoldable pub dhcp_start :
    Outside
    → (SocketCall → Bool)
    → List Incoming
    → Listener
    → Result SocketError (Unit {0}) × Listener
unfolding dhcp_open_socket
dhcp_start o refuses incoming l = dhcp_listen o (is_ok (dhcp_open_socket refuses)) incoming l

unfoldable pub mdns_start :
    Outside
    → (SocketCall → Bool)
    → List NetworkInterface
    → List Incoming
    → Listener
    → Result SocketError (Unit {0}) × Listener
unfolding mdns_open_socket
mdns_start o refuses interfaces incoming l =
    let interface = o.env.settings.networking.interface in
    mdns_listen o (is_ok (mdns_open_socket refuses interfaces interface)) incoming l

unfoldable pub ssdp_start :
    Outside
    → (SocketCall → Bool)
    → List NetworkInterface
    → List Incoming
    → Listener
    → Result SocketError (Unit {0}) × Listener
unfolding ssdp_open_socket
ssdp_start o refuses interfaces incoming l =
    let interface = o.env.settings.networking.interface in
    ssdp_listen o (is_ok (ssdp_open_socket refuses interfaces interface)) incoming l

make_calls-any :
    (refuses : SocketCall → Bool) (calls : List SocketCall)
    → (make_calls refuses calls ≡ ok tt) ↔ (any refuses calls ≡ false)
unfolding make_calls
make_calls-any refuses [] = ground arith
make_calls-any refuses (c ∷ calls) = ground (arith, make_calls-any refuses calls)

-- What a socket of a multicast group wants: a suitable interface with an IPv4 address, and that no
-- call is refused, the last but two of which joins the group on that address.
abbrev pub IsJoinable :
    (SocketCall → Bool) → (port : ℕ) → Ipv4Addr → Option NetworkInterface → Type 0
IsJoinable refuses port group none = ⊥
IsJoinable refuses port group (some iface) =
    (ip : Ipv4Addr) × (first_ipv4 iface.ips ≡ some ip)
    × (any refuses (calls_on port (joins_multicast group ip ∷ [])) ≡ false)

join_from_iff :
    (refuses : SocketCall → Bool) (port : ℕ) (group : Ipv4Addr) (found : Option Ipv4Addr)
    → (join_from refuses port group found ≡ ok tt) ↔ (
        (ip : Ipv4Addr) × (found ≡ some ip)
        × (any refuses (calls_on port (joins_multicast group ip ∷ [])) ≡ false))
join_from_iff refuses port group none = (λ h. absurd (cc), λ (ip, e, h). absurd (cc))
join_from_iff refuses port group (some x) =
    let (to, from) = make_calls-any refuses (calls_on port (joins_multicast group x ∷ [])) in
    (λ h. (x, refl, to h), λ (ip, e, h). from (rw (some_inj e) h))

join_on_iff :
    (refuses : SocketCall → Bool) (port : ℕ) (group : Ipv4Addr) (found : Option NetworkInterface)
    → (join_on refuses port group found ≡ ok tt) ↔ IsJoinable refuses port group found
join_on_iff refuses port group none = (λ h. absurd (cc), λ h. absurd h)
join_on_iff refuses port group (some iface) =
    join_from_iff refuses port group (first_ipv4 iface.ips)

-- The mDNS socket is opened exactly if an interface is selected that has an IPv4 address, and the
-- system refuses no call: of the port 5353, and of joining 224.0.0.251 on that address.
pub mdns_open_socket_iff :
    (refuses : SocketCall → Bool) (interfaces : List NetworkInterface) (interface : Option Text)
    → (mdns_open_socket refuses interfaces interface ≡ ok tt)
      ↔ IsJoinable refuses mdns_port mdns_group (select_interface interfaces interface)
unfolding mdns_open_socket
mdns_open_socket_iff refuses interfaces interface =
    join_on_iff refuses mdns_port mdns_group (select_interface interfaces interface)

-- The SSDP socket is opened exactly if an interface is selected that has an IPv4 address, and the
-- system refuses no call: of the port 1900, and of joining 239.255.255.250 on that address.
pub ssdp_open_socket_iff :
    (refuses : SocketCall → Bool) (interfaces : List NetworkInterface) (interface : Option Text)
    → (ssdp_open_socket refuses interfaces interface ≡ ok tt)
      ↔ IsJoinable refuses ssdp_port ssdp_group (select_interface interfaces interface)
unfolding ssdp_open_socket
ssdp_open_socket_iff refuses interfaces interface =
    join_on_iff refuses ssdp_port ssdp_group (select_interface interfaces interface)
