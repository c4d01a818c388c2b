-- ===== src/Udp/Handle.antt =====
-- handle_udp and open_udp_socket of udp.c: a datagram from the tun device.
use violet.Base.{
  ℕ, ◌+◌, ◌-◌, ◌/◌, Bool, true, false, ◌||◌, Option, none, some, List, [], ◌∷◌, ◌==◌, if◌then◌else◌,
  Memory, bytes_at, offset, read_be16, sub64, u64,
}
use violet.Packet.{Tun}
use violet.Tcp.Socket.{SendResult}
use violet.Tcp.Register.{source_address, dest_address}
use violet.Session.Types.{
  NgSession, Proto, udp, UdpSession, active, finishing, Found, put_back, search_session,
}
use violet.Session.World.{Calls, World, Datagram, Job, took_all, may_retry, protected}
use violet.Dns.{Query, get_dns_query}
use violet.Dhcp.{check_dhcp}
use violet.Udp.{is_active, is_udp_session_of}

-- open_udp_socket with no redirection. The socket options for broadcast and multicast are set for
-- their effect in the system alone; an error is logged.
unfoldable pub open_udp_socket : Calls → UdpSession → Option ℕ
open_udp_socket k cur = protected k (k.socket (if cur.version == 4 then 4 else 6))

-- `Register session`. UDP4_MAXMSG and UDP6_MAXMSG.
abbrev pub new_udp : ℕ → ℕ → ℕ → List ℕ → List ℕ → ℕ → ℕ → UdpSession
new_udp now uid version saddr daddr source dest = record {
  time = now;
  uid = uid;
  version = version;
  mss = if version == 4 then 65535 - 20 - 8 else 65535 - 40 - 8;
  sent = 0;
  received = 0;
  saddr = saddr;
  source = source;
  daddr = daddr;
  dest = dest;
  state = active;
}

-- With no socket the session is dropped. An error of epoll_ctl is only logged.
abbrev pub add_udp : UdpSession → Option ℕ → List NgSession → Option Found
add_udp u none sessions = none
add_udp u (some sock) sessions = some (record {
  before = [];
  session = record {
    proto = udp u;
    socket = some sock;
    events = record { input = true; output = false };
  };
  behind = sessions;
})

abbrev pub or_new_udp : Calls → UdpSession → List NgSession → Option Found → Option Found
or_new_udp k u sessions (some f) = some f
or_new_udp k u sessions none = add_udp u (open_udp_socket k u) sessions

abbrev pub put_udp : Found → UdpSession → World → World
put_udp f u w = record w { sessions = put_back f (record f.session { proto = udp u }) }

-- The session after sendto, and whether the packet counts as handled.
abbrev pub after_send : Calls → ℕ → SendResult → UdpSession → Bool × UdpSession
after_send k len r u =
    if took_all len r
    then (true, record u { sent = u64 (u.sent + len) })
    else (if may_retry k.stale r then (true, u) else (false, record u { state = finishing }))

-- `UDP forward from tun`.
unfoldable pub send_udp : Calls → List ℕ → ℕ → Found → UdpSession → World → Bool × World
send_udp k bytes datalen f u w =
    let d : Datagram = record {
      socket = f.session.socket;
      address = u.daddr;
      port = u.dest;
      bytes = bytes;
    } in
    let (ok, u') = after_send k datalen (k.sendto d) (record u { time = k.now }) in
    (ok, record (put_udp f u' w) { sent = d ∷ w.sent })

-- A query goes to a child, if there is one; the parent's session stays as it is, and the packet counts
-- as handled either way.
abbrev pub fork_dns :
    Calls → List ℕ → Found → UdpSession → World → Option (Option Query) → Option (Bool × World)
fork_dns k bytes f u w none = none
fork_dns k bytes f u w (some query) =
    let job : Job = record { session = u; query = bytes } in
    some
      (true, record (put_udp f u w) { forked = if k.forks job then job ∷ w.forked else w.forked })

abbrev pub or_send : Calls → List ℕ → ℕ → Found → World → Bool × UdpSession × Tun → Bool × World
or_send k bytes datalen f w (true, u, log) = (true, record (put_udp f u w) { tun = log })
or_send k bytes datalen f w (false, u, log) = send_udp k bytes datalen f u w

-- A session that is found or new: a packet for one that is not active is dropped.
unfoldable pub forward_udp :
    Calls → ℕ → Memory → ℕ → ℕ → ℕ → Found → World → Proto → Option (Bool × World)
forward_udp k rounds data_ datalen source dest f w (udp u) =
    let bytes = bytes_at datalen data_ 0 in
    if is_active u.state
    then (if dest == 53
        then fork_dns k bytes f u w (get_dns_query rounds data_ datalen)
        else some (
            if source == 68 || dest == 67
            then or_send k bytes datalen f w (check_dhcp k.dev u data_ datalen w.tun)
            else send_udp k bytes datalen f u w))
    else some (false, w)
forward_udp k rounds data_ datalen source dest f w other = some (false, w)

abbrev pub forward_udp_to :
    Calls → ℕ → Memory → ℕ → ℕ → ℕ → World → Option Found → Option (Bool × World)
forward_udp_to k rounds data_ datalen source dest w none = some (false, w)
forward_udp_to k rounds data_ datalen source dest w (some f) =
    forward_udp k rounds data_ datalen source dest f w f.session.proto

-- `payload` is an offset in the packet, and `datalen` a size_t. `none`: get_dns_query does not return.
unfoldable pub handle_udp : Calls → ℕ → Memory → ℕ → ℕ → ℕ → World → Option (Bool × World)
handle_udp k rounds p length_ payload uid w =
    let version = p 0 / 16 in
    let saddr = source_address p version in
    let daddr = dest_address p version in
    let source = read_be16 p payload in
    let dest = read_be16 p (payload + 2) in
    let fresh = new_udp k.now uid version saddr daddr source dest in
    forward_udp_to k rounds (offset p (payload + 8)) (sub64 length_ (payload + 8)) source dest w (
      or_new_udp k fresh w.sessions
        (search_session (is_udp_session_of version source dest saddr daddr) w.sessions))
