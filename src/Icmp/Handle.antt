-- ===== src/Icmp/Handle.antt =====
-- handle_icmp and open_icmp_socket of icmp.c: an echo request from the tun device goes out on the
-- session's socket.
use violet.Base.{
  ℕ, ◌+◌, ◌/◌, Bool, true, false, ◌&&◌, ◌||◌, not, Option, none, some, List, [], ◌∷◌, ◌==◌,
  if◌then◌else◌, Memory, bytes_at, read_be16, sub64,
}
use violet.Util.Checksum.{calc_checksum}
use violet.Packet.{not16, pseudo6}
use violet.Tcp.Socket.{SendResult}
use violet.Tcp.Register.{source_address, dest_address}
use violet.Session.Types.{
  NgSession, Proto, icmp, IcmpSession, Found, put_back, search_session, same_bytes,
}
use violet.Session.World.{Calls, World, Datagram, took_all, may_retry, protected}
use violet.Icmp.Message.{fill_icmp}

-- The socket is made for IPv4 when the version is 4, and else for IPv6.
unfoldable pub open_icmp_socket : Calls → IcmpSession → Option ℕ
open_icmp_socket k cur = protected k (k.socket (if cur.version == 4 then 4 else 6))

-- The session's test in `Search session`.
abbrev pub is_icmp_proto : ℕ → List ℕ → List ℕ → Proto → Bool
is_icmp_proto version saddr daddr (icmp i) =
    not i.stop && (i.version == version && (same_bytes i.saddr saddr && same_bytes i.daddr daddr))
is_icmp_proto version saddr daddr other = false

abbrev pub is_icmp_session_of : ℕ → List ℕ → List ℕ → NgSession → Bool
is_icmp_session_of version saddr daddr s = is_icmp_proto version saddr daddr s.proto

-- `Register session`.
abbrev pub new_icmp : ℕ → ℕ → ℕ → List ℕ → List ℕ → ℕ → IcmpSession
new_icmp now uid version saddr daddr id = record {
  time = now;
  uid = uid;
  version = version;
  saddr = saddr;
  daddr = daddr;
  id = id;
  stop = false;
}

-- With no socket the session is dropped. An error of epoll_ctl is only logged.
abbrev pub add_icmp : IcmpSession → Option ℕ → List NgSession → Option Found
add_icmp i none sessions = none
add_icmp i (some sock) sessions = some (record {
  before = [];
  session = record {
    proto = icmp i;
    socket = some sock;
    events = record { input = true; output = false };
  };
  behind = sessions;
})

abbrev pub or_new_icmp : Calls → IcmpSession → List NgSession → Option Found → Option Found
or_new_icmp k i sessions (some f) = some f
or_new_icmp k i sessions none = add_icmp i (open_icmp_socket k i) sessions

-- `csum`: for IPv6 the sum of the pseudo header, made from the fields of the packet's header.
unfoldable pub request_sum : Memory → ℕ → ℕ
request_sum p version =
    if version == 6
    then calc_checksum 0
        (pseudo6 (dest_address p version) (source_address p version) (p 6) (read_be16 p 4))
    else 0

-- The message as it goes out: with the complement of its id, and a new checksum.
unfoldable pub echo_request : Memory → ℕ → ℕ → ℕ → List ℕ
echo_request p version payload icmplen =
    fill_icmp (request_sum p version) (not16 (read_be16 p (payload + 4)))
      (bytes_at icmplen p payload)

-- The clock, and `stop` when sendto fails for good.
abbrev pub after_sendto : Calls → ℕ → SendResult → IcmpSession → IcmpSession
after_sendto k len r i =
    if took_all len r || may_retry k.stale r
    then record i { time = k.now }
    else record i { time = k.now; stop = true }

abbrev pub forward_echo : Calls → List ℕ → List ℕ → ℕ → Found → World → Proto → Bool × World
forward_echo k daddr msg len f w (icmp i) =
    let d : Datagram = record {
      socket = f.session.socket;
      address = daddr;
      port = 0;
      bytes = msg;
    } in
    let r = k.sendto d in
    (
      took_all len r || may_retry k.stale r,
      record w {
        sessions = put_back f (record f.session { proto = icmp (after_sendto k len r i) });
        sent = d ∷ w.sent;
      },
    )
forward_echo k daddr msg len f w other = (false, w)

abbrev pub forward_to : Calls → List ℕ → List ℕ → ℕ → World → Option Found → Bool × World
forward_to k daddr msg len w none = (false, w)
forward_to k daddr msg len w (some f) = forward_echo k daddr msg len f w f.session.proto

-- `payload` is an offset in the packet, and `icmplen` a size_t. Only an echo request of type 8 is
-- taken. The packet's buffer is not read again after the message has been changed in it.
unfoldable pub handle_icmp : Calls → Memory → ℕ → ℕ → ℕ → World → Bool × World
handle_icmp k p length_ payload uid w =
    let version = p 0 / 16 in
    let saddr = source_address p version in
    let daddr = dest_address p version in
    let icmplen = sub64 length_ payload in
    let fresh = new_icmp k.now uid version saddr daddr (read_be16 p (payload + 4)) in
    if p payload == 8
    then forward_to k daddr (echo_request p version payload icmplen) icmplen w (
        or_new_icmp k fresh w.sessions
          (search_session (is_icmp_session_of version saddr daddr) w.sessions))
    else (false, w)
