-- ===== src/Udp.antt =====
-- udp.c: the timeout and the rounds over a UDP session, the test for one, and write_udp.
pub mod Verify
pub mod Block
pub mod Resolve
pub mod Socket
pub mod Handle
pub mod States
pub mod Advance
pub mod Forward
use violet.Base.{
  ℕ, ◌+◌, ◌-◌, ◌*◌, ◌/◌, Bool, true, false, ◌&&◌, ◌||◌, not, Option, none, some, List, [], ◌∷◌,
  ◌++◌, ltb, ◌==◌, if◌then◌else◌, length, be16, le16,
}
use violet.Base.Int.{ℤ, pos, ltb_ℤ, ◌+ℤ◌}
use violet.Util.Checksum.{calc_checksum}
use violet.Packet.{Tun, TunWrite, write_tun, not16, ip4_header, ip6_header, pseudo4, pseudo6}
use violet.Session.Types.{
  UdpSession, UdpState, active, finishing, closed, blocked, NgSession, Proto, udp, search_session,
  same_bytes, Found,
}
use violet.Tcp.Windows.{scaled}

abbrev pub is_active : UdpState → Bool
is_active active = true
is_active _ = false

abbrev pub is_finishing : UdpState → Bool
is_finishing finishing = true
is_finishing _ = false

abbrev pub is_closed : UdpState → Bool
is_closed closed = true
is_closed _ = false

abbrev pub is_blocked : UdpState → Bool
is_blocked blocked = true
is_blocked _ = false

unfoldable pub get_udp_timeout : UdpSession → ℕ → ℕ → ℤ
get_udp_timeout u sessions maxsessions =
    scaled (if u.dest == 53 then 15 else 300) sessions maxsessions

-- `Check session timeout`.
abbrev pub udp_timeout : ℕ → ℕ → ℕ → UdpSession → UdpSession
udp_timeout now sessions maxsessions u =
    if is_active u.state && ltb_ℤ (pos u.time +ℤ get_udp_timeout u sessions maxsessions) (pos now)
    then record u { state = finishing }
    else u

-- `Check finished sessions`. An error of close is only logged.
abbrev pub udp_finish : ℕ → UdpSession → Option ℕ → UdpSession × Option ℕ
udp_finish later u socket =
    if is_finishing u.state then (record u { time = later; state = closed }, none) else (u, socket)

abbrev pub udp_reset : UdpSession → UdpSession
udp_reset u = if is_closed u.state then record u { sent = 0; received = 0 } else u

-- The result: whether the session is to be removed, the session and its socket.
unfoldable pub check_udp_session :
    ℕ → ℕ → ℕ → ℕ → UdpSession → Option ℕ → Bool × UdpSession × Option ℕ
check_udp_session now later sessions maxsessions u socket =
    let (done, socket') = udp_finish later (udp_timeout now sessions maxsessions u) socket in
    (
      (is_closed done.state || is_blocked done.state) && ltb (done.time + 60) now,
      udp_reset done,
      socket',
    )

-- The session's test in `Search session`; the addresses and ports are the packet's.
abbrev pub is_udp_session_of : ℕ → ℕ → ℕ → List ℕ → List ℕ → NgSession → Bool
is_udp_session_of version source dest saddr daddr s = elim s.proto [
  | udp u ↦
      u.version == version
      && (u.source == source
          && (u.dest == dest && (same_bytes u.saddr saddr && same_bytes u.daddr daddr)))
  | _ ↦ false
]

abbrev pub is_found : Option Found → Bool
is_found none = false
is_found (some f) = true

unfoldable pub has_udp_session : Bool → ℕ → ℕ → ℕ → List ℕ → List ℕ → List NgSession → Bool
has_udp_session fwd53 version source dest saddr daddr sessions =
    if dest == 53 && not fwd53
    then true
    else is_found (search_session (is_udp_session_of version source dest saddr daddr) sessions)

-- block_udp. `junk` is what malloc left in the fields that are not set.
unfoldable pub block_udp :
    NgSession → UdpSession → ℕ → ℕ → ℕ → ℕ → ℕ → List ℕ → List ℕ → List NgSession → List NgSession
block_udp node junk now uid version source dest saddr daddr sessions =
    record node {
      proto = udp (record junk {
        time = now;
        uid = uid;
        version = version;
        saddr = saddr;
        daddr = daddr;
        source = source;
        dest = dest;
        state = blocked;
      });
      socket = none;
    }
    ∷ sessions

-- struct udphdr with a check field, and the bytes behind it.
abbrev pub udp_front : UdpSession → ℕ → List ℕ
udp_front u size = be16 u.dest ++ (be16 u.source ++ be16 size)

unfoldable pub udp_checksum : UdpSession → List ℕ → ℕ
udp_checksum u bytes =
    let size = 8 + length bytes in
    let pseudo =
      if u.version == 4 then pseudo4 u.daddr u.saddr 17 size else pseudo6 u.saddr u.daddr 17 size in
    calc_checksum (calc_checksum (calc_checksum 0 pseudo) (udp_front u size ++ (0 ∷ 0 ∷ []))) bytes

unfoldable pub udp_packet : UdpSession → List ℕ → List ℕ
udp_packet u bytes =
    let size = 8 + length bytes in
    let datagram = udp_front u size ++ (le16 (not16 (udp_checksum u bytes)) ++ bytes) in
    if u.version == 4
    then ip4_header (20 + size) 17 u.daddr u.saddr ++ datagram
    else ip6_header size 17 u.daddr u.saddr ++ datagram

unfoldable pub write_udp : TunWrite → UdpSession → List ℕ → Tun → Option ℕ × Tun
write_udp dev u bytes log = write_tun dev (udp_packet u bytes) log
