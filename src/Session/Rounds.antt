-- ===== src/Session/Rounds.antt =====
-- The rounds of session.c over all sessions: the count and the checks that handle_events makes, and
-- check_allowed. A list stands for the chain of nodes; a node that is removed is left out.
pub mod Laws
use violet.Base.{
  ℕ, suc, ◌+◌, ◌<◌, Bool, true, false, ◌&&◌, ◌||◌, not, Option, none, some, List, [], ◌∷◌,
  if◌then◌else◌, ltb,
}
use violet.Packet.{Tun, TunWrite}
use violet.Session.Types.{NgSession, Proto, icmp, udp, tcp, IcmpSession, UdpSession, finishing}
use violet.Icmp.{check_icmp_session}
use violet.Udp.{is_active, is_blocked, check_udp_session}
use violet.Tcp.Types.{is_closing, is_close, TcpSession}
use violet.Tcp.Write.{write_rst}
use violet.Tcp.Check.{check_tcp_session}

-- What `Count sessions` counts.
abbrev pub is_counted : Proto → Bool
is_counted (icmp s) = not s.stop
is_counted (udp u) = is_active u.state
is_counted (tcp t) = not (is_closing t.state) && not (is_close t.state)

unfoldable pub count_sessions : List NgSession → ℕ
count_sessions [] = 0
count_sessions (s ∷ rest) = let n = count_sessions rest in if is_counted s.proto then suc n else n

-- One session in `Check sessions`: whether it is to be removed, the session and the device's log.
abbrev pub check_proto : TunWrite → ℕ → ℕ → ℕ → ℕ → NgSession → Tun → Proto → Bool × NgSession × Tun
check_proto dev now later sessions maxsessions s log (icmp i) =
    let (del, socket) = check_icmp_session now sessions maxsessions i s.socket in
    (del, record s { socket = socket }, log)
check_proto dev now later sessions maxsessions s log (udp u) =
    let (del, u', socket) = check_udp_session now later sessions maxsessions u s.socket in
    (del, record s { proto = udp u'; socket = socket }, log)
check_proto dev now later sessions maxsessions s log (tcp t) =
    let (del, t', socket, log') =
      check_tcp_session dev now later sessions maxsessions t s.socket log in
    (del, record s { proto = tcp t'; socket = socket }, log')

-- The sessions that are left, and the device's log.
unfoldable pub check_sessions :
    TunWrite → ℕ → ℕ → ℕ → ℕ → List NgSession → Tun → List NgSession × Tun
check_sessions dev now later sessions maxsessions [] log = ([], log)
check_sessions dev now later sessions maxsessions (s ∷ rest) log =
    let (del, s', log') = check_proto dev now later sessions maxsessions s log s.proto in
    let (rest', log'') = check_sessions dev now later sessions maxsessions rest log' in
    (if del then rest' else s' ∷ rest', log'')

-- One session in check_allowed, or none if it is removed.
abbrev pub stop_proto : TunWrite → NgSession → Tun → Proto → Option NgSession × Tun
stop_proto dev s log (icmp i) = (some (record s { proto = icmp (record i { stop = true }) }), log)
stop_proto dev s log (udp u) =
    if is_active u.state
    then (some (record s { proto = udp (record u { state = finishing }) }), log)
    else (if is_blocked u.state then (none, log) else (some s, log))
stop_proto dev s log (tcp t) =
    if is_closing t.state || is_close t.state
    then (some s, log)
    else (let (t', log') = write_rst dev t log in (some (record s { proto = tcp t' }), log'))

abbrev pub keep : Option NgSession → List NgSession → List NgSession
keep none rest = rest
keep (some s) rest = s ∷ rest

unfoldable pub check_allowed : TunWrite → List NgSession → Tun → List NgSession × Tun
check_allowed dev [] log = ([], log)
check_allowed dev (s ∷ rest) log =
    let (s', log') = stop_proto dev s log s.proto in
    let (rest', log'') = check_allowed dev rest log' in (keep s' rest', log'')
