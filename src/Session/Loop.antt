-- ===== src/Session/Loop.antt =====
-- The loop of handle_events of session.c: what a turn does before epoll_wait, and what it does with the
-- events; and clear. A socket stands for the pointer to its session that epoll hands back.
pub mod Limit
pub mod Kept
pub mod Wait
use violet.Base.{
  ℕ, ◌+◌, ◌*◌, Bool, true, false, ◌&&◌, ◌||◌, not, Option, none, some, List, [], ◌∷◌, ◌==◌, ltb,
  if◌then◌else◌, Memory,
}
use violet.Base.Int.{ℤ, pos, ltb_ℤ, ◌+ℤ◌, ◌-ℤ◌}
use violet.Packet.{Tun, TunWrite}
use violet.Session.Types.{
  NgSession, Proto, icmp, udp, tcp, IcmpSession, UdpSession, Found, put_back, search_session,
}
use violet.Session.World.{World}
use violet.Session.Rounds.{is_counted, count_sessions, check_sessions}
use violet.Icmp.{get_icmp_timeout}
use violet.Icmp.Socket.{check_icmp_socket}
use violet.Udp.{get_udp_timeout}
use violet.Udp.Socket.{check_udp_socket}
use violet.Tcp.Types.{TcpSession}
use violet.Tcp.Windows.{Buffers, get_tcp_timeout}
use violet.Tcp.Check.{Events, monitor_tcp_session}
use violet.Tcp.Socket.{RecvResult, recv_failed, SocketIo, SocketEvents, check_tcp_socket}
use violet.Ip.{Engine, check_tun}

-- The part of `Count sessions` that monitors the TCP sessions with a socket. `ctl` is whether
-- epoll_ctl succeeds for a socket.
abbrev pub monitor_proto :
    TunWrite
    → ℕ
    → (ℕ → Buffers)
    → (ℕ → Bool)
    → NgSession
    → Tun
    → Proto
    → Option ℕ
    → Bool × NgSession × Tun
monitor_proto dev ms buffers ctl s log (tcp t) (some sock) =
    let (recheck, t', events, log') =
      monitor_tcp_session dev ms (buffers sock) (ctl sock) t (some sock) s.events log in
    (recheck, record s { proto = tcp t'; events = events }, log')
monitor_proto dev ms buffers ctl s log proto socket = (false, s, log)

unfoldable pub monitor_sessions :
    TunWrite → ℕ → (ℕ → Buffers) → (ℕ → Bool) → List NgSession → Tun → Bool × List NgSession × Tun
monitor_sessions dev ms buffers ctl [] log = (false, [], log)
monitor_sessions dev ms buffers ctl (s ∷ rest) log =
    let (recheck, s', log') = monitor_proto dev ms buffers ctl s log s.proto s.socket in
    let (recheck', rest', log'') = monitor_sessions dev ms buffers ctl rest log' in
    (recheck || recheck', s' ∷ rest', log'')

-- When a session runs out, in seconds from now.
abbrev pub stimeout : ℕ → ℕ → ℕ → Proto → ℤ
stimeout now sessions maxsessions (icmp i) =
    (pos i.time +ℤ get_icmp_timeout sessions maxsessions) -ℤ pos now +ℤ pos 1
stimeout now sessions maxsessions (udp u) =
    (pos u.time +ℤ get_udp_timeout u sessions maxsessions) -ℤ pos now +ℤ pos 1
stimeout now sessions maxsessions (tcp t) =
    (pos t.time +ℤ get_tcp_timeout t.state sessions maxsessions) -ℤ pos now +ℤ pos 1

abbrev pub sooner : ℤ → ℤ → ℤ
sooner st timeout = if ltb_ℤ (pos 0) st && ltb_ℤ st timeout then st else timeout

-- `timeout`, over the sessions that are left after the check.
unfoldable pub next_timeout : ℕ → ℕ → ℕ → List NgSession → ℤ → ℤ
next_timeout now sessions maxsessions [] timeout = timeout
next_timeout now sessions maxsessions (s ∷ rest) timeout =
    let st = stimeout now sessions maxsessions s.proto in
    next_timeout now sessions maxsessions rest
      (if is_counted s.proto then sooner st timeout else timeout)

-- What the turn asks the system: the clocks, and the buffers and epoll_ctl by socket.
pub record Clock : Type 0 where
  pub dev : TunWrite
  pub ms : ℕ
  pub now : ℕ
  pub later : ℕ
  pub buffers : ℕ → Buffers
  pub ctl : ℕ → Bool

-- A turn up to epoll_wait: the number of sessions, whether to look again after EPOLL_MIN_CHECK
-- milliseconds, the timeout in seconds, `last_check`, and the world.
pub record Turn : Type 0 where
  pub sessions : ℕ
  pub recheck : Bool
  pub timeout : ℤ
  pub last_check : ℕ
  pub world : World

unfoldable pub begin_turn : Clock → (maxsessions last_check : ℕ) → World → Turn
begin_turn c maxsessions last_check w =
    let (recheck, list, log) = monitor_sessions c.dev c.ms c.buffers c.ctl w.sessions w.tun in
    let n = count_sessions w.sessions in
    if ltb (last_check + 100) c.ms
    then (let (list', log') = check_sessions c.dev c.now c.later n maxsessions list log in
        record {
          sessions = n;
          recheck = recheck;
          timeout = next_timeout c.now n maxsessions list' (pos 3600);
          last_check = c.ms;
          world = record w { sessions = list'; tun = log' };
        })
    else record {
      sessions = n;
      recheck = true;
      timeout = pos 3600;
      last_check = last_check;
      world = record w { sessions = list; tun = log };
    }

-- An event of epoll_wait, with what the system gives for it: for the device and for UDP what is read
-- each time that is_readable says so.
pub data Ready : Type 0 where
  pipe : Ready
  tun : (error input : Bool) → List (ℕ → RecvResult) → Ready
  socket : (sock : ℕ) → SocketEvents → List (ℕ → RecvResult) → SocketIo → Ready

pub data Next : Type 0 where
  going stopping failed : Next

abbrev pub then_read :
    Option (Bool × World) → (World → Option (Next × World)) → Option (Next × World)
then_read none more = none
then_read (some (ok, w)) more = if ok then more w else some (failed, w)

-- `while (!error && is_readable(args->tun))`.
unfoldable pub read_tun :
    Engine
    → Memory
    → (error input : Bool) → List (ℕ → RecvResult)
    → (sessions maxsessions : ℕ) → World
    → Option (Next × World)
read_tun e junk error input [] sessions maxsessions w = some (going, w)
read_tun e junk error input (read ∷ reads) sessions maxsessions w =
    then_read (check_tun e junk error input read sessions maxsessions w)
      (read_tun e junk error input reads sessions maxsessions)

-- The calls for UDP are made only while the event is no error.
unfoldable pub read_udp_socket :
    Engine → Memory → List (ℕ → RecvResult) → UdpSession → Tun → Option (UdpSession × Tun)
read_udp_socket e junk [] u log = some (u, log)
read_udp_socket e junk (recv ∷ recvs) u log =
    elim (check_udp_socket e.calls.dev e.calls.now e.rounds junk false true recv u log) [
      | none ↦ none
      | some (u', log') ↦ read_udp_socket e junk recvs u' log'
    ]

abbrev pub put_session : World → Found → NgSession → Tun → World
put_session w f s log = record w { sessions = put_back f s; tun = log }

abbrev pub put_udp_session : World → Found → Option (UdpSession × Tun) → Option (Next × World)
put_udp_session w f none = none
put_udp_session w f (some (u, log)) =
    some (going, put_session w f (record f.session { proto = udp u }) log)

-- The first of the results, which is all that there is for ICMP.
abbrev pub one_recv : List (ℕ → RecvResult) → ℕ → RecvResult
one_recv [] n = recv_failed true
one_recv (recv ∷ recvs) n = recv n

-- `Check downstream`.
abbrev pub check_socket :
    Engine
    → Memory
    → SocketEvents
    → List (ℕ → RecvResult)
    → SocketIo
    → World
    → Found
    → Proto
    → Option (Next × World)
check_socket e junk ev recvs io w f (icmp i) =
    let (i', log) =
      check_icmp_socket e.calls.dev e.calls.now ev.error ev.input (one_recv recvs) i w.tun in
    some (going, put_session w f (record f.session { proto = icmp i' }) log)
check_socket e junk ev recvs io w f (udp u) =
    put_udp_session w f
      (if not ev.error && ev.input then read_udp_socket e junk recvs u w.tun else some (u, w.tun))
check_socket e junk ev recvs io w f (tcp t) =
    let (t', sock, log) = check_tcp_socket io ev f.session.socket t w.tun in
    some (going, put_session w f (record f.session { proto = tcp t'; socket = sock }) log)

abbrev pub has_socket : ℕ → NgSession → Bool
has_socket sock s = elim s.socket [ none ↦ false | some n ↦ n == sock ]

abbrev pub check_found :
    Engine
    → Memory
    → SocketEvents
    → List (ℕ → RecvResult)
    → SocketIo
    → World
    → Option Found
    → Option (Next × World)
check_found e junk ev recvs io w none = some (going, w)
check_found e junk ev recvs io w (some f) = check_socket e junk ev recvs io w f f.session.proto

-- One event.
unfoldable pub handle_ready :
    Engine → Memory → (sessions maxsessions : ℕ) → World → Ready → Option (Next × World)
handle_ready e junk sessions maxsessions w pipe = some (stopping, w)
handle_ready e junk sessions maxsessions w (tun error input reads) =
    read_tun e junk error input reads sessions maxsessions w
handle_ready e junk sessions maxsessions w (socket sock ev recvs io) =
    check_found e junk ev recvs io w (search_session (has_socket sock) w.sessions)

abbrev pub then_events :
    Option (Next × World) → (World → Option (Next × World)) → Option (Next × World)
then_events (some (going, w)) more = more w
then_events other more = other

-- The loop over the events of one turn; the number of sessions stays that of the turn's beginning.
unfoldable pub handle_events :
    Engine → Memory → (sessions maxsessions : ℕ) → List Ready → World → Option (Next × World)
handle_events e junk sessions maxsessions [] w = some (going, w)
handle_events e junk sessions maxsessions (r ∷ rest) w =
    then_events (handle_ready e junk sessions maxsessions w r)
      (handle_events e junk sessions maxsessions rest)

-- clear: the sockets that are closed, in the order of the list. Errors of close are only logged.
unfoldable pub clear : List NgSession → List NgSession × List ℕ
clear [] = ([], [])
clear (s ∷ rest) =
    let (left, closed) = clear rest in
    (left, elim s.socket [ none ↦ closed | some sock ↦ sock ∷ closed ])
