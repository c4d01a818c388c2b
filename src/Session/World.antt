-- ===== src/Session/World.antt =====
-- What the handlers of datagrams read and change beside the packet: the system, the list of sessions,
-- the device, what sendto was given, and the children that fork made.
use violet.Base.{ℕ, Bool, false, Option, none, some, List, ◌==◌, if◌then◌else◌}
use violet.Packet.{Tun, TunWrite}
use violet.Tcp.Socket.{SendResult, accepted, send_failed}
use violet.Session.Types.{NgSession, UdpSession}

-- A message given to sendto, with the address and the port that it goes to.
pub record Datagram : Type 0 where
  pub socket : Option ℕ
  pub address : List ℕ
  pub port : ℕ
  pub bytes : List ℕ

-- What a child of fork works on: a copy of the session as it was, and the bytes of the query.
pub record Job : Type 0 where
  pub session : UdpSession
  pub query : List ℕ

-- The system calls. `stale` says whether errno, as an earlier call left it, is EINTR or EAGAIN; the
-- handlers read it when sendto takes less than the whole message. `forks` is whether fork makes a child
-- for a query: it has not answered -1.
pub record Calls : Type 0 where
  pub dev : TunWrite
  pub now : ℕ
  pub socket : (version : ℕ) → Option ℕ
  pub protect : ℕ → Bool
  pub sendto : Datagram → SendResult
  pub stale : Bool
  pub forks : Job → Bool

-- The logs have the last entry first.
pub record World : Type 0 where
  pub sessions : List NgSession
  pub tun : Tun
  pub sent : List Datagram
  pub forked : List Job

-- `sendto(…) != len`, and then `errno != EINTR && errno != EAGAIN`.
abbrev pub took_all : ℕ → SendResult → Bool
took_all len (accepted n) = n == len
took_all len (send_failed retry) = false

abbrev pub may_retry : Bool → SendResult → Bool
may_retry stale (accepted n) = stale
may_retry stale (send_failed retry) = retry

-- socket and protect_socket. The descriptor is not closed when it cannot be protected.
abbrev pub protected : Calls → Option ℕ → Option ℕ
protected k none = none
protected k (some sock) = if k.protect sock then some sock else none
