-- ===== src/Udp/Resolve.antt =====
-- resolve_host_with_local_dns_server of udp.c, which the child of a fork runs on its copy of the
-- session.
use violet.Base.{ℕ, Bool, ◌&&◌, Option, none, some, List, [], ◌∷◌, ◌==◌, if◌then◌else◌}
use violet.Packet.{Tun, TunWrite}
use violet.Tcp.Socket.{RecvResult, received_bytes, recv_failed}
use violet.Session.Types.{UdpSession, finishing}
use violet.Session.World.{Job}
use violet.Udp.{write_udp}

-- Whether socket, connect and setsockopt succeed, and what recvfrom gives for a query. What sendto
-- answers is not looked at.
pub record LocalDns : Type 0 where
  pub socket : Bool
  pub connect : Bool
  pub set_timeout : Bool
  pub answer : List ℕ → ℕ → RecvResult

-- The session ends both when the write fails and when it was for port 53.
abbrev pub finish_dns : UdpSession → Option ℕ × Tun → UdpSession × Tun
finish_dns u (none, log) = (record u { state = finishing }, log)
finish_dns u (some n, log) = (if u.dest == 53 then record u { state = finishing } else u, log)

abbrev pub pass_on : TunWrite → UdpSession → Tun → RecvResult → UdpSession × Tun
pass_on dev u log (recv_failed retry) = (u, log)
pass_on dev u log (received_bytes []) = (u, log)
pass_on dev u log (received_bytes (b ∷ bytes)) = finish_dns u (write_udp dev u (b ∷ bytes) log)

-- The result: what was sent to the local server, the child's copy of the session, and the device's
-- log, which the two processes share.
unfoldable pub resolve_host_with_local_dns_server :
    TunWrite → LocalDns → Job → Tun → List (List ℕ) × UdpSession × Tun
resolve_host_with_local_dns_server dev dns job log =
    if dns.socket && dns.connect
    then (let (u, log') =
          if dns.set_timeout
          then pass_on dev job.session log (dns.answer job.query 1024)
          else (job.session, log) in
        (job.query ∷ [], u, log'))
    else ([], job.session, log)
